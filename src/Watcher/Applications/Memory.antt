-- ===== src/Watcher/Applications/Memory.antt =====
-- What the watcher of internal/module/watcher/argocd_watcher.go remembers: the last listing that was answered.
use telekube.Base.{
  String, Bool, true, false, Option, none, some, List, [], ◌∷◌, get, put, without, get-put,
  get-without, if◌then◌else◌, ◌==◌, string_keyed, Bool-cases, Option-cases, same_refl, ◌≡◌, refl,
  sym, ap, ◌∙◌, inl, inr, Result, ok, err, arith,
}
use telekube.Argocd.Http.{Application}
use telekube.Watcher.Applications.{
  Config, LastState, remember_all, seed_initial_state, check_app, check_apps, still_exists,
  drop_deleted, poll, run_polls, run,
}

-- The application of a name in a listing: the last one.
abbrev pub listed : List Application → String → Option Application
listed [] name = none
listed (app ∷ apps) name = elim (listed apps name) [
  | some later ↦ some later
  | none ↦ if app.name == name then some app else none
]

-- The last listing that was answered.
abbrev pub last_answer : List Application → List (Result (List Application)) → List Application
last_answer known [] = known
last_answer known (err e ∷ rest) = last_answer known rest
last_answer known (ok apps ∷ rest) = last_answer apps rest

abbrev pub HasDistinctNames : List Application → Type 0
HasDistinctNames [] = Unit {0}
HasDistinctNames (app ∷ apps) = (still_exists apps app.name ≡ false) × HasDistinctNames apps

-- Each entry stands under the name of its application, and once.
abbrev pub IsKeyed : LastState → Type 0
IsKeyed [] = Unit {0}
IsKeyed ((name, app) ∷ rest) = (app.name ≡ name) × (get rest name ≡ none) × IsKeyed rest

-- The later of two values.
abbrev pub over : Option Application → Option Application → Option Application
over (some a) old = some a
over none old = old

pub listed-missing :
    (apps : List Application) (name : String)
    → still_exists apps name ≡ false
    → listed apps name ≡ none
listed-missing [] name h = refl
listed-missing (app ∷ apps) name h = rw (listed-missing apps name (ground arith)) (ground arith)

pub listed_other :
    (app : Application) (apps : List Application) (name : String)
    → (app.name == name) ≡ false
    → listed (app ∷ apps) name ≡ listed apps name
listed_other app apps name other = elim (Option-cases (listed apps name)) [
  | inl missing ↦ rw (missing, other) refl
  | inr (later, found) ↦ rw found refl
]

pub listed-found :
    (apps : List Application) (name : String)
    → still_exists apps name ≡ true
    → (app : Application) × (listed apps name ≡ some app)
listed-found [] name h = absurd cc
listed-found (app ∷ apps) name h = elim (Bool-cases (still_exists apps name)) [
  | inl later ↦ let (found, e) = listed-found apps name later in (found, rw e refl)
  | inr last ↦
      let same : (app.name == name) ≡ true = ground arith in
      (app, rw (listed-missing apps name last, same) refl)
]

-- Only what is listed stays.
kept :
    (apps : List Application) (name : String) (old : Option Application)
    → (if still_exists apps name then over (listed apps name) old else none) ≡ listed apps name
kept apps name old = elim (Bool-cases (still_exists apps name)) [
  | inl stays ↦ let (app, e) = listed-found apps name stays in rw (stays, e) refl
  | inr goes ↦ rw (goes, listed-missing apps name goes) refl
]

over-listed :
    (app : Application) (apps : List Application) (name : String) (old : Option Application)
    → over (listed apps name) (if app.name == name then some app else old)
      ≡ over (listed (app ∷ apps) name) old
over-listed app apps name old = elim (Option-cases (listed apps name)) [
  | inl missing ↦ rw missing (ground arith)
  | inr (later, found) ↦ rw found refl
]

pub get-remember_all :
    (apps : List Application) (s : LastState) (name : String)
    → get (remember_all apps s) name ≡ over (listed apps name) (get s name)
unfolding remember_all
get-remember_all [] s name = refl
get-remember_all (app ∷ apps) s name =
    get-remember_all apps (put s app.name app) name
    ∙ ap (over (listed apps name)) (get-put s app.name name app)
    ∙ over-listed app apps name (get s name)

pub check_app-state :
    (cfg : Config) (app : Application) (s : LastState)
    → (check_app cfg app s).0 ≡ put s app.name app
unfolding check_app
check_app-state cfg app s = elim (Option-cases (get s app.name)) [
  | inl new ↦ rw (check_app, new) refl
  | inr (prev, known) ↦ rw (check_app, known) (ground arith)
]

pub check_apps-state :
    (cfg : Config) (apps : List Application) (s : LastState)
    → (check_apps cfg apps s).0 ≡ remember_all apps s
unfolding check_apps remember_all
check_apps-state cfg [] s = refl
check_apps-state cfg (app ∷ apps) s =
    rw (check_apps-state cfg apps (check_app cfg app s).0, check_app-state cfg app s) refl

pub still_exists_same :
    (apps : List Application) (j k : String)
    → (j == k) ≡ true
    → still_exists apps k ≡ still_exists apps j
still_exists_same apps j k same = sym (ap (still_exists apps) ((string_keyed.same_iff j k).0 same))

drop_deleted-state :
    (apps : List Application) (s : LastState) (name : String)
    → get (drop_deleted apps s).0 name ≡ (if still_exists apps name then get s name else none)
unfolding drop_deleted
drop_deleted-state apps [] name = ground arith
drop_deleted-state apps ((k, app) ∷ rest) name = elim (Bool-cases (still_exists apps k)) [
  | inl stays ↦ elim (Bool-cases (k == name)) [
    | inl same ↦
        rw
          (
            stays,
            drop_deleted-state apps rest name,
            same,
            still_exists_same apps k name same,
            stays,
          )
          refl
    | inr other ↦ rw (stays, drop_deleted-state apps rest name, other) refl
  ]
  | inr goes ↦ elim (Bool-cases (k == name)) [
    | inl same ↦
        rw (goes, drop_deleted-state apps rest name, same, still_exists_same apps k name same, goes)
          refl
    | inr other ↦ rw (goes, drop_deleted-state apps rest name, other) refl
  ]
]

if_none : (b : Bool) (o : Option Application) → o ≡ none → (if b then none else o) ≡ none
if_none true o h = refl
if_none false o h = h

without-IsKeyed : (s : LastState) (k : String) → IsKeyed s → IsKeyed (without s k)
without-IsKeyed [] k keyed = tt
without-IsKeyed ((j, app) ∷ rest) k keyed = elim (Bool-cases (j == k)) [
  | inl same ↦ rw same (without-IsKeyed rest k keyed.2)
  | inr other ↦ rw other (
    keyed.0,
    get-without rest k j ∙ if_none (k == j) (get rest j) keyed.1,
    without-IsKeyed rest k keyed.2,
  )
]

pub remember_all-IsKeyed :
    (apps : List Application) (s : LastState) → IsKeyed s → IsKeyed (remember_all apps s)
unfolding remember_all
remember_all-IsKeyed [] s keyed = keyed
remember_all-IsKeyed (app ∷ apps) s keyed = remember_all-IsKeyed apps (put s app.name app) (
  refl,
  get-without s app.name app.name ∙ (rw (same_refl app.name) refl),
  without-IsKeyed s app.name keyed,
)

drop_deleted-IsKeyed :
    (apps : List Application) (s : LastState) → IsKeyed s → IsKeyed (drop_deleted apps s).0
unfolding drop_deleted
drop_deleted-IsKeyed apps [] keyed = tt
drop_deleted-IsKeyed apps ((k, app) ∷ rest) keyed = elim (Bool-cases (still_exists apps k)) [
  | inl stays ↦ rw stays (
    keyed.0,
    drop_deleted-state apps rest k ∙ (rw stays keyed.1),
    drop_deleted-IsKeyed apps rest keyed.2,
  )
  | inr goes ↦ rw goes (drop_deleted-IsKeyed apps rest keyed.2)
]

-- The state knows exactly the applications of a listing.
abbrev Knows : LastState → List Application → Type 0
Knows s apps = IsKeyed s × ((name : String) → get s name ≡ listed apps name)

poll-Knows :
    (cfg : Config) (apps : List Application) (s : LastState)
    → IsKeyed s
    → Knows (poll cfg (ok apps) s).0 apps
unfolding poll
poll-Knows cfg apps s keyed = rw (check_apps-state cfg apps s) (
  drop_deleted-IsKeyed apps (remember_all apps s) (remember_all-IsKeyed apps s keyed),
  λ name.
      drop_deleted-state apps (remember_all apps s) name
      ∙ (rw (get-remember_all apps s name) (kept apps name (get s name))),
)

run_polls-Knows :
    (cfg : Config) (listings : List (Result (List Application))) (s : LastState)
    (known : List Application)
    → Knows s known
    → Knows (run_polls cfg listings s) (last_answer known listings)
unfolding run_polls poll
run_polls-Knows cfg [] s known knows = knows
run_polls-Knows cfg (err e ∷ rest) s known knows = run_polls-Knows cfg rest s known knows
run_polls-Knows cfg (ok apps ∷ rest) s known knows =
    run_polls-Knows cfg rest (poll cfg (ok apps) s).0 apps (poll-Knows cfg apps s knows.0)

over-none : (o : Option Application) → over o none ≡ o
over-none none = refl
over-none (some app) = refl

pub run-Knows :
    (cfg : Config) (first : Result (List Application)) (listings : List (Result (List Application)))
    → Knows (run cfg first listings) (last_answer [] (first ∷ listings))
unfolding run seed_initial_state
run-Knows cfg (err e) listings = run_polls-Knows cfg listings [] [] (tt, λ name. refl)
run-Knows cfg (ok apps) listings = run_polls-Knows cfg listings (remember_all apps []) apps (
  remember_all-IsKeyed apps [] tt,
  λ name. get-remember_all apps [] name ∙ over-none (listed apps name),
)
