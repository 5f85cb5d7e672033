-- ===== src/Watcher/Applications/Changes.antt =====
-- What the watcher of internal/module/watcher/argocd_watcher.go tells of each application at a poll.
use mathlib.Core.List.{append-nil}
use telekube.Base.{
  String, Bool, true, Option, none, some, List, [], ◌∷◌, ◌++◌, select, get, get-put, if◌then◌else◌,
  ◌==◌, string_keyed, Bool-cases, Option-cases, ◌≡◌, refl, sym, ap, ◌∙◌, inl, inr, Result, ok,
  arith,
}
use telekube.Argocd.Http.{Application}
use telekube.Watcher.Applications.{
  Config, LastState, Notice, new_app, status_change, deleted_app, remember_all, is_told, check_app,
  check_apps, still_exists, drop_deleted, poll, run,
}
use telekube.Watcher.Applications.Memory.{
  HasDistinctNames, IsKeyed, check_app-state, check_apps-state, get-remember_all, last_answer,
  listed, listed-found, listed-missing, listed_other, over, remember_all-IsKeyed, run-Knows,
  still_exists_same,
}

-- What is told of an application that was known before and is listed now.
abbrev pub changes : Config → Option Application → Option Application → List Notice
changes cfg none none = []
changes cfg none (some app) = new_app app ∷ []
changes cfg (some prev) none = deleted_app prev ∷ []
changes cfg (some prev) (some app) =
    if is_told cfg prev app then status_change prev app ∷ [] else []

abbrev pub about : String → Notice → Bool
about name (new_app app) = app.name == name
about name (status_change prev app) = app.name == name
about name (deleted_app app) = app.name == name

select-append :
    (p : Notice → Bool) (xs ys : List Notice) → select p (xs ++ ys) ≡ select p xs ++ select p ys
select-append p [] ys = refl
select-append p (x ∷ xs) ys = ground (arith, select-append p xs ys)

-- What the application itself is told as, when it is checked.
check_app-told :
    (cfg : Config) (app : Application) (s : LastState) (name : String)
    → select (about name) (check_app cfg app s).1
      ≡ (if app.name == name then changes cfg (get s app.name) (some app) else [])
unfolding check_app
check_app-told cfg app s name = elim (Option-cases (get s app.name)) [
  | inl new ↦ rw (check_app, new) (ground arith)
  | inr (prev, known) ↦ rw (check_app, known) (ground arith)
]

get_same : (s : LastState) (j k : String) → (j == k) ≡ true → get s j ≡ get s k
get_same s j k same = ap (get s) ((string_keyed.same_iff j k).0 same)

-- What is told of a name before the deleted applications are looked for.
abbrev news : Config → Option Application → Option Application → List Notice
news cfg before none = []
news cfg before (some app) = changes cfg before (some app)

check_apps-told :
    (cfg : Config) (apps : List Application) (s : LastState) (name : String)
    → HasDistinctNames apps
    → select (about name) (check_apps cfg apps s).1 ≡ news cfg (get s name) (listed apps name)
unfolding check_apps
check_apps-told cfg [] s name distinct = refl
check_apps-told cfg (app ∷ apps) s name distinct =
    select-append (about name) (check_app cfg app s).1
      (check_apps cfg apps (check_app cfg app s).0).1
    ∙ (elim (Bool-cases (app.name == name)) [
      | inl same ↦
          rw
            (
              check_app-told cfg app s name,
              check_apps-told cfg apps (check_app cfg app s).0 name distinct.1,
              listed-missing apps name (still_exists_same apps app.name name same ∙ distinct.0),
              same,
              get_same s app.name name same,
            )
            (append-nil _)
      | inr other ↦
          rw
            (
              check_app-told cfg app s name,
              check_apps-told cfg apps (check_app cfg app s).0 name distinct.1,
              check_app-state cfg app s,
              get-put s app.name name app,
              listed_other app apps name other,
              other,
            )
            refl
    ])

abbrev gone : Option Application → List Notice
gone none = []
gone (some app) = deleted_app app ∷ []

drop_deleted-told :
    (apps : List Application) (s : LastState) (name : String)
    → IsKeyed s
    → select (about name) (drop_deleted apps s).1
      ≡ (if still_exists apps name then [] else gone (get s name))
unfolding drop_deleted
drop_deleted-told apps [] name keyed = ground arith
drop_deleted-told apps ((k, app) ∷ rest) name keyed = elim (Bool-cases (still_exists apps k)) [
  | inl stays ↦ elim (Bool-cases (k == name)) [
    | inl same ↦
        rw
          (
            stays,
            drop_deleted-told apps rest name keyed.2,
            still_exists_same apps k name same,
            stays,
          )
          refl
    | inr other ↦ rw (stays, drop_deleted-told apps rest name keyed.2, other) refl
  ]
  | inr goes ↦ elim (Bool-cases (k == name)) [
    | inl same ↦
        rw
          (
            goes,
            drop_deleted-told apps rest name keyed.2,
            still_exists_same apps k name same,
            goes,
            ap (λ n. n == name) keyed.0,
            same,
            sym (get_same rest k name same) ∙ keyed.1,
          )
          refl
    | inr other ↦
        rw (goes, drop_deleted-told apps rest name keyed.2, ap (λ n. n == name) keyed.0, other) refl
  ]
]

gone-changes : (cfg : Config) (before : Option Application) → gone before ≡ changes cfg before none
gone-changes cfg none = refl
gone-changes cfg (some app) = refl

-- What is said of a listed name, and of one that is gone, is the change.
both :
    (cfg : Config) (apps : List Application) (name : String) (before : Option Application)
    → news cfg before (listed apps name)
        ++ (if still_exists apps name then [] else gone (over (listed apps name) before))
      ≡ changes cfg before (listed apps name)
both cfg apps name before = elim (Bool-cases (still_exists apps name)) [
  | inl stays ↦
      let (app, e) = listed-found apps name stays in
      rw (stays, e) (append-nil (changes cfg before (some app)))
  | inr goes ↦ rw (goes, listed-missing apps name goes) (gone-changes cfg before)
]

-- The two parts of a poll, from what was known.
poll-told :
    (cfg : Config) (apps : List Application) (s : LastState) (name : String)
    → IsKeyed s
    → HasDistinctNames apps
    → select (about name) (poll cfg (ok apps) s).1 ≡ changes cfg (get s name) (listed apps name)
unfolding poll
poll-told cfg apps s name keyed distinct =
    select-append (about name) (check_apps cfg apps s).1
      (drop_deleted apps (check_apps cfg apps s).0).1
    ∙ (rw
        (
          check_apps-told cfg apps s name distinct,
          check_apps-state cfg apps s,
          drop_deleted-told apps (remember_all apps s) name (remember_all-IsKeyed apps s keyed),
          get-remember_all apps s name,
        )
        (both cfg apps name (get s name)))

-- However the polls before went, a poll whose answer names each application once tells of a name exactly
-- its change since the last answer before it, from which the watcher starts with nothing known: an
-- application is new, is deleted or, if the configuration says so, has another status, and a name that
-- none of these holds for is not told of. A failed listing counts as none.
pub poll-run :
    (cfg : Config) (first : Result (List Application)) (listings : List (Result (List Application)))
    (apps : List Application) (name : String)
    → HasDistinctNames apps
    → select (about name) (poll cfg (ok apps) (run cfg first listings)).1
      ≡ changes cfg (listed (last_answer [] (first ∷ listings)) name) (listed apps name)
poll-run cfg first listings apps name distinct =
    let (keyed, known) = run-Knows cfg first listings in
    poll-told cfg apps (run cfg first listings) name keyed distinct
    ∙ ap (λ before. changes cfg before (listed apps name)) (known name)
