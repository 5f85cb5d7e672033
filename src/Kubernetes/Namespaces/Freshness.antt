-- ===== src/Kubernetes/Namespaces/Freshness.antt =====
-- How old a list of namespaces from the cache of internal/module/kubernetes/namespace.go can be.
use mathlib.Core.Path.{subst}
use telekube.Base.{
  ℕ, ◌+◌, ◌-◌, ◌≤◌, String, ◌≡◌, ◌⊎◌, refl, sym, ◌∙◌, Option-cases, some, List, [], ◌∷◌, ltb, inl,
  inr, arith, ◌==◌, string_keyed, get, get-put, Error, Result, ok, err, Bool-cases, Result-cases,
}
use telekube.Kubernetes.Namespaces.{CacheEntry, Cache, ttl, cached, remember, get_namespaces}

-- A call of `getNamespaces`, with the clock at its two readings and what the cluster would answer.
pub record Call : Type 0 where
  pub cluster : String
  pub at : ℕ
  pub later : ℕ
  pub answer : Result (List String)

abbrev pub call : Cache → Call → Result (List String) × Cache
call cache c = get_namespaces cache c.at c.later c.cluster c.answer

unfoldable pub run : Cache → List Call → Cache
run cache [] = cache
run cache (c ∷ rest) = run (call cache c).1 rest

-- Some call got the list from the cluster, and was over at the time `t`.
abbrev pub Fetched : List Call → String → List String → ℕ → Type 0
Fetched [] cluster names t = ⊥
Fetched (c ∷ rest) cluster names t =
    ((c.cluster ≡ cluster) × (c.answer ≡ ok names) × (c.later ≡ t)) ⊎ Fetched rest cluster names t

-- Every entry was fetched by one of the calls.
IsTrue : List Call → Cache → Type 0
IsTrue calls cache =
    (cluster : String) (e : CacheEntry)
    → get cache cluster ≡ some e
    → Fetched calls cluster e.names e.fetched_at

-- What the one list of calls fetched, the other did.
Included : List Call → List Call → Type 0
Included calls all =
    (cluster : String) (names : List String) (t : ℕ)
    → Fetched calls cluster names t
    → Fetched all cluster names t

remember-IsTrue :
    (all : List Call) (cache : Cache) (c : Call) (names : List String)
    → Fetched all c.cluster names c.later
    → IsTrue all cache
    → IsTrue all (remember cache c.later c.cluster names)
unfolding IsTrue
remember-IsTrue all cache c names fetched holds cluster e found =
    let put_there =
      sym (get-put cache c.cluster cluster (record { names = names; fetched_at = c.later }))
      ∙ found in
    elim (Bool-cases (c.cluster == cluster)) [
      | inl same ↦
          let same_cluster = (string_keyed.same_iff c.cluster cluster).0 same in
          let new : some (record { names = names; fetched_at = c.later }) ≡ some e =
            ground (arith, put_there) in
          subst (λ k. Fetched all k e.names e.fetched_at) same_cluster
            (subst (λ l. Fetched all c.cluster l e.fetched_at) {x = names} (ground (arith, new))
              (subst (λ t. Fetched all c.cluster names t) {x = c.later} (ground (arith, new))
                fetched))
      | inr other ↦ holds cluster e (ground (arith, put_there))
    ]

call-IsTrue :
    (all : List Call) (cache : Cache) (c : Call)
    → ((names : List String) → c.answer ≡ ok names → Fetched all c.cluster names c.later)
    → IsTrue all cache
    → IsTrue all (call cache c).1
unfolding get_namespaces
call-IsTrue all cache c fetches holds = elim (Option-cases (cached cache c.at c.cluster)) [
  | inr (names, hit) ↦ rw (get_namespaces, hit) holds
  | inl miss ↦ elim (Result-cases c.answer) [
    | inl (names, e) ↦
        rw (get_namespaces, miss, e) (remember-IsTrue all cache c names (fetches names e) holds)
    | inr (x, e) ↦ rw (get_namespaces, miss, e) holds
  ]
]

run-IsTrue :
    (all rest : List Call) (cache : Cache)
    → Included rest all
    → IsTrue all cache
    → IsTrue all (run cache rest)
unfolding run Included
run-IsTrue all [] cache included holds = holds
run-IsTrue all (c ∷ rest) cache included holds =
    run-IsTrue all rest (call cache c).1 (λ k names t f. included k names t (inr f))
      (call-IsTrue all cache c (λ names e. included c.cluster names c.later (inl (refl, e, refl)))
        holds)

empty-IsTrue : (all : List Call) → IsTrue all []
unfolding IsTrue
empty-IsTrue all cluster e found = cc

-- A list of namespaces that is given out, after any calls, is the cluster's answer at this call, or the
-- answer to a call that was over at most a minute before. An error is the cluster's answer at this call.
pub get_namespaces-run :
    (calls : List Call) (c : Call)
    → ((names : List String)
        → (call (run [] calls) c).0 ≡ ok names
        → (c.answer ≡ ok names) ⊎ ((t : ℕ) × Fetched calls c.cluster names t × (c.at ≤ t + ttl)))
      × ((x : Error) → (call (run [] calls) c).0 ≡ err x → c.answer ≡ err x)
unfolding get_namespaces cached IsTrue Included
get_namespaces-run calls c =
    let holds = run-IsTrue calls calls [] (λ k names t f. f) (empty-IsTrue calls) in
    elim (Option-cases (get (run [] calls) c.cluster)) [
      | inl missing ↦ (λ names given. inl (ground arith), λ x given. ground arith)
      | inr (e, found) ↦ elim (Bool-cases (ltb ttl (c.at - e.fetched_at))) [
        | inl old ↦ (λ names given. inl (ground arith), λ x given. ground arith)
        | inr young ↦ (
          λ names given. inr (
            e.fetched_at,
            subst (λ l. Fetched calls c.cluster l e.fetched_at) {x = e.names} (ground arith)
                (holds c.cluster e found),
            ground arith,
          ),
          λ x given. ground arith,
        )
      ]
    ]
