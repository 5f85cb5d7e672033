-- ===== src/Clusters/Clients.antt =====
-- How long the clients of internal/cluster/manager.go live.
use telekube.Base.{
  String, Bool, ◌≡◌, refl, Option, Option-cases, none, some, List, [], ◌∷◌, nat_keyed, string_keyed,
  get, get-put, arith, ok, err, Result, inl, inr, same_refl,
}
use telekube.Clusters.Manager.{
  ClusterEntry, Manager, get_or_create_clients, check_entry, check_entries, health_check,
  set_status, healthy, unhealthy,
}

module _ {C : Type 0} where
  clients_of : Manager C → String → Option C
  clients_of m name = elim (get m.clusters name) [ none ↦ none | some e ↦ e.clients ]

-- What is done with the manager: the clients of a cluster are asked for, with the answer that
-- kube.NewClients has at the time, or the health of all clusters is checked.
pub data Op (C : Type 0) : Type 0 where
  uses : String → Result C → Op C
  checks : (String → Bool) → Op C

module _ {C : Type 0} where
  unfoldable pub run : Manager C → List (Op C) → Manager C
  unfolding get_or_create_clients health_check
  run m [] = m
  run m (uses name answer ∷ rest) = run (get_or_create_clients m name answer).1 rest
  run m (checks alive ∷ rest) = run (health_check m alive).1 rest

  get-check_entries :
      (alive : String → Bool) (es : List (String × ClusterEntry C)) (name : String)
      → get (check_entries alive es) name
        ≡ elim (get es name) [ none ↦ none | some e ↦ some (check_entry (alive name) e) ]
  unfolding check_entries
  get-check_entries alive [] name = refl
  get-check_entries alive ((k, e) ∷ es) name =
      ground (arith, get-check_entries alive es name, string_keyed.same_iff k name)

  uses_keeps :
      (m : Manager C) (used name : String) (answer : Result C) (c : C)
      → clients_of m name ≡ some c
      → clients_of (get_or_create_clients m used answer).1 name ≡ some c
  unfolding clients_of get_or_create_clients
  uses_keeps m used name (err x) c h = elim (Option-cases (get m.clusters used)) [
    | inl missing ↦ ground arith
    | inr (e, found) ↦ ground (
      arith,
      get-put m.clusters used name (set_status unhealthy e),
      string_keyed.same_iff used name,
    )
  ]
  uses_keeps m used name (ok d) c h = elim (Option-cases (get m.clusters used)) [
    | inl missing ↦ ground arith
    | inr (e, found) ↦ ground (
      arith,
      get-put m.clusters used name (set_status healthy (record e { clients = some d })),
      string_keyed.same_iff used name,
    )
  ]

  checks_keeps :
      (m : Manager C) (alive : String → Bool) (name : String) (c : C)
      → clients_of m name ≡ some c
      → clients_of (health_check m alive).1 name ≡ some c
  unfolding clients_of health_check check_entry
  checks_keeps m alive name c h = ground (arith, get-check_entries alive m.clusters name)

  run_keeps :
      (m : Manager C) (ops : List (Op C)) (name : String) (c : C)
      → clients_of m name ≡ some c
      → clients_of (run m ops) name ≡ some c
  unfolding run
  run_keeps m [] name c h = h
  run_keeps m (uses used answer ∷ rest) name c h =
      run_keeps (get_or_create_clients m used answer).1 rest name c
        (uses_keeps m used name answer c h)
  run_keeps m (checks alive ∷ rest) name c h =
      run_keeps (health_check m alive).1 rest name c (checks_keeps m alive name c h)

  got_clients :
      (m : Manager C) (name : String) (answer : Result C) (c : C)
      → (get_or_create_clients m name answer).0 ≡ ok c
      → clients_of (get_or_create_clients m name answer).1 name ≡ some c
  unfolding clients_of get_or_create_clients
  got_clients m name (err x) c h = ground arith
  got_clients m name (ok d) c h = elim (Option-cases (get m.clusters name)) [
    | inl missing ↦ ground arith
    | inr (e, found) ↦ ground (
      arith,
      same_refl name,
      get-put m.clusters name name (set_status healthy (record e { clients = some d })),
    )
  ]

  reused :
      (m : Manager C) (name : String) (answer : Result C) (c : C)
      → clients_of m name ≡ some c
      → get_or_create_clients m name answer ≡ (ok c, m)
  unfolding clients_of get_or_create_clients
  reused m name answer c h = elim (Option-cases (get m.clusters name)) [
    | inl missing ↦ ground arith
    | inr (e, found) ↦ ground arith
  ]

  -- Once a cluster's clients have been given out, every later call gives out the same ones and creates
  -- none, whatever has been asked for and checked in between and whatever kube.NewClients would answer.
  pub get_or_create_clients-run :
      (m : Manager C) (name : String) (answer later : Result C) (ops : List (Op C)) (c : C)
      → (get_or_create_clients m name answer).0 ≡ ok c
      → get_or_create_clients (run (get_or_create_clients m name answer).1 ops) name later
        ≡ (ok c, run (get_or_create_clients m name answer).1 ops)
  get_or_create_clients-run m name answer later ops c h =
      reused (run (get_or_create_clients m name answer).1 ops) name later c (
        run_keeps (get_or_create_clients m name answer).1 ops name c
          (got_clients m name answer c h))
