-- ===== src/Clusters/Selection.antt =====
-- Which cluster internal/cluster/context.go gives a user.
use mathlib.Core.Path.{subst}
use telekube.Base.{
  ℕ, String, true, ◌≡◌, ◌≢◌, refl, sym, ap, ◌∙◌, Option, Option-cases, none, some, List, [], ◌∷◌,
  ◌==◌, nat_keyed, string_keyed, if◌then◌else◌, get, put, get-put, arith, inl, inr, same_refl, any,
}
use telekube.Clusters.Manager.{
  ClusterConfig, ClusterEntry, Manager, new_entry, add_clusters, choose_default, mark_default,
  new_manager, get_info, get_default, Selected, get_cluster,
}

-- The name of the last configuration that is marked as the default.
unfoldable pub last_default : List ClusterConfig → Option String
last_default [] = none
last_default (cfg ∷ rest) = elim (last_default rest) [
  | some name ↦ some name
  | none ↦ if cfg.default then some cfg.name else none
]

abbrev pub default_of : ClusterConfig → List ClusterConfig → String
default_of first rest = elim (last_default (first ∷ rest)) [ none ↦ first.name | some name ↦ name ]

module _ {C : Type 0} where
  abbrev name_of : Option (ClusterEntry C) → Option String
  name_of none = none
  name_of (some e) = some e.info.name

  -- The entry of the name, if there is one, has the name.
  abbrev IsNamed : Manager C → String → Type 0
  IsNamed m name = (e : ClusterEntry C) → get m.clusters name ≡ some e → e.info.name ≡ name

  abbrev added : Manager C → ClusterConfig → Manager C
  added m cfg = record {
    clusters = put m.clusters cfg.name (new_entry cfg);
    default_name = if cfg.default then cfg.name else m.default_name;
  }

  add_clusters-default :
      (m : Manager C) (configs : List ClusterConfig)
      → (add_clusters m configs).default_name
        ≡ elim (last_default configs) [ none ↦ m.default_name | some name ↦ name ]
  unfolding add_clusters last_default
  add_clusters-default m [] = refl
  add_clusters-default m (cfg ∷ rest) = ground (arith, add_clusters-default (added m cfg) rest)

  -- Every configured name has its entry.
  add_clusters-named :
      (m : Manager C) (configs : List ClusterConfig) (name : String)
      → name_of (get (add_clusters m configs).clusters name)
        ≡ (if any (λ c. c.name == name) configs then some name else name_of (get m.clusters name))
  unfolding add_clusters new_entry
  add_clusters-named m [] name = refl
  add_clusters-named m (cfg ∷ rest) name = ground (
    arith,
    add_clusters-named (added m cfg) rest name,
    get-put m.clusters cfg.name name (new_entry cfg),
    string_keyed.same_iff cfg.name name,
  )

any-last_default :
    (configs : List ClusterConfig) (name : String)
    → last_default configs ≡ some name
    → any (λ c. c.name == name) configs ≡ true
unfolding last_default
any-last_default [] name e = ground arith
any-last_default (cfg ∷ rest) name e =
    ground (arith, any-last_default rest name, string_keyed.same_iff cfg.name name)

module _ {C : Type 0} where
  get_cluster_default :
      (m : Manager C) (selected : Selected) (user_id : ℕ)
      → name_of (get m.clusters m.default_name) ≡ some m.default_name
      → m.default_name ≢ ""
      → get_cluster m selected user_id
        ≡ elim (get selected user_id) [ some name ↦ name | none ↦ m.default_name ]
  unfolding get_cluster get_default get_info
  get_cluster_default m selected user_id named some_name =
      ground (arith, string_keyed.same_iff m.default_name "")

  -- The default cluster of the manager has the name that `default_of` says, and its entry.
  IsDefault : Manager C → String → Type 0
  IsDefault m name = (m.default_name ≡ name) × (name_of (get m.clusters name) ≡ some name)

  choose_default_set :
      (m : Manager C) (first : ClusterConfig) (rest : List ClusterConfig) (name : String)
      → name ≢ ""
      → IsDefault m name
      → IsDefault (choose_default m (first ∷ rest)) name
  unfolding IsDefault choose_default
  choose_default_set m first rest name some_name (e, named) = (
    ground (arith, string_keyed.same_iff m.default_name ""),
    ground (arith, string_keyed.same_iff m.default_name ""),
  )

  choose_default_first :
      (m : Manager C) (first : ClusterConfig) (rest : List ClusterConfig)
      → m.default_name ≡ ""
      → name_of (get m.clusters first.name) ≡ some first.name
      → IsDefault (choose_default m (first ∷ rest)) first.name
  unfolding IsDefault choose_default
  choose_default_first m first rest unset named = elim (Option-cases (get m.clusters first.name)) [
    | inl missing ↦ ground arith
    | inr (e, found) ↦ (
      ground (arith, string_keyed.same_iff m.default_name ""),
      ground (
        arith,
        string_keyed.same_iff m.default_name "",
        same_refl first.name,
        get-put m.clusters first.name first.name (mark_default e),
      ),
    )
  ]

default_of_unset :
    (first : ClusterConfig) (rest : List ClusterConfig)
    → last_default (first ∷ rest) ≡ none
    → default_of first rest ≡ first.name
default_of_unset first rest unset = ground arith

default_of_marked :
    (first : ClusterConfig) (rest : List ClusterConfig) (name : String)
    → last_default (first ∷ rest) ≡ some name
    → default_of first rest ≡ name
default_of_marked first rest name marked = ground arith

module _ (C : Type 0) where
  abbrev all_added : ClusterConfig → List ClusterConfig → Manager C
  all_added first rest = add_clusters (record { clusters = []; default_name = "" }) (first ∷ rest)

  all_added-default :
      (first : ClusterConfig) (rest : List ClusterConfig)
      → (all_added first rest).default_name
        ≡ elim (last_default (first ∷ rest)) [ none ↦ "" | some name ↦ name ]
  all_added-default first rest =
      add_clusters-default (record { clusters = []; default_name = "" }) (first ∷ rest)

  all_added-named :
      (first : ClusterConfig) (rest : List ClusterConfig) (name : String)
      → any (λ c. c.name == name) (first ∷ rest) ≡ true
      → name_of (get (all_added first rest).clusters name) ≡ some name
  all_added-named first rest name here =
      add_clusters-named (record { clusters = []; default_name = "" }) (first ∷ rest) name
      ∙ ground arith

  new_manager-IsDefault :
      (first : ClusterConfig) (rest : List ClusterConfig)
      → default_of first rest ≢ ""
      → IsDefault (new_manager {C = C} (first ∷ rest)) (default_of first rest)
  unfolding new_manager IsDefault
  new_manager-IsDefault first rest some_name = elim (Option-cases (last_default (first ∷ rest))) [
    | inl unset ↦
        subst (IsDefault (new_manager {C = C} (first ∷ rest)))
          (sym (default_of_unset first rest unset))
          (choose_default_first (all_added first rest) first rest
            (ground (arith, all_added-default first rest))
            (all_added-named first rest first.name (ground (arith, same_refl first.name))))
    | inr (name, marked) ↦
        let is_name = default_of_marked first rest name marked in
        subst (IsDefault (new_manager {C = C} (first ∷ rest))) (sym is_name) (
          choose_default_set (all_added first rest) first rest name (λ e. some_name (is_name ∙ e))
            (
              ground (arith, all_added-default first rest),
              all_added-named first rest name (any-last_default (first ∷ rest) name marked),
            ))
  ]

  pub get_cluster-new_manager :
      (first : ClusterConfig) (rest : List ClusterConfig) (selected : Selected) (user_id : ℕ)
      → default_of first rest ≢ ""
      → get_cluster (new_manager {C = C} (first ∷ rest)) selected user_id
        ≡ elim (get selected user_id) [ some name ↦ name | none ↦ default_of first rest ]
  unfolding IsDefault
  get_cluster-new_manager first rest selected user_id some_name =
      let (e, named) = new_manager-IsDefault first rest some_name in
      get_cluster_default (new_manager {C = C} (first ∷ rest)) selected user_id
        (ap (λ n. name_of (get (new_manager {C = C} (first ∷ rest)).clusters n)) e
          ∙ named
          ∙ ap some (sym e))
        (λ empty. some_name (sym e ∙ empty))
      ∙ ap (λ n. elim (get selected user_id) [ some name ↦ name | none ↦ n ]) e
