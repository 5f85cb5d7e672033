-- ===== src/Clusters/Tests.antt =====
-- Clusters of a configuration, and the theorems at concrete inputs.
use telekube.Base.{
  ℕ, String, false, ◌≡◌, refl, List, [], ◌∷◌, ok, err, message, ◌≢◌, string_keyed, arith,
}
use telekube.Clusters.Manager.{
  ClusterConfig, Manager, new_manager, get_cluster, get_or_create_clients, set_cluster,
  add_clusters, choose_default, new_entry,
}
use telekube.Clusters.Clients.{Op, uses, checks, run, get_or_create_clients-run}
use telekube.Clusters.Selection.{default_of, last_default, get_cluster-new_manager}

abbrev cluster : String → ClusterConfig
cluster name = record { name = name; display_name = ""; in_cluster = false; default = false }

-- The clients are numbers here.
abbrev manager : Manager ℕ
manager = new_manager (cluster "dev" ∷ cluster "prod" ∷ [])

not_empty : default_of (cluster "dev") (cluster "prod" ∷ []) ≢ ""
unfolding last_default
not_empty e = ground (arith, (string_keyed.same_iff "dev" "").1 e)

get_cluster-new_manager_example : get_cluster manager (set_cluster [] 7 "prod") 8 ≡ "dev"
unfolding set_cluster last_default
get_cluster-new_manager_example =
    get_cluster-new_manager ℕ (cluster "dev") (cluster "prod" ∷ []) (set_cluster [] 7 "prod") 8
      not_empty

abbrev ops : List (Op ℕ)
ops = checks (λ name. false) ∷ uses "prod" (err (message "no route")) ∷ uses "dev" (ok 9) ∷ []

get_or_create_clients-run_example :
    get_or_create_clients (run (get_or_create_clients manager "dev" (ok 4)).1 ops) "dev" (ok 5)
    ≡ (ok 4, run (get_or_create_clients manager "dev" (ok 4)).1 ops)
unfolding get_or_create_clients new_manager add_clusters choose_default new_entry
get_or_create_clients-run_example = get_or_create_clients-run manager "dev" (ok 4) (ok 5) ops 4 refl
