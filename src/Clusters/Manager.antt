-- ===== src/Clusters/Manager.antt =====
-- internal/cluster/manager.go and context.go. The locks make each call one step; the second look at the
-- clients under the write lock makes the creation of a client one step too. `C` stands for the clients
-- of a cluster, and the answer of kube.NewClients is an argument.
use telekube.Base.{
  ℕ, String, Bool, true, Option, none, some, List, [], ◌∷◌, ◌==◌, nat_keyed, string_keyed,
  if◌then◌else◌, map, get, put, errorf, message, wrapped, Result, ok, err,
}

pub data HealthStatus : Type 0 where
  unknown : HealthStatus
  healthy : HealthStatus
  unhealthy : HealthStatus

pub record ClusterInfo : Type 0 where
  pub name : String
  pub display_name : String
  pub in_cluster : Bool
  pub is_default : Bool
  pub status : HealthStatus

pub record ClusterConfig : Type 0 where
  pub name : String
  pub display_name : String
  pub in_cluster : Bool
  pub default : Bool

module _ (C : Type 0) where
  pub record ClusterEntry : Type 0 where
    pub config : ClusterConfig
    pub info : ClusterInfo
    pub clients : Option C

  pub record Manager : Type 0 where
    pub clusters : List (String × ClusterEntry)
    pub default_name : String

-- The chosen clusters of the users, in `UserContext`.
abbrev pub Selected : Type 0
Selected = List (ℕ × String)

unfoldable pub set_cluster : Selected → ℕ → String → Selected
set_cluster selected user_id name = put selected user_id name

module _ {C : Type 0} where
  unfoldable pub new_entry : ClusterConfig → ClusterEntry C
  new_entry cfg = record {
    config = cfg;
    info = record {
      name = cfg.name;
      display_name = if cfg.display_name == "" then cfg.name else cfg.display_name;
      in_cluster = cfg.in_cluster;
      is_default = cfg.default;
      status = unknown;
    };
    clients = none;
  }

  -- The loop of `NewManager` over the configurations.
  unfoldable pub add_clusters : Manager C → List ClusterConfig → Manager C
  unfolding new_entry
  add_clusters m [] = m
  add_clusters m (cfg ∷ rest) =
      add_clusters
        (record {
          clusters = put m.clusters cfg.name (new_entry cfg);
          default_name = if cfg.default then cfg.name else m.default_name;
        })
        rest

  abbrev pub mark_default : ClusterEntry C → ClusterEntry C
  mark_default e = record e { info = record e.info { is_default = true } }

  -- The first cluster is the default if none has been set.
  unfoldable pub choose_default : Manager C → List ClusterConfig → Manager C
  choose_default m [] = m
  choose_default m (cfg ∷ rest) =
      if m.default_name == ""
      then record {
        clusters = elim (get m.clusters cfg.name) [
          | none ↦ m.clusters
          | some e ↦ put m.clusters cfg.name (mark_default e)
        ];
        default_name = cfg.name;
      }
      else m

  unfoldable pub new_manager : List ClusterConfig → Manager C
  unfolding add_clusters choose_default
  new_manager configs =
      choose_default (add_clusters (record { clusters = []; default_name = "" }) configs) configs

  unfoldable pub get_info : Manager C → String → Result ClusterInfo
  get_info m name = elim (get m.clusters name) [
    | none ↦ err (errorf "cluster %q not found" (name ∷ []))
    | some e ↦ ok e.info
  ]

  unfoldable pub get_default : Manager C → Result ClusterInfo
  unfolding get_info
  get_default m =
      if m.default_name == ""
      then err (message "no default cluster configured")
      else get_info m m.default_name

  abbrev pub set_status : HealthStatus → ClusterEntry C → ClusterEntry C
  set_status s e = record e { info = record e.info { status = s } }

  -- The clients that exist, or new ones if `answer`, what kube.NewClients says, has them.
  unfoldable pub get_or_create_clients : Manager C → String → Result C → Result C × Manager C
  get_or_create_clients m name answer = elim (get m.clusters name) [
    | none ↦ (err (errorf "cluster %q not found" (name ∷ [])), m)
    | some e ↦ elim e.clients [
      | some c ↦ (ok c, m)
      | none ↦ elim answer [
        | err x ↦ (
          err (wrapped "creating K8s clients for cluster %q: %w" x),
          record m { clusters = put m.clusters name (set_status unhealthy e) },
        )
        | ok c ↦ (
          ok c,
          record m {
            clusters = put m.clusters name (set_status healthy (record e { clients = some c }));
          },
        )
      ]
    ]
  ]

  -- `HealthCheck`: `alive` is what each server answers. A cluster without clients is not asked.
  unfoldable pub check_entry : Bool → ClusterEntry C → ClusterEntry C
  check_entry alive e = elim e.clients [
    | none ↦ e
    | some c ↦ set_status (if alive then healthy else unhealthy) e
  ]

  unfoldable pub check_entries :
      (String → Bool) → List (String × ClusterEntry C) → List (String × ClusterEntry C)
  unfolding check_entry
  check_entries alive [] = []
  check_entries alive ((name, e) ∷ rest) =
      (name, check_entry (alive name) e) ∷ check_entries alive rest

  -- What `HealthCheck` answers for a cluster: the status of the entry stays out of it.
  unfoldable pub health_status : Bool → ClusterEntry C → HealthStatus
  health_status alive e = elim e.clients [
    | none ↦ unknown
    | some c ↦ if alive then healthy else unhealthy
  ]

  unfoldable pub health_check :
      Manager C → (String → Bool) → List (String × HealthStatus) × Manager C
  unfolding check_entries health_status
  health_check m alive = (
    map (λ entry. (entry.0, health_status (alive entry.0) entry.1)) m.clusters,
    record m { clusters = check_entries alive m.clusters },
  )

  -- `GetCluster`: the choice of the user, or the default.
  unfoldable pub get_cluster : Manager C → Selected → ℕ → String
  unfolding get_default
  get_cluster m selected user_id = elim (get selected user_id) [
    | some name ↦ name
    | none ↦ elim (get_default m) [ err e ↦ "" | ok info ↦ info.name ]
  ]
