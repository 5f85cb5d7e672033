-- ===== src/Modules/Tests.antt =====
-- A life cycle of modules, and the theorem at concrete inputs.
use telekube.Base.{String, ◌≡◌, refl, none, some, List, [], ◌∷◌, map, reverse, message}
use telekube.Modules.Registry.{Module, new_registry, register, start_all, stop_all, lookup_all}
use telekube.Modules.Order.{register_all, register_all-order, IsDistinct, new_names}

abbrev module_named : String → Module
module_named name = record {
  name = name;
  description = "";
  commands = [];
  start = none;
  stop = none;
}

-- The second module fails to start, and the last one has a name that is taken.
abbrev modules : List Module
modules =
    module_named "kubernetes"
    ∷ record (module_named "watcher") { start = some (message "no leader") }
    ∷ module_named "kubernetes"
    ∷ []

abbrev names : List String
names = "kubernetes" ∷ "watcher" ∷ "kubernetes" ∷ []

starts :
    map (λ c. c.0) (start_all (register_all new_registry modules)) ≡ "kubernetes" ∷ "watcher" ∷ []
unfolding start_all register_all register lookup_all
starts = refl

register_all-order_example :
    (map (λ c. c.0) (start_all (register_all new_registry modules)) ≡ new_names [] names)
    × (map (λ c. c.0) (stop_all (register_all new_registry modules)) ≡ reverse (new_names [] names))
    × IsDistinct (new_names [] names)
register_all-order_example = register_all-order modules

order : (register_all new_registry modules).order ≡ "kubernetes" ∷ "watcher" ∷ []
unfolding register_all register
order = refl
