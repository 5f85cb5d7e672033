-- ===== src/Modules/Registry.antt =====
-- internal/module/registry.go. The lock makes each call one step. What a module's `Start` and `Stop`
-- answer is part of the module here.
use telekube.Base.{
  String, Option, none, some, List, [], ◌∷◌, ◌++◌, string_keyed, get, put, reverse, errorf, Error,
  Result, ok, err, map,
}

pub record CommandInfo : Type 0 where
  pub command : String
  pub permission : String

pub record Module : Type 0 where
  pub name : String
  pub description : String
  pub commands : List CommandInfo
  pub start : Option Error
  pub stop : Option Error

pub record Registry : Type 0 where
  pub modules : List (String × Module)
  pub order : List String

abbrev pub new_registry : Registry
new_registry = record { modules = []; order = [] }

unfoldable pub register : Registry → Module → Result Registry
register r m = elim (get r.modules m.name) [
  | some old ↦ err (errorf "module %q already registered" (m.name ∷ []))
  | none ↦ ok (record { modules = put r.modules m.name m; order = r.order ++ m.name ∷ [] })
]

-- The modules in the order of their names; a missing entry, which Go would read as nil, is left out.
unfoldable pub lookup_all : List (String × Module) → List String → List Module
lookup_all modules [] = []
lookup_all modules (name ∷ rest) =
    let found = lookup_all modules rest in
    elim (get modules name) [ none ↦ found | some m ↦ m ∷ found ]

-- The calls of `Start`, in their order; a failure does not end the loop.
unfoldable pub start_all : Registry → List (String × Option Error)
unfolding lookup_all
start_all r = map (λ m. (m.name, m.start)) (lookup_all r.modules r.order)

-- The calls of `Stop`.
unfoldable pub stop_all : Registry → List (String × Option Error)
unfolding lookup_all
stop_all r = map (λ m. (m.name, m.stop)) (lookup_all r.modules (reverse r.order))

unfoldable pub all_commands_of : List Module → List CommandInfo
all_commands_of [] = []
all_commands_of (m ∷ rest) = m.commands ++ all_commands_of rest

unfoldable pub all_commands : Registry → List CommandInfo
unfolding all_commands_of lookup_all
all_commands r = all_commands_of (lookup_all r.modules r.order)
