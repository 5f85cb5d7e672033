-- ===== src/Modules/Order.antt =====
-- The order of start and stop in internal/module/registry.go.
use mathlib.Core.Path.{subst}
use mathlib.Core.List.{reverse_aux, append-nil, append_assoc}
use telekube.Base.{
  if◌then◌else◌, String, Bool, inl, inr, true, false, ◌≡◌, refl, sym, ap, ◌∙◌, Option, Option-cases,
  none, some, List, [], ◌∷◌, ◌++◌, ◌==◌, string_keyed, get, put, get-put, reverse, Error, ok, err,
  map, any, any-append, arith, same_refl, not, ◌||◌,
}
use telekube.Modules.Registry.{
  Module, Registry, new_registry, register, lookup_all, start_all, stop_all,
}

-- A registry that a sequence of registrations leaves, the refused ones skipped.
unfoldable pub register_all : Registry → List Module → Registry
unfolding register
register_all r [] = r
register_all r (m ∷ ms) = elim (register r m) [
  | err e ↦ register_all r ms
  | ok r' ↦ register_all r' ms
]

abbrev pub IsDistinct : List String → Type 0
IsDistinct [] = Unit
IsDistinct (n ∷ ns) = (any (λ k. k == n) ns ≡ false) × IsDistinct ns

-- Every name in the order has its module, under its name, and there is no other.
abbrev pub is_missing : Option Module → Bool
is_missing none = true
is_missing (some m) = false

pub record IsWellFormed (r : Registry) : Type 0 where
  pub listed :
      (name : String) → any (λ n. n == name) r.order ≡ not (is_missing (get r.modules name))
  pub named : (name : String) (m : Module) → get r.modules name ≡ some m → m.name ≡ name
  pub distinct : IsDistinct r.order

IsDistinct-append :
    (ns : List String) (n : String)
    → any (λ k. k == n) ns ≡ false
    → IsDistinct ns
    → IsDistinct (ns ++ n ∷ [])
IsDistinct-append [] n h d = (refl, tt)
IsDistinct-append (k ∷ ns) n h (new, d) = (
  ground (
    arith,
    any-append (λ j. j == k) ns (n ∷ []),
    string_keyed.same_iff n k,
    string_keyed.same_iff k n,
  ),
  IsDistinct-append ns n (ground arith) d,
)

abbrev added : Registry → Module → Registry
added r m = record { modules = put r.modules m.name m; order = r.order ++ m.name ∷ [] }

added-IsWellFormed :
    (r : Registry) (m : Module)
    → get r.modules m.name ≡ none
    → IsWellFormed r
    → IsWellFormed (added r m)
added-IsWellFormed r m free wf = record {
  listed = λ name. ground (
    arith,
    any-append (λ n. n == name) r.order (m.name ∷ []),
    get-put r.modules m.name name m,
    wf.listed name,
    string_keyed.same_iff m.name name,
  );
  named = λ name n found.
      ground (
        arith,
        get-put r.modules m.name name m,
        wf.named name n,
        string_keyed.same_iff m.name name,
      );
  distinct = IsDistinct-append r.order m.name (ground (arith, wf.listed m.name)) wf.distinct;
}

register_all-IsWellFormed :
    (r : Registry) (ms : List Module) → IsWellFormed r → IsWellFormed (register_all r ms)
unfolding register_all register
register_all-IsWellFormed r [] wf = wf
register_all-IsWellFormed r (m ∷ ms) wf = elim (Option-cases (get r.modules m.name)) [
  | inl free ↦
      rw (free, register_all, register)
        (register_all-IsWellFormed (added r m) ms (added-IsWellFormed r m free wf))
  | inr (old, there) ↦ rw (there, register_all, register) (register_all-IsWellFormed r ms wf)
]

-- All names of the list have a module.
lookup_all-names :
    (modules : List (String × Module)) (names : List String)
    → ((name : String) (m : Module) → get modules name ≡ some m → m.name ≡ name)
    → ((name : String) → any (λ n. n == name) names ≡ true → is_missing (get modules name) ≡ false)
    → map (λ m. m.name) (lookup_all modules names) ≡ names
unfolding lookup_all
lookup_all-names modules [] named there = refl
lookup_all-names modules (n ∷ ns) named there = elim (Option-cases (get modules n)) [
  | inl none_there ↦ ground (arith, there n, same_refl n)
  | inr (m, found) ↦ ground (
    arith,
    named n m found,
    lookup_all-names modules ns named (λ name h. there name (ground arith)),
  )
]

any-reverse_aux :
    (p : String → Bool) (xs acc : List String)
    → any p (reverse_aux xs acc) ≡ (any p xs || any p acc)
any-reverse_aux p [] acc = refl
any-reverse_aux p (x ∷ xs) acc = ground (arith, any-reverse_aux p xs (x ∷ acc))

any-reverse : (p : String → Bool) (xs : List String) → any p (reverse xs) ≡ any p xs
any-reverse p xs = ground (arith, any-reverse_aux p xs [])

module_there :
    (r : Registry) (name : String)
    → IsWellFormed r
    → any (λ n. n == name) r.order ≡ true
    → is_missing (get r.modules name) ≡ false
module_there r name wf h = ground (arith, wf.listed name)

map-map :
    (ms : List Module) (f : Module → Option Error)
    → map (λ (c : String × Option Error). c.0) (map (λ m. (m.name, f m)) ms) ≡ map (λ m. m.name) ms
map-map [] f = refl
map-map (m ∷ ms) f = ap (m.name ∷◌) (map-map ms f)

new_registry-IsWellFormed : IsWellFormed new_registry
new_registry-IsWellFormed = record {
  listed = λ name. refl;
  named = λ name m found. ground arith;
  distinct = tt;
}

-- The names of a list that are not seen before, each at its first place.
abbrev pub new_names : List String → List String → List String
new_names seen [] = []
new_names seen (n ∷ ns) =
    if any (λ k. k == n) seen then new_names seen ns else n ∷ new_names (seen ++ n ∷ []) ns

order-register_all :
    (r : Registry) (ms : List Module)
    → IsWellFormed r
    → (register_all r ms).order ≡ r.order ++ new_names r.order (map (λ m. m.name) ms)
unfolding register_all register
order-register_all r [] wf = sym (append-nil r.order)
order-register_all r (m ∷ ms) wf = elim (Option-cases (get r.modules m.name)) [
  | inl free ↦
      let unseen : any (λ k. k == m.name) r.order ≡ false = ground (arith, wf.listed m.name) in
      rw (free, unseen, register_all, register)
        (order-register_all (added r m) ms (added-IsWellFormed r m free wf)
          ∙ append_assoc r.order (m.name ∷ [])
              (new_names (r.order ++ m.name ∷ []) (map (λ m. m.name) ms)))
  | inr (old, there) ↦
      let seen : any (λ k. k == m.name) r.order ≡ true = ground (arith, wf.listed m.name) in
      rw (there, seen, register_all, register) (order-register_all r ms wf)
]

-- `StartAll` starts a module for every name that was registered, once, in the order in which the names
-- were registered first, and `StopAll` stops the same ones in the opposite order.
pub register_all-order :
    (ms : List Module)
    → (map (λ c. c.0) (start_all (register_all new_registry ms))
        ≡ new_names [] (map (λ m. m.name) ms))
      × (map (λ c. c.0) (stop_all (register_all new_registry ms))
          ≡ reverse (new_names [] (map (λ m. m.name) ms)))
      × IsDistinct (new_names [] (map (λ m. m.name) ms))
unfolding start_all stop_all
register_all-order ms =
    let r = register_all new_registry ms in
    let wf = register_all-IsWellFormed new_registry ms new_registry-IsWellFormed in
    let order = order-register_all new_registry ms new_registry-IsWellFormed in
    (
      map-map (lookup_all r.modules r.order) (λ m. m.start)
          ∙ lookup_all-names r.modules r.order wf.named (λ name h. module_there r name wf h)
          ∙ order,
      map-map (lookup_all r.modules (reverse r.order)) (λ m. m.stop)
          ∙ lookup_all-names r.modules (reverse r.order) wf.named
              (λ name h. module_there r name wf (sym (any-reverse (λ n. n == name) r.order) ∙ h))
          ∙ ap reverse order,
      subst IsDistinct order wf.distinct,
    )
