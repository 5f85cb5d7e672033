-- ===== src/Telegram/CallbackStore.antt =====
-- internal/bot/keyboard/callback_store.go: short keys for long callback data. The lock makes each
-- call one step. `digest` is the first 12 hexadecimal digits of the SHA-256 of a text.
use Prim.Native.String.{len, ◌++◌ as concat}
use mathlib.Core.Path.{subst, ap₂}
use telekube.Base.{
  map, ℕ, String, true, false, ◌≡◌, refl, sym, ap, ◌∙◌, Option-cases, none, some, List, [], ◌∷◌,
  ◌==◌, string_keyed, if◌then◌else◌, leb, get, put, get-put, any, Bool-cases, inl, inr, arith,
  same_refl,
}

abbrev pub max_data_bytes : ℕ
max_data_bytes = 36

abbrev pub Data : Type 0
Data = List (String × String)

module _ (digest : String → String) where
  abbrev pub key_of : String → String
  key_of full_data = concat "cb_" (digest full_data)

  -- The data to send, and the store after it.
  unfoldable pub store : Data → String → String × Data
  store m full_data =
      if leb (len full_data) max_data_bytes
      then (full_data, m)
      else (key_of full_data, put m (key_of full_data) full_data)

  unfoldable pub resolve : Data → String → String
  resolve m key = elim (get m key) [ none ↦ key | some full ↦ full ]

  -- The data that `store` gives out, which does not depend on what is stored.
  abbrev pub sent_for : String → String
  sent_for d = if leb (len d) max_data_bytes then d else key_of d

  unfoldable pub store_all : Data → List String → Data
  unfolding store
  store_all m [] = m
  store_all m (d ∷ ds) = store_all (store m d).1 ds

  -- What is sent for `d` leads to `d` or nowhere.
  abbrev Leads : String → Data → Type 0
  Leads d m = (v : String) → get m (sent_for d) ≡ some v → v ≡ d

  -- The data `e` does not take the place of `d`.
  abbrev IsClear : String → String → Type 0
  IsClear d e = sent_for e ≡ sent_for d → e ≡ d

  get-store_short : (m : Data) (e : String) → leb (len e) max_data_bytes ≡ true → (store m e).1 ≡ m
  unfolding store
  get-store_short m e short = ground arith

  get-store_long :
      (m : Data) (e key : String)
      → leb (len e) max_data_bytes ≡ false
      → get (store m e).1 key ≡ (if key_of e == key then some e else get m key)
  unfolding store
  get-store_long m e key long = ground (arith, get-put m (key_of e) key e)

  sent_for_long : (e : String) → leb (len e) max_data_bytes ≡ false → sent_for e ≡ key_of e
  sent_for_long e long = rw long refl

  store-Leads : (m : Data) (d e : String) → IsClear d e → Leads d m → Leads d (store m e).1
  store-Leads m d e clear leads = λ v found. elim (Bool-cases (leb (len e) max_data_bytes)) [
    | inl short ↦ leads v (ap (λ n. get n (sent_for d)) (sym (get-store_short m e short)) ∙ found)
    | inr long ↦
        let put_there = sym (get-store_long m e (sent_for d) long) ∙ found in
        elim (Bool-cases (key_of e == sent_for d)) [
          | inl same ↦
              let e-d =
                clear
                  (sent_for_long e long ∙ (string_keyed.same_iff (key_of e) (sent_for d)).0 same) in
              ground (arith, put_there, e-d)
          | inr other ↦ leads v (ground (arith, put_there))
        ]
  ]

  -- What is sent for `d` leads to `d`.
  Resolves : String → Data → Type 0
  unfolding resolve
  Resolves d m = resolve m (sent_for d) ≡ d

  store-Resolves : (m : Data) (d e : String) → IsClear d e → Resolves d m → Resolves d (store m e).1
  unfolding Resolves resolve
  store-Resolves m d e clear resolves = elim (Bool-cases (leb (len e) max_data_bytes)) [
    | inl short ↦ ap (λ n. resolve n (sent_for d)) (get-store_short m e short) ∙ resolves
    | inr long ↦ elim (Bool-cases (key_of e == sent_for d)) [
      | inl same ↦
          let e-d =
            clear (sent_for_long e long ∙ (string_keyed.same_iff (key_of e) (sent_for d)).0 same) in
          ground (arith, get-store_long m e (sent_for d) long, e-d)
      | inr other ↦ ground (arith, get-store_long m e (sent_for d) long)
    ]
  ]

  resolve_found : (m : Data) (key v : String) → get m key ≡ some v → resolve m key ≡ v
  unfolding resolve
  resolve_found m key v found = ground arith

  resolve_missing : (m : Data) (key : String) → get m key ≡ none → resolve m key ≡ key
  unfolding resolve
  resolve_missing m key missing = ground arith

  sent_for_short : (e : String) → leb (len e) max_data_bytes ≡ true → sent_for e ≡ e
  sent_for_short e short = rw short refl

  store-Resolves_self : (m : Data) (d : String) → Leads d m → Resolves d (store m d).1
  unfolding Resolves
  store-Resolves_self m d leads = elim (Bool-cases (leb (len d) max_data_bytes)) [
    | inl short ↦ elim (Option-cases (get m (sent_for d))) [
      | inl free ↦
          ap (λ n. resolve n (sent_for d)) (get-store_short m d short)
          ∙ resolve_missing m (sent_for d) free
          ∙ sent_for_short d short
      | inr (v, found) ↦
          ap (λ n. resolve n (sent_for d)) (get-store_short m d short)
          ∙ resolve_found m (sent_for d) v found
          ∙ leads v found
    ]
    | inr long ↦ resolve_found (store m d).1 (sent_for d) d (
        ground (
          arith,
          get-store_long m d (sent_for d) long,
          sent_for_long d long,
          string_keyed.same_iff (key_of d) (sent_for d),
        ))
  ]

  store_all-Resolves :
      (m : Data) (ds : List String) (d : String)
      → ((e : String) → any (λ x. x == e) ds ≡ true → IsClear d e)
      → Resolves d m
      → Resolves d (store_all m ds)
  unfolding store_all
  store_all-Resolves m [] d clear resolves = resolves
  store_all-Resolves m (e ∷ es) d clear resolves =
      store_all-Resolves (store m e).1 es d (λ f h. clear f (ground arith))
        (store-Resolves m d e (clear e (ground (arith, same_refl e))) resolves)

  store_all-Leads :
      (m : Data) (ds : List String) (d : String)
      → ((e : String) → any (λ x. x == e) ds ≡ true → IsClear d e)
      → Leads d m
      → any (λ x. x == d) ds ≡ true
      → Resolves d (store_all m ds)
  unfolding store_all
  store_all-Leads m [] d clear leads h = ground arith
  store_all-Leads m (e ∷ es) d clear leads h = elim (Bool-cases (e == d)) [
    | inl same ↦
        let e-d = (string_keyed.same_iff e d).0 same in
        store_all-Resolves (store m e).1 es d (λ f h. clear f (ground arith))
          (subst (λ x. Resolves d (store m x).1) (sym e-d) (store-Resolves_self m d leads))
    | inr other ↦
        store_all-Leads (store m e).1 es d (λ f h. clear f (ground arith))
          (store-Leads m d e (clear e (ground (arith, same_refl e))) leads) (ground arith)
  ]

  store-sent_for : (m : Data) (d : String) → (store m d).0 ≡ sent_for d
  unfolding store
  store-sent_for m d = ground arith

  -- What `store` gives out for each data of a list, one call after the other.
  unfoldable pub send_all : Data → List String → List String
  unfolding store
  send_all m [] = []
  send_all m (d ∷ ds) = (store m d).0 ∷ send_all (store m d).1 ds

  send_all-map : (m : Data) (ds : List String) → send_all m ds ≡ map sent_for ds
  unfolding send_all
  send_all-map m [] = refl
  send_all-map m (d ∷ ds) =
      ap₂ (λ (x : String) (xs : List String). x ∷ xs) (store-sent_for m d)
        (send_all-map (store m d).1 ds)

  -- No two of the data are sent as the same text.
  abbrev pub IsClearList : List String → Type 0
  IsClearList ds =
      (d e : String)
      → any (λ x. x == d) ds ≡ true
      → any (λ x. x == e) ds ≡ true
      → sent_for e ≡ sent_for d
      → e ≡ d

  resolve-each :
      (ds xs : List String)
      → IsClearList ds
      → ((d : String) → any (λ x. x == d) xs ≡ true → any (λ x. x == d) ds ≡ true)
      → map (resolve (store_all [] ds)) (map sent_for xs) ≡ xs
  unfolding Resolves
  resolve-each ds [] clear within = refl
  resolve-each ds (d ∷ xs) clear within =
      let there = within d (ground (arith, same_refl d)) in
      ap₂ (λ (y : String) (ys : List String). y ∷ ys)
        (store_all-Leads [] ds d (λ e h. clear d e there h) (λ v found. ground arith) there)
        (resolve-each ds xs clear (λ e h. within e (ground arith)))

  -- When all the data of a list have been stored, one after the other, every text that the store gave
  -- out for them resolves to its data, if no two of them are sent as the same text: no digest occurs
  -- twice, and no short data looks like the key of long data.
  pub resolve-send_all :
      (ds : List String) → IsClearList ds → map (resolve (store_all [] ds)) (send_all [] ds) ≡ ds
  resolve-send_all ds clear =
      ap (map (resolve (store_all [] ds))) (send_all-map [] ds)
      ∙ resolve-each ds ds clear (λ d h. h)
