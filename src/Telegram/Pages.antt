-- ===== src/Telegram/Pages.antt =====
-- That the pages of pkg/telegram/paginator.go show every item once.
use native.Mathlib.Nat.{suc-mul, zero-mul, mod-add-div', mod-lt}
use mathlib.Core.List.{append_assoc, append-nil}
use telekube.Base.{
  ℕ, zero, suc, ◌+◌, ◌-◌, ◌*◌, ◌/◌, ◌≤◌, ◌<◌, ◌≡◌, refl, sym, ap, ◌∙◌, ◌⊎◌, String, List, [], ◌∷◌,
  ◌++◌, length, take, drop, leb, ltb, take-append-drop, length-drop, Bool-cases, inl, inr, arith,
  nat_keyed,
}
use telekube.Telegram.Paginator.{Paginator, new_paginator, total_pages, window, page}

module _ {ℓ} {A : Type ℓ} where
  drop_nil : (n : ℕ) → drop {A = A} n [] ≡ []
  drop_nil zero = refl
  drop_nil (suc n) = refl

  drop-drop : (m n : ℕ) (xs : List A) → drop n (drop m xs) ≡ drop (m + n) xs
  drop-drop zero n xs = ap (λ k. drop k xs) (omega arith)
  drop-drop (suc m) n [] = drop_nil n ∙ sym (drop_nil (suc m + n))
  drop-drop (suc m) n (x ∷ xs) =
      drop-drop m n xs ∙ ap (λ k. drop k (x ∷ xs)) {x = suc (m + n)} (omega arith)

  drop_all : (n : ℕ) (xs : List A) → length xs ≤ n → drop n xs ≡ []
  drop_all zero [] h = refl
  drop_all zero (x ∷ xs) h = ground arith
  drop_all (suc n) [] h = refl
  drop_all (suc n) (x ∷ xs) h = drop_all n xs (omega arith)

  take_clamped : (m n : ℕ) (xs : List A) → length xs ≤ m → length xs ≤ n → take m xs ≡ take n xs
  take_clamped zero zero xs h k = refl
  take_clamped zero (suc n) [] h k = refl
  take_clamped zero (suc n) (x ∷ xs) h k = ground arith
  take_clamped (suc m) zero [] h k = refl
  take_clamped (suc m) zero (x ∷ xs) h k = ground arith
  take_clamped (suc m) (suc n) [] h k = refl
  take_clamped (suc m) (suc n) (x ∷ xs) h k =
      ap (x ∷◌) (take_clamped m n xs (omega arith) (omega arith))

  take_nil : (n : ℕ) → take {A = A} n [] ≡ []
  take_nil zero = refl
  take_nil (suc n) = refl

-- The items of a window.
window_items :
    (items : List String) (size start : ℕ)
    → (window items size start).0 ≡ take size (drop start items)
unfolding window
window_items items size start = elim (Bool-cases (leb (length items) start)) [
  | inl past ↦ rw (past, drop_all start items (ground arith), take_nil {A = String} size) refl
  | inr more ↦ rw more (elim (Bool-cases (ltb (length items) (start + size))) [
    | inl last ↦ rw last (
        take_clamped (length items - start) size (drop start items)
          (ground (arith, length-drop start items)) (ground (arith, length-drop start items)))
    | inr full ↦ rw full (ap (λ n. take n (drop start items)) (omega arith))
  ])
]

-- The pages from number `suc k` on, `n` of them, one after the other.
unfoldable pub pages_from : Paginator → ℕ → ℕ → List String
unfolding page
pages_from p zero k = []
pages_from p (suc n) k = (page (record p { current = suc k })).0 ++ pages_from p n (suc k)

page_items :
    (p : Paginator) (k : ℕ)
    → (page (record p { current = suc k })).0 ≡ take p.page_size (drop (k * p.page_size) p.items)
unfolding page
page_items p k =
    window_items p.items p.page_size ((suc k - 1) * p.page_size)
    ∙ ap (λ j. take p.page_size (drop (j * p.page_size) p.items)) (omega arith)

drop_next :
    (items : List String) (size k : ℕ)
    → drop (suc k * size) items ≡ drop size (drop (k * size) items)
drop_next items size k =
    ap (λ j. drop j items) (suc-mul k size) ∙ sym (drop-drop (k * size) size items)

pages_from-append :
    (p : Paginator) (n k : ℕ)
    → pages_from p n k ++ drop ((k + n) * p.page_size) p.items ≡ drop (k * p.page_size) p.items
unfolding pages_from
pages_from-append p zero k = ap (λ j. drop (j * p.page_size) p.items) (omega arith)
pages_from-append p (suc n) k =
    append_assoc (page (record p { current = suc k })).0 (pages_from p n (suc k)) _
    ∙ ap ((page (record p { current = suc k })).0 ++◌) (
        ap (λ j. pages_from p n (suc k) ++ drop (j * p.page_size) p.items) (omega arith)
        ∙ pages_from-append p n (suc k))
    ∙ ap (λ xs. xs ++ drop (suc k * p.page_size) p.items) (page_items p k)
    ∙ ap (take p.page_size (drop (k * p.page_size) p.items) ++◌) (drop_next p.items p.page_size k)
    ∙ take-append-drop p.page_size (drop (k * p.page_size) p.items)

plus_one-mul : (q s : ℕ) → (q + 1) * s ≡ q * s + s
plus_one-mul q s = ap (λ j. j * s) (omega arith) ∙ suc-mul q s

minus_one-mul : (q s : ℕ) → ((q + 1 - 1) * s ≡ q * s) × ((q ≡ 0) ⊎ ((q - 1) * s + s ≡ q * s))
minus_one-mul zero s = (ap (λ j. j * s) (omega arith), inl refl)
minus_one-mul (suc q) s =
    (ap (λ j. j * s) (omega arith), inr (ap (λ j. j * s + s) (omega arith) ∙ sym (suc-mul q s)))

total_pages_enough :
    (p : Paginator) → 0 < p.page_size → length p.items ≤ total_pages p * p.page_size
unfolding total_pages
total_pages_enough p h = ground (
  arith,
  mod-add-div' (length p.items) p.page_size,
  mod-lt (length p.items) h,
  plus_one-mul (length p.items / p.page_size) p.page_size,
)

total_pages_needed :
    (p : Paginator)
    → 0 < p.page_size
    → 0 < length p.items
    → (total_pages p - 1) * p.page_size < length p.items
unfolding total_pages
total_pages_needed p h k = ground (
  arith,
  mod-add-div' (length p.items) p.page_size,
  mod-lt (length p.items) h,
  minus_one-mul (length p.items / p.page_size) p.page_size,
)

pages_from_all : (p : Paginator) → 0 < p.page_size → pages_from p (total_pages p) 0 ≡ p.items
pages_from_all p h =
    let pages = pages_from p (total_pages p) 0 in
    let none_left : drop ((0 + total_pages p) * p.page_size) p.items ≡ [] =
      ap (λ j. drop (j * p.page_size) p.items) (omega arith)
      ∙ drop_all (total_pages p * p.page_size) p.items (total_pages_enough p h) in
    sym (append-nil pages)
    ∙ ap (pages ++◌) (sym none_left)
    ∙ pages_from-append p (total_pages p) 0
    ∙ ap (λ j. drop j p.items) (zero-mul p.page_size)

-- The pages 1 to `TotalPages`, one after the other, are the items, each once and in order; the last of
-- them is not empty, unless there are no items.
pub pages_from-total_pages :
    (items : List String) (page_size : ℕ)
    → let p = new_paginator items page_size in
      (pages_from p (total_pages p) 0 ≡ items)
      × (0 < length items → (total_pages p - 1) * p.page_size < length items)
unfolding new_paginator
pages_from-total_pages items page_size =
    let p = new_paginator items page_size in
    let some_size : 0 < p.page_size = ground arith in
    (pages_from_all p some_size, total_pages_needed p some_size)
