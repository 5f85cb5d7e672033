-- ===== src/Base/Numbers/RoundTrip.antt =====
-- The number that is printed is read back.
use Prim.Native.Char.{Char, code}
use Prim.Native.String.{◌++◌ as concat}
use text.Mathlib.TextLemmas.{nil-append, cons-append}
use telekube.Base.{
  ℕ, zero, suc, ◌+◌, ◌-◌, ◌*◌, ◌/◌, ◌%◌, ◌^◌, ◌<◌, String, Bool, true, false, ◌≡◌, refl, sym, some,
  arith, ◌∙◌, ap, ltb, inl, inr, Bool-cases,
}
use telekube.Base.Numbers.{
  is_digit, scan_digits, scan_int, positive, negative, digit_of, decimal, digits, print_int,
}

ltb-true : (a b : ℕ) → a < b → ltb a b ≡ true
ltb-true a b h = ground arith

scan_digits-cons :
    (c : Char) (text : String) (n : ℕ) (found : Bool)
    → is_digit c ≡ true
    → scan_digits (concat (String.◌∷◌ c "") text) n found
      ≡ scan_digits text (n * 10 + (code c - b'0')) true
unfolding scan_digits
scan_digits-cons c text n found digit = rw (cons-append c "" text, nil-append text) (ground arith)

scan_digits-digit :
    (d : ℕ) (text : String) (n : ℕ) (found : Bool)
    → d < 10
    → scan_digits (concat (digit_of decimal d) text) n found ≡ scan_digits text (n * 10 + d) true
unfolding digit_of
scan_digits-digit zero text n found h = scan_digits-cons "0" text n found refl
scan_digits-digit (suc zero) text n found h = scan_digits-cons "1" text n found refl
scan_digits-digit (suc (suc zero)) text n found h = scan_digits-cons "2" text n found refl
scan_digits-digit (suc (suc (suc zero))) text n found h = scan_digits-cons "3" text n found refl
scan_digits-digit (suc (suc (suc (suc zero)))) text n found h =
    scan_digits-cons "4" text n found refl
scan_digits-digit (suc (suc (suc (suc (suc zero))))) text n found h =
    scan_digits-cons "5" text n found refl
scan_digits-digit (suc (suc (suc (suc (suc (suc zero)))))) text n found h =
    scan_digits-cons "6" text n found refl
scan_digits-digit (suc (suc (suc (suc (suc (suc (suc zero))))))) text n found h =
    scan_digits-cons "7" text n found refl
scan_digits-digit (suc (suc (suc (suc (suc (suc (suc (suc zero)))))))) text n found h =
    scan_digits-cons "8" text n found refl
scan_digits-digit (suc (suc (suc (suc (suc (suc (suc (suc (suc zero))))))))) text n found h =
    scan_digits-cons "9" text n found refl
scan_digits-digit (suc (suc (suc (suc (suc (suc (suc (suc (suc (suc d)))))))))) text n found h =
    absurd (omega arith)

-- `10 ^ fuel`, by its digits.
abbrev bound : ℕ → ℕ
bound zero = 1
bound (suc fuel) = 10 * bound fuel

scan_digits-digits :
    (fuel n : ℕ) (text : String)
    → n < bound (suc fuel)
    → scan_digits (digits (suc fuel) n text) 0 false ≡ scan_digits text n true
unfolding digits
scan_digits-digits zero n text h = rw (ltb-true n 10 h) (
    scan_digits-digit (n % 10) text 0 false (omega arith)
    ∙ ap (λ k. scan_digits text k true) (omega arith))
scan_digits-digits (suc f) n text h = elim (Bool-cases (ltb n 10)) [
  | inl small ↦ rw small (
      scan_digits-digit (n % 10) text 0 false (omega arith)
      ∙ ap (λ k. scan_digits text k true) (ground arith))
  | inr large ↦ rw large (
      scan_digits-digits f (n / 10) (concat (digit_of decimal (n % 10)) text) (omega arith)
      ∙ scan_digits-digit (n % 10) text (n / 10) true (omega arith)
      ∙ ap (λ k. scan_digits text k true) (omega arith))
]

-- The first digit of a number.
digits_first :
    (fuel n : ℕ) (text : String)
    → (d : ℕ) × (rest : String) × (d < 10)
      × (digits (suc fuel) n text ≡ concat (digit_of decimal d) rest)
unfolding digits
digits_first zero n text = elim (Bool-cases (ltb n 10)) [
  | inl small ↦ (n % 10, text, omega arith, rw small refl)
  | inr large ↦ (n % 10, text, omega arith, rw large refl)
]
digits_first (suc f) n text = elim (Bool-cases (ltb n 10)) [
  | inl small ↦ (n % 10, text, omega arith, rw small refl)
  | inr large ↦
      let (d, rest, lt, e) = digits_first f (n / 10) (concat (digit_of decimal (n % 10)) text) in
      (d, rest, lt, rw large e)
]

scan_int-cons :
    (c : Char) (text : String)
    → is_digit c ≡ true
    → scan_int (concat (String.◌∷◌ c "") text)
      ≡ positive (scan_digits (concat (String.◌∷◌ c "") text) 0 false)
unfolding scan_int
scan_int-cons c text digit = rw (cons-append c "" text, nil-append text) (ground arith)

scan_int-digit :
    (d : ℕ) (text : String)
    → d < 10
    → scan_int (concat (digit_of decimal d) text)
      ≡ positive (scan_digits (concat (digit_of decimal d) text) 0 false)
unfolding digit_of
scan_int-digit zero text h = scan_int-cons "0" text refl
scan_int-digit (suc zero) text h = scan_int-cons "1" text refl
scan_int-digit (suc (suc zero)) text h = scan_int-cons "2" text refl
scan_int-digit (suc (suc (suc zero))) text h = scan_int-cons "3" text refl
scan_int-digit (suc (suc (suc (suc zero)))) text h = scan_int-cons "4" text refl
scan_int-digit (suc (suc (suc (suc (suc zero))))) text h = scan_int-cons "5" text refl
scan_int-digit (suc (suc (suc (suc (suc (suc zero)))))) text h = scan_int-cons "6" text refl
scan_int-digit (suc (suc (suc (suc (suc (suc (suc zero))))))) text h = scan_int-cons "7" text refl
scan_int-digit (suc (suc (suc (suc (suc (suc (suc (suc zero)))))))) text h =
    scan_int-cons "8" text refl
scan_int-digit (suc (suc (suc (suc (suc (suc (suc (suc (suc zero))))))))) text h =
    scan_int-cons "9" text refl
scan_int-digit (suc (suc (suc (suc (suc (suc (suc (suc (suc (suc d)))))))))) text h =
    absurd (omega arith)

scan_digits-print : (n : ℕ) → n < bound 20 → scan_digits (digits 20 n "") 0 false ≡ some n
unfolding scan_digits
scan_digits-print n h = scan_digits-digits 19 n "" h

scan_int-digits : (n : ℕ) → n < bound 20 → scan_int (digits 20 n "") ≡ positive (some n)
scan_int-digits n h =
    let (d, rest, lt, e) = digits_first 19 n "" in
    ap scan_int e
    ∙ scan_int-digit d rest lt
    ∙ ap (λ s. positive (scan_digits s 0 false)) (sym e)
    ∙ ap positive (scan_digits-print n h)

positive_small : (n : ℕ) → ltb n (2 ^ 63) ≡ true → positive (some n) ≡ some n
unfolding positive
positive_small n small = rw small refl

scan_int_minus : (text : String) → scan_int (concat "-" text) ≡ negative (scan_digits text 0 false)
unfolding scan_int
scan_int_minus text = rw (cons-append "-" "" text, nil-append text) refl

negative_large :
    (n : ℕ) → n < 2 ^ 64 → ltb n (2 ^ 63) ≡ false → negative (some (2 ^ 64 - n)) ≡ some n
unfolding negative
negative_large n h large = ground arith

-- A number of 64 bits that is printed with "%d" is read back with "%d".
pub scan_int-print_int : (n : ℕ) → n < 2 ^ 64 → scan_int (print_int n) ≡ some n
unfolding print_int
scan_int-print_int n h = elim (Bool-cases (ltb n (2 ^ 63))) [
  | inl small ↦ rw small (scan_int-digits n (ground arith) ∙ positive_small n small)
  | inr large ↦ rw large (
      scan_int_minus (digits 20 (2 ^ 64 - n) "")
      ∙ ap negative (scan_digits-print (2 ^ 64 - n) (omega arith))
      ∙ negative_large n h large)
]
