-- ===== src/Base/Texts.antt =====
-- Go's strings.SplitN on the bar that separates the fields of Telegram's callback data.
use Prim.Native.Char.{code}
use Prim.Native.Nat.{ℕ, zero, suc}
use Prim.Native.String.{String, ◌++◌ as concat}
use text.Mathlib.TextLemmas.{nil-append, cons-append}
use mathlib.Core.Path.{◌≡◌, refl, ap, ◌∙◌}
use mathlib.Core.Bool.{Bool, true, ◌&&◌, not}
use mathlib.Core.Option.{Option, none, some}
use mathlib.Core.List.{List, [], ◌∷◌}
use native.Mathlib.Omega.{arith}
use telekube.Base.Tests.{nat_beq, if◌then◌else◌}

-- The text before the first bar and the text behind it.
unfoldable pub cut_bar : String → Option (String × String)
cut_bar String.[] = none
cut_bar (String.◌∷◌ c rest) =
    let later = cut_bar rest in
    if nat_beq (code c) b'|'
    then some (String.[], rest)
    else elim later [ none ↦ none | some (a, b) ↦ some (String.◌∷◌ c a, b) ]

-- strings.SplitN(s, "|", n)
unfoldable pub split_n : ℕ → String → List String
unfolding cut_bar
split_n zero s = []
split_n (suc zero) s = s ∷ []
split_n (suc (suc n)) s = elim (cut_bar s) [ none ↦ s ∷ [] | some (a, b) ↦ a ∷ split_n (suc n) b ]

-- A text without a bar.
abbrev pub unbarred : String → Bool
unbarred String.[] = true
unbarred (String.◌∷◌ c rest) = not (nat_beq (code c) b'|') && unbarred rest

-- fmt.Sprintf("%s|%s", s, t)
infixr 30 ◌bar◌
abbrev pub ◌bar◌ : String → String → String
s bar t = concat s (concat "|" t)

bar_first : (t : String) → concat "|" t ≡ String.◌∷◌ "|" t
bar_first t = cons-append "|" "" t ∙ ap (String.◌∷◌ "|") (nil-append t)

cut_bar-bar : (s t : String) → unbarred s ≡ true → cut_bar (s bar t) ≡ some (s, t)
unfolding cut_bar
cut_bar-bar String.[] t h = rw (nil-append (concat "|" t), bar_first t) refl
cut_bar-bar (String.◌∷◌ c rest) t h =
    rw (cons-append c rest (concat "|" t)) (ground (arith, cut_bar-bar rest t))

-- A field that holds no bar is read back whatever follows it.
pub split_n-bar :
    (n : ℕ) (s t : String)
    → unbarred s ≡ true
    → split_n (suc (suc n)) (s bar t) ≡ s ∷ split_n (suc n) t
unfolding split_n
split_n-bar n s t h = rw (cut_bar-bar s t h, split_n) refl

pub split_two : (s t : String) → unbarred s ≡ true → split_n 2 (s bar t) ≡ s ∷ t ∷ []
split_two s t h = split_n-bar 0 s t h ∙ unfold split_n in refl

pub split_three :
    (s t u : String)
    → unbarred s ≡ true
    → unbarred t ≡ true
    → split_n 3 (s bar t bar u) ≡ s ∷ t ∷ u ∷ []
split_three s t u h k = split_n-bar 1 s (t bar u) h ∙ ap (s ∷◌) (split_two t u k)
