-- ===== src/Rbac/Splitting.antt =====
-- internal/rbac/defaults.go's `splitPerm` and its inverse.
use Prim.Native.Char.{Char, code}
use Prim.Native.String.{◌++◌ as concat}
use text.Mathlib.TextLemmas.{nil-append, cons-append}
use text.Mathlib.TextEquality.{Char-path}
use mathlib.Core.Path.{ap₂}
use telekube.Base.{
  String, Bool, true, ◌≡◌, refl, sym, ap, ◌∙◌, inl, inr, Bool-cases, ◌&&◌, not, List, [], ◌∷◌,
  nat_beq, arith,
}
use telekube.Rbac.Defaults.{split_perm, onto_head}

-- A text without a dot.
abbrev pub undotted : String → Bool
undotted String.[] = true
undotted (String.◌∷◌ c rest) = not (nat_beq (code c) b'.') && undotted rest

pub split_perm-undotted : (s : String) → undotted s ≡ true → split_perm s ≡ s ∷ []
unfolding split_perm
split_perm-undotted String.[] h = refl
split_perm-undotted (String.◌∷◌ c rest) h = ground (arith, split_perm-undotted rest)

dot_first : (t : String) → concat "." t ≡ String.◌∷◌ "." t
dot_first t = cons-append "." "" t ∙ ap (String.◌∷◌ ".") (nil-append t)

pub split_perm-concat :
    (s t : String) → undotted s ≡ true → split_perm (concat s (concat "." t)) ≡ s ∷ split_perm t
unfolding split_perm
split_perm-concat String.[] t h = rw (nil-append (concat "." t), dot_first t) refl
split_perm-concat (String.◌∷◌ c rest) t h =
    rw (cons-append c rest (concat "." t)) (ground (arith, split_perm-concat rest t))

-- The parts with dots between them.
unfoldable pub join_perm : List String → String
join_perm [] = String.[]
join_perm (part ∷ []) = part
join_perm (part ∷ next ∷ parts) = concat part (concat "." (join_perm (next ∷ parts)))

join_perm-onto_head :
    (c : Char) (parts : List String)
    → join_perm (onto_head c parts) ≡ String.◌∷◌ c (join_perm parts)
unfolding join_perm
join_perm-onto_head c [] = refl
join_perm-onto_head c (part ∷ []) = refl
join_perm-onto_head c (part ∷ next ∷ parts) = cons-append c part _

split_perm-cons : (s : String) → (p : String) × (ps : List String) × (split_perm s ≡ p ∷ ps)
unfolding split_perm
split_perm-cons String.[] = (String.[], [], refl)
split_perm-cons (String.◌∷◌ c rest) =
    let (p, ps, e) = split_perm-cons rest in
    elim (Bool-cases (nat_beq (code c) b'.')) [
      | inl dot ↦ (String.[], split_perm rest, rw dot refl)
      | inr other ↦ (String.◌∷◌ c p, ps, rw (other, e) refl)
    ]

join_perm-dot :
    (ps : List String) (p : String)
    → join_perm (String.[] ∷ p ∷ ps) ≡ String.◌∷◌ "." (join_perm (p ∷ ps))
unfolding join_perm
join_perm-dot ps p = nil-append _ ∙ dot_first _

-- Splitting loses nothing.
pub join_perm-split_perm : (s : String) → join_perm (split_perm s) ≡ s
unfolding split_perm
join_perm-split_perm String.[] = unfold join_perm in refl
join_perm-split_perm (String.◌∷◌ c rest) = elim (Bool-cases (nat_beq (code c) b'.')) [
  | inl dot ↦
      let (p, ps, e) = split_perm-cons rest in
      let is_dot : c ≡ "." = Char-path c "." (ground arith) in
      rw (dot, e)
        (join_perm-dot ps p ∙ ap₂ String.◌∷◌ (sym is_dot) (rw (← e) (join_perm-split_perm rest)))
  | inr other ↦
      rw other
        (join_perm-onto_head c (split_perm rest) ∙ ap (String.◌∷◌ c) (join_perm-split_perm rest))
]
