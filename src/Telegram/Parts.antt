-- ===== src/Telegram/Parts.antt =====
-- That SplitMessage of pkg/telegram/format.go keeps the text.
use Prim.Native.Char.{code}
use Prim.Native.String.{◌++◌ as concat}
use text.Mathlib.TextLemmas.{nil-append, cons-append, append-nil, append_assoc}
use telekube.Base.{
  ℕ, String, Bool, true, false, not, ◌≡◌, refl, sym, ap, ◌∙◌, List, [], ◌∷◌, ltb, leb, arith,
  if◌then◌else◌, Bool-cases, inl, inr, ◌==◌, nat_keyed, ◌||◌,
}
use telekube.Telegram.Splitting.{
  len, push, split_lines, is_code_fence, is_full, closed, reopened, add_line, split_from, limit,
  split_message,
}

-- The text without its line breaks and back quotes.
unfoldable pub letters : String → String
letters String.[] = ""
letters (String.◌∷◌ c rest) =
    let more = letters rest in if code c == b'\n' || code c == b'`' then more else String.◌∷◌ c more

unfoldable pub joined : List String → String
joined [] = ""
joined (part ∷ parts) = concat part (joined parts)

letters-concat : (s t : String) → letters (concat s t) ≡ concat (letters s) (letters t)
unfolding letters
letters-concat String.[] t = rw (nil-append t, nil-append (letters t)) refl
letters-concat (String.◌∷◌ c s) t = elim (Bool-cases (code c == b'\n' || code c == b'`')) [
  | inl dropped ↦ rw (cons-append c s t, dropped) (letters-concat s t)
  | inr kept ↦
      rw (cons-append c s t, kept)
        (ap (String.◌∷◌ c) (letters-concat s t) ∙ sym (cons-append c (letters s) (letters t)))
]

letters-concat_left : (s t : String) → letters s ≡ "" → letters (concat s t) ≡ letters t
letters-concat_left s t e =
    letters-concat s t ∙ ap (λ u. concat u (letters t)) e ∙ nil-append (letters t)

letters-concat_right : (s t : String) → letters t ≡ "" → letters (concat s t) ≡ letters s
letters-concat_right s t e = letters-concat s t ∙ ap (concat (letters s)) e ∙ append-nil (letters s)

letters-closed : (current : String) (code : Bool) → letters (closed current code) ≡ letters current
unfolding letters
letters-closed current false = refl
letters-closed current true = letters-concat_right current "\n```" refl

letters-reopened : (code : Bool) → letters (reopened code) ≡ ""
unfolding letters
letters-reopened false = refl
letters-reopened true = refl

letters-add_line :
    (current line : String)
    → letters (add_line current line) ≡ concat (letters current) (letters line)
unfolding add_line letters
letters-add_line current line = elim (Bool-cases (ltb 0 (len current))) [
  | inl some ↦ rw some (
      letters-concat (concat current "\n") line
      ∙ ap (λ s. concat s (letters line)) (letters-concat_right current "\n" refl))
  | inr empty ↦ rw empty (letters-concat current line)
]

len_none : (s : String) → ltb 0 (len s) ≡ false → s ≡ ""
unfolding len
len_none String.[] e = refl
len_none (String.◌∷◌ c s) e = ground arith

split_from-letters :
    (max_len : ℕ) (current : String) (code : Bool) (lines : List String)
    → letters (joined (split_from max_len current code lines))
      ≡ concat (letters current) (letters (joined lines))
unfolding split_from joined letters
split_from-letters max_len current code [] = elim (Bool-cases (ltb 0 (len current))) [
  | inl some ↦ rw some (letters-concat current "")
  | inr empty ↦ rw (empty, len_none current empty) (sym (nil-append ""))
]
split_from-letters max_len current code (line ∷ rest) =
    let after = if is_code_fence line then not code else code in
    elim (Bool-cases (is_full max_len current code line)) [
      | inl full ↦
          rw
            (
              full,
              letters-concat (closed current code)
                  (joined (split_from max_len (add_line (reopened code) line) after rest)),
              letters-closed current code,
              split_from-letters max_len (add_line (reopened code) line) after rest,
              letters-add_line (reopened code) line,
              letters-reopened code,
              nil-append (letters line),
              letters-concat line (joined rest),
            )
            refl
      | inr room ↦
          rw
            (
              room,
              split_from-letters max_len (add_line current line) after rest,
              letters-add_line current line,
              letters-concat line (joined rest),
              append_assoc (letters current) (letters line) (letters (joined rest)),
            )
            refl
    ]

joined-push : (c : _) (lines : List String) → joined (push c lines) ≡ String.◌∷◌ c (joined lines)
unfolding joined push
joined-push c [] = cons-append c "" "" ∙ ap (String.◌∷◌ c) (nil-append "")
joined-push c (line ∷ lines) = cons-append c line (joined lines)

split_lines-letters : (text : String) → letters (joined (split_lines text)) ≡ letters text
unfolding split_lines letters joined
split_lines-letters String.[] = letters-concat "" "" ∙ nil-append (letters "")
split_lines-letters (String.◌∷◌ c rest) = elim (Bool-cases (code c == b'\n')) [
  | inl breaks ↦ rw (breaks, nil-append (joined (split_lines rest))) (split_lines-letters rest)
  | inr stays ↦ elim (Bool-cases (code c == b'`')) [
    | inl quote ↦
        rw (stays, quote, joined-push c (split_lines rest), stays, quote) (split_lines-letters rest)
    | inr kept ↦
        rw (stays, kept, joined-push c (split_lines rest), stays, kept)
          (ap (String.◌∷◌ c) (split_lines-letters rest))
  ]
]

letters-concat_nil : (s : String) → concat (letters "") s ≡ s
unfolding letters
letters-concat_nil s = nil-append s

-- The parts of a message hold its text in its order, up to the line breaks and the back quotes.
split_message-letters :
    (text : String) (max_len : ℕ) → letters (joined (split_message text max_len)) ≡ letters text
unfolding split_message joined
split_message-letters text max_len = elim (Bool-cases (leb (len text) (limit max_len))) [
  | inl small ↦ rw (small, append-nil text) refl
  | inr large ↦ rw large (
      split_from-letters (limit max_len) "" false (split_lines text)
      ∙ letters-concat_nil (letters (joined (split_lines text)))
      ∙ split_lines-letters text)
]
