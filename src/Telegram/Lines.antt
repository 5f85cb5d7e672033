-- ===== src/Telegram/Lines.antt =====
-- That SplitMessage of pkg/telegram/format.go keeps the lines of a text without code blocks.
use Prim.Native.Char.{Char, code}
use Prim.Native.String.{◌++◌ as concat}
use text.Mathlib.TextLemmas.{nil-append, cons-append, append-nil, append_assoc}
use telekube.Base.{
  ℕ, String, true, false, ◌≡◌, refl, sym, ap, ◌∙◌, List, [], ◌∷◌, All, leb, ltb, ◌==◌, nat_keyed,
  Bool-cases, inl, inr, arith,
}
use text.Mathlib.TextEquality.{Char-path}
use telekube.Telegram.Sizes.{len-concat}
use telekube.Telegram.Splitting.{
  len, push, split_lines, is_code_fence, is_full, add_line, split_from, limit, split_message,
}

-- The texts, each behind a line break.
abbrev pub behind_breaks : List String → String
behind_breaks [] = ""
behind_breaks (x ∷ xs) = concat "\n" (concat x (behind_breaks xs))

-- strings.Join(texts, "\n")
abbrev pub join_lines : List String → String
join_lines [] = ""
join_lines (x ∷ xs) = concat x (behind_breaks xs)

-- No line is empty or begins or ends a code block.
abbrev pub IsPlain : List String → Type 0
IsPlain lines = All (λ line. (ltb 0 (len line) ≡ true) × (is_code_fence line ≡ false)) lines

len_added :
    (current line : String)
    → ltb 0 (len current) ≡ true
    → ltb 0 (len (concat (concat current "\n") line)) ≡ true
unfolding len
len_added current line h =
    ground (arith, len-concat (concat current "\n") line, len-concat current "\n")

add_line_first : (line : String) → add_line "" line ≡ line
unfolding add_line len
add_line_first line = nil-append line

first_fits : (max_len : ℕ) (line : String) → is_full max_len "" false line ≡ false
unfolding is_full len
first_fits max_len line = ground arith

add_line_more :
    (current line : String)
    → ltb 0 (len current) ≡ true
    → add_line current line ≡ concat (concat current "\n") line
unfolding add_line
add_line_more current line some = rw (add_line, some) refl

regroup :
    (s t u : String) → concat (concat (concat s "\n") t) u ≡ concat s (concat "\n" (concat t u))
regroup s t u = append_assoc (concat s "\n") t u ∙ append_assoc s "\n" (concat t u)

split_from-lines :
    (max_len : ℕ) (current : String) (lines : List String)
    → ltb 0 (len current) ≡ true
    → IsPlain lines
    → (behind_breaks (split_from max_len current false lines)
        ≡ concat "\n" (concat current (behind_breaks lines)))
      × (join_lines (split_from max_len current false lines) ≡ concat current (behind_breaks lines))
unfolding split_from
split_from-lines max_len current [] some plain = rw (split_from, some) (refl, refl)
split_from-lines max_len current (line ∷ rest) some plain =
    elim (Bool-cases (is_full max_len current false line)) [
      | inl full ↦
          let later = split_from-lines max_len line rest plain.0.0 plain.1 in
          rw (split_from, full, plain.0.1, add_line_first line, later.0) (refl, refl)
      | inr room ↦
          let later =
            split_from-lines max_len (concat (concat current "\n") line) rest
              (len_added current line some) plain.1 in
          let same = regroup current line (behind_breaks rest) in
          rw (split_from, room, plain.0.1, add_line_more current line some, later.0, later.1)
            (ap (concat "\n") same, same)
    ]

newline : (c : Char) → (code c == b'\n') ≡ true → String.◌∷◌ c "" ≡ "\n"
newline c h = ap (λ d. String.◌∷◌ d "") (Char-path c "\n" ((nat_keyed.same_iff (code c) b'\n').0 h))

push-behind :
    (c : Char) (lines : List String)
    → behind_breaks (push c lines) ≡ concat "\n" (join_lines (push c lines))
unfolding push
push-behind c [] = refl
push-behind c (line ∷ lines) = refl

push-join :
    (c : Char) (lines : List String) → join_lines (push c lines) ≡ String.◌∷◌ c (join_lines lines)
unfolding push
push-join c [] = cons-append c "" "" ∙ ap (String.◌∷◌ c) (nil-append "")
push-join c (line ∷ lines) = cons-append c line (behind_breaks lines)

-- The first line begins the first part.
split_from_start :
    (max_len : ℕ) (lines : List String)
    → IsPlain lines
    → join_lines (split_from max_len "" false lines) ≡ join_lines lines
unfolding split_from is_full len
split_from_start max_len [] plain = refl
split_from_start max_len (line ∷ rest) plain =
    rw (split_from, first_fits max_len line, plain.0.1, add_line_first line)
      (split_from-lines max_len line rest plain.0.0 plain.1).1

-- The lines of a text are there, and with their breaks they are the text.
split_lines-lines :
    (text : String)
    → (behind_breaks (split_lines text) ≡ concat "\n" (join_lines (split_lines text)))
      × (join_lines (split_lines text) ≡ text)
unfolding split_lines push
split_lines-lines String.[] = (refl, nil-append "")
split_lines-lines (String.◌∷◌ c rest) =
    let (behind, same) = split_lines-lines rest in
    elim (Bool-cases (code c == b'\n')) [
      | inl breaks ↦
          rw (split_lines, breaks)
            (
              refl,
              nil-append _
                  ∙ behind
                  ∙ ap (concat "\n") same
                  ∙ ap (λ s. concat s rest) (sym (newline c breaks))
                  ∙ cons-append c "" rest
                  ∙ ap (String.◌∷◌ c) (nil-append rest),
            )
      | inr stays ↦
          rw (split_lines, stays)
            (
              push-behind c (split_lines rest),
              push-join c (split_lines rest) ∙ ap (String.◌∷◌ c) same,
            )
    ]

-- A text with no empty line and no code block is its parts, joined by line breaks: nothing is lost, added
-- or moved, whatever the limit is.
pub split_message-lines :
    (text : String) (max_len : ℕ)
    → IsPlain (split_lines text)
    → join_lines (split_message text max_len) ≡ text
unfolding split_message
split_message-lines text max_len plain = elim (Bool-cases (leb (len text) (limit max_len))) [
  | inl small ↦ rw (split_message, small) (append-nil text)
  | inr large ↦
      rw (split_message, large)
        (split_from_start (limit max_len) (split_lines text) plain ∙ (split_lines-lines text).1)
]
