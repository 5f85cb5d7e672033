-- ===== src/Telegram/Sizes.antt =====
-- How large the parts of SplitMessage of pkg/telegram/format.go get.
use Prim.Native.Char.{code}
use Prim.Native.String.{◌++◌ as concat}
use text.Mathlib.TextLemmas.{nil-append, cons-append}
use telekube.Base.{
  ℕ, ◌+◌, ◌≤◌, String, Bool, true, false, not, ◌≡◌, List, [], ◌∷◌, All, ltb, leb, arith,
  if◌then◌else◌, Bool-cases, inl, inr, nat_keyed,
}
use telekube.Telegram.Splitting.{
  len, split_lines, is_code_fence, is_full, closed, reopened, add_line, split_from, limit,
  split_message,
}

pub len-concat : (s t : String) → len (concat s t) ≡ len s + len t
unfolding len
len-concat String.[] t = rw (nil-append t) (omega arith)
len-concat (String.◌∷◌ c s) t = rw (cons-append c s t, len-concat s t) (omega arith)

len-closed : (current : String) (code : Bool) → len (closed current code) ≤ len current + 4
unfolding len
len-closed current false = omega arith
len-closed current true = rw (len-concat current "\n```") (omega arith)

len-add_line : (current line : String) → len (add_line current line) ≤ len current + 1 + len line
unfolding add_line len
len-add_line current line =
    ground (
      arith,
      len-concat current line,
      len-concat (concat current "\n") line,
      len-concat current "\n",
    )

add_line_empty : (current line : String) → len current ≡ 0 → len (add_line current line) ≡ len line
unfolding add_line
add_line_empty current line e = ground (arith, len-concat current line)

len-reopened : (code : Bool) → len (reopened code) ≤ 4
unfolding len
len-reopened false = omega arith
len-reopened true = omega arith

fits :
    (max_len : ℕ) (current : String) (code : Bool) (line : String)
    → len line + 5 ≤ max_len
    → is_full max_len current code line ≡ false
    → len (add_line current line) ≤ max_len
unfolding is_full
fits max_len current code line short room =
    ground (arith, len-add_line current line, add_line_empty current line)

abbrev IsShort : ℕ → String → Type 0
IsShort max_len line = len line + 5 ≤ max_len

split_from-len :
    (max_len : ℕ) (current : String) (code : Bool) (lines : List String)
    → len current ≤ max_len
    → All (IsShort max_len) lines
    → All (λ part. len part ≤ max_len + 4) (split_from max_len current code lines)
unfolding split_from
split_from-len max_len current code [] small all = elim (Bool-cases (ltb 0 (len current))) [
  | inl some ↦ rw some (omega arith, tt)
  | inr empty ↦ rw empty tt
]
split_from-len max_len current code (line ∷ rest) small (short, all) =
    elim (Bool-cases (is_full max_len current code line)) [
      | inl full ↦ rw full (
        ground (arith, len-closed current code),
        split_from-len max_len (add_line (reopened code) line)
            (if is_code_fence line then not code else code) rest
            (ground (arith, len-add_line (reopened code) line, len-reopened code)) all,
      )
      | inr room ↦ rw room (
          split_from-len max_len (add_line current line)
            (if is_code_fence line then not code else code) rest
            (fits max_len current code line short room) all)
    ]

-- The parts of a message are longer than the limit, 4096 where it is not positive, by no more than the
-- four bytes that close a code block. No line of the text is longer than the limit less five.
pub split_message-len :
    (text : String) (max_len : ℕ)
    → All (IsShort (limit max_len)) (split_lines text)
    → All (λ part. len part ≤ limit max_len + 4) (split_message text max_len)
unfolding split_message len
split_message-len text max_len all = elim (Bool-cases (leb (len text) (limit max_len))) [
  | inl small ↦ rw small (ground arith, tt)
  | inr large ↦
      rw large (split_from-len (limit max_len) "" false (split_lines text) (omega arith) all)
]
