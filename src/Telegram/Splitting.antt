-- ===== src/Telegram/Splitting.antt =====
-- SplitMessage of pkg/telegram/format.go. A text is the list of its code points, without invalid UTF-8;
-- `len` counts the bytes of their encoding.
use Prim.Native.Char.{Char, code}
use Prim.Native.String.{◌++◌ as concat}
use telekube.Base.{
  ℕ, zero, suc, ◌+◌, String, Bool, true, false, not, ◌&&◌, ◌||◌, List, [], ◌∷◌, leb, ltb, ◌==◌,
  nat_keyed, if◌then◌else◌,
}

abbrev pub utf8_len : Char → ℕ
utf8_len c =
    if ltb (code c) 128
    then 1
    else if ltb (code c) 2048
    then 2
    else if ltb (code c) 65536
    then 3
    else 4

unfoldable pub len : String → ℕ
len String.[] = 0
len (String.◌∷◌ c rest) = utf8_len c + len rest

-- strings.Split(text, "\n")
unfoldable pub push : Char → List String → List String
push c [] = String.◌∷◌ c "" ∷ []
push c (line ∷ lines) = String.◌∷◌ c line ∷ lines

unfoldable pub split_lines : String → List String
unfolding push
split_lines String.[] = "" ∷ []
split_lines (String.◌∷◌ c rest) =
    let lines = split_lines rest in if code c == b'\n' then "" ∷ lines else push c lines

-- unicode.IsSpace
unfoldable pub is_space : Char → Bool
is_space c =
    let n = code c in
    (leb 9 n && leb n 13)
    || n == 32
    || n == 133
    || n == 160
    || n == 5760
    || (leb 8192 n && leb n 8202)
    || n == 8232
    || n == 8233
    || n == 8239
    || n == 8287
    || n == 12288

-- strings.HasPrefix(strings.TrimSpace(line), "```"): what is trimmed at the end is no back quote.
unfoldable pub has_quotes : ℕ → String → Bool
has_quotes zero s = true
has_quotes (suc n) String.[] = false
has_quotes (suc n) (String.◌∷◌ c rest) = code c == b'`' && has_quotes n rest

unfoldable pub is_code_fence : String → Bool
unfolding has_quotes is_space
is_code_fence String.[] = false
is_code_fence (String.◌∷◌ c rest) =
    let trimmed = is_code_fence rest in
    if is_space c then trimmed else has_quotes 3 (String.◌∷◌ c rest)

abbrev pub closing_overhead : Bool → ℕ
closing_overhead in_code_block = if in_code_block then 4 else 0

-- Whether the line starts a new part.
unfoldable pub is_full : ℕ → String → Bool → String → Bool
is_full max_len current in_code_block line =
    ltb max_len (len current + (len line + 1) + closing_overhead in_code_block)
    && ltb 0 (len current)

abbrev pub closed : String → Bool → String
closed current in_code_block = if in_code_block then concat current "\n```" else current

abbrev pub reopened : Bool → String
reopened in_code_block = if in_code_block then "```\n" else ""

unfoldable pub add_line : String → String → String
add_line current line =
    if ltb 0 (len current) then concat (concat current "\n") line else concat current line

-- The loop over the lines, with the part that is being written; the parts come out in their order.
unfoldable pub split_from : ℕ → String → Bool → List String → List String
unfolding is_full add_line is_code_fence
split_from max_len current in_code_block [] = if ltb 0 (len current) then current ∷ [] else []
split_from max_len current in_code_block (line ∷ rest) =
    let after = if is_code_fence line then not in_code_block else in_code_block in
    let same = split_from max_len (add_line current line) after rest in
    let next = split_from max_len (add_line (reopened in_code_block) line) after rest in
    if is_full max_len current in_code_block line then closed current in_code_block ∷ next else same

-- A `max_len` that is not positive is 0 here, as in the source's argument.
abbrev pub limit : ℕ → ℕ
limit max_len = if max_len == 0 then 4096 else max_len

unfoldable pub split_message : String → ℕ → List String
unfolding split_from split_lines
split_message text max_len =
    if leb (len text) (limit max_len)
    then text ∷ []
    else split_from (limit max_len) "" false (split_lines text)
