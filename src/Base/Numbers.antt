-- ===== src/Base/Numbers.antt =====
-- fmt.Sscanf with "%d" into an int64, on the texts of buttons: blanks, a sign and decimal digits. What
-- follows the digits is not read. And "%d" of fmt.Sprintf.
pub mod RoundTrip
use Prim.Native.Char.{Char, code}
use Prim.Native.String.{◌++◌ as concat}
use telekube.Base.{
  zero, suc, ◌/◌, List, [], ◌∷◌, ℕ, ◌+◌, ◌-◌, ◌*◌, ◌%◌, ◌^◌, String, Bool, true, false, ◌&&◌, ◌||◌,
  Option, none, some, leb, ltb, ◌==◌, nat_keyed, if◌then◌else◌,
}

abbrev pub is_digit : Char → Bool
is_digit c = leb b'0' (code c) && leb (code c) b'9'

-- The number of the digits read so far and those that follow.
unfoldable pub scan_digits : String → ℕ → Bool → Option ℕ
scan_digits String.[] n found = if found then some n else none
scan_digits (String.◌∷◌ c rest) n found =
    let more = scan_digits rest (n * 10 + (code c - b'0')) true in
    if is_digit c then more else if found then some n else none

-- The bit pattern of an int64, if the number fits.
unfoldable pub positive : Option ℕ → Option ℕ
positive none = none
positive (some n) = if ltb n (2 ^ 63) then some n else none

unfoldable pub negative : Option ℕ → Option ℕ
negative none = none
negative (some n) = if leb n (2 ^ 63) then some ((2 ^ 64 - n) % 2 ^ 64) else none

unfoldable pub scan_int : String → Option ℕ
unfolding scan_digits positive negative
scan_int String.[] = none
scan_int (String.◌∷◌ c rest) =
    let later = scan_int rest in
    if code c == b' ' || code c == b'\t'
    then later
    else if code c == b'-'
    then negative (scan_digits rest 0 false)
    else if code c == b'+'
    then positive (scan_digits rest 0 false)
    else positive (scan_digits (String.◌∷◌ c rest) 0 false)

unfoldable pub digit_of : List String → ℕ → String
digit_of [] n = ""
digit_of (d ∷ rest) zero = d
digit_of (d ∷ rest) (suc n) = digit_of rest n

abbrev pub decimal : List String
decimal = "0" ∷ "1" ∷ "2" ∷ "3" ∷ "4" ∷ "5" ∷ "6" ∷ "7" ∷ "8" ∷ "9" ∷ []

-- The decimal text of an int64 given by its bit pattern; twenty digits are enough.
unfoldable pub digits : ℕ → ℕ → String → String
unfolding digit_of
digits zero n text = text
digits (suc fuel) n text =
    let text' = concat (digit_of decimal (n % 10)) text in
    let more = digits fuel (n / 10) text' in if ltb n 10 then text' else more

unfoldable pub print_int : ℕ → String
unfolding digits
print_int n = if ltb n (2 ^ 63) then digits 20 n "" else concat "-" (digits 20 (2 ^ 64 - n) "")
