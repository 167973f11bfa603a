-- ===== src/Prelude/Text.antt =====
-- Tests on texts: equality, slices from the start, `str.upper`, as far as it decides whether a text reads "YES", and `str.strip`, as far as it
-- decides whether a text is blank.
use Prim.Native.Nat.{ℕ, zero, suc, ◌-◌, ◌/◌, ◌%◌, ◌^◌, Ordering}
use Prim.Native.String.{String, [], ◌∷◌, ◌++◌, compare, char_at}
use Prim.Native.Char.{Char, code}
use mathlib.Core.Bool.{Bool, true, false, ◌&&◌, ◌||◌}
use xpredict.Prelude.Tests.{leb, ◌==◌, if◌then◌else◌}

-- `a == b` on texts
abbrev pub text_eq : String → String → Bool
text_eq a b = elim (compare a b) [ Ordering.eq ↦ true | _ ↦ false ]

-- `text[:n]`
unfoldable pub first_chars : ℕ → String → String
first_chars zero s = []
first_chars (suc n) [] = []
first_chars (suc n) (c ∷ s) = c ∷ first_chars n s

-- The hexadecimal digit of a number below 16.
abbrev hex_digit : ℕ → Char
hex_digit n = char_at "0123456789abcdef" n

hex_digits : ℕ → ℕ → String
hex_digits zero n = []
hex_digits (suc k) n = hex_digits k (n / 16) ++ (hex_digit (n % 16) ∷ [])

-- `uuid.hex[:6]`
unfoldable pub hex6 : ℕ → String
unfolding hex_digits
hex6 id = hex_digits 6 (id / 16 ^ 26)

-- `bool(text)`
abbrev pub is_text : String → Bool
is_text [] = false
is_text (c ∷ s) = true

-- a-z, and the long s, which `upper` makes an S
upper_code : ℕ → ℕ
upper_code c = if leb 97 c && leb c 122 then c - 32 else if c == 0x17f then 83 else c

is_empty : String → Bool
is_empty [] = true
is_empty (c ∷ s) = false

-- The text goes on with a character that `upper` makes the character `u`.
next_is : ℕ → (String → Bool) → String → Bool
unfolding upper_code
next_is u rest_is [] = false
next_is u rest_is (c ∷ s) = upper_code (code c) == u && rest_is s

-- `label.upper() == "YES"`
unfoldable pub is_yes : String → Bool
unfolding next_is is_empty
is_yes = next_is 89 (next_is 69 (next_is 83 is_empty))

-- `str.isspace`
is_space : ℕ → Bool
is_space c =
    leb 9 c && leb c 13
    || leb 28 c && leb c 32
    || c == 0x85
    || c == 0xa0
    || c == 0x1680
    || leb 0x2000 c && leb c 0x200a
    || leb 0x2028 c && leb c 0x2029
    || c == 0x202f
    || c == 0x205f
    || c == 0x3000

-- `not text or not text.strip()`
unfoldable pub is_blank : String → Bool
unfolding is_space
is_blank [] = true
is_blank (c ∷ s) = is_space (code c) && is_blank s
