-- ===== src/Text.antt =====
-- The methods of Python's `str` that the program uses, on the characters of a text.

use Prim.Native.String.{◌∷◌}
use Prim.Native.Char.{Char, code}
use formshift_server.Prelude.{
  suc, zero, ◌+◌, ◌-◌, ◌*◌, ℕ, String, Bool, true, false, not, ◌&&◌, ◌||◌, Option, none, some, ◌==◌,
  leb, ltb, nat_eq, string_eq, if◌then◌else◌,
}

-- `str.isspace` of one character.
unfoldable pub is_space : Char → Bool
is_space c =
    let n = code c in
    (leb 9 n && leb n 13)
    || ((leb 28 n && leb n 32)
        || ((n == 133)
            || ((n == 160)
                || ((n == 5760)
                    || ((leb 8192 n && leb n 8202)
                        || ((n == 8232)
                            || ((n == 8233) || ((n == 8239) || ((n == 8287) || (n == 12288))))))))))

unfoldable pub trim_start : String → String
trim_start String.[] = String.[]
trim_start (c ∷ s) = let rest = trim_start s in if is_space c then rest else c ∷ s

unfoldable pub is_blank : String → Bool
is_blank String.[] = true
is_blank (c ∷ s) = is_space c && is_blank s

unfoldable pub trim_end : String → String
unfolding is_blank
trim_end String.[] = String.[]
trim_end (c ∷ s) = let rest = trim_end s in if is_space c && is_blank s then String.[] else c ∷ rest

-- `s.strip()`
unfoldable pub strip : String → String
unfolding trim_start trim_end
strip s = trim_end (trim_start s)

-- `c in s`
unfoldable pub has_char : ℕ → String → Bool
has_char n String.[] = false
has_char n (c ∷ s) = (code c == n) || has_char n s

-- `s.split(c, 1)[0]`
unfoldable pub before : ℕ → String → String
before n String.[] = String.[]
before n (c ∷ s) = let rest = before n s in if code c == n then String.[] else c ∷ rest

-- What follows the first `c`: the last part of `s.partition(c)`.
unfoldable pub after : ℕ → String → String
after n String.[] = String.[]
after n (c ∷ s) = let rest = after n s in if code c == n then s else rest

-- `s.rsplit(c, 1)[0]`
unfoldable pub before_last : ℕ → String → String
unfolding has_char
before_last n String.[] = String.[]
before_last n (c ∷ s) =
    let rest = before_last n s in
    if (code c == n) && not (has_char n s) then String.[] else c ∷ rest

-- The text behind a prefix, where `s.startswith(prefix)`.
unfoldable pub behind : String → String → Option String
behind String.[] s = some s
behind (p ∷ ps) String.[] = none
behind (p ∷ ps) (c ∷ s) = let rest = behind ps s in if code p == code c then rest else none

-- `s.isascii()`
unfoldable pub is_ascii : String → Bool
is_ascii String.[] = true
is_ascii (c ∷ s) = ltb (code c) 128 && is_ascii s

-- `len(s)`
unfoldable pub text_length : String → ℕ
text_length String.[] = 0
text_length (c ∷ s) = suc (text_length s)

-- `s[n:]`
unfoldable pub drop_chars : ℕ → String → String
drop_chars zero s = s
drop_chars (suc n) String.[] = String.[]
drop_chars (suc n) (c ∷ s) = drop_chars n s

-- `s[:n]`
unfoldable pub take_chars : ℕ → String → String
take_chars zero s = String.[]
take_chars (suc n) String.[] = String.[]
take_chars (suc n) (c ∷ s) = c ∷ take_chars n s

-- `c in "0123456789abcdefABCDEF"`, for one character.
abbrev pub is_hex_digit : Char → Bool
is_hex_digit c =
    let n = code c in (leb 48 n && leb n 57) || ((leb 97 n && leb n 102) || (leb 65 n && leb n 70))

unfoldable pub all_hex : String → Bool
all_hex String.[] = true
all_hex (c ∷ s) = is_hex_digit c && all_hex s

-- The value of a hexadecimal digit.
abbrev pub hex_digit : Char → ℕ
hex_digit c = let n = code c in if leb n 57 then n - 48 else (if leb n 70 then n - 55 else n - 87)

unfoldable pub hex_from : ℕ → String → ℕ
hex_from value String.[] = value
hex_from value (c ∷ s) = hex_from (value * 16 + hex_digit c) s

-- `int(s, 16)`, of hexadecimal digits.
unfoldable pub int_hex : String → ℕ
unfolding hex_from
int_hex s = hex_from 0 s
