-- ===== src/Text/Utf8.antt =====
-- `std::str::from_utf8` as a machine that reads one byte at a time, and what `str` does with the
-- characters: `trim`, and `eq_ignore_ascii_case` with a lowercase text.
use milk_carton.Base.{
  ℕ, zero, suc, ◌+◌, ◌-◌, ◌*◌, Bool, ◌&&◌, ◌||◌, Option, none, some, List, [], ◌∷◌, Bytes, map, leb,
  ltb, nat_eq, if◌then◌else◌, ◌==◌, ℕ-Eq, List-Eq,
}
use mathlib.Core.List.{reverse}

-- The bytes still to come of a character, the range of the next one, and the bits that are read.
record Pending : Type 0 where
  more : ℕ
  low : ℕ
  high : ℕ
  bits : ℕ

between : ℕ → ℕ → ℕ → Bool
between low high c = leb low c && leb c high

abbrev pending : ℕ → ℕ → ℕ → ℕ → Option Pending
pending more low high bits = some (record { more = more; low = low; high = high; bits = bits })

-- The first byte of a character.
first_byte : ℕ → Option Pending
unfolding between
first_byte b =
    if ltb b 0x80
    then pending 0 0 0 b
    else if between 0xc2 0xdf b
    then pending 1 0x80 0xbf (b - 0xc0)
    else if nat_eq b 0xe0
    then pending 2 0xa0 0xbf 0
    else if nat_eq b 0xed
    then pending 2 0x80 0x9f 13
    else if between 0xe1 0xef b
    then pending 2 0x80 0xbf (b - 0xe0)
    else if nat_eq b 0xf0
    then pending 3 0x90 0xbf 0
    else if between 0xf1 0xf3 b
    then pending 3 0x80 0xbf (b - 0xf0)
    else if nat_eq b 0xf4
    then pending 3 0x80 0x8f 4
    else none

-- A later byte.
next_byte : Pending → ℕ → Option Pending
unfolding between
next_byte p b =
    if between p.low p.high b
    then pending (p.more - 1) 0x80 0xbf (p.bits * 64 + (b - 0x80))
    else none

advance : ℕ → Pending → ℕ → Option Pending
unfolding first_byte next_byte
advance zero p b = first_byte b
advance (suc n) p b = next_byte p b

-- A character goes to the output when its last byte is read.
emit : ℕ → ℕ → List ℕ → List ℕ
emit zero point out = point ∷ out
emit (suc n) point out = out

decode_from : Option Pending → List ℕ → Bytes → Option (List ℕ)
unfolding advance emit
decode_from none out bytes = none
decode_from (some p) out [] = if nat_eq p.more 0 then some (reverse out) else none
decode_from (some p) out (b ∷ bytes) = elim (advance p.more p b) [
  | none ↦ none
  | some q ↦ decode_from (some q) (emit q.more q.bits out) bytes
]

unfoldable pub from_utf8 : Bytes → Option (List ℕ)
unfolding decode_from
from_utf8 bytes = decode_from (pending 0 0 0 0) [] bytes

-- The characters with the property White_Space.
is_white_space : ℕ → Bool
unfolding between
is_white_space c =
    between 9 13 c
    || nat_eq c 0x20
    || nat_eq c 0x85
    || nat_eq c 0xa0
    || nat_eq c 0x1680
    || between 0x2000 0x200a c
    || nat_eq c 0x2028
    || nat_eq c 0x2029
    || nat_eq c 0x202f
    || nat_eq c 0x205f
    || nat_eq c 0x3000

unfoldable pub trim_start : List ℕ → List ℕ
unfolding is_white_space
trim_start [] = []
trim_start (c ∷ text) = let rest = trim_start text in if is_white_space c then rest else c ∷ text

unfoldable pub trim : List ℕ → List ℕ
unfolding trim_start
trim text = reverse (trim_start (reverse (trim_start text)))

unfoldable pub to_ascii_lowercase : ℕ → ℕ
to_ascii_lowercase c = if leb b'A' c && leb c b'Z' then c + 32 else c

-- The first item of `split(separator)`.
unfoldable pub split_first : ℕ → List ℕ → List ℕ
split_first separator [] = []
split_first separator (c ∷ text) =
    let rest = split_first separator text in if nat_eq c separator then [] else c ∷ rest

unfoldable pub eq_ignore_ascii_case : List ℕ → List ℕ → Bool
unfolding to_ascii_lowercase
eq_ignore_ascii_case a b = map to_ascii_lowercase a == map to_ascii_lowercase b
