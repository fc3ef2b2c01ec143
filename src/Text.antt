-- ===== src/Text.antt =====
-- The C strings and byte buffers of src/util/string.h. A string is the list of its bytes before the
-- NUL; a character past the end reads as NUL.
pub mod Hex
use onion_relay.Prelude.{
  ℕ, zero, suc, ◌+◌, ◌-◌, ◌*◌, Bool, true, false, ◌&&◌, Option, none, some, List, [], ◌∷◌, ltb, leb,
  ◌==◌, if◌then◌else◌, length, get_or, min, take,
}

unfoldable pub is_digit : ℕ → Bool
is_digit c = leb b'0' c && leb c b'9'

-- the letter folding of `chrcmp`
unfoldable pub lower : ℕ → ℕ
lower c = if leb b'A' c && leb c b'Z' then c + b'a' - b'A' else c

unfoldable pub chrcmp : ℕ → ℕ → Bool
chrcmp a b = lower a == lower b

unfoldable pub chars_match : List ℕ → List ℕ → ℕ → ℕ → Bool
chars_match s t i zero = true
chars_match s t i (suc n) =
    if chrcmp (get_or s i 0) (get_or t i 0) then chars_match s t (i + 1) n else false

-- `nostr_strncmp`: whether the first `capacity` characters agree up to the case of letters; false
-- for a capacity of 0.
unfoldable pub strncmp : List ℕ → List ℕ → ℕ → Bool
strncmp s t capacity = if capacity == 0 then false else chars_match s t 0 capacity

-- the string at the front of a memory area
unfoldable pub c_string : List ℕ → List ℕ
c_string [] = []
c_string (c ∷ cs) = if c == 0 then [] else c ∷ c_string cs

-- `internal_memcmp(a, b, n) == 0`
unfoldable pub memcmp_eq : List ℕ → List ℕ → ℕ → ℕ → Bool
memcmp_eq a b i zero = true
memcmp_eq a b i (suc n) = if get_or a i 0 == get_or b i 0 then memcmp_eq a b (i + 1) n else false

-- `none` is the -1 of `hex_char_value`.
unfoldable pub hex_char_value : ℕ → Option ℕ
unfolding is_digit
hex_char_value c =
    if is_digit c
    then some (c - b'0')
    else if leb b'a' c && leb c b'f'
    then some (c - b'a' + 10)
    else if leb b'A' c && leb c b'F'
    then some (c - b'A' + 10)
    else none

unfoldable pub hex_pair : ℕ → ℕ → Option ℕ
hex_pair a b = elim (hex_char_value a) [
  | none ↦ none
  | some h ↦ elim (hex_char_value b) [ none ↦ none | some l ↦ some (h * 16 + l) ]
]

abbrev pub cons_byte : Option ℕ → List ℕ → List ℕ
cons_byte none bytes = []
cons_byte (some b) bytes = b ∷ bytes

-- the loop of `hex_to_bytes` from pair `i` on, with `n` pairs left; it stops at a bad pair
unfoldable pub hex_from : List ℕ → ℕ → ℕ → List ℕ
hex_from hex i zero = []
hex_from hex i (suc n) =
    cons_byte (hex_pair (get_or hex (i * 2) 0) (get_or hex (i * 2 + 1) 0)) (hex_from hex (i + 1) n)
