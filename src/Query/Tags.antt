-- ===== src/Query/Tags.antt =====
-- The serialised tags of a stored event: a count of tags in two bytes, and for each tag the number of
-- its values, the length of its name, the name, and each value after its length in two bytes.
use onion_relay.Prelude.{
  none, some, ◌==◌, take, ℕ, ◌/◌, ◌%◌, ◌^◌, ◌<◌, Bool, true, false, ◌&&◌, List, [], ◌∷◌, ◌++◌,
  if◌then◌else◌, length, any, All,
}
use onion_relay.Text.{memcmp_eq}
use onion_relay.Query.{DbFilterTag, Scan, name_is, db_value_matches, bin_from, until_zero}

pub record Tag : Type 0 where
  pub name : List ℕ
  pub values : List (List ℕ)

pub two_bytes : ℕ → List ℕ → List ℕ
two_bytes n rest = n % 256 ∷ n / 256 ∷ rest

pub encode_values : List (List ℕ) → List ℕ
encode_values [] = []
encode_values (v ∷ vs) = two_bytes (length v) (v ++ encode_values vs)

pub encode_tags : List Tag → List ℕ
encode_tags [] = []
encode_tags (t ∷ ts) =
    length t.values ∷ length t.name ∷ (t.name ++ (encode_values t.values ++ encode_tags ts))

pub encode : List Tag → List ℕ
encode ts = two_bytes (length ts) (encode_tags ts)

-- a length that fits into two bytes
abbrev pub IsShort : List ℕ → Type 0
IsShort v = length v < 2 ^ 16

first_matches : DbFilterTag → List (List ℕ) → Bool
first_matches ftag [] = false
first_matches ftag (v ∷ vs) = any (db_value_matches ftag v) ftag.values

-- whether a tag has the filter's name and a first value that the filter lists
loop_matches : DbFilterTag → Tag → Bool
loop_matches ftag t = name_is ftag t.name && first_matches ftag t.values

-- the name is one byte, that of the filter
unfoldable pub is_named : ℕ → List ℕ → Bool
is_named name [] = false
is_named name (c ∷ []) = c == name
is_named name (c ∷ d ∷ rest) = false

-- both texts have the same bytes
unfoldable pub is_same_text : List ℕ → List ℕ → Bool
is_same_text [] [] = true
is_same_text [] (b ∷ bs) = false
is_same_text (a ∷ xs) [] = false
is_same_text (a ∷ xs) (b ∷ bs) = if a == b then is_same_text xs bs else false

-- 64 hexadecimal digits that stand for the 32 bytes
abbrev pub is_hex_of : List ℕ → List ℕ → Bool
is_hex_of wanted v =
    length v == 64 && elim (bin_from v) [ none ↦ false | some bytes ↦ memcmp_eq bytes wanted 0 32 ]

-- A tag e or p has the bytes of the filter in hexadecimal digits, any other one has its text, which
-- ends at the first zero.
unfoldable pub is_wanted : ℕ → List ℕ → List ℕ → Bool
is_wanted name v wanted =
    if name == b'e'
    then is_hex_of wanted v
    else if name == b'p'
    then is_hex_of wanted v
    else is_same_text v (until_zero (take 32 wanted))

abbrev pub is_first_wanted : DbFilterTag → List (List ℕ) → Bool
is_first_wanted ftag [] = false
is_first_wanted ftag (v ∷ vs) = any (is_wanted ftag.name v) ftag.values

-- whether a tag has the filter's name and a first value that the filter lists
abbrev pub tag_matches : DbFilterTag → Tag → Bool
tag_matches ftag t = is_named ftag.name t.name && is_first_wanted ftag t.values

-- a tag whose counts and lengths fit into their fields
abbrev pub IsEncodable : Tag → Type 0
IsEncodable t = (length t.values < 256) × (length t.name < 256) × All IsShort t.values

after : DbFilterTag → Bool → List (List ℕ) → List ℕ → Scan
after ftag wanted vs rest = if wanted && first_matches ftag vs then Scan.matched else Scan.at rest
