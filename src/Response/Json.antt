-- ===== src/Response/Json.antt =====
-- A reader of JSON strings, as RFC 8259 has them, for escapes of code points below U+0080: what the
-- escapes of a message mean.
use onion_relay.Prelude.{
  ℕ, zero, suc, ◌+◌, ◌-◌, ◌*◌, ◌/◌, ◌%◌, ◌<◌, ◌≡◌, refl, ◌&&◌, ◌||◌, Option, none, some, List, [],
  ◌∷◌, ◌++◌, ltb, leb, ◌==◌, if◌then◌else◌, length, arith, ◌∙◌, ap,
}
use mathlib.Core.List.{append_assoc}
use onion_relay.Response.{escape_char, hex_char}
use onion_relay.Response.Escape.{escape}

unfoldable pub hex_value : ℕ → Option ℕ
hex_value c =
    if leb 48 c && ltb c 58
    then some (c - 48)
    else if leb 97 c && ltb c 103
    then some (c - 87)
    else if leb 65 c && ltb c 71
    then some (c - 55)
    else none

-- four hexadecimal digits
unfoldable pub read_unicode : List ℕ → Option (ℕ × List ℕ)
read_unicode (a ∷ b ∷ c ∷ d ∷ s) = elim (hex_value a) [
  | none ↦ none
  | some w ↦ elim (hex_value b) [
    | none ↦ none
    | some x ↦ elim (hex_value c) [
      | none ↦ none
      | some y ↦ elim (hex_value d) [
        | none ↦ none
        | some z ↦
            let value = ((w * 16 + x) * 16 + y) * 16 + z in
            if ltb value 128 then some (value, s) else none
      ]
    ]
  ]
]
read_unicode _ = none

-- what stands behind a backslash
unfoldable pub read_escape : List ℕ → Option (ℕ × List ℕ)
read_escape [] = none
read_escape (e ∷ s) =
    if e == 34 || e == 92 || e == b'/'
    then some (e, s)
    else if e == b'b'
    then some (8, s)
    else if e == b'f'
    then some (12, s)
    else if e == b'n'
    then some (10, s)
    else if e == b'r'
    then some (13, s)
    else if e == b't'
    then some (9, s)
    else if e == b'u'
    then read_unicode s
    else none

unfoldable pub read_char : List ℕ → Option (ℕ × List ℕ)
read_char [] = none
read_char (c ∷ s) =
    if c == 92 then read_escape s else if ltb c 32 || c == 34 then none else some (c, s)

-- the characters up to the quotation mark that ends the string, and what follows
unfoldable pub json_string : ℕ → List ℕ → Option (List ℕ × List ℕ)
json_string zero s = none
json_string (suc n) [] = none
json_string (suc n) (c ∷ s) = if c == 34 then some ([], s) else elim (read_char (c ∷ s)) [
  | none ↦ none
  | some (x, s') ↦ elim (json_string n s') [ none ↦ none | some (xs, r) ↦ some (x ∷ xs, r) ]
]

hex_value-hex_char : (n : ℕ) → n < 16 → hex_value (hex_char n) ≡ some n
unfolding hex_value hex_char
hex_value-hex_char n h = ground (arith, h)

zero_digit : hex_value b'0' ≡ some 0
unfolding hex_value
zero_digit = refl

unicode_of :
    (y z : ℕ) (s : List ℕ)
    → y < 16
    → z < 16
    → y * 16 + z < 128
    → read_unicode (b'0' ∷ b'0' ∷ hex_char y ∷ hex_char z ∷ s) ≡ some (y * 16 + z, s)
unfolding read_unicode
unicode_of y z s hy hz h =
    ground (arith, h, zero_digit, hex_value-hex_char y hy, hex_value-hex_char z hz)

control_char :
    (c : ℕ) (s : List ℕ)
    → c < 32
    → read_unicode (b'0' ∷ b'0' ∷ hex_char (c / 16 % 16) ∷ hex_char (c % 16) ∷ s) ≡ some (c, s)
control_char c s h =
    unicode_of (c / 16 % 16) (c % 16) s (omega arith) (omega arith) (omega (arith, h))
    ∙ ap (λ n. some (n, s)) (omega (arith, h))

read_char-escape_char : (c : ℕ) (s : List ℕ) → read_char (escape_char c ++ s) ≡ some (c, s)
unfolding read_char read_escape escape_char
read_char-escape_char c s = ground (arith, control_char c s)

json_next :
    (n c : ℕ) (s xs r : List ℕ)
    → read_char (escape_char c ++ s) ≡ some (c, s)
    → json_string n s ≡ some (xs, r)
    → json_string (suc n) (escape_char c ++ s) ≡ some (c ∷ xs, r)
unfolding json_string escape_char
json_next n c s xs r h e = ground (arith, h, e)

-- The reader gives back from an escaped text, in front of a quotation mark, the text and what follows,
-- with fuel for its characters and the quotation mark.
pub json_string-escape :
    (text rest : List ℕ)
    → json_string (length text + 1) (escape text ++ (34 ∷ rest)) ≡ some (text, rest)
unfolding escape
json_string-escape [] rest = unfold json_string in refl
json_string-escape (c ∷ text) rest =
    ap (json_string (length (c ∷ text) + 1))
      (append_assoc (escape_char c) (escape text) (34 ∷ rest))
    ∙ ap (λ n. json_string n (escape_char c ++ (escape text ++ (34 ∷ rest)))) (omega arith)
    ∙ json_next (length text + 1) c (escape text ++ (34 ∷ rest)) text rest
        (read_char-escape_char c (escape text ++ (34 ∷ rest))) (json_string-escape text rest)
