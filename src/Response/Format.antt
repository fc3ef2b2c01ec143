-- ===== src/Response/Format.antt =====
-- The texts of the messages, as NIP-01 and RFC 8259 have them. A text ends with what follows it, `rest`.
use onion_relay.Prelude.{
  ℕ, zero, suc, ◌+◌, ◌-◌, ◌/◌, ◌%◌, ◌^◌, Bool, true, false, Option, none, some, List, [], ◌∷◌, ◌++◌,
  if◌then◌else◌, ltb, ◌==◌, get_or, take,
}
use onion_relay.Filter.{TagEntity}
use onion_relay.Response.Event.{FullEvent}

-- the characters that have a short escape, with its letter
abbrev short_escapes : List (ℕ × ℕ)
short_escapes =
    (34, 34) ∷ (92, 92) ∷ (8, b'b') ∷ (9, b't') ∷ (10, b'n') ∷ (12, b'f') ∷ (13, b'r') ∷ []

abbrev find_letter : ℕ → List (ℕ × ℕ) → Option ℕ
find_letter c [] = none
find_letter c ((d, letter) ∷ rest) = if c == d then some letter else find_letter c rest

abbrev pub hex_digits : List ℕ
hex_digits =
    b'0' ∷ b'1' ∷ b'2' ∷ b'3' ∷ b'4' ∷ b'5' ∷ b'6' ∷ b'7' ∷ b'8' ∷ b'9' ∷ b'a' ∷ b'b' ∷ b'c' ∷ b'd'
    ∷ b'e' ∷ b'f' ∷ []

-- a character of a JSON string
unfoldable pub json_char : ℕ → List ℕ
json_char c = elim (find_letter c short_escapes) [
  | some letter ↦ 92 ∷ letter ∷ []
  | none ↦
      if ltb c 32
      then 92 ∷ b'u' ∷ 48 ∷ 48 ∷ get_or hex_digits (c / 16) 0 ∷ get_or hex_digits (c % 16) 0 ∷ []
      else c ∷ []
]

unfoldable pub json_text : List ℕ → List ℕ
json_text [] = []
json_text (c ∷ cs) = json_char c ++ json_text cs

-- a number in decimal digits, the first one first, of `n` digits at most
unfoldable pub decimal_digits : ℕ → ℕ → List ℕ
decimal_digits zero value = []
decimal_digits (suc n) value =
    let front = decimal_digits n (value / 10) in
    if ltb value 10 then (48 + value) ∷ [] else front ++ ((48 + value % 10) ∷ [])

abbrev pub decimal_text : ℕ → List ℕ
decimal_text value = decimal_digits 20 value

-- the number of which `value` is the 64-bit pattern
abbrev pub signed_text : ℕ → List ℕ
signed_text value =
    if ltb value (2 ^ 63) then decimal_text value else b'-' ∷ decimal_text (2 ^ 64 - value)

-- no message is an empty one
abbrev pub message_text : Option (List ℕ) → List ℕ → List ℕ
message_text none rest = rest
message_text (some message) rest = json_text message ++ rest

-- `["EOSE","…"]`
abbrev pub eose_text : List ℕ → List ℕ
eose_text subscription_id =
    (b'[' ∷ 34 ∷ b'E' ∷ b'O' ∷ b'S' ∷ b'E' ∷ 34 ∷ b',' ∷ 34 ∷ [])
    ++ (json_text subscription_id ++ (34 ∷ b']' ∷ []))

abbrev pub truth_text : Bool → List ℕ
truth_text true = b't' ∷ b'r' ∷ b'u' ∷ b'e' ∷ []
truth_text false = b'f' ∷ b'a' ∷ b'l' ∷ b's' ∷ b'e' ∷ []

-- `["OK","…",true,"…"]`
abbrev pub ok_text : List ℕ → Bool → Option (List ℕ) → List ℕ
ok_text event_id success message =
    (b'[' ∷ 34 ∷ b'O' ∷ b'K' ∷ 34 ∷ b',' ∷ 34 ∷ [])
    ++ (json_text event_id
        ++ ((34 ∷ b',' ∷ [])
            ++ (truth_text success ++ ((b',' ∷ 34 ∷ []) ++ message_text message (34 ∷ b']' ∷ [])))))

-- `["NOTICE","…"]`
abbrev pub notice_text : List ℕ → List ℕ
notice_text message =
    (b'[' ∷ 34 ∷ b'N' ∷ b'O' ∷ b'T' ∷ b'I' ∷ b'C' ∷ b'E' ∷ 34 ∷ b',' ∷ 34 ∷ [])
    ++ (json_text message ++ (34 ∷ b']' ∷ []))

-- `["CLOSED","…","…"]`
abbrev pub closed_text : List ℕ → Option (List ℕ) → List ℕ
closed_text subscription_id message =
    (b'[' ∷ 34 ∷ b'C' ∷ b'L' ∷ b'O' ∷ b'S' ∷ b'E' ∷ b'D' ∷ 34 ∷ b',' ∷ 34 ∷ [])
    ++ (json_text subscription_id
        ++ ((34 ∷ b',' ∷ 34 ∷ []) ++ message_text message (34 ∷ b']' ∷ [])))

abbrev pub values_text : List (List ℕ) → List ℕ → List ℕ
values_text [] rest = rest
values_text (value ∷ values) rest =
    (b',' ∷ 34 ∷ []) ++ (json_text value ++ ((34 ∷ []) ++ values_text values rest))

-- `["key","value",…]`
abbrev pub tag_text : TagEntity → List ℕ → List ℕ
tag_text tag rest =
    (b'[' ∷ 34 ∷ [])
    ++ (json_text tag.key
        ++ ((34 ∷ []) ++ values_text (take tag.item_count tag.values) ((b']' ∷ []) ++ rest)))

abbrev pub next_tags_text : List TagEntity → List ℕ → List ℕ
next_tags_text [] rest = rest
next_tags_text (tag ∷ tags) rest = (b',' ∷ []) ++ tag_text tag (next_tags_text tags rest)

-- the tags with commas between them
abbrev pub tags_text : List TagEntity → List ℕ → List ℕ
tags_text [] rest = rest
tags_text (tag ∷ tags) rest = tag_text tag (next_tags_text tags rest)

abbrev pub tag_list_text : List TagEntity → List ℕ
tag_list_text tags = (b'[' ∷ []) ++ tags_text tags ((b']' ∷ []) ++ [])

-- `["EVENT","…",{"id":"…","pubkey":"…","created_at":…,"kind":…,"tags":…,"content":"…","sig":"…"}]`
abbrev pub event_text : List ℕ → FullEvent → List ℕ
event_text subscription_id event =
    let e = event.entity in
    (b'[' ∷ 34 ∷ b'E' ∷ b'V' ∷ b'E' ∷ b'N' ∷ b'T' ∷ 34 ∷ b',' ∷ 34 ∷ [])
    ++ (json_text subscription_id
        ++ ((34 ∷ b',' ∷ b'{' ∷ [])
            ++ ((34 ∷ b'i' ∷ b'd' ∷ 34 ∷ b':' ∷ 34 ∷ [])
                ++ (e.id
                    ++ ((34 ∷ b',' ∷ [])
                        ++ ((34 ∷ b'p' ∷ b'u' ∷ b'b' ∷ b'k' ∷ b'e' ∷ b'y' ∷ 34 ∷ b':' ∷ 34 ∷ [])
                            ++ (e.pubkey
                                ++ ((34 ∷ b',' ∷ [])
                                    ++ ((34 ∷ b'c' ∷ b'r' ∷ b'e' ∷ b'a' ∷ b't' ∷ b'e' ∷ b'd' ∷ b'_'
                                          ∷ b'a' ∷ b't' ∷ 34 ∷ b':' ∷ [])
                                        ++ (signed_text e.created_at
                                            ++ ((b',' ∷ [])
                                                ++ ((34 ∷ b'k' ∷ b'i' ∷ b'n' ∷ b'd' ∷ 34 ∷ b':'
                                                      ∷ [])
                                                    ++ (decimal_text e.kind
                                                        ++ ((b',' ∷ [])
                                                            ++ ((34 ∷ b't' ∷ b'a' ∷ b'g' ∷ b's' ∷ 34
                                                            ∷ b':' ∷ [])
                                                            ++ (tag_list_text
                                                            (take e.tag_count e.tags)
                                                            ++ ((b',' ∷ [])
                                                            ++ ((34 ∷ b'c' ∷ b'o' ∷ b'n' ∷ b't'
                                                            ∷ b'e' ∷ b'n' ∷ b't' ∷ 34 ∷ b':' ∷ 34
                                                            ∷ [])
                                                            ++ (json_text event.content
                                                            ++ ((34 ∷ b',' ∷ [])
                                                            ++ ((34 ∷ b's' ∷ b'i' ∷ b'g' ∷ 34 ∷ b':'
                                                            ∷ 34 ∷ [])
                                                            ++ (event.sig
                                                            ++ ((34 ∷ [])
                                                            ++ ((b'}' ∷ b']' ∷ [])
                                                            ++ []))))))))))))))))))))))))
