-- ===== src/Response.antt =====
-- src/nostr/response/nostr_response.c: the messages to the client. A string is the list of its bytes
-- before the zero that ends it, and a buffer the list of its bytes. A write outside the buffer has no
-- result.
pub mod Cursor
pub mod Copy
pub mod Escape
pub mod Format
pub mod Parts
pub mod Message
pub mod Event
pub mod Json
pub mod Decimal
use onion_relay.Prelude.{
  ℕ, zero, suc, ◌+◌, ◌-◌, ◌*◌, ◌/◌, ◌%◌, ◌^◌, Bool, true, false, ◌&&◌, ◌||◌, Option, none, some,
  List, [], ◌∷◌, ◌++◌, ltb, leb, ◌==◌, if◌then◌else◌, length, set, take,
}

-- a function that writes to a buffer at an offset: its result, and the buffer
abbrev pub Writer : Type 0
Writer = List ℕ → ℕ → Option (ℕ × List ℕ)

-- dest[i] = c
unfoldable pub put : List ℕ → ℕ → ℕ → Option (List ℕ)
put dest i c = if ltb i (length dest) then some (set dest i c) else none

unfoldable pub copy_loop : List ℕ → (last : ℕ) → ℕ → List ℕ → Option (List ℕ)
copy_loop dest last i [] = some dest
copy_loop dest last i (c ∷ src) =
    let more : Option (List ℕ) = elim (put dest i c) [
      | none ↦ none
      | some d ↦ copy_loop d last (i + 1) src
    ] in
    if ltb i last then more else some dest

unfoldable pub safe_copy : ℕ → List ℕ → Writer
safe_copy capacity src dest offset =
    if leb capacity offset
    then some (length src, dest)
    else elim (copy_loop dest (capacity - 1) offset src) [
      | none ↦ none
      | some d ↦ some (length src, d)
    ]

-- 34 is the quotation mark and 92 the backslash.
unfoldable pub escape_char_len : ℕ → ℕ
escape_char_len c =
    if c == 34 || c == 92 || c == 8 || c == 12 || c == 10 || c == 13 || c == 9
    then 2
    else if ltb c 32
    then 6
    else 1

unfoldable pub hex_char : ℕ → ℕ
hex_char n = if ltb n 10 then 48 + n else 87 + n

-- the bytes that are written for `c`
unfoldable pub escape_char : ℕ → List ℕ
escape_char c =
    if c == 34 || c == 92
    then 92 ∷ c ∷ []
    else if c == 8
    then 92 ∷ b'b' ∷ []
    else if c == 12
    then 92 ∷ b'f' ∷ []
    else if c == 10
    then 92 ∷ b'n' ∷ []
    else if c == 13
    then 92 ∷ b'r' ∷ []
    else if c == 9
    then 92 ∷ b't' ∷ []
    else if ltb c 32
    then 92 ∷ b'u' ∷ b'0' ∷ b'0' ∷ hex_char (c / 16 % 16) ∷ hex_char (c % 16) ∷ []
    else c ∷ []

unfoldable pub put_all : List ℕ → ℕ → List ℕ → Option (List ℕ)
put_all dest i [] = some dest
put_all dest i (c ∷ cs) = elim (put dest i c) [ none ↦ none | some d ↦ put_all d (i + 1) cs ]

unfoldable pub escape_loop : List ℕ → (last : ℕ) → ℕ → List ℕ → Option (List ℕ)
escape_loop dest last i [] = some dest
escape_loop dest last i (c ∷ src) =
    let more : Option (List ℕ) = elim (put_all dest i (escape_char c)) [
      | none ↦ none
      | some d ↦ escape_loop d last (i + length (escape_char c)) src
    ] in
    if ltb i last
    then if leb last (i + escape_char_len c - 1) then some dest else more
    else some dest

unfoldable pub escaped_len : List ℕ → ℕ
escaped_len [] = 0
escaped_len (c ∷ src) = (escape_char_len c + escaped_len src) % 2 ^ 64

unfoldable pub safe_copy_json_escaped : ℕ → List ℕ → Writer
safe_copy_json_escaped capacity src dest offset =
    if leb capacity offset
    then some (escaped_len src, dest)
    else elim (escape_loop dest (capacity - 1) offset src) [
      | none ↦ none
      | some d ↦ some (escaped_len src, d)
    ]

-- the digits, the last one first
unfoldable pub digits_loop : ℕ → ℕ → List ℕ
digits_loop zero value = []
digits_loop (suc n) value =
    let more = digits_loop n (value / 10) in if value == 0 then [] else (48 + value % 10) ∷ more

unfoldable pub backward : List ℕ → List ℕ
backward [] = []
backward (c ∷ cs) = backward cs ++ (c ∷ [])

-- what stands in `temp`
unfoldable pub uint32_text : ℕ → List ℕ
uint32_text value = if value == 0 then 48 ∷ [] else backward (digits_loop 15 value)

unfoldable pub write_uint32 : ℕ → ℕ → Writer
write_uint32 capacity value dest offset =
    if leb capacity offset
    then some (0, dest)
    else safe_copy capacity (uint32_text value) dest offset

-- `value` is the bit pattern. The negation of the least int64_t is undefined: there is no result.
unfoldable pub int64_text : ℕ → Option (List ℕ)
int64_text value =
    let negative = leb (2 ^ 63) value in
    let magnitude = if negative then 2 ^ 64 - value else value in
    let text = if magnitude == 0 then 48 ∷ [] else backward (digits_loop 22 magnitude) in
    if value == 2 ^ 63 then none else some (if negative then b'-' ∷ text else text)

unfoldable pub write_int64 : ℕ → ℕ → Writer
write_int64 capacity value dest offset =
    if leb capacity offset
    then some (0, dest)
    else elim (int64_text value) [ none ↦ none | some text ↦ safe_copy capacity text dest offset ]

-- one `pos += f(…)` after the other, from the position `pos`: where the last one ends, and the buffer
unfoldable pub write_all : List Writer → ℕ → List ℕ → Option (ℕ × List ℕ)
write_all [] pos dest = some (pos, dest)
write_all (w ∷ ws) pos dest = elim (w dest pos) [
  | none ↦ none
  | some (n, d) ↦ write_all ws ((pos + n) % 2 ^ 64) d
]

-- the end of every response: the zero, and whether the text fits
unfoldable pub finish : ℕ → ℕ → List ℕ → Option (Bool × List ℕ)
finish capacity pos dest =
    if ltb pos capacity
    then elim (put dest pos 0) [ none ↦ none | some d ↦ some (true, d) ]
    else elim (put dest (capacity - 1) 0) [ none ↦ none | some d ↦ some (false, d) ]

unfoldable pub respond : ℕ → List Writer → List ℕ → Option (Bool × List ℕ)
respond capacity writers buffer =
    if capacity == 0
    then some (false, buffer)
    else elim (write_all writers 0 buffer) [ none ↦ none | some (pos, d) ↦ finish capacity pos d ]

-- `["EOSE","`
abbrev pub eose_start : List ℕ
eose_start = b'[' ∷ 34 ∷ b'E' ∷ b'O' ∷ b'S' ∷ b'E' ∷ 34 ∷ b',' ∷ 34 ∷ []

-- `"]`
abbrev pub string_end : List ℕ
string_end = 34 ∷ b']' ∷ []

unfoldable pub nostr_response_eose : List ℕ → List ℕ → ℕ → Option (Bool × List ℕ)
nostr_response_eose subscription_id buffer capacity =
    respond capacity
      (safe_copy capacity eose_start
        ∷ safe_copy_json_escaped capacity subscription_id
        ∷ safe_copy capacity string_end
        ∷ [])
      buffer

-- `["OK","`
abbrev pub ok_start : List ℕ
ok_start = b'[' ∷ 34 ∷ b'O' ∷ b'K' ∷ 34 ∷ b',' ∷ 34 ∷ []

-- `",`
abbrev pub string_next : List ℕ
string_next = 34 ∷ b',' ∷ []

-- `,"`
abbrev pub next_string : List ℕ
next_string = b',' ∷ 34 ∷ []

-- `true` and `false`
abbrev pub bool_text : Bool → List ℕ
bool_text b = if b then b't' ∷ b'r' ∷ b'u' ∷ b'e' ∷ [] else b'f' ∷ b'a' ∷ b'l' ∷ b's' ∷ b'e' ∷ []

-- `if (message != NULL)`
unfoldable pub optional : ℕ → Option (List ℕ) → List Writer → List Writer
optional capacity none ws = ws
optional capacity (some message) ws = safe_copy_json_escaped capacity message ∷ ws

unfoldable pub nostr_response_ok :
    List ℕ → Bool → Option (List ℕ) → List ℕ → ℕ → Option (Bool × List ℕ)
nostr_response_ok event_id success message buffer capacity =
    respond capacity
      (safe_copy capacity ok_start
        ∷ safe_copy_json_escaped capacity event_id
        ∷ safe_copy capacity string_next
        ∷ safe_copy capacity (bool_text success)
        ∷ safe_copy capacity next_string
        ∷ optional capacity message (safe_copy capacity string_end ∷ []))
      buffer

-- `["NOTICE","`
abbrev pub notice_start : List ℕ
notice_start = b'[' ∷ 34 ∷ b'N' ∷ b'O' ∷ b'T' ∷ b'I' ∷ b'C' ∷ b'E' ∷ 34 ∷ b',' ∷ 34 ∷ []

unfoldable pub nostr_response_notice : List ℕ → List ℕ → ℕ → Option (Bool × List ℕ)
nostr_response_notice message buffer capacity =
    respond capacity
      (safe_copy capacity notice_start
        ∷ safe_copy_json_escaped capacity message
        ∷ safe_copy capacity string_end
        ∷ [])
      buffer

-- `["CLOSED","`
abbrev pub closed_start : List ℕ
closed_start = b'[' ∷ 34 ∷ b'C' ∷ b'L' ∷ b'O' ∷ b'S' ∷ b'E' ∷ b'D' ∷ 34 ∷ b',' ∷ 34 ∷ []

-- `","`
abbrev pub string_string : List ℕ
string_string = 34 ∷ b',' ∷ 34 ∷ []

unfoldable pub nostr_response_closed :
    List ℕ → Option (List ℕ) → List ℕ → ℕ → Option (Bool × List ℕ)
nostr_response_closed subscription_id message buffer capacity =
    respond capacity
      (safe_copy capacity closed_start
        ∷ safe_copy_json_escaped capacity subscription_id
        ∷ safe_copy capacity string_string
        ∷ optional capacity message (safe_copy capacity string_end ∷ []))
      buffer
