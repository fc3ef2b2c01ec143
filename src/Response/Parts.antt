-- ===== src/Response/Parts.antt =====
-- The numbers and the tags of a message.
use onion_relay.Prelude.{
  ℕ, ◌+◌, ◌-◌, ◌%◌, ◌^◌, ◌≤◌, ◌<◌, ◌≡◌, inl, inr, true, false, Option, none, some, List, [], ◌∷◌,
  ◌++◌, take, length-append, arith, ◌∙◌, ap, subst, ap₂, ◌/◌, get_or, ◌≢◌, refl,
}
use onion_relay.Filter.{TagEntity}
use onion_relay.Response.{
  escape_char, hex_char, Writer, safe_copy, safe_copy_json_escaped, uint32_text, int64_text,
  write_uint32, write_int64, write_all, next_string, optional,
}
use onion_relay.Response.Event.{
  value_writers, tag_writers, tags_writers, serialize_tags, written_since,
}
use onion_relay.Response.Cursor.{IsWritten, Writes, AllWrite, write_none, write_next}
use onion_relay.Response.Copy.{safe_copy_lem, past-IsWritten}
use onion_relay.Response.Format.{
  message_text, values_text, tag_text, next_tags_text, tags_text, tag_list_text, json_char,
  json_text, hex_digits, decimal_text, signed_text,
}
use onion_relay.Response.Decimal.{uint32_text-decimal_text, int64_text-signed_text}
use onion_relay.Response.Escape.{escape, safe_copy_json_escaped_lem}

uint32_past :
    (capacity offset value : ℕ) (dest : List ℕ)
    → capacity ≤ offset
    → write_uint32 capacity value dest offset ≡ some (0, dest)
unfolding write_uint32
uint32_past capacity offset value dest h = ground (arith, h)

uint32_in :
    (capacity offset value : ℕ) (dest : List ℕ)
    → offset < capacity
    → write_uint32 capacity value dest offset ≡ safe_copy capacity (uint32_text value) dest offset
unfolding write_uint32
uint32_in capacity offset value dest h = ground (arith, h)

pub write_uint32_lem :
    (capacity value : ℕ)
    → value < 2 ^ 32
    → Writes capacity (write_uint32 capacity value) (decimal_text value)
write_uint32_lem capacity value small text pos dest h b = elim h.state [
  | inr over ↦ (
    0,
    dest,
    uint32_past capacity pos value dest over,
    past-IsWritten capacity pos 0 text (decimal_text value) dest h over (omega arith),
  )
  | inl (same, room, has) ↦
      let (n, d, e, w) = safe_copy_lem capacity (decimal_text value) text pos dest h b in
      (
        n,
        d,
        uint32_in capacity pos value dest room
            ∙ ap (λ t. safe_copy capacity t dest pos) (uint32_text-decimal_text value small)
            ∙ e,
        w,
      )
]

int64_past :
    (capacity offset value : ℕ) (dest : List ℕ)
    → capacity ≤ offset
    → write_int64 capacity value dest offset ≡ some (0, dest)
unfolding write_int64
int64_past capacity offset value dest h = ground (arith, h)

int64_in :
    (capacity offset value : ℕ) (dest text : List ℕ)
    → offset < capacity
    → int64_text value ≡ some text
    → write_int64 capacity value dest offset ≡ safe_copy capacity text dest offset
unfolding write_int64
int64_in capacity offset value dest text h e = ground (arith, h, e)

pub write_int64_lem :
    (capacity value : ℕ)
    → value < 2 ^ 64
    → value ≢ 2 ^ 63
    → Writes capacity (write_int64 capacity value) (signed_text value)
write_int64_lem capacity value bits other text pos dest h b = elim h.state [
  | inr over ↦ (
    0,
    dest,
    int64_past capacity pos value dest over,
    past-IsWritten capacity pos 0 text (signed_text value) dest h over (omega arith),
  )
  | inl (same, room, has) ↦
      let (n, d, e, w) = safe_copy_lem capacity (signed_text value) text pos dest h b in
      (
        n,
        d,
        int64_in capacity pos value dest (signed_text value) room
              (int64_text-signed_text value bits other)
            ∙ e,
        w,
      )
]

hex_char-get_or : (n : ℕ) → n < 16 → hex_char n ≡ get_or hex_digits n 0
unfolding hex_char
hex_char-get_or n h = ground (arith, h)

escape_char-json_char : (c : ℕ) → escape_char c ≡ json_char c
unfolding escape_char json_char
escape_char-json_char c =
    let high : c < 32 → c / 16 % 16 ≡ c / 16 = λ h. omega (arith, h) in
    let digit : c < 32 → hex_char (c / 16) ≡ get_or hex_digits (c / 16) 0 =
      λ h. hex_char-get_or (c / 16) (omega (arith, h)) in
    ground (arith, high, digit, hex_char-get_or (c % 16) (omega arith))

escape-json_text : (src : List ℕ) → escape src ≡ json_text src
unfolding escape json_text
escape-json_text [] = refl
escape-json_text (c ∷ src) = ap₂ (λ x y. x ++ y) (escape_char-json_char c) (escape-json_text src)

module _ {capacity : ℕ} where
  -- a text that is copied, and what follows
  pub copy_next :
      (src : List ℕ) (ws : List Writer) {rest : List ℕ}
      → AllWrite capacity ws rest
      → AllWrite capacity (safe_copy capacity src ∷ ws) (src ++ rest)
  copy_next src ws all = write_next (safe_copy capacity src) ws (safe_copy_lem capacity src) all

  -- a text with escapes, and what follows
  pub escape_next :
      (src : List ℕ) (ws : List Writer) {rest : List ℕ}
      → AllWrite capacity ws rest
      → AllWrite capacity (safe_copy_json_escaped capacity src ∷ ws) (json_text src ++ rest)
  escape_next src ws {rest} all =
      subst (λ t. AllWrite capacity (safe_copy_json_escaped capacity src ∷ ws) (t ++ rest))
        (escape-json_text src)
        (write_next (safe_copy_json_escaped capacity src) ws
          (safe_copy_json_escaped_lem capacity src) all)

  pub optional_next :
      (message : Option (List ℕ)) (ws : List Writer) {rest : List ℕ}
      → AllWrite capacity ws rest
      → AllWrite capacity (optional capacity message ws) (message_text message rest)
  unfolding optional
  optional_next none ws all = all
  optional_next (some message) ws all = escape_next message ws all

  pub values_next :
      (values : List (List ℕ)) (ws : List Writer) {rest : List ℕ}
      → AllWrite capacity ws rest
      → AllWrite capacity (value_writers capacity values ws) (values_text values rest)
  unfolding value_writers
  values_next [] ws all = all
  values_next (value ∷ values) ws all =
      copy_next next_string _
        (escape_next value _ (copy_next (34 ∷ []) _ (values_next values ws all)))

  pub tag_next :
      (tag : TagEntity) (ws : List Writer) {rest : List ℕ}
      → AllWrite capacity ws rest
      → AllWrite capacity (tag_writers capacity tag ws) (tag_text tag rest)
  unfolding tag_writers
  tag_next tag ws all = copy_next (b'[' ∷ 34 ∷ []) _ (
      escape_next tag.key _ (
        copy_next (34 ∷ []) _
          (values_next (take tag.item_count tag.values) _ (copy_next (b']' ∷ []) ws all))))

  pub next_tags :
      (tags : List TagEntity) (ws : List Writer) {rest : List ℕ}
      → AllWrite capacity ws rest
      → AllWrite capacity (tags_writers capacity false tags ws) (next_tags_text tags rest)
  unfolding tags_writers
  next_tags [] ws all = all
  next_tags (tag ∷ tags) ws all = copy_next (b',' ∷ []) _ (tag_next tag _ (next_tags tags ws all))

  pub tags_next :
      (tags : List TagEntity) (ws : List Writer) {rest : List ℕ}
      → AllWrite capacity ws rest
      → AllWrite capacity (tags_writers capacity true tags ws) (tags_text tags rest)
  unfolding tags_writers
  tags_next [] ws all = all
  tags_next (tag ∷ tags) ws all = tag_next tag _ (next_tags tags ws all)

serialize_of :
    (capacity : ℕ) (tags : List TagEntity) (tag_count pos pos' : ℕ) (dest d : List ℕ)
    → write_all
        (safe_copy capacity (b'[' ∷ [])
          ∷ tags_writers capacity true (take tag_count tags) (safe_copy capacity (b']' ∷ []) ∷ []))
        pos
        dest
      ≡ some (pos', d)
    → pos ≤ pos'
    → pos' < 2 ^ 64
    → serialize_tags capacity tags tag_count dest pos ≡ some (pos' - pos, d)
unfolding serialize_tags written_since
serialize_of capacity tags tag_count pos pos' dest d e le small =
    let n : (pos' + (2 ^ 64 - pos)) % 2 ^ 64 ≡ pos' - pos = omega (arith, le, small) in
    ap (written_since pos) e ∙ ap (λ k. some (k, d)) n

pub serialize_tags_lem :
    (capacity : ℕ) (tags : List TagEntity) (tag_count : ℕ)
    → Writes capacity (serialize_tags capacity tags tag_count) (tag_list_text (take tag_count tags))
serialize_tags_lem capacity tags tag_count text pos dest h b =
    let src = tag_list_text (take tag_count tags) in
    let all : AllWrite capacity
        (safe_copy capacity (b'[' ∷ [])
          ∷ tags_writers capacity true (take tag_count tags) (safe_copy capacity (b']' ∷ []) ∷ []))
        src =
      copy_next (b'[' ∷ []) _
        (tags_next (take tag_count tags) _ (copy_next (b']' ∷ []) [] (write_none capacity))) in
    let (pos', d, e, le, w) = all text pos dest h b in
    let back : pos' ≡ pos + (pos' - pos) = omega (arith, le) in
    (
      pos' - pos,
      d,
      serialize_of capacity tags tag_count pos pos' dest d e le
          (omega (arith, w.bound, b, length-append text src)),
      subst (λ n. IsWritten capacity (text ++ src) n d) back w,
    )
