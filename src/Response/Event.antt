-- ===== src/Response/Event.antt =====
-- The serialisation of an event and the EVENT message.
use onion_relay.Prelude.{
  ℕ, ◌+◌, ◌-◌, ◌%◌, ◌^◌, Bool, true, false, Option, none, some, List, [], ◌∷◌, if◌then◌else◌, take,
}
use onion_relay.Filter.{TagEntity, EventEntity}
use onion_relay.Response.{
  Writer, safe_copy, safe_copy_json_escaped, write_uint32, write_int64, write_all, respond,
  string_next, next_string,
}

-- `NostrEventEntity`: what a filter reads, the content and the signature
pub record FullEvent : Type 0 where
  pub entity : EventEntity
  pub content : List ℕ
  pub sig : List ℕ

-- the values of a tag, each as `,"…"`, and then `ws`
unfoldable pub value_writers : ℕ → List (List ℕ) → List Writer → List Writer
value_writers capacity [] ws = ws
value_writers capacity (value ∷ values) ws =
    safe_copy capacity next_string
    ∷ safe_copy_json_escaped capacity value
    ∷ safe_copy capacity (34 ∷ [])
    ∷ value_writers capacity values ws

-- a tag, and then `ws`
unfoldable pub tag_writers : ℕ → TagEntity → List Writer → List Writer
tag_writers capacity tag ws =
    safe_copy capacity (b'[' ∷ 34 ∷ [])
    ∷ safe_copy_json_escaped capacity tag.key
    ∷ safe_copy capacity (34 ∷ [])
    ∷ value_writers capacity (take tag.item_count tag.values) (safe_copy capacity (b']' ∷ []) ∷ ws)

-- the loop over the tags, with a comma before all but the first, and then `ws`
unfoldable pub tags_writers : ℕ → (first : Bool) → List TagEntity → List Writer → List Writer
tags_writers capacity first [] ws = ws
tags_writers capacity first (tag ∷ tags) ws =
    let written = tag_writers capacity tag (tags_writers capacity false tags ws) in
    if first then written else safe_copy capacity (b',' ∷ []) ∷ written

-- `return pos - offset`
unfoldable pub written_since : ℕ → Option (ℕ × List ℕ) → Option (ℕ × List ℕ)
written_since offset none = none
written_since offset (some (pos, dest)) = some ((pos + (2 ^ 64 - offset)) % 2 ^ 64, dest)

unfoldable pub serialize_tags : ℕ → List TagEntity → ℕ → Writer
serialize_tags capacity tags tag_count dest offset = written_since offset (
    write_all
      (safe_copy capacity (b'[' ∷ [])
        ∷ tags_writers capacity true (take tag_count tags) (safe_copy capacity (b']' ∷ []) ∷ []))
      offset dest)

-- `["EVENT","`
abbrev pub event_start : List ℕ
event_start = b'[' ∷ 34 ∷ b'E' ∷ b'V' ∷ b'E' ∷ b'N' ∷ b'T' ∷ 34 ∷ b',' ∷ 34 ∷ []

-- `",{`
abbrev pub event_object : List ℕ
event_object = 34 ∷ b',' ∷ b'{' ∷ []

-- `"id":"`
abbrev pub id_start : List ℕ
id_start = 34 ∷ b'i' ∷ b'd' ∷ 34 ∷ b':' ∷ 34 ∷ []

-- `"pubkey":"`
abbrev pub pubkey_start : List ℕ
pubkey_start = 34 ∷ b'p' ∷ b'u' ∷ b'b' ∷ b'k' ∷ b'e' ∷ b'y' ∷ 34 ∷ b':' ∷ 34 ∷ []

-- `"created_at":`
abbrev pub created_at_start : List ℕ
created_at_start =
    34 ∷ b'c' ∷ b'r' ∷ b'e' ∷ b'a' ∷ b't' ∷ b'e' ∷ b'd' ∷ b'_' ∷ b'a' ∷ b't' ∷ 34 ∷ b':' ∷ []

-- `"kind":`
abbrev pub kind_start : List ℕ
kind_start = 34 ∷ b'k' ∷ b'i' ∷ b'n' ∷ b'd' ∷ 34 ∷ b':' ∷ []

-- `"tags":`
abbrev pub tags_start : List ℕ
tags_start = 34 ∷ b't' ∷ b'a' ∷ b'g' ∷ b's' ∷ 34 ∷ b':' ∷ []

-- `"content":"`
abbrev pub content_start : List ℕ
content_start = 34 ∷ b'c' ∷ b'o' ∷ b'n' ∷ b't' ∷ b'e' ∷ b'n' ∷ b't' ∷ 34 ∷ b':' ∷ 34 ∷ []

-- `"sig":"`
abbrev pub sig_start : List ℕ
sig_start = 34 ∷ b's' ∷ b'i' ∷ b'g' ∷ 34 ∷ b':' ∷ 34 ∷ []

-- `}]`
abbrev pub event_end : List ℕ
event_end = b'}' ∷ b']' ∷ []

unfoldable pub event_writers : ℕ → List ℕ → FullEvent → List Writer
event_writers capacity subscription_id event =
    safe_copy capacity event_start
    ∷ safe_copy_json_escaped capacity subscription_id
    ∷ safe_copy capacity event_object
    ∷ safe_copy capacity id_start
    ∷ safe_copy capacity event.entity.id
    ∷ safe_copy capacity string_next
    ∷ safe_copy capacity pubkey_start
    ∷ safe_copy capacity event.entity.pubkey
    ∷ safe_copy capacity string_next
    ∷ safe_copy capacity created_at_start
    ∷ write_int64 capacity event.entity.created_at
    ∷ safe_copy capacity (b',' ∷ [])
    ∷ safe_copy capacity kind_start
    ∷ write_uint32 capacity event.entity.kind
    ∷ safe_copy capacity (b',' ∷ [])
    ∷ safe_copy capacity tags_start
    ∷ serialize_tags capacity event.entity.tags event.entity.tag_count
    ∷ safe_copy capacity (b',' ∷ [])
    ∷ safe_copy capacity content_start
    ∷ safe_copy_json_escaped capacity event.content
    ∷ safe_copy capacity string_next
    ∷ safe_copy capacity sig_start
    ∷ safe_copy capacity event.sig
    ∷ safe_copy capacity (34 ∷ [])
    ∷ safe_copy capacity event_end
    ∷ []

unfoldable pub nostr_response_event : List ℕ → FullEvent → List ℕ → ℕ → Option (Bool × List ℕ)
nostr_response_event subscription_id event buffer capacity =
    respond capacity (event_writers capacity subscription_id event) buffer
