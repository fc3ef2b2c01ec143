-- ===== src/Filter.antt =====
-- src/nostr/subscription/nostr_filter.c: whether an event matches a filter. Arrays are lists that
-- hold at least as many entries as the count beside them says. 64-bit signed values are their bit
-- patterns.
pub mod Prefix
pub mod Criteria
use mathlib.Core.List.{flatten}
use onion_relay.Prelude.{
  ℕ, zero, suc, ◌+◌, ◌-◌, ◌*◌, ◌/◌, ◌%◌, ◌^◌, Bool, true, false, ◌&&◌, ◌||◌, not, Option, none,
  some, List, [], ◌∷◌, ltb, leb, ◌==◌, if◌then◌else◌, length, get_or, min, take, drop, any, all,
}
use onion_relay.Text.{hex_from, strncmp, c_string, memcmp_eq}

-- `NostrFilterId` and `NostrFilterPubkey`
pub record FilterId : Type 0 where
  pub value : List ℕ
  pub prefix_len : ℕ

pub record FilterTag : Type 0 where
  pub name : ℕ
  pub values : List (List ℕ)
  pub values_count : ℕ

pub record Filter : Type 0 where
  pub ids : List FilterId
  pub ids_count : ℕ
  pub authors : List FilterId
  pub authors_count : ℕ
  pub kinds : List ℕ
  pub kinds_count : ℕ
  pub tags : List FilterTag
  pub tags_count : ℕ
  pub since : ℕ
  pub until : ℕ
  pub limit : ℕ
  pub has_limit : Bool

-- `NostrTagEntity`, its arrays of `char` as strings
pub record TagEntity : Type 0 where
  pub key : List ℕ
  pub values : List (List ℕ)
  pub item_count : ℕ

-- `NostrEventEntity`, without the content and the signature, which no filter reads
pub record EventEntity : Type 0 where
  pub id : List ℕ
  pub pubkey : List ℕ
  pub kind : ℕ
  pub created_at : ℕ
  pub tags : List TagEntity
  pub tag_count : ℕ

-- `<` on `int64_t`
abbrev pub lt_int64 : ℕ → ℕ → Bool
lt_int64 a b = ltb ((a + 2 ^ 63) % 2 ^ 64) ((b + 2 ^ 63) % 2 ^ 64)

-- The bytes converted; what follows them in the output stays 0.
unfoldable pub hex_to_bytes : List ℕ → ℕ → ℕ → List ℕ
hex_to_bytes hex hex_len capacity = hex_from hex 0 (min (hex_len / 2) capacity)

unfoldable pub bytes_match_prefix : List ℕ → List ℕ → ℕ → Bool
bytes_match_prefix bytes expected prefix_len = memcmp_eq bytes expected 0 prefix_len

-- the test of the ids and of the authors
unfoldable pub id_matches : List FilterId → ℕ → List ℕ → Bool
id_matches ids count hex =
    let bytes = hex_to_bytes hex 64 32 in
    if ltb 0 count
    then ltb 0 (length bytes)
      && any (λ f. leb f.prefix_len (length bytes) && bytes_match_prefix bytes f.value f.prefix_len)
          (take count ids)
    else true

unfoldable pub kind_matches : Filter → ℕ → Bool
kind_matches f kind =
    if ltb 0 f.kinds_count then any (λ k. k == kind) (take f.kinds_count f.kinds) else true

unfoldable pub since_matches : Filter → ℕ → Bool
since_matches f created_at = not (lt_int64 0 f.since && lt_int64 created_at f.since)

unfoldable pub until_matches : Filter → ℕ → Bool
until_matches f created_at = not (lt_int64 0 f.until && lt_int64 f.until created_at)

-- One value of the filter, at index `i`, against one of the event. The values of a filter are
-- consecutive arrays of 32 bytes, and a string may run on from one into the next.
unfoldable pub value_matches : FilterTag → ℕ → List ℕ → Bool
value_matches f i value =
    if f.name == b'e' || f.name == b'p'
    then length value == 64
      && (let bytes = hex_to_bytes value 64 32 in
          length bytes == 32 && memcmp_eq bytes (get_or f.values i []) 0 32)
    else (let expected = c_string (flatten (drop i f.values)) in
        length value == length expected && strncmp value expected (length expected))

-- `values` is what is left of the event's values, for each value of the filter from `i` on.
unfoldable pub any_value : FilterTag → ℕ → ℕ → List (List ℕ) → Bool
any_value f i zero values = false
any_value f i (suc n) values = any (value_matches f i) values || any_value f (i + 1) n values

unfoldable pub tag_matches : FilterTag → TagEntity → Bool
tag_matches f t =
    get_or t.key 0 0 == f.name
    && get_or t.key 1 0 == 0
    && leb 1 t.item_count
    && any_value f 0 f.values_count (take t.item_count t.values)

unfoldable pub tags_match : Filter → EventEntity → Bool
tags_match f e =
    all (λ ft. any (tag_matches ft) (take e.tag_count e.tags)) (take f.tags_count f.tags)

unfoldable pub nostr_filter_matches : Filter → EventEntity → Bool
nostr_filter_matches f e =
    if not (id_matches f.ids f.ids_count e.id)
    then false
    else if not (id_matches f.authors f.authors_count e.pubkey)
    then false
    else if not (kind_matches f e.kind)
    then false
    else if not (since_matches f e.created_at)
    then false
    else if not (until_matches f e.created_at)
    then false
    else tags_match f e
