-- ===== src/Query.antt =====
-- src/nostr/db/query/query_engine.c: the choice of an index for a filter, and the test of the stored
-- events that an index has found. An array with its count is the list of its used elements. A
-- pointer into the serialised tags is the list of the bytes from there to their end.
pub mod Tags
pub mod PostFilter
pub mod Ids
pub mod Search
pub mod Execute
use onion_relay.Prelude.{
  ℕ, zero, suc, ◌+◌, ◌-◌, ◌*◌, ◌%◌, ◌^◌, Bool, true, false, ◌&&◌, ◌||◌, not, Option, none, some,
  List, [], ◌∷◌, ltb, leb, ◌==◌, if◌then◌else◌, length, get_or, take, drop, any, all,
}
use mathlib.Core.Option.{bind as ◌>>=◌}
use onion_relay.Text.{memcmp_eq}
use onion_relay.Filter.{lt_int64}
use onion_relay.SlotPage.{load}
use onion_relay.ResultSet.{RecordId, Entry, QueryResultSet, query_result_add}

pub record DbFilterId : Type 0 where
  pub value : List ℕ
  pub prefix_len : ℕ

pub record DbFilterTag : Type 0 where
  pub name : ℕ
  pub values : List (List ℕ)

pub record DbFilter : Type 0 where
  pub ids : List DbFilterId
  pub authors : List DbFilterId
  pub kinds : List ℕ
  pub tags : List DbFilterTag
  pub since : ℕ
  pub until : ℕ
  pub limit : ℕ

pub data Strategy : Type 0 where
  by_id : Strategy
  by_pubkey_kind : Strategy
  by_pubkey : Strategy
  by_kind : Strategy
  by_tag : Strategy
  timeline_scan : Strategy

unfoldable pub filter_validate : DbFilter → Bool
filter_validate f =
    leb (length f.ids) 256
    && leb (length f.authors) 256
    && leb (length f.kinds) 64
    && leb (length f.tags) 26
    && not (lt_int64 0 f.since && lt_int64 0 f.until && lt_int64 f.until f.since)

unfoldable pub select_strategy : DbFilter → Strategy
select_strategy f =
    if ltb 0 (length f.ids)
    then Strategy.by_id
    else if ltb 0 (length f.tags)
    then Strategy.by_tag
    else if ltb 0 (length f.authors) && ltb 0 (length f.kinds)
    then Strategy.by_pubkey_kind
    else if ltb 0 (length f.authors)
    then Strategy.by_pubkey
    else if ltb 0 (length f.kinds)
    then Strategy.by_kind
    else Strategy.timeline_scan

-- nothing stands for -1
unfoldable pub pf_hex_val : ℕ → Option ℕ
pf_hex_val c =
    if leb 48 c && leb c 57
    then some (c - 48)
    else if leb 97 c && leb c 102
    then some (c - 97 + 10)
    else if leb 65 c && leb c 70
    then some (c - 65 + 10)
    else none

-- the loop that fills `bin`, with `valid`
unfoldable pub bin_from : List ℕ → Option (List ℕ)
bin_from [] = some []
bin_from (c ∷ []) = some []
bin_from (c ∷ d ∷ rest) = do
  h ← pf_hex_val c
  l ← pf_hex_val d
  bytes ← bin_from rest
  some ((h * 2 ^ 4 + l) % 2 ^ 8 ∷ bytes)

-- the bytes of a filter's value before the zeros that fill it up
unfoldable pub until_zero : List ℕ → List ℕ
until_zero [] = []
until_zero (b ∷ bs) = if b == 0 then [] else b ∷ until_zero bs

-- one value of the event against one of the filter
unfoldable pub db_value_matches : DbFilterTag → List ℕ → List ℕ → Bool
db_value_matches ftag value filter_value =
    if ftag.name == b'e' || ftag.name == b'p'
    then length value == 64
      && elim (bin_from value) [ none ↦ false | some bin ↦ memcmp_eq bin filter_value 0 32 ]
    else let text = until_zero (take 32 filter_value) in
      length value == length text && memcmp_eq value filter_value 0 (length text)

-- how the loop over the values of a tag ends
pub data Scan : Type 0 where
  matched : Scan
  cut_off : Scan
  at : (rest : List ℕ) → Scan

-- the two bytes of a length, whose or is a sum
abbrev pub u16 : ℕ → ℕ → ℕ
u16 low high = (low + high * 2 ^ 8) % 2 ^ 16

-- `first` tells whether `j` is 0.
unfoldable pub values_loop : DbFilterTag → (name_matches first : Bool) → ℕ → List ℕ → Scan
values_loop ftag name_matches first zero rest = Scan.at rest
values_loop ftag name_matches first (suc n) [] = Scan.at []
values_loop ftag name_matches first (suc n) (low ∷ []) = Scan.at (low ∷ [])
values_loop ftag name_matches first (suc n) (low ∷ high ∷ rest) =
    let next = values_loop ftag name_matches false n (drop (u16 low high) rest) in
    if ltb (length rest) (u16 low high)
    then Scan.cut_off
    else if name_matches
        && first
        && any (db_value_matches ftag (take (u16 low high) rest)) ftag.values
    then Scan.matched
    else next

unfoldable pub name_is : DbFilterTag → List ℕ → Bool
name_is ftag name = length name == 1 && get_or name 0 0 == ftag.name

unfoldable pub tags_loop : DbFilterTag → ℕ → List ℕ → Bool
tags_loop ftag zero rest = false
tags_loop ftag (suc n) [] = false
tags_loop ftag (suc n) (value_count ∷ []) = false
tags_loop ftag (suc n) (value_count ∷ name_len ∷ rest) =
    if ltb (length rest) name_len
    then false
    else elim (values_loop ftag (name_is ftag (take name_len rest)) true value_count
        (drop name_len rest)) [
          | matched ↦ true
          | cut_off ↦ false
          | at rest' ↦ tags_loop ftag n rest'
        ]

unfoldable pub tags_match_filter_tag : List ℕ → DbFilterTag → Bool
tags_match_filter_tag [] ftag = false
tags_match_filter_tag (low ∷ []) ftag = false
tags_match_filter_tag (low ∷ high ∷ rest) ftag = tags_loop ftag (u16 low high) rest

-- the fields of a stored event that a query reads, from the fixed part of 152 bytes
pub record EventRecord : Type 0 where
  pub id : List ℕ
  pub pubkey : List ℕ
  pub created_at : ℕ
  pub kind : ℕ
  pub flags : ℕ
  pub content_length : ℕ
  pub tags_length : ℕ

-- `n` bytes of a buffer as a number, the lowest first
unfoldable pub little_endian : (ℕ → ℕ) → ℕ → ℕ → ℕ
little_endian buf offset zero = 0
little_endian buf offset (suc n) = buf offset + 2 ^ 8 * little_endian buf (offset + 1) n

unfoldable pub event_record : (ℕ → ℕ) → EventRecord
event_record buf = record {
  id = load buf 0 32;
  pubkey = load buf 32 32;
  created_at = little_endian buf 128 8;
  kind = little_endian buf 136 4;
  flags = little_endian buf 140 4;
  content_length = little_endian buf 144 2;
  tags_length = little_endian buf 146 2;
}

-- the tests of one event, the `continue`s of the loop as the false conjuncts
unfoldable pub is_in_time : DbFilter → ℕ → Bool
is_in_time f created_at =
    not (lt_int64 0 f.since && lt_int64 created_at f.since)
    && not (lt_int64 0 f.until && lt_int64 f.until created_at)

unfoldable pub has_kind : DbFilter → EventRecord → Bool
has_kind f rec = length f.kinds == 0 || any (λ k. rec.kind == k) f.kinds

unfoldable pub has_author : DbFilter → EventRecord → Bool
has_author f rec = length f.authors == 0 || any (λ a. memcmp_eq rec.pubkey a.value 0 32) f.authors

unfoldable pub has_id : DbFilter → EventRecord → Bool
has_id f rec = length f.ids == 0 || any (λ i. memcmp_eq rec.id i.value 0 32) f.ids

-- `buf` is a function of the address; reads of the tags behind its 4096 bytes are not told apart.
unfoldable pub has_tags : DbFilter → (ℕ → ℕ) → EventRecord → Bool
has_tags f buf rec =
    leb (length f.tags) 1
    || all (tags_match_filter_tag (load buf (152 + rec.content_length) rec.tags_length)) f.tags

unfoldable pub record_passes : DbFilter → (ℕ → ℕ) → Bool
record_passes f buf =
    let rec = event_record buf in
    rec.flags % 2 == 0
    && is_in_time f rec.created_at
    && has_kind f rec
    && has_author f rec
    && has_id f rec
    && has_tags f buf rec

-- `read` is the buffer and the length after record_read, where that has succeeded.
unfoldable pub passes : (RecordId → Option ((ℕ → ℕ) × ℕ)) → DbFilter → RecordId → Bool
passes read f rid = elim (read rid) [
  | none ↦ false
  | some (buf, len) ↦ not (ltb len 152) && record_passes f buf
]

-- The kept entries move to the front, and `count` becomes their number.
unfoldable pub keep_passing : (RecordId → Option ((ℕ → ℕ) × ℕ)) → DbFilter → List Entry → List Entry
keep_passing read f [] = []
keep_passing read f (e ∷ es) =
    let rest = keep_passing read f es in if passes read f e.rid then e ∷ rest else rest

unfoldable pub query_post_filter :
    (RecordId → Option ((ℕ → ℕ) × ℕ)) → QueryResultSet → DbFilter → QueryResultSet
query_post_filter read rs f = record rs { entries = keep_passing read f rs.entries }

abbrev pub default_limit : ℕ
default_limit = 500

-- the number of answers at which a search stops
unfoldable pub stop_of : DbFilter → ℕ
stop_of f = if ltb 0 f.limit then f.limit else default_limit

-- One index lookup of query_by_ids: `id_lookup` is index_id_lookup, `time_of` is read_created_at
-- and `mapped` the kernel's answers to the allocations.
unfoldable pub collect :
    (RecordId → ℕ)
    → (RecordId → Bool)
    → DbFilter
    → QueryResultSet
    → RecordId
    → Option QueryResultSet
collect time_of mapped f rs rid =
    if is_in_time f (time_of rid)
    then elim (query_result_add rs rid (time_of rid) (mapped rid)) [
      | none ↦ none
      | some (code, rs') ↦ some rs'
    ]
    else some rs

-- The loop of query_by_ids; no result stands for a write outside the arrays.
unfoldable pub ids_loop :
    (List ℕ → Option RecordId)
    → (RecordId → ℕ)
    → (RecordId → Bool)
    → DbFilter
    → List DbFilterId
    → QueryResultSet
    → Option QueryResultSet
ids_loop id_lookup time_of mapped f [] rs = some rs
ids_loop id_lookup time_of mapped f (i ∷ ids) rs =
    if ltb (length rs.entries) (stop_of f)
    then elim (id_lookup i.value) [
      | none ↦ ids_loop id_lookup time_of mapped f ids rs
      | some rid ↦ elim (collect time_of mapped f rs rid) [
        | none ↦ none
        | some rs' ↦ ids_loop id_lookup time_of mapped f ids rs'
      ]
    ]
    else some rs

unfoldable pub query_by_ids :
    (List ℕ → Option RecordId)
    → (RecordId → ℕ)
    → (RecordId → Bool)
    → DbFilter
    → QueryResultSet
    → Option QueryResultSet
query_by_ids id_lookup time_of mapped f rs = ids_loop id_lookup time_of mapped f f.ids rs
