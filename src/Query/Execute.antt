-- ===== src/Query/Execute.antt =====
-- src/nostr/db/query/query_engine.c: a whole query. The fields of `Indexes` stand for what the
-- indexes of the index manager answer: index_id_lookup, btree_scan_key on each index, and
-- btree_range_scan on the timeline, with the records of each key's chain.
pub mod Answers
use onion_relay.Prelude.{
  ℕ, ◌+◌, ◌-◌, ◌%◌, ◌^◌, Bool, true, false, Option, none, some, List, [], ◌∷◌, ◌==◌, if◌then◌else◌,
  get_elem?,
}
use onion_relay.Filter.{lt_int64}
use onion_relay.SlotPage.{SlotPage}
use onion_relay.ResultSet.{
  RecordId, QueryResultSet, query_result_add, query_result_sort, query_result_apply_limit,
}
use onion_relay.Query.{
  little_endian, DbFilter, Strategy, filter_validate, select_strategy, query_by_ids,
  query_post_filter, stop_of,
}
use onion_relay.Query.Search.{
  is_enough, query_by_pubkey, query_by_kind, query_by_pubkey_kind, query_by_tag,
}

pub record Indexes : Type 0 where
  pub id : List ℕ → Option RecordId
  pub pubkey : List ℕ → List RecordId
  pub kind : List ℕ → List RecordId
  pub pubkey_kind : List ℕ → List RecordId
  pub tag : List ℕ → List RecordId
  pub timeline : (min_key max_key : Option ℕ) → List (ℕ × List RecordId)

-- `pin` is buffer_pool_pin. The record is taken to start at the offset of the slot.
unfoldable pub read_created_at : (ℕ → Option SlotPage) → RecordId → ℕ
read_created_at pin rid = elim (pin rid.page_id) [
  | none ↦ 0
  | some page ↦ elim (get_elem? page.slots rid.slot_index) [
    | none ↦ 0
    | some slot ↦ if slot.offset == 0 then 0 else little_endian page.page_data (slot.offset + 128) 8
  ]
]

-- INT64_MAX less a time, which encodes and decodes a key
unfoldable pub timeline_key : ℕ → ℕ
timeline_key t = (2 ^ 63 - 1 + (2 ^ 64 - t % 2 ^ 64)) % 2 ^ 64

-- `mapped` is the kernel's answer to the allocations. No result stands for a write outside the
-- arrays.
module _ (mapped : RecordId → Bool) where
  -- the records of one key's chain, until there are enough, and whether the scan goes on
  unfoldable pub add_chain : ℕ → ℕ → List RecordId → QueryResultSet → Option (Bool × QueryResultSet)
  add_chain limit ts [] rs = some (true, rs)
  add_chain limit ts (rid ∷ rids) rs = elim (query_result_add rs rid ts (mapped rid)) [
    | none ↦ none
    | some (code, rs') ↦
        if is_enough limit rs' then some (false, rs') else add_chain limit ts rids rs'
  ]

  -- the calls of timeline_range_cb, to the first that returns false
  unfoldable pub timeline_loop :
      ℕ → List (ℕ × List RecordId) → QueryResultSet → Option QueryResultSet
  timeline_loop limit [] rs = some rs
  timeline_loop limit ((key, chain) ∷ keys) rs =
      if is_enough limit rs then some rs else elim (add_chain limit (timeline_key key) chain rs) [
        | none ↦ none
        | some (goes_on, rs') ↦ if goes_on then timeline_loop limit keys rs' else some rs'
      ]

  unfoldable pub query_timeline_scan : Indexes → DbFilter → QueryResultSet → Option QueryResultSet
  query_timeline_scan im f rs =
      timeline_loop (stop_of f)
        (im.timeline (if lt_int64 0 f.until then some (timeline_key f.until) else none)
          (if lt_int64 0 f.since then some (timeline_key f.since) else none))
        rs

  -- the search that the strategy chooses; `time_of` is read_created_at over the buffer pool
  unfoldable pub search_by :
      Strategy → (RecordId → ℕ) → Indexes → DbFilter → QueryResultSet → Option QueryResultSet
  search_by Strategy.by_id time_of im f rs = query_by_ids im.id time_of mapped f rs
  search_by Strategy.by_tag time_of im f rs = query_by_tag im.tag time_of mapped f rs
  search_by Strategy.by_pubkey_kind time_of im f rs =
      query_by_pubkey_kind im.pubkey_kind time_of mapped f rs
  search_by Strategy.by_pubkey time_of im f rs = query_by_pubkey im.pubkey time_of mapped f rs
  search_by Strategy.by_kind time_of im f rs = query_by_kind im.kind time_of mapped f rs
  search_by Strategy.timeline_scan time_of im f rs = query_timeline_scan im f rs

  -- Whether the filter is valid (NOSTR_DB_OK) or not (NOSTR_DB_ERROR_INVALID_EVENT), and the set.
  -- `read` is record_read, as in the post-filter.
  unfoldable pub query_execute :
      (RecordId → ℕ)
      → (RecordId → Option ((ℕ → ℕ) × ℕ))
      → Indexes
      → DbFilter
      → QueryResultSet
      → Option (Bool × QueryResultSet)
  query_execute time_of read im f rs =
      if filter_validate f
      then if f.limit == 0
        then some (true, rs)
        else elim (search_by (select_strategy f) time_of im f rs) [
          | none ↦ none
          | some rs' ↦ elim (query_result_sort (query_post_filter read rs' f)) [
            | none ↦ none
            | some sorted ↦ some (true, query_result_apply_limit sorted (stop_of f))
          ]
        ]
      else some (false, rs)
