-- ===== src/Query/Search.antt =====
-- src/nostr/db/query/query_engine.c: the searches by the keys of an index that may hold a key more
-- than once. The parameter `scan` stands for btree_scan_key on the index: the records that it offers
-- to the callback for a key, in order.
pub mod Bounds
use onion_relay.Prelude.{
  ℕ, zero, suc, ◌+◌, ◌-◌, ◌*◌, ◌/◌, ◌%◌, ◌^◌, Bool, true, false, ◌&&◌, Option, none, some, List, [],
  ◌∷◌, ◌++◌, ltb, leb, ◌==◌, if◌then◌else◌, length, take,
}
use onion_relay.ResultSet.{RecordId, QueryResultSet}
use onion_relay.Query.{DbFilter, DbFilterId, DbFilterTag, collect, default_limit, stop_of}

-- the four bytes of a kind in a key
unfoldable pub kind_bytes : ℕ → List ℕ
kind_bytes k = k % 2 ^ 8 ∷ k / 2 ^ 8 % 2 ^ 8 ∷ k / 2 ^ 16 % 2 ^ 8 ∷ k / 2 ^ 24 % 2 ^ 8 ∷ []

-- `limit > 0 && count >= limit`
unfoldable pub is_enough : ℕ → QueryResultSet → Bool
is_enough limit rs = ltb 0 limit && leb limit (length rs.entries)

unfoldable pub author_keys : List DbFilterId → List (List ℕ)
author_keys [] = []
author_keys (a ∷ authors) = take 32 a.value ∷ author_keys authors

unfoldable pub kind_keys : List ℕ → List ℕ → List (List ℕ)
kind_keys author [] = []
kind_keys author (k ∷ kinds) = (author ++ kind_bytes k) ∷ kind_keys author kinds

-- `collect_limit`; the filter has a tag
unfoldable pub collect_limit : DbFilter → List DbFilterTag → ℕ
collect_limit f [] = default_limit
collect_limit f (tag ∷ tags) =
    let limit = if ltb 0 f.limit then f.limit * length tag.values % 2 ^ 32 else default_limit in
    if ltb limit default_limit then default_limit else limit

unfoldable pub tag_keys : ℕ → List (List ℕ) → List (List ℕ)
tag_keys name [] = []
tag_keys name (value ∷ values) = (name % 2 ^ 8 ∷ take 32 value) ∷ tag_keys name values

module _ (scan : List ℕ → List RecordId) (time_of : RecordId → ℕ) (mapped : RecordId → Bool)
    (f : DbFilter) where
  -- The calls of scan_collect_cb for one key, to the first that returns false. No result stands for a
  -- write outside the arrays.
  unfoldable pub scan_collect : ℕ → List RecordId → QueryResultSet → Option QueryResultSet
  scan_collect limit [] rs = some rs
  scan_collect limit (rid ∷ rids) rs =
      if is_enough limit rs then some rs else elim (collect time_of mapped f rs rid) [
        | none ↦ none
        | some rs' ↦ if is_enough limit rs' then some rs' else scan_collect limit rids rs'
      ]

  -- the loop over the keys, with what is left of the limit for each
  unfoldable pub scan_keys : ℕ → List (List ℕ) → QueryResultSet → Option QueryResultSet
  scan_keys limit [] rs = some rs
  scan_keys limit (key ∷ keys) rs =
      if ltb (length rs.entries) limit
      then elim (scan_collect (limit - length rs.entries) (scan key) rs) [
        | none ↦ none
        | some rs' ↦ scan_keys limit keys rs'
      ]
      else some rs

  unfoldable pub query_by_pubkey : QueryResultSet → Option QueryResultSet
  query_by_pubkey rs = scan_keys (stop_of f) (author_keys f.authors) rs

  unfoldable pub query_by_kind : QueryResultSet → Option QueryResultSet
  query_by_kind rs = scan_keys (stop_of f) (kind_keys [] f.kinds) rs

  -- the loop over the authors around the loop over the kinds
  unfoldable pub pubkey_kind_loop : List DbFilterId → QueryResultSet → Option QueryResultSet
  pubkey_kind_loop [] rs = some rs
  pubkey_kind_loop (a ∷ authors) rs =
      if ltb (length rs.entries) (stop_of f)
      then elim (scan_keys (stop_of f) (kind_keys (take 32 a.value) f.kinds) rs) [
        | none ↦ none
        | some rs' ↦ pubkey_kind_loop authors rs'
      ]
      else some rs

  unfoldable pub query_by_pubkey_kind : QueryResultSet → Option QueryResultSet
  query_by_pubkey_kind rs = pubkey_kind_loop f.authors rs

  -- the loop over the values of a tag, which ends where nothing of the limit is left
  unfoldable pub tag_values_loop : ℕ → List (List ℕ) → QueryResultSet → Option QueryResultSet
  tag_values_loop limit [] rs = some rs
  tag_values_loop limit (key ∷ keys) rs =
      let left = (limit + (2 ^ 32 - length rs.entries % 2 ^ 32)) % 2 ^ 32 in
      if left == 0 then some rs else elim (scan_collect left (scan key) rs) [
        | none ↦ none
        | some rs' ↦ tag_values_loop limit keys rs'
      ]

  unfoldable pub tags_scan_loop : ℕ → List DbFilterTag → QueryResultSet → Option QueryResultSet
  tags_scan_loop limit [] rs = some rs
  tags_scan_loop limit (tag ∷ tags) rs =
      elim (tag_values_loop limit (tag_keys tag.name tag.values) rs) [
        | none ↦ none
        | some rs' ↦ tags_scan_loop limit tags rs'
      ]

  unfoldable pub query_by_tag : QueryResultSet → Option QueryResultSet
  query_by_tag rs = tags_scan_loop (collect_limit f f.tags) f.tags rs
