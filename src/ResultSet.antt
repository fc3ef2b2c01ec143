-- ===== src/ResultSet.antt =====
-- src/nostr/db/query/query_result_v2.c: the set that a query collects its answers in. The arrays
-- `rids` and `created_at` are one list, of the elements below `count`.
pub mod Order
pub mod Bloom
pub mod Add
use onion_relay.Prelude.{
  ℕ, suc, ◌+◌, ◌*◌, ◌/◌, ◌%◌, ◌^◌, Bool, true, false, ◌&&◌, ◌||◌, Option, none, some, List, [], ◌∷◌,
  ◌++◌, ltb, leb, ◌==◌, if◌then◌else◌, length, get_or, set, take, replicate,
}
use onion_relay.Filter.{lt_int64}

pub record RecordId : Type 0 where
  pub page_id : ℕ
  pub slot_index : ℕ

-- `created_at` is the bit pattern of an `int64_t`
pub record Entry : Type 0 where
  pub rid : RecordId
  pub created_at : ℕ

-- `bloom` is an array of 64 words, each a list of its 64 bits from the lowest
pub record QueryResultSet : Type 0 where
  pub entries : List Entry
  pub capacity : ℕ
  pub bloom : List (List Bool)

abbrev pub default_capacity : ℕ
default_capacity = 100

unfoldable pub bloom_hash1 : RecordId → ℕ
bloom_hash1 rid = (rid.page_id * 2654435761 + rid.slot_index * 40503) % 2 ^ 32

unfoldable pub bloom_hash2 : RecordId → ℕ
bloom_hash2 rid = (rid.page_id * 1103515245 + rid.slot_index * 12345) % 2 ^ 32

unfoldable pub test_bit : List (List Bool) → ℕ → Bool
test_bit bloom h = get_or (get_or bloom (h / 64) []) (h % 64) false

unfoldable pub set_bit : List (List Bool) → ℕ → List (List Bool)
set_bit bloom h = set bloom (h / 64) (set (get_or bloom (h / 64) []) (h % 64) true)

unfoldable pub bloom_test : List (List Bool) → RecordId → Bool
bloom_test bloom rid =
    test_bit bloom (bloom_hash1 rid % 4096) && test_bit bloom (bloom_hash2 rid % 4096)

unfoldable pub bloom_set : List (List Bool) → RecordId → List (List Bool)
bloom_set bloom rid = set_bit (set_bit bloom (bloom_hash1 rid % 4096)) (bloom_hash2 rid % 4096)

unfoldable pub no_bits : List (List Bool)
no_bits = replicate 64 (replicate 64 false)

-- `mapped` tells whether the kernel gives the memory of the set and of its two arrays.
unfoldable pub query_result_create : ℕ → (mapped : Bool × Bool × Bool) → Option QueryResultSet
query_result_create capacity (of_set, of_rids, of_created_at) =
    if of_set && of_rids && of_created_at
    then some (record {
      entries = [];
      capacity = if capacity == 0 then default_capacity else capacity;
      bloom = no_bits;
    })
    else none

unfoldable pub same_record : RecordId → RecordId → Bool
same_record r s = r.page_id == s.page_id && r.slot_index == s.slot_index

-- the linear scan for a duplicate
unfoldable pub is_listed : List Entry → RecordId → Bool
is_listed [] rid = false
is_listed (e ∷ es) rid = same_record e.rid rid || is_listed es rid

pub data AddCode : Type 0 where
  added : AddCode
  duplicate : AddCode
  failed : AddCode

unfoldable pub append : QueryResultSet → RecordId → ℕ → QueryResultSet
append rs rid created_at = record rs {
  entries = rs.entries ++ (record { rid = rid; created_at = created_at } ∷ []);
  bloom = bloom_set rs.bloom rid;
}

-- The capacity doubles in 32 bits, and an allocation of no bytes fails. No result stands for a
-- write outside the arrays.
unfoldable pub grow_and_append :
    QueryResultSet → RecordId → ℕ → (mapped : Bool) → Option (AddCode × QueryResultSet)
grow_and_append rs rid created_at mapped =
    let new_cap = rs.capacity * 2 % 2 ^ 32 in
    if new_cap == 0 || (if mapped then false else true)
    then some (failed, rs)
    else if ltb (length rs.entries) new_cap
    then some (added, append (record rs { capacity = new_cap }) rid created_at)
    else none

-- `mapped` tells whether the kernel gives the memory of the two new arrays.
unfoldable pub query_result_add :
    QueryResultSet → RecordId → ℕ → (mapped : Bool) → Option (AddCode × QueryResultSet)
query_result_add rs rid created_at mapped =
    if bloom_test rs.bloom rid && is_listed rs.entries rid
    then some (duplicate, rs)
    else if leb rs.capacity (length rs.entries)
    then grow_and_append rs rid created_at mapped
    else some (added, append rs rid created_at)

-- The inner loop of the sort: it walks from the end of the sorted part, which stands reversed.
unfoldable pub shift : Entry → List Entry → List Entry
shift key [] = key ∷ []
shift key (e ∷ es) = if lt_int64 e.created_at key.created_at then e ∷ shift key es else key ∷ e ∷ es

unfoldable pub sort_loop : (sorted rest : List Entry) → List Entry
sort_loop sorted [] = sorted
sort_loop sorted (key ∷ rest) = sort_loop (shift key sorted) rest

-- a reversed part of an array, put back in order before what follows it
unfoldable pub unwind : List Entry → List Entry → List Entry
unwind [] es = es
unwind (e ∷ sorted) es = unwind sorted (e ∷ es)

-- the loop over `i`
unfoldable pub in_order : QueryResultSet → QueryResultSet
in_order rs = record rs { entries = unwind (sort_loop [] rs.entries) [] }

-- At the index 2 ^ 31 the cast to int32_t gives a negative number, and the code writes outside the arrays:
-- there is no result.
unfoldable pub query_result_sort : QueryResultSet → Option QueryResultSet
query_result_sort rs = if leb (length rs.entries) (2 ^ 31) then some (in_order rs) else none

unfoldable pub query_result_apply_limit : QueryResultSet → ℕ → QueryResultSet
query_result_apply_limit rs limit =
    if ltb limit (length rs.entries) then record rs { entries = take limit rs.entries } else rs
