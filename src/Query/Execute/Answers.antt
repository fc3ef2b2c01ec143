-- ===== src/Query/Execute/Answers.antt =====
-- The answers of a whole query.
use onion_relay.Prelude.{
  ℕ, ◌^◌, ◌≤◌, ◌≡◌, refl, true, false, Option, some, List, ◌++◌, length, min, All,
}
use mathlib.Core.List.{Perm}
use onion_relay.ResultSet.{RecordId, Entry, QueryResultSet}
use onion_relay.ResultSet.Add.{IsValid}
use onion_relay.ResultSet.Order.{IsNotOlder, IsDescending}
use onion_relay.Query.{DbFilter, passes, query_post_filter, stop_of}

-- a valid set whose capacity can double in 32 bits, found without a write outside the arrays
abbrev pub IsFound : Option QueryResultSet → Type 0
IsFound result =
    (found : QueryResultSet) × (result ≡ some found) × IsValid found × (found.capacity ≤ 2 ^ 31)

capacity :
    (read : RecordId → Option ((ℕ → ℕ) × ℕ)) (found : QueryResultSet) (f : DbFilter)
    → (query_post_filter read found f).capacity ≡ found.capacity
unfolding query_post_filter
capacity read found f = refl

-- what a query answers with, for what its search has found: entries that pass the filter's tests,
-- newest first, as many as the limit admits, and none older than one that passes and was cut
pub record IsAnswer (read : RecordId → Option ((ℕ → ℕ) × ℕ)) (f : DbFilter)
    (found answer : QueryResultSet) : Type 0 where
  pub good : List Entry
  pub bad : List Entry
  pub split : Perm (good ++ bad) found.entries
  pub all_good : All (λ e. passes read f e.rid ≡ true) good
  pub none_good : All (λ e. passes read f e.rid ≡ false) bad
  pub cut : List Entry
  pub of_found : Perm (answer.entries ++ cut) good
  pub passing : All (λ e. passes read f e.rid ≡ true) answer.entries
  pub ordered : IsDescending answer.entries
  pub newest_kept : All (λ e. All (IsNotOlder e) cut) answer.entries
  pub as_many : length answer.entries ≡ min (stop_of f) (length good)
