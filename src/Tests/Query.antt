-- ===== src/Tests/Query.antt =====
-- The theorems about queries at a filter for one id, author, kind and tag, over an index that offers
-- one record for every key.
use onion_relay.Prelude.{
  ℕ, ◌≡◌, refl, Bool, true, Option, some, List, [], ◌∷◌, replicate, ◌==◌, if◌then◌else◌,
}
use onion_relay.ResultSet.{RecordId, QueryResultSet, no_bits}
use onion_relay.Query.{little_endian, DbFilter, DbFilterTag}
use onion_relay.Query.Tags.{Tag}
use onion_relay.SlotPage.{SlotPage}
use onion_relay.Query.Execute.{read_created_at, Indexes}

-- the tag filter t = "a"
abbrev topic : DbFilterTag
topic = record { name = 116; values = (97 ∷ replicate 31 0) ∷ [] }

abbrev filter : DbFilter
filter = record {
  ids = record { value = replicate 32 1; prefix_len = 0 } ∷ [];
  authors = record { value = replicate 32 2; prefix_len = 0 } ∷ [];
  kinds = 1 ∷ [];
  tags = topic ∷ [];
  since = 3;
  until = 0;
  limit = 2;
}

abbrev tags : List Tag
tags =
    record { name = 101 ∷ []; values = (98 ∷ []) ∷ [] }
    ∷ record { name = 116 ∷ []; values = (97 ∷ []) ∷ (98 ∷ []) ∷ [] }
    ∷ []

abbrev rid : RecordId
rid = record { page_id = 7; slot_index = 2 }

abbrev found : List ℕ → Option RecordId
found id = some rid

abbrev scan : List ℕ → List RecordId
scan key = rid ∷ []

-- pages with records at 3000, whose byte 128 is a 5
abbrev pages : ℕ → Option SlotPage
pages id = some record {
  page_id = id;
  overflow_page = 0;
  free_space_start = 36;
  free_space_end = 3000;
  fragmented_space = 0;
  slots = replicate 3 (record { offset = 3000; length = 1096 });
  page_data = λ a. if a == 3128 then 5 else 0;
}

abbrev time_of : RecordId → ℕ
time_of = read_created_at pages

read_created_at_runs : time_of rid ≡ 5
unfolding read_created_at little_endian
read_created_at_runs = refl

abbrev mapped : RecordId → Bool
mapped r = true

abbrev empty_set : QueryResultSet
empty_set = record { entries = []; capacity = 1; bloom = no_bits }

abbrev read : RecordId → Option ((ℕ → ℕ) × ℕ)
read r = some (λ a. 0, 152)

abbrev indexes : Indexes
indexes = record {
  id = found;
  pubkey = scan;
  kind = scan;
  pubkey_kind = scan;
  tag = scan;
  timeline = λ low high. (9, rid ∷ []) ∷ [];
}
