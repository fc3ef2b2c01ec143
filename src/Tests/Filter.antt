-- ===== src/Tests/Filter.antt =====
-- A filter with an id prefix, a kind and a tag, and the theorems about filters at concrete inputs.
use mathlib.Core.List.{flatten}
use onion_relay.Prelude.{ℕ, ◌≡◌, ◌⊎◌, ◌↔◌, refl, true, false, List, [], ◌∷◌, replicate, arith}
use onion_relay.Text.{
  hex_from, hex_char_value, hex_pair, chars_match, chrcmp, lower, strncmp, c_string, memcmp_eq,
}
use onion_relay.Text.Hex.{hex}
use onion_relay.Filter.{
  Filter, FilterId, FilterTag, EventEntity, hex_to_bytes, bytes_match_prefix, id_matches,
  kind_matches, since_matches, until_matches, value_matches, any_value, tag_matches, tags_match,
  nostr_filter_matches,
}
use onion_relay.Filter.Prefix.{Exists, IsPrefix, id_matches_iff}
use onion_relay.Filter.Criteria.{Accepts, filter_matches_iff}

-- two bytes of an id
abbrev wanted : FilterId
wanted = record { value = 171 ∷ 205 ∷ replicate 30 0; prefix_len = 2 }

abbrev id_bytes : List ℕ
id_bytes = 171 ∷ 205 ∷ replicate 30 7

-- #t = "go"
abbrev topic : FilterTag
topic = record { name = b't'; values = (103 ∷ 111 ∷ replicate 30 0) ∷ []; values_count = 1 }

abbrev filter : Filter
filter = record {
  ids = wanted ∷ [];
  ids_count = 1;
  authors = [];
  authors_count = 0;
  kinds = 1 ∷ [];
  kinds_count = 1;
  tags = topic ∷ [];
  tags_count = 1;
  since = 100;
  until = 0;
  limit = 0;
  has_limit = false;
}

-- tagged "GO"
abbrev event : EventEntity
event = record {
  id = 97 ∷ 98 ∷ 67 ∷ 68 ∷ replicate 60 48;
  pubkey = replicate 64 48;
  kind = 1;
  created_at = 100;
  tags = record { key = b't' ∷ []; values = (71 ∷ 79 ∷ []) ∷ []; item_count = 1 } ∷ [];
  tag_count = 1;
}

program : Unit {0}
unfolding hex_char_value hex_pair hex_from chars_match chrcmp strncmp c_string memcmp_eq
    hex_to_bytes bytes_match_prefix id_matches kind_matches since_matches until_matches
    value_matches any_value tag_matches tags_match nostr_filter_matches lower flatten
program = tt

filter_runs : nostr_filter_matches filter event ≡ true
unfolding program
filter_runs = refl

too_early : nostr_filter_matches filter (record event { created_at = 99 }) ≡ false
unfolding program
too_early = refl

other_topic :
    nostr_filter_matches
      (record filter { tags = record topic { values = (103 ∷ 112 ∷ []) ∷ [] } ∷ [] })
      event
    ≡ false
unfolding program
other_topic = refl

filter_matches_iff_example : (nostr_filter_matches filter event ≡ true) ↔ Accepts filter event
filter_matches_iff_example =
    filter_matches_iff filter event (omega arith) (omega arith) (omega arith)

id_matches_iff_example :
    (id_matches (wanted ∷ []) 1 (hex true id_bytes) ≡ true)
    ↔ ((topic.values_count ≡ 0) ⊎ Exists (IsPrefix id_bytes) (wanted ∷ []))
id_matches_iff_example =
    id_matches_iff (wanted ∷ []) 1 true id_bytes refl (omega arith) (omega arith)
