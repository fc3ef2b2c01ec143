-- ===== src/Filter/Criteria.antt =====
-- What a filter asks of an event.
use onion_relay.Prelude.{
  ℕ, ◌^◌, ◌≤◌, ◌<◌, ◌≡◌, ◌⊎◌, refl, true, List, [], ◌∷◌, arith, All, any, all, take, ◌↔◌, ◌==◌,
  ==_iff,
}
use onion_relay.Filter.{
  Filter, FilterTag, EventEntity, id_matches, kind_matches, since_matches, until_matches,
  tag_matches, tags_match, nostr_filter_matches,
}
use onion_relay.Filter.Prefix.{Exists, any_iff}

-- The conditions of a filter on an event whose time is not negative as an `int64_t`.
pub record Accepts (f : Filter) (e : EventEntity) : Type 0 where
  pub ids : id_matches f.ids f.ids_count e.id ≡ true
  pub authors : id_matches f.authors f.authors_count e.pubkey ≡ true
  pub kinds : (f.kinds_count ≡ 0) ⊎ Exists (λ k. k ≡ e.kind) (take f.kinds_count f.kinds)
  pub since : (0 < f.since) × (f.since < 2 ^ 63) → f.since ≤ e.created_at
  pub until : (0 < f.until) × (f.until < 2 ^ 63) → e.created_at ≤ f.until
  pub tags :
      All
        (λ t. Exists (λ u. tag_matches t u ≡ true) (take e.tag_count e.tags))
        (take f.tags_count f.tags)

All-true {ℓ} : {A : Type ℓ} (xs : List A) → All (λ _. Unit {0}) xs
All-true [] = tt
All-true (x ∷ xs) = (tt, All-true xs)

kind_iff :
    (f : Filter) (kind : ℕ)
    → (kind_matches f kind ≡ true)
      ↔ ((f.kinds_count ≡ 0) ⊎ Exists (λ k. k ≡ kind) (take f.kinds_count f.kinds))
unfolding kind_matches
kind_iff f kind = ground (
  arith,
  any_iff (λ k. k == kind) (λ k. k ≡ kind) (λ _. Unit {0}) (take f.kinds_count f.kinds)
      (λ k _. ==_iff k kind) (All-true (take f.kinds_count f.kinds)),
)

tags_iff :
    (f : Filter) (e : EventEntity)
    → (tags_match f e ≡ true)
      ↔ All
          (λ t. Exists (λ u. tag_matches t u ≡ true) (take e.tag_count e.tags))
          (take f.tags_count f.tags)
unfolding tags_match
tags_iff f e = go (take f.tags_count f.tags)
  where
    one :
        (t : FilterTag)
        → (any (tag_matches t) (take e.tag_count e.tags) ≡ true)
          ↔ Exists (λ u. tag_matches t u ≡ true) (take e.tag_count e.tags)
    one t =
        any_iff (tag_matches t) (λ u. tag_matches t u ≡ true) (λ _. Unit {0})
          (take e.tag_count e.tags) (λ u _. (λ h. h, λ h. h)) (All-true (take e.tag_count e.tags))

    go :
        (ts : List FilterTag)
        → (all (λ ft. any (tag_matches ft) (take e.tag_count e.tags)) ts ≡ true)
          ↔ All (λ t. Exists (λ u. tag_matches t u ≡ true) (take e.tag_count e.tags)) ts
    go [] = (λ _. tt, λ _. refl)
    go (t ∷ ts) = (
      λ h. ((one t).0 (ground arith), (go ts).0 (ground arith)),
      λ h. let a = (one t).1 h.0 in let b = (go ts).1 h.1 in ground arith,
    )

-- `nostr_filter_matches` accepts exactly the events that meet every condition of the filter. A time
-- bound that is 0 or negative is none.
pub filter_matches_iff :
    (f : Filter) (e : EventEntity)
    → e.created_at < 2 ^ 63
    → f.since < 2 ^ 64
    → f.until < 2 ^ 64
    → (nostr_filter_matches f e ≡ true) ↔ Accepts f e
unfolding nostr_filter_matches since_matches until_matches
filter_matches_iff f e h1 h2 h3 = (
  λ h. record {
    ids = ground arith;
    authors = ground arith;
    kinds = (kind_iff f e.kind).0 (ground arith);
    since = λ p. ground arith;
    until = λ p. ground arith;
    tags = (tags_iff f e).0 (ground arith);
  },
  λ a.
      let k = (kind_iff f e.kind).1 a.kinds in
      let t = (tags_iff f e).1 a.tags in ground (arith, a.ids, a.authors, a.since, a.until),
)
