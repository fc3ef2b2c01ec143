-- ===== src/Tests/Subscription.antt =====
-- A table with one client's subscription, and the theorems about the table at concrete inputs.
use onion_relay.Prelude.{
  ℕ, ◌≡◌, ◌≢◌, ◌↔◌, refl, true, none, some, List, [], ◌∷◌, replicate, ◌==◌, map, arith,
  if◌then◌else◌, take,
}
use onion_relay.Filter.{EventEntity}
use onion_relay.Subscription.{
  nostr_subscription_manager_init, index_of, is_of, Manager, ReqMessage, cleared, no_filter,
  same_id, nostr_subscription_add, nostr_subscription_remove, nostr_subscription_remove_client,
}
use onion_relay.Subscription.Ids.{folded, same_id_iff}
use onion_relay.Subscription.View.{view, same_key}
use onion_relay.Subscription.Invariant.{IsValid, init-IsValid, add-IsValid}
use onion_relay.Subscription.Reachable.{
  Reachable, initial, added, removed, dismissed, reachable-IsValid,
}
use onion_relay.Subscription.Refine.{IsRequest, add-view}
use onion_relay.Subscription.Removal.{remove_client-view}

abbrev empty : Manager
empty = record { subscriptions = replicate 256 cleared; count = 0 }

-- under the id "ab"
abbrev request : ReqMessage
request = record {
  subscription_id = 97 ∷ 98 ∷ [];
  filters = replicate 16 no_filter;
  filters_count = 1;
}

request-IsRequest : IsRequest request
request-IsRequest = record { named = λ e. cc; stored = omega arith }

empty-IsValid : IsValid empty
empty-IsValid = init-IsValid (unfold nostr_subscription_manager_init in refl)

one : Manager
one = (nostr_subscription_add empty 5 request).1

add_runs : (nostr_subscription_add empty 5 request).0 ≡ some 0
unfolding nostr_subscription_add index_of is_of cleared
add_runs = refl

-- an event of kind 1 with an id of zeros
abbrev event : EventEntity
event = record {
  id = replicate 64 48;
  pubkey = replicate 64 48;
  kind = 1;
  created_at = 1000;
  tags = [];
  tag_count = 0;
}

one-Reachable : Reachable one
unfolding one
one-Reachable =
    added {m = empty} 5 request
      (initial {m = empty} (unfold nostr_subscription_manager_init in refl))

one-IsValid : IsValid (nostr_subscription_add empty 5 request).1
one-IsValid = add-IsValid empty 5 request empty-IsValid

reachable-IsValid_example :
    IsValid
      (nostr_subscription_remove_client (nostr_subscription_remove one 5 (97 ∷ 98 ∷ [])).1 6).1
reachable-IsValid_example = reachable-IsValid (dismissed 6 (removed 5 (97 ∷ 98 ∷ []) one-Reachable))

-- "AB" is the same id as "ab"
abbrev loud : List ℕ
loud = 65 ∷ 66 ∷ []

same_id_iff_example :
    (same_id request.subscription_id loud ≡ true)
    ↔ ((request.subscription_id ≢ []) × (map folded request.subscription_id ≡ map folded loud))
same_id_iff_example = same_id_iff request.subscription_id loud

add-view_example : view (nostr_subscription_add empty 5 request).1 5 (65 ∷ 66 ∷ []) ≡ (
    if same_key 5 (97 ∷ 98 ∷ []) 5 (65 ∷ 66 ∷ [])
    then some (take 1 (replicate 16 no_filter))
    else view empty 5 (65 ∷ 66 ∷ []))
add-view_example = add-view empty 5 request request-IsRequest 5 (65 ∷ 66 ∷ []) (λ e. cc add_runs)

remove_client-view_example :
    view (nostr_subscription_remove_client one 5).1 6 (97 ∷ [])
    ≡ (if 5 == 6 then none else view one 6 (97 ∷ []))
unfolding one
remove_client-view_example = remove_client-view one 5 6 (97 ∷ []) one-IsValid
