-- ===== src/Subscription/Removal.antt =====
-- What removals do to the map that the table implements, and to the delivery of events.
use onion_relay.Prelude.{
  ℕ, zero, suc, ◌≡◌, ◌≢◌, ◌↔◌, refl, sym, ◌∙◌, true, false, none, some, List, [], ◌∷◌, map,
  if◌then◌else◌, length, set, ◌==◌, arith, All, Bool-cases, Option-cases, inl, inr, All-imp,
}
use onion_relay.Filter.{EventEntity}
use onion_relay.Subscription.{
  Subscription, Manager, ReqMessage, max_count, cleared, index_of, is_of, entry,
  nostr_subscription_add, nostr_subscription_remove, nostr_subscription_remove_client,
  nostr_subscription_find, nostr_subscription_matches_event, nostr_subscription_find_matching,
  matching_loop,
}
use onion_relay.Subscription.Cases.{
  inactive, update, new, full, add-cases, found, absent, remove-cases,
}
use onion_relay.Subscription.Ids.{same_id_symm, same_id_congr}
use onion_relay.Subscription.Lookup.{index_of-zero, index_of-suc, index_of-some, index_of-none}
use onion_relay.Subscription.View.{
  lookup, view, lookup-set_other, lookup-none, lookup-cons, same_key, is_of_congr, is_of-same_key,
  index_of-congr,
}
use onion_relay.Subscription.Invariant.{
  IsValid, Distinct, clash, dismiss, remove_client_lem, active_count, active_count_le,
}

is_of-cleared : (fd : ℕ) (id : List ℕ) → is_of fd id cleared ≡ false
unfolding is_of cleared
is_of-cleared fd id = refl

-- Behind the entry of a key no other entry has that key.
alone :
    (fd : ℕ) (id : List ℕ) (a : Subscription) (subs : List Subscription)
    → is_of fd id a ≡ true
    → All (λ b. clash a b ≡ false) subs
    → All (λ b. is_of fd id b ≡ false) subs
alone fd id a subs h = All-imp (λ b. clash a b ≡ false) (λ b. is_of fd id b ≡ false) subs one
  where
    one : (b : Subscription) → clash a b ≡ false → is_of fd id b ≡ false
    one b e = elim (Bool-cases (is_of fd id b)) [
      | inl k ↦
          unfold is_of in
          ground (
            arith,
            same_id_congr a.subscription_id id b.subscription_id,
            same_id_congr id a.subscription_id b.subscription_id,
            same_id_symm id b.subscription_id,
            same_id_symm a.subscription_id id,
            same_id_symm a.subscription_id b.subscription_id,
          )
      | inr k ↦ k
    ]

cleared_key :
    (fd : ℕ) (id : List ℕ) (subs : List Subscription) (i : ℕ)
    → Distinct subs
    → index_of (is_of fd id) subs ≡ some i
    → All (λ b. is_of fd id b ≡ false) (set subs i cleared)
cleared_key fd id [] i d e = tt
cleared_key fd id (a ∷ subs) zero d e =
    (is_of-cleared fd id, alone fd id a subs (index_of-zero (is_of fd id) a subs e) d.0)
cleared_key fd id (a ∷ subs) (suc i) d e =
    let (miss, rest) = index_of-suc (is_of fd id) a subs i e in
    (miss, cleared_key fd id subs i d.1 rest)

-- After `nostr_subscription_remove` nothing is in force for its client and id; every other client
-- or id has what it had.
remove-view :
    (m : Manager) (fd : ℕ) (id : List ℕ) (fd' : ℕ) (id' : List ℕ)
    → IsValid m
    → view (nostr_subscription_remove m fd id).1 fd' id'
      ≡ (if same_key fd id fd' id' then none else view m fd' id')
unfolding entry
remove-view m fd id fd' id' v = elim (remove-cases m fd id) [
  | found i e q ↦
      let (inside, meant) = index_of-some (is_of fd id) m.subscriptions i cleared e in
      elim (Bool-cases (same_key fd id fd' id')) [
        | inl k ↦
            rw (q, k)
              (lookup-none (is_of fd' id') (set m.subscriptions i cleared) (
                All-imp (λ b. is_of fd id b ≡ false) (λ b. is_of fd' id' b ≡ false) _
                  (λ b n. sym (is_of_congr fd fd' id id' b k) ∙ n)
                  (cleared_key fd id m.subscriptions i v.distinct e)))
        | inr k ↦
            rw (q, k)
              (lookup-set_other (is_of fd' id') m.subscriptions i cleared (is_of-cleared fd' id')
                (ground (arith, is_of-same_key fd fd' id id' (entry m.subscriptions i))))
      ]
  | absent e q ↦ elim (Bool-cases (same_key fd id fd' id')) [
    | inl k ↦
        rw (q, k)
          (lookup-none (is_of fd' id') m.subscriptions (
            index_of-none (is_of fd' id') m.subscriptions (
              sym (
                index_of-congr (is_of fd id) (is_of fd' id') m.subscriptions
                  (λ b. is_of_congr fd fd' id id' b k))
              ∙ e)))
    | inr k ↦ rw (q, k)
  ]
]

lookup-dismiss :
    (fd fd' : ℕ) (id' : List ℕ) (subs : List Subscription)
    → lookup (is_of fd' id') (map (dismiss fd) subs)
      ≡ (if fd == fd' then none else lookup (is_of fd' id') subs)
unfolding cleared is_of
lookup-dismiss fd fd' id' [] = ground (arith, lookup-none (is_of fd' id') [] tt)
lookup-dismiss fd fd' id' (a ∷ subs) = ground (
  arith,
  lookup-cons (is_of fd' id') (dismiss fd a) (map (dismiss fd) subs),
  lookup-cons (is_of fd' id') a subs,
  lookup-dismiss fd fd' id' subs,
)

-- After `nostr_subscription_remove_client` nothing is in force for the client, under any id; the
-- other clients have what they had.
pub remove_client-view :
    (m : Manager) (fd : ℕ) (fd' : ℕ) (id' : List ℕ)
    → IsValid m
    → view (nostr_subscription_remove_client m fd).1 fd' id'
      ≡ (if fd == fd' then none else view m fd' id')
remove_client-view m fd fd' id' v =
    rw (remove_client_lem m fd v) (lookup-dismiss fd fd' id' m.subscriptions)

matching_loop-All :
    (P : Subscription → Type 0) (subs : List Subscription) (event : EventEntity)
    → All P subs
    → All
        (λ s. P s × (s.active ≡ true) × (nostr_subscription_matches_event s event ≡ true))
        (matching_loop subs event)
unfolding matching_loop
matching_loop-All P [] event h = tt
matching_loop-All P (a ∷ subs) event h = ground (arith, matching_loop-All P subs event h.1)

dismiss-silent :
    (fd : ℕ) (subs : List Subscription)
    → All (λ s. s.active ≡ true → s.client_fd ≢ fd) (map (dismiss fd) subs)
unfolding cleared
dismiss-silent fd [] = tt
dismiss-silent fd (a ∷ subs) = (ground arith, dismiss-silent fd subs)

-- After `nostr_subscription_remove_client` no event is delivered to the client: every subscription
-- that `nostr_subscription_find_matching` calls back for is in force, matches the event and belongs
-- to another client.
remove_client-silent :
    (m : Manager) (fd : ℕ) (event : EventEntity)
    → IsValid m
    → All
        (λ s.
          (s.client_fd ≢ fd)
          × (s.active ≡ true)
          × (nostr_subscription_matches_event s event ≡ true))
        (nostr_subscription_find_matching (nostr_subscription_remove_client m fd).1 event).1
unfolding nostr_subscription_find_matching
remove_client-silent m fd event v = rw (remove_client_lem m fd v) (
    All-imp _ _ (matching_loop (map (dismiss fd) m.subscriptions) event)
      (λ s h. (h.0 h.1, h.1, h.2))
      (matching_loop-All (λ s. s.active ≡ true → s.client_fd ≢ fd)
        (map (dismiss fd) m.subscriptions) event (dismiss-silent fd m.subscriptions)))

inactive-none :
    (subs : List Subscription) → (index_of inactive subs ≡ none) ↔ (active_count subs ≡ length subs)
unfolding index_of
inactive-none [] = ground arith
inactive-none (a ∷ subs) = elim (Option-cases (index_of inactive subs)) [
  | inl e ↦ ground (arith, inactive-none subs, active_count_le subs)
  | inr (j, e) ↦ ground (arith, inactive-none subs, active_count_le subs)
]

-- `nostr_subscription_add` returns NULL exactly if all 256 entries are in use and none is of the
-- client and id; the table is then as it was.
add-none :
    (m : Manager) (fd : ℕ) (req : ReqMessage)
    → IsValid m
    → (nostr_subscription_add m fd req ≡ (none, m))
      ↔ ((m.count ≡ max_count) × (nostr_subscription_find m fd req.subscription_id ≡ none))
unfolding nostr_subscription_find
add-none m fd req v = elim (add-cases m fd req) [
  | update i e q ↦ ground arith
  | new i e e' q ↦ ground (arith, inactive-none m.subscriptions, v.size, v.counted)
  | full e e' q ↦ ground (arith, inactive-none m.subscriptions, v.size, v.counted)
]
