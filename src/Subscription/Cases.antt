-- ===== src/Subscription/Cases.antt =====
-- What the operations that write one entry come to, case by case.
use onion_relay.Prelude.{
  ℕ, ◌+◌, ◌≡◌, Bool, true, false, not, none, some, List, set, Option-cases, inl, inr, arith,
}
use onion_relay.Subscription.{
  Subscription, Manager, ReqMessage, cleared, index_of, is_of, entry, copy_filters, fill, decrement,
  nostr_subscription_add, nostr_subscription_remove,
}

abbrev pub inactive : Subscription → Bool
inactive sub = not sub.active

abbrev pub updated : Manager → ReqMessage → ℕ → Manager
updated m req i = record m {
  subscriptions = set m.subscriptions i (copy_filters req (entry m.subscriptions i));
}

abbrev pub filled : Manager → ℕ → ReqMessage → ℕ → Manager
filled m fd req i = record {
  subscriptions = set m.subscriptions i (fill fd req (entry m.subscriptions i));
  count = m.count + 1;
}

abbrev pub without : Manager → ℕ → Manager
without m i = record { subscriptions = set m.subscriptions i cleared; count = decrement m.count }

-- An entry was updated, or a free one filled, or there was none.
pub data Added (m : Manager) (fd : ℕ) (req : ReqMessage) : Type 0 where
  update :
      (i : ℕ)
      → index_of (is_of fd req.subscription_id) m.subscriptions ≡ some i
      → nostr_subscription_add m fd req ≡ (some i, updated m req i)
      → Added m fd req
  new :
      (i : ℕ)
      → index_of (is_of fd req.subscription_id) m.subscriptions ≡ none
      → index_of inactive m.subscriptions ≡ some i
      → nostr_subscription_add m fd req ≡ (some i, filled m fd req i)
      → Added m fd req
  full :
      index_of (is_of fd req.subscription_id) m.subscriptions ≡ none
      → index_of inactive m.subscriptions ≡ none
      → nostr_subscription_add m fd req ≡ (none, m)
      → Added m fd req

pub add-cases : (m : Manager) (fd : ℕ) (req : ReqMessage) → Added m fd req
unfolding nostr_subscription_add
add-cases m fd req = elim (Option-cases (index_of (is_of fd req.subscription_id) m.subscriptions)) [
  | inr (i, e) ↦ update i e (ground arith)
  | inl e ↦ elim (Option-cases (index_of inactive m.subscriptions)) [
    | inr (i, e') ↦ new i e e' (ground arith)
    | inl e' ↦ full e e' (ground arith)
  ]
]

pub data Removed (m : Manager) (fd : ℕ) (id : List ℕ) : Type 0 where
  found :
      (i : ℕ)
      → index_of (is_of fd id) m.subscriptions ≡ some i
      → nostr_subscription_remove m fd id ≡ (true, without m i)
      → Removed m fd id
  absent :
      index_of (is_of fd id) m.subscriptions ≡ none
      → nostr_subscription_remove m fd id ≡ (false, m)
      → Removed m fd id

pub remove-cases : (m : Manager) (fd : ℕ) (id : List ℕ) → Removed m fd id
unfolding nostr_subscription_remove
remove-cases m fd id = elim (Option-cases (index_of (is_of fd id) m.subscriptions)) [
  | inr (i, e) ↦ found i e (ground arith)
  | inl e ↦ absent e (ground arith)
]
