-- ===== src/Subscription/Reachable.antt =====
-- The tables that sequences of calls lead to.
use onion_relay.Prelude.{ℕ, ◌≡◌, true, List}
use onion_relay.Subscription.{
  Manager, ReqMessage, nostr_subscription_manager_init, nostr_subscription_add,
  nostr_subscription_remove, nostr_subscription_remove_client,
}
use onion_relay.Subscription.Invariant.{
  IsValid, init-IsValid, add-IsValid, remove-IsValid, remove_client-IsValid,
}

-- from the table of nostr_subscription_manager_init by any calls in any order
pub data Reachable : Manager → Type 0 where
  initial : {m : Manager} → nostr_subscription_manager_init true ≡ (true, m) → Reachable m
  added :
      {m : Manager} (fd : ℕ) (req : ReqMessage)
      → Reachable m
      → Reachable (nostr_subscription_add m fd req).1
  removed :
      {m : Manager} (fd : ℕ) (id : List ℕ)
      → Reachable m
      → Reachable (nostr_subscription_remove m fd id).1
  dismissed :
      {m : Manager} (fd : ℕ) → Reachable m → Reachable (nostr_subscription_remove_client m fd).1

-- Every table that calls of nostr_subscription_add, nostr_subscription_remove and
-- nostr_subscription_remove_client in any order make of the initial one is valid: it has 256 entries,
-- its counter is the number of entries in use, and no two entries in use are for one client and one id
-- that is not empty, up to the case of letters.
pub reachable-IsValid : {m : Manager} → Reachable m → IsValid m
reachable-IsValid (initial e) = init-IsValid e
reachable-IsValid (added {m} fd req r) = add-IsValid m fd req (reachable-IsValid r)
reachable-IsValid (removed {m} fd id r) = remove-IsValid m fd id (reachable-IsValid r)
reachable-IsValid (dismissed {m} fd r) = remove_client-IsValid m fd (reachable-IsValid r)
