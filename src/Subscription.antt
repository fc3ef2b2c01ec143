-- ===== src/Subscription.antt =====
-- src/nostr/subscription/nostr_subscription.c: the table of subscriptions. A pointer to an entry is
-- its index.
pub mod Ids
pub mod Lookup
pub mod View
pub mod Cases
pub mod Invariant
pub mod Refine
pub mod Removal
pub mod Reachable
use onion_relay.Prelude.{
  ℕ, zero, suc, ◌+◌, ◌-◌, ◌*◌, ◌%◌, ◌^◌, Bool, true, false, ◌&&◌, ◌||◌, not, Option, none, some,
  List, [], ◌∷◌, ◌++◌, ltb, leb, ◌==◌, if◌then◌else◌, length, get_or, get_elem?, set, take, drop,
  any, replicate,
}
use onion_relay.Text.{strncmp}
use onion_relay.Filter.{Filter, EventEntity, nostr_filter_matches}

abbrev pub max_count : ℕ
max_count = 256

pub record Subscription : Type 0 where
  pub active : Bool
  pub client_fd : ℕ
  pub subscription_id : List ℕ
  pub filters : List Filter
  pub filters_count : ℕ

pub record Manager : Type 0 where
  pub subscriptions : List Subscription
  pub count : ℕ

pub record ReqMessage : Type 0 where
  pub subscription_id : List ℕ
  pub filters : List Filter
  pub filters_count : ℕ

-- an entry and a filter of zero bytes
abbrev pub no_filter : Filter
no_filter = record {
  ids = [];
  ids_count = 0;
  authors = [];
  authors_count = 0;
  kinds = [];
  kinds_count = 0;
  tags = [];
  tags_count = 0;
  since = 0;
  until = 0;
  limit = 0;
  has_limit = false;
}

unfoldable pub cleared : Subscription
cleared = record {
  active = false;
  client_fd = 0;
  subscription_id = [];
  filters = replicate 16 no_filter;
  filters_count = 0;
}

-- `mapped` says whether the kernel has given zeroed memory; a NULL table is empty.
unfoldable pub nostr_subscription_manager_init : (mapped : Bool) → Bool × Manager
nostr_subscription_manager_init mapped =
    if mapped
    then (true, record { subscriptions = replicate max_count cleared; count = 0 })
    else (false, record { subscriptions = []; count = 0 })

unfoldable pub nostr_subscription_manager_destroy : Manager → Manager
nostr_subscription_manager_destroy m = record { subscriptions = []; count = 0 }

-- `manager->count--` on `size_t`
abbrev pub decrement : ℕ → ℕ
decrement n = (n + (2 ^ 64 - 1)) % 2 ^ 64

-- the loops that stop at the first entry that passes a test
unfoldable pub index_of {ℓ} : {A : Type ℓ} → (A → Bool) → List A → Option ℕ
index_of test [] = none
index_of test (x ∷ xs) =
    if test x then some 0 else elim (index_of test xs) [ none ↦ none | some i ↦ some (i + 1) ]

-- the comparison of lengths and characters that all the functions make
unfoldable pub same_id : List ℕ → List ℕ → Bool
same_id s t = length s == length t && strncmp s t (length s)

unfoldable pub is_of : ℕ → List ℕ → Subscription → Bool
is_of fd id sub = sub.active && sub.client_fd == fd && same_id sub.subscription_id id

unfoldable pub copy_filters : ReqMessage → Subscription → Subscription
copy_filters req sub = record sub {
  filters = take req.filters_count req.filters ++ drop req.filters_count sub.filters;
  filters_count = req.filters_count;
}

unfoldable pub fill : ℕ → ReqMessage → Subscription → Subscription
fill fd req sub =
    copy_filters req
      (record sub { active = true; client_fd = fd; subscription_id = req.subscription_id })

unfoldable pub entry : List Subscription → ℕ → Subscription
entry subs i = get_or subs i cleared

unfoldable pub nostr_subscription_add : Manager → ℕ → ReqMessage → Option ℕ × Manager
nostr_subscription_add m fd req = elim (index_of (is_of fd req.subscription_id) m.subscriptions) [
  | some i ↦ (
    some i,
    record m { subscriptions = set m.subscriptions i (copy_filters req (entry m.subscriptions i)) },
  )
  | none ↦ elim (index_of (λ sub. not sub.active) m.subscriptions) [
    | some i ↦ (
      some i,
      record {
        subscriptions = set m.subscriptions i (fill fd req (entry m.subscriptions i));
        count = m.count + 1;
      },
    )
    | none ↦ (none, m)
  ]
]

unfoldable pub nostr_subscription_remove : Manager → ℕ → List ℕ → Bool × Manager
nostr_subscription_remove m fd id = elim (index_of (is_of fd id) m.subscriptions) [
  | some i ↦
      (true, record { subscriptions = set m.subscriptions i cleared; count = decrement m.count })
  | none ↦ (false, m)
]

abbrev pub is_client : ℕ → Subscription → Bool
is_client fd sub = sub.active && sub.client_fd == fd

-- the loop of `nostr_subscription_remove_client`, with `manager->count` and `removed`
unfoldable pub remove_client_loop : ℕ → List Subscription → ℕ → ℕ → List Subscription × ℕ × ℕ
remove_client_loop fd [] count removed = ([], count, removed)
remove_client_loop fd (sub ∷ subs) count removed =
    let gone = is_client fd sub in
    let (rest, count', removed') =
      remove_client_loop fd subs (if gone then decrement count else count)
        (if gone then removed + 1 else removed) in
    ((if gone then cleared else sub) ∷ rest, count', removed')

unfoldable pub nostr_subscription_remove_client : Manager → ℕ → ℕ × Manager
nostr_subscription_remove_client m fd =
    let (subs, count, removed) = remove_client_loop fd m.subscriptions m.count 0 in
    (removed, record { subscriptions = subs; count = count })

unfoldable pub nostr_subscription_find : Manager → ℕ → List ℕ → Option ℕ
nostr_subscription_find m fd id = index_of (is_of fd id) m.subscriptions

unfoldable pub nostr_subscription_matches_event : Subscription → EventEntity → Bool
nostr_subscription_matches_event sub event =
    if not sub.active
    then false
    else any (λ f. nostr_filter_matches f event) (take sub.filters_count sub.filters)

-- the loop of `nostr_subscription_find_matching`: the entries for which it calls back, in order
unfoldable pub matching_loop : List Subscription → EventEntity → List Subscription
matching_loop [] event = []
matching_loop (sub ∷ subs) event =
    let rest = matching_loop subs event in
    if sub.active && nostr_subscription_matches_event sub event then sub ∷ rest else rest

-- the return value and the calls of the callback
unfoldable pub nostr_subscription_find_matching : Manager → EventEntity → ℕ × List Subscription
nostr_subscription_find_matching m event =
    let calls = matching_loop m.subscriptions event in (length calls, calls)
