-- ===== src/Subscription/View.antt =====
-- The table as a map from a client and an id to the filters in force.
use onion_relay.Prelude.{
  get_or-suc, ℕ, ◌<◌, ◌≡◌, refl, Bool, true, false, ◌&&◌, Option, none, some, List, [], ◌∷◌,
  if◌then◌else◌, length, set, take, ◌==◌, arith, All, Option-cases, inl, inr, get_or-set_self,
  get_or-set_ne,
}
use onion_relay.Filter.{Filter}
use onion_relay.Subscription.{Subscription, Manager, cleared, index_of, is_of, same_id, entry}
use onion_relay.Subscription.Ids.{same_id_symm, same_id_congr}
use onion_relay.Subscription.Lookup.{
  index_of-some, index_of-All_false, index_of-set, index_of-set_new,
}

-- the filters that `nostr_subscription_matches_event` reads
abbrev pub accepted : Subscription → List Filter
accepted sub = take sub.filters_count sub.filters

pub lookup : (Subscription → Bool) → List Subscription → Option (List Filter)
lookup test subs = elim (index_of test subs) [
  | none ↦ none
  | some i ↦ some (accepted (entry subs i))
]

abbrev pub view : Manager → ℕ → List ℕ → Option (List Filter)
view m fd id = lookup (is_of fd id) m.subscriptions

module _ (test : Subscription → Bool) (subs : List Subscription) (i : ℕ) (v : Subscription) where
  -- A write over an entry that is not meant does not change what is found.
  pub lookup-set_other :
      test v ≡ false → test (entry subs i) ≡ false → lookup test (set subs i v) ≡ lookup test subs
  unfolding lookup entry
  lookup-set_other h k = elim (Option-cases (index_of test subs)) [
    | inl e ↦ ground (arith, index_of-set test subs i cleared v)
    | inr (j, e) ↦ ground (
      arith,
      index_of-set test subs i cleared v,
      index_of-some test subs j cleared e,
      get_or-set_ne subs {i = i} {j = j} v cleared,
    )
  ]

  pub lookup-set_same :
      index_of test subs ≡ some i → test v ≡ true → lookup test (set subs i v) ≡ some (accepted v)
  unfolding lookup entry
  lookup-set_same e k = ground (
    arith,
    index_of-set test subs i cleared v,
    index_of-some test subs i cleared e,
    get_or-set_self subs i v cleared,
  )

  pub lookup-set_new :
      All (λ x. test x ≡ false) subs
      → i < length subs
      → test v ≡ true
      → lookup test (set subs i v) ≡ some (accepted v)
  unfolding lookup entry
  lookup-set_new n l k =
      ground (arith, index_of-set_new test subs i v n l k, get_or-set_self subs i v cleared)

pub lookup-none :
    (test : Subscription → Bool) (subs : List Subscription)
    → All (λ x. test x ≡ false) subs
    → lookup test subs ≡ none
unfolding lookup
lookup-none test subs h = rw (index_of-All_false test subs h, lookup)

pub index_of-congr :
    (t u : Subscription → Bool) (subs : List Subscription)
    → ((x : Subscription) → t x ≡ u x)
    → index_of t subs ≡ index_of u subs
unfolding index_of
index_of-congr t u [] h = refl
index_of-congr t u (x ∷ subs) h = ground (arith, h x, index_of-congr t u subs h)

-- the same client, and an id that is the same to the relay
abbrev pub same_key : ℕ → List ℕ → ℕ → List ℕ → Bool
same_key fd id fd' id' = fd == fd' && same_id id id'

pub is_of_congr :
    (fd fd' : ℕ) (id id' : List ℕ) (x : Subscription)
    → same_key fd id fd' id' ≡ true
    → is_of fd id x ≡ is_of fd' id' x
unfolding is_of
is_of_congr fd fd' id id' x h =
    let s = x.subscription_id in
    ground (
      arith,
      same_id_symm s id,
      same_id_symm s id',
      same_id_symm id id',
      same_id_congr id s id',
      same_id_congr id id' s,
      same_id_congr id' id s,
    )

-- Two keys that one entry has are the same.
pub is_of-same_key :
    (fd fd' : ℕ) (id id' : List ℕ) (x : Subscription)
    → is_of fd id x ≡ true
    → is_of fd' id' x ≡ true
    → same_key fd id fd' id' ≡ true
unfolding is_of
is_of-same_key fd fd' id id' x h k = ground (arith, same_id_congr x.subscription_id id id')

pub lookup-cons :
    (test : Subscription → Bool) (x : Subscription) (subs : List Subscription)
    → lookup test (x ∷ subs) ≡ (if test x then some (accepted x) else lookup test subs)
unfolding lookup index_of entry
lookup-cons test x subs = elim (Option-cases (index_of test subs)) [
  | inl e ↦ ground arith
  | inr (j, e) ↦ ground (arith, get_or-suc x subs j cleared)
]
