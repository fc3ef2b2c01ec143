-- ===== src/Subscription/Refine.antt =====
-- The table implements a map from client and id to filters.
use onion_relay.Prelude.{
  ℕ, zero, suc, ◌≤◌, ◌≡◌, ◌≢◌, refl, sym, ap, ◌∙◌, true, false, Option, none, some, List, [], ◌∷◌,
  ◌++◌, if◌then◌else◌, length, take, arith, Bool-cases, inl, inr,
}
use onion_relay.Filter.{Filter}
use onion_relay.Subscription.{
  Subscription, Manager, ReqMessage, cleared, index_of, is_of, entry, copy_filters, fill,
  nostr_subscription_add,
}
use onion_relay.Subscription.Cases.{inactive, updated, filled, update, new, full, add-cases}
use onion_relay.Subscription.Lookup.{index_of-some, index_of-none}
use onion_relay.Subscription.View.{
  accepted, view, lookup-set_other, lookup-set_same, lookup-set_new, index_of-congr, same_key,
  is_of_congr, is_of-same_key,
}

-- a request as the parser of REQ leaves it
pub record IsRequest (req : ReqMessage) : Type 0 where
  pub named : req.subscription_id ≢ []
  pub stored : req.filters_count ≤ length req.filters

take-length_append :
    (n : ℕ) (xs ys : List Filter) → n ≤ length xs → take n (take n xs ++ ys) ≡ take n xs
take-length_append zero xs ys h = refl
take-length_append (suc n) [] ys h = absurd (omega arith)
take-length_append (suc n) (x ∷ xs) ys h =
    ap (λ zs. x ∷ zs) (take-length_append n xs ys (omega arith))

accepted-copy_filters :
    (req : ReqMessage) (sub : Subscription)
    → req.filters_count ≤ length req.filters
    → accepted (copy_filters req sub) ≡ take req.filters_count req.filters
unfolding copy_filters
accepted-copy_filters req sub h = take-length_append req.filters_count req.filters _ h

lookup-congr :
    (fd fd' : ℕ) (id id' : List ℕ) (subs : List Subscription)
    → same_key fd id fd' id' ≡ true
    → index_of (is_of fd' id') subs ≡ index_of (is_of fd id) subs
lookup-congr fd fd' id id' subs h =
    sym (index_of-congr (is_of fd id) (is_of fd' id') subs (λ x. is_of_congr fd fd' id id' x h))

module _ (m : Manager) (fd : ℕ) (req : ReqMessage) (r : IsRequest req) (fd' : ℕ)
    (id' : List ℕ) where
  after_add : Option (List Filter)
  after_add =
      if same_key fd req.subscription_id fd' id'
      then some (take req.filters_count req.filters)
      else view m fd' id'

  update-view :
      (i : ℕ)
      → index_of (is_of fd req.subscription_id) m.subscriptions ≡ some i
      → view (updated m req i) fd' id' ≡ after_add
  unfolding after_add entry
  update-view i e =
      let old = entry m.subscriptions i in
      let sub = copy_filters req old in
      let (inside, meant) =
        index_of-some (is_of fd req.subscription_id) m.subscriptions i cleared e in
      let same : is_of fd' id' sub ≡ is_of fd' id' old = unfold copy_filters is_of in refl in
      elim (Bool-cases (same_key fd req.subscription_id fd' id')) [
        | inl k ↦ rw k (
            lookup-set_same (is_of fd' id') m.subscriptions i sub
              (lookup-congr fd fd' req.subscription_id id' m.subscriptions k ∙ e)
              (same ∙ (sym (is_of_congr fd fd' req.subscription_id id' old k) ∙ meant))
            ∙ ap some (accepted-copy_filters req old r.stored))
        | inr k ↦
            let other : is_of fd' id' old ≡ false =
              ground (arith, is_of-same_key fd fd' req.subscription_id id' old) in
            rw k (lookup-set_other (is_of fd' id') m.subscriptions i sub (same ∙ other) other)
      ]

  fill-view :
      (i : ℕ)
      → index_of (is_of fd req.subscription_id) m.subscriptions ≡ none
      → index_of inactive m.subscriptions ≡ some i
      → view (filled m fd req i) fd' id' ≡ after_add
  unfolding after_add entry
  fill-view i e e' =
      let old = entry m.subscriptions i in
      let sub = fill fd req old in
      let (inside, free) = index_of-some inactive m.subscriptions i cleared e' in
      let key : is_of fd' id' sub ≡ same_key fd req.subscription_id fd' id' =
        unfold fill copy_filters is_of in ground arith in
      let off : is_of fd' id' old ≡ false = unfold is_of in ground arith in
      elim (Bool-cases (same_key fd req.subscription_id fd' id')) [
        | inl k ↦ rw k (
            lookup-set_new (is_of fd' id') m.subscriptions i sub
              (index_of-none (is_of fd' id') m.subscriptions
                (lookup-congr fd fd' req.subscription_id id' m.subscriptions k ∙ e))
              inside (key ∙ k)
            ∙ (unfold fill in ap some (accepted-copy_filters req _ r.stored)))
        | inr k ↦ rw k (lookup-set_other (is_of fd' id') m.subscriptions i sub (key ∙ k) off)
      ]

  -- After `nostr_subscription_add` has returned an entry, the filters of the request are in force
  -- for its client and id, and for every other client or id what was in force before.
  pub add-view :
      (nostr_subscription_add m fd req).0 ≢ none
      → view (nostr_subscription_add m fd req).1 fd' id' ≡ (
          if same_key fd req.subscription_id fd' id'
          then some (take req.filters_count req.filters)
          else view m fd' id')
  unfolding after_add
  add-view h = elim (add-cases m fd req) [
    | update i e q ↦ rw q (update-view i e)
    | new i e e' q ↦ rw q (fill-view i e e')
    | full e e' q ↦ absurd (h (ap (λ (p : Option ℕ × Manager). p.0) q))
  ]
