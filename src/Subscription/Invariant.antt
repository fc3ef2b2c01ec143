-- ===== src/Subscription/Invariant.antt =====
-- The invariant of the table, and that every operation keeps it.
use onion_relay.Prelude.{
  length-replicate, replicate, subst, ℕ, zero, suc, ◌+◌, ◌-◌, ◌^◌, ◌<◌, ◌≤◌, ◌≡◌, refl, sym, ap,
  ◌∙◌, Bool, true, false, ◌&&◌, List, [], ◌∷◌, map, if◌then◌else◌, length, set, arith, All,
  Bool-cases, inl, inr, All-set, All-intro, All-imp, All-get_or, length-set,
}
use onion_relay.Subscription.{
  nostr_subscription_manager_init, Subscription, Manager, ReqMessage, cleared, max_count, is_of,
  entry, copy_filters, fill, is_client, decrement, nostr_subscription_add,
  nostr_subscription_remove, nostr_subscription_remove_client, remove_client_loop,
}
use onion_relay.Subscription.Cases.{
  inactive, updated, filled, update, new, full, add-cases, found, absent, remove-cases,
}
use onion_relay.Subscription.Ids.{same_id_symm}
use onion_relay.Subscription.Lookup.{index_of-some, index_of-none}

abbrev pub active_count : List Subscription → ℕ
active_count [] = 0
active_count (sub ∷ subs) = (if sub.active then 1 else 0) + active_count subs

-- both in force, of one client and under one id
abbrev pub clash : Subscription → Subscription → Bool
clash a b = a.active && is_of a.client_fd a.subscription_id b

pub clash_symm : (a b : Subscription) → clash a b ≡ clash b a
unfolding is_of
clash_symm a b = ground (arith, same_id_symm a.subscription_id b.subscription_id)

pub clash-cleared : (a : Subscription) → clash a cleared ≡ false
unfolding is_of cleared
clash-cleared a = ground arith

pub cleared-clash : (a : Subscription) → clash cleared a ≡ false
unfolding cleared
cleared-clash a = refl

abbrev pub Distinct : List Subscription → Type 0
Distinct [] = Unit
Distinct (a ∷ subs) = All (λ b. clash a b ≡ false) subs × Distinct subs

pub record IsValid (m : Manager) : Type 0 where
  pub size : length m.subscriptions ≡ max_count
  pub counted : m.count ≡ active_count m.subscriptions
  pub distinct : Distinct m.subscriptions

pub active_count_le : (subs : List Subscription) → active_count subs ≤ length subs
active_count_le [] = omega arith
active_count_le (a ∷ subs) = ground (arith, active_count_le subs)

active_count-set :
    (subs : List Subscription) (i : ℕ) (v : Subscription)
    → i < length subs
    → active_count (set subs i v) + (if (entry subs i).active then 1 else 0)
      ≡ active_count subs + (if v.active then 1 else 0)
unfolding entry
active_count-set [] i v h = absurd (omega arith)
active_count-set (a ∷ subs) zero v h = ground arith
active_count-set (a ∷ subs) (suc i) v h = ground (arith, active_count-set subs i v)

-- An entry that clashes with none may be written anywhere.
Distinct-set :
    (subs : List Subscription) (i : ℕ) (v : Subscription)
    → Distinct subs
    → All (λ b. clash v b ≡ false) subs
    → Distinct (set subs i v)
Distinct-set [] i v d h = tt
Distinct-set (a ∷ subs) zero v d h = (h.1, d.1)
Distinct-set (a ∷ subs) (suc i) v d h = (
  All-set (λ b. clash a b ≡ false) subs i v d.0 (clash_symm a v ∙ h.0),
  Distinct-set subs i v d.1 h.1,
)

-- So may one that clashes with the same entries as the one that it replaces.
Distinct-set_same :
    (subs : List Subscription) (i : ℕ) (v : Subscription)
    → Distinct subs
    → ((b : Subscription) → clash v b ≡ clash (entry subs i) b)
    → Distinct (set subs i v)
unfolding entry
Distinct-set_same [] i v d h = tt
Distinct-set_same (a ∷ subs) zero v d h =
    (All-imp (λ b. clash a b ≡ false) (λ b. clash v b ≡ false) subs (λ b e. h b ∙ e) d.0, d.1)
Distinct-set_same (a ∷ subs) (suc i) v d h = (
  All-set (λ b. clash a b ≡ false) subs i v d.0
      (clash_symm a v
        ∙ (h a ∙ clash_symm (entry subs i) a)
        ∙ All-get_or (λ b. clash a b ≡ false) subs i cleared d.0 (clash-cleared a)),
  Distinct-set_same subs i v d.1 h,
)

fill-clash :
    (fd : ℕ) (req : ReqMessage) (old b : Subscription)
    → is_of fd req.subscription_id b ≡ false
    → clash (fill fd req old) b ≡ false
unfolding fill copy_filters
fill-clash fd req old b h = h

updated-IsValid :
    (m : Manager) (req : ReqMessage) (i : ℕ)
    → i < length m.subscriptions
    → IsValid m
    → IsValid (updated m req i)
unfolding copy_filters
updated-IsValid m req i h v =
    let sub = copy_filters req (entry m.subscriptions i) in
    record {
      size = length-set m.subscriptions i sub ∙ v.size;
      counted = omega (arith, active_count-set m.subscriptions i sub h, v.counted);
      distinct = Distinct-set_same m.subscriptions i sub v.distinct (λ b. refl);
    }

filled-IsValid :
    (m : Manager) (fd : ℕ) (req : ReqMessage) (i : ℕ)
    → i < length m.subscriptions
    → (entry m.subscriptions i).active ≡ false
    → All (λ b. is_of fd req.subscription_id b ≡ false) m.subscriptions
    → IsValid m
    → IsValid (filled m fd req i)
filled-IsValid m fd req i h free n v =
    let sub = fill fd req (entry m.subscriptions i) in
    let on : sub.active ≡ true = unfold fill copy_filters in refl in
    record {
      size = length-set m.subscriptions i sub ∙ v.size;
      counted = ground (arith, active_count-set m.subscriptions i sub h, v.counted);
      distinct = Distinct-set m.subscriptions i sub v.distinct (
          All-imp (λ b. is_of fd req.subscription_id b ≡ false) (λ b. clash sub b ≡ false)
            m.subscriptions (fill-clash fd req (entry m.subscriptions i)) n);
    }

-- `nostr_subscription_add` keeps the invariant.
pub add-IsValid :
    (m : Manager) (fd : ℕ) (req : ReqMessage)
    → IsValid m
    → IsValid (nostr_subscription_add m fd req).1
unfolding entry
add-IsValid m fd req v = elim (add-cases m fd req) [
  | update i e r ↦ rw r (
      updated-IsValid m req i
        (index_of-some (is_of fd req.subscription_id) m.subscriptions i cleared e).0 v)
  | new i e e' r ↦
      let (inside, free) = index_of-some inactive m.subscriptions i cleared e' in
      rw r (
        filled-IsValid m fd req i inside (ground arith)
          (index_of-none (is_of fd req.subscription_id) m.subscriptions e) v)
  | full e e' r ↦ rw r v
]

is_of-active :
    (fd : ℕ) (id : List ℕ) (sub : Subscription) → is_of fd id sub ≡ true → sub.active ≡ true
unfolding is_of
is_of-active fd id sub h = ground arith

-- `nostr_subscription_remove` keeps it, so `count` never wraps.
pub remove-IsValid :
    (m : Manager) (fd : ℕ) (id : List ℕ) → IsValid m → IsValid (nostr_subscription_remove m fd id).1
unfolding entry
remove-IsValid m fd id v = elim (remove-cases m fd id) [
  | found i e r ↦
      let (inside, meant) = index_of-some (is_of fd id) m.subscriptions i cleared e in
      let on : (entry m.subscriptions i).active ≡ true =
        is_of-active fd id (entry m.subscriptions i) meant in
      let off : cleared.active ≡ false = unfold cleared in refl in
      rw r (record {
        size = length-set m.subscriptions i cleared ∙ v.size;
        counted = ground (
          arith,
          active_count-set m.subscriptions i cleared inside,
          v.counted,
          active_count_le m.subscriptions,
          v.size,
        );
        distinct =
            Distinct-set m.subscriptions i cleared v.distinct
              (All-intro (λ b. clash cleared b ≡ false) m.subscriptions cleared-clash);
      })
  | absent e r ↦ rw r v
]

pub client_count : ℕ → List Subscription → ℕ
client_count fd [] = 0
client_count fd (sub ∷ subs) = (if is_client fd sub then 1 else 0) + client_count fd subs

abbrev pub dismiss : ℕ → Subscription → Subscription
dismiss fd sub = if is_client fd sub then cleared else sub

clash-dismiss :
    (fd : ℕ) (a b : Subscription) → clash a b ≡ false → clash (dismiss fd a) (dismiss fd b) ≡ false
clash-dismiss fd a b h = ground (arith, clash-cleared a, cleared-clash b, cleared-clash cleared)

Distinct-dismiss :
    (fd : ℕ) (subs : List Subscription) → Distinct subs → Distinct (map (dismiss fd) subs)
Distinct-dismiss fd [] d = tt
Distinct-dismiss fd (a ∷ subs) d = (each subs d.0, Distinct-dismiss fd subs d.1)
  where
    each :
        (l : List Subscription)
        → All (λ b. clash a b ≡ false) l
        → All (λ b. clash (dismiss fd a) b ≡ false) (map (dismiss fd) l)
    each [] h = tt
    each (b ∷ l) h = (clash-dismiss fd a b h.0, each l h.1)

-- The loop of `nostr_subscription_remove_client` clears the client's entries where they stand, and
-- its counters do not wrap.
pub remove_client_loop_lem :
    (fd : ℕ) (subs : List Subscription) (count removed : ℕ)
    → client_count fd subs ≤ count
    → count < 2 ^ 64
    → remove_client_loop fd subs count removed
      ≡ (map (dismiss fd) subs, count - client_count fd subs, removed + client_count fd subs)
unfolding remove_client_loop client_count
remove_client_loop_lem fd [] count removed h1 h2 = ground arith
remove_client_loop_lem fd (a ∷ subs) count removed h1 h2 = elim (Bool-cases (is_client fd a)) [
  | inl e ↦
      rw
        (
          e,
          remove_client_loop_lem fd subs (decrement count) (removed + 1) (ground arith)
              (omega arith),
        )
        (ground arith)
  | inr e ↦
      rw (e, remove_client_loop_lem fd subs count removed (ground arith) (omega arith))
        (ground arith)
]

active_count-dismiss :
    (fd : ℕ) (subs : List Subscription)
    → active_count (map (dismiss fd) subs) + client_count fd subs ≡ active_count subs
unfolding client_count cleared
active_count-dismiss fd [] = refl
active_count-dismiss fd (a ∷ subs) = ground (arith, active_count-dismiss fd subs)

length-dismiss : (fd : ℕ) (subs : List Subscription) → length (map (dismiss fd) subs) ≡ length subs
length-dismiss fd [] = refl
length-dismiss fd (a ∷ subs) = ap suc (length-dismiss fd subs)

-- `nostr_subscription_remove_client` on a valid table: its result and its table.
pub remove_client_lem :
    (m : Manager) (fd : ℕ)
    → IsValid m
    → nostr_subscription_remove_client m fd ≡ (
      client_count fd m.subscriptions,
      record {
        subscriptions = map (dismiss fd) m.subscriptions;
        count = m.count - client_count fd m.subscriptions;
      },
    )
unfolding nostr_subscription_remove_client
remove_client_lem m fd v = ground (
  arith,
  remove_client_loop_lem fd m.subscriptions m.count 0,
  active_count-dismiss fd m.subscriptions,
  active_count_le m.subscriptions,
  v,
)

-- `nostr_subscription_remove_client` keeps the invariant.
pub remove_client-IsValid :
    (m : Manager) (fd : ℕ) → IsValid m → IsValid (nostr_subscription_remove_client m fd).1
remove_client-IsValid m fd v = rw (remove_client_lem m fd v) (record {
  size = length-dismiss fd m.subscriptions ∙ v.size;
  counted = omega (arith, active_count-dismiss fd m.subscriptions, v.counted);
  distinct = Distinct-dismiss fd m.subscriptions v.distinct;
})

Distinct-replicate : (n : ℕ) → Distinct (replicate n cleared)
Distinct-replicate zero = tt
Distinct-replicate (suc n) = (
  All-intro (λ b. clash cleared b ≡ false) (replicate n cleared) cleared-clash,
  Distinct-replicate n,
)

active_count-replicate : (n : ℕ) → active_count (replicate n cleared) ≡ 0
active_count-replicate zero = refl
active_count-replicate (suc n) =
    let off : cleared.active ≡ false = unfold cleared in refl in
    ground (arith, active_count-replicate n)

-- The table that `nostr_subscription_manager_init` allocates is valid.
pub init-IsValid : {m : Manager} → nostr_subscription_manager_init true ≡ (true, m) → IsValid m
unfolding nostr_subscription_manager_init
init-IsValid {m} h = subst IsValid (ap (λ (p : Bool × Manager). p.1) h) (record {
  size = length-replicate max_count cleared;
  counted = sym (active_count-replicate max_count);
  distinct = Distinct-replicate max_count;
})
