-- ===== src/Buffer/Used.antt =====
-- The number of used slots of the hash table.
use onion_relay.Prelude.{
  ℕ, zero, suc, ◌+◌, ◌<◌, ◌≡◌, refl, Option, none, some, List, [], ◌∷◌, length, set, replicate,
  arith,
}
use onion_relay.Buffer.Table.{slot}

unfoldable pub used : List (Option ℕ) → ℕ
used [] = 0
used (none ∷ table) = used table
used (some f ∷ table) = suc (used table)

pub used-set-some :
    (table : List (Option ℕ)) (i f g : ℕ)
    → slot table i ≡ some f
    → used (set table i (some g)) ≡ used table
unfolding used
used-set-some [] i f g h = refl
used-set-some (none ∷ table) zero f g h = absurd (ground (arith, h))
used-set-some (some x ∷ table) zero f g h = refl
used-set-some (none ∷ table) (suc i) f g h = used-set-some table i f g h
used-set-some (some x ∷ table) (suc i) f g h = omega (arith, used-set-some table i f g h)

pub used-set-none :
    (table : List (Option ℕ)) (i f : ℕ)
    → slot table i ≡ some f
    → used (set table i none) + 1 ≡ used table
unfolding used
used-set-none [] i f h = absurd (ground (arith, h))
used-set-none (none ∷ table) zero f h = absurd (ground (arith, h))
used-set-none (some x ∷ table) zero f h = omega arith
used-set-none (none ∷ table) (suc i) f h = used-set-none table i f h
used-set-none (some x ∷ table) (suc i) f h = omega (arith, used-set-none table i f h)

pub used-set_new :
    (table : List (Option ℕ)) (i f : ℕ)
    → i < length table
    → slot table i ≡ none
    → used (set table i (some f)) ≡ used table + 1
unfolding used
used-set_new [] i f b h = absurd (omega (arith, b))
used-set_new (none ∷ table) zero f b h = omega arith
used-set_new (some x ∷ table) zero f b h = absurd (ground (arith, h))
used-set_new (none ∷ table) (suc i) f b h = used-set_new table i f (omega (arith, b)) h
used-set_new (some x ∷ table) (suc i) f b h =
    omega (arith, used-set_new table i f (omega (arith, b)) h)

-- A table that is not full has a free slot.
pub free_slot :
    (table : List (Option ℕ))
    → used table < length table
    → (e : ℕ) × (e < length table) × (slot table e ≡ none)
unfolding used
free_slot [] h = absurd (omega (arith, h))
free_slot (none ∷ table) h = (0, omega arith, refl)
free_slot (some x ∷ table) h =
    let (e, b, at) = free_slot table (omega (arith, h)) in (suc e, omega (arith, b), at)

pub used-replicate : (n : ℕ) → used (replicate n none) ≡ 0
unfolding used
used-replicate zero = refl
used-replicate (suc n) = used-replicate n
