-- ===== src/Buffer/Cycle.antt =====
-- The slots of the hash table as a cycle: steps and distances.
use onion_relay.Prelude.{
  ℕ, ◌+◌, ◌-◌, ◌%◌, ◌≤◌, ◌<◌, ◌≡◌, ◌≢◌, ◌⊎◌, inl, inr, true, false, leb, if◌then◌else◌, arith,
  ℕ_discrete,
}
use native.Mathlib.Nat.{mod-eq_of_lt, mod_self}
use onion_relay.Buffer.{should_move}

-- the slot after one
abbrev pub next : ℕ → ℕ → ℕ
next m a = (a + 1) % m

pub next-cases :
    (m a : ℕ) → a < m → ((next m a ≡ a + 1) × (a + 1 < m)) ⊎ ((next m a ≡ 0) × (a + 1 ≡ m))
next-cases m a h = elim (ℕ_discrete (a + 1) m) [
  | yes e ↦ inr (rw e (mod_self m), e)
  | no e ↦ inl (mod-eq_of_lt (omega (arith, h, e)), omega (arith, h, e))
]

-- the steps from one slot to another
unfoldable pub steps : ℕ → ℕ → ℕ → ℕ
steps m a b = if leb a b then b - a else b + m - a

pub steps-cases :
    (m a b : ℕ) → ((a ≤ b) × (steps m a b + a ≡ b)) ⊎ ((b < a) × (steps m a b ≡ b + m - a))
unfolding steps
steps-cases m a b = ground arith

pub steps_next : (m a b : ℕ) → a < m → b < m → a ≢ b → steps m (next m a) b + 1 ≡ steps m a b
steps_next m a b h k n =
    ground (arith, next-cases m a h, steps-cases m a b, steps-cases m (next m a) b)

-- what lies on the way from the next slot lies on the way from this one
pub on_way_next :
    (m a b x : ℕ)
    → a < m
    → b < m
    → x < m
    → a ≢ b
    → steps m (next m a) x < steps m (next m a) b
    → steps m a x < steps m a b
on_way_next m a b x h k l n w = ground (
  arith,
  next-cases m a h,
  steps-cases m a b,
  steps-cases m (next m a) b,
  steps-cases m a x,
  steps-cases m (next m a) x,
)

-- an entry moves exactly if the gap lies on the way from its home to its slot
pub should_move-steps :
    (m gap j k : ℕ)
    → gap < m
    → j < m
    → k < m
    → gap ≢ j
    → (should_move gap j k ≡ true × steps m k gap < steps m k j)
      ⊎ (should_move gap j k ≡ false × steps m k j ≤ steps m k gap)
unfolding should_move
should_move-steps m gap j k g h l n = ground (arith, steps-cases m k gap, steps-cases m k j)
