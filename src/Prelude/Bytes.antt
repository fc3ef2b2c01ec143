-- ===== src/Prelude/Bytes.antt =====
-- Bytes, and facts about the bit operations on them, which are checked on every value.
use Prim.Native.Nat.{ℕ, zero, suc, ◌<◌, bit_xor}
use mathlib.Core.Path.{◌≡◌, refl}
use mathlib.Core.Bool.{Bool, true, false}
use native.Mathlib.Omega.{arith}
use onion_relay.Prelude.Tests.{ltb, ltb→lt, ◌==◌, ==_iff, if◌then◌else◌}

-- the test holds at 0, …, n - 1
every : ℕ → (ℕ → Bool) → Bool
every zero test = true
every (suc n) test = if test n then every n test else false

every-lt : (test : ℕ → Bool) (b n : ℕ) → b < n → every n test ≡ true → test b ≡ true
unfolding every
every-lt test b zero h e = elim h [ ]
every-lt test b (suc n) h e = ground (arith, every-lt test b n)

xor_table : every 256 (λ x. every 256 λ k. bit_xor (bit_xor x k) k == x) ≡ true
unfolding every
xor_table = refl

xor_lt_table : every 256 (λ x. every 256 λ k. ltb (bit_xor x k) 256) ≡ true
unfolding every
xor_lt_table = refl

-- Masking a byte twice with the same byte gives it back.
pub bit_xor_twice : (x k : ℕ) → x < 256 → k < 256 → bit_xor (bit_xor x k) k ≡ x
bit_xor_twice x k hx hk = (==_iff _ x).0 (every-lt _ k 256 hk (every-lt _ x 256 hx xor_table))

pub bit_xor-lt : (x k : ℕ) → x < 256 → k < 256 → bit_xor x k < 256
bit_xor-lt x k hx hk = ltb→lt _ _ (every-lt _ k 256 hk (every-lt _ x 256 hx xor_lt_table))

xor_zero_table : every 256 (λ x. bit_xor x 0 == x) ≡ true
unfolding every
xor_zero_table = refl

pub bit_xor-zero : (x : ℕ) → x < 256 → bit_xor x 0 ≡ x
bit_xor-zero x h = (==_iff _ x).0 (every-lt _ x 256 h xor_zero_table)
