-- ===== src/Buffer/Primes.antt =====
-- next_prime of src/nostr/db/buffer/buffer_pool.c: the search for a divisor and that for a prime end.
use onion_relay.Prelude.{
  ℕ, leb, zero, suc, ◌+◌, ◌*◌, ◌%◌, ◌^◌, ◌≤◌, ◌<◌, ◌≡◌, ◌≢◌, inl, inr, refl, true, false, some,
  ◌==◌, if◌then◌else◌, arith, ◌∙◌, ap, sym, Bool-cases, dec_lt,
}
use native.Mathlib.Nat.{mod_self}
use onion_relay.Buffer.{has_divisor, prime_loop, next_prime}

divisor_end : (n d fuel : ℕ) → leb (d * d % 2 ^ 32) n ≡ false → has_divisor n d (suc fuel) ≡ false
unfolding has_divisor
divisor_end n d fuel e = rw (e, has_divisor) refl

divisor_found :
    (n d fuel : ℕ)
    → leb (d * d % 2 ^ 32) n ≡ true
    → (n % d == 0) ≡ true
    → has_divisor n d (suc fuel) ≡ true
unfolding has_divisor
divisor_found n d fuel e f = rw (e, f, has_divisor) refl

divisor_next :
    (n d fuel : ℕ)
    → leb (d * d % 2 ^ 32) n ≡ true
    → (n % d == 0) ≡ false
    → has_divisor n d (suc fuel) ≡ has_divisor n ((d + 2) % 2 ^ 32) fuel
unfolding has_divisor
divisor_next n d fuel e f = rw (e, f, has_divisor) refl

-- For an odd n of 32 bits, more fuel than the odd numbers from d to n changes nothing.
has_divisor_enough :
    (fuel n d : ℕ)
    → n < 2 ^ 32
    → n % 2 ≡ 1
    → d % 2 ≡ 1
    → d ≤ n
    → n < d + 2 * fuel
    → has_divisor n d fuel ≡ has_divisor n d (suc fuel)
has_divisor_enough zero n d b on od le enough = absurd (omega (arith, le, enough))
has_divisor_enough (suc fuel) n d b on od le enough = elim (Bool-cases (leb (d * d % 2 ^ 32) n)) [
  | inr e ↦ divisor_end n d fuel e ∙ sym (divisor_end n d (suc fuel) e)
  | inl e ↦ elim (Bool-cases (n % d == 0)) [
    | inl f ↦ divisor_found n d fuel e f ∙ sym (divisor_found n d (suc fuel) e f)
    | inr f ↦
        let other : d ≢ n = λ q. itself n (sym f ∙ ap (λ x. n % x == 0) q) in
        let next : (d + 2) % 2 ^ 32 ≡ d + 2 = omega (arith, b, le, other, on, od) in
        let rest =
          has_divisor_enough fuel n (d + 2) b on (omega (arith, od))
            (omega (arith, le, other, on, od)) (omega (arith, enough)) in
        divisor_next n d fuel e f
        ∙ ap (λ x. has_divisor n x fuel) next
        ∙ rest
        ∙ sym (ap (λ x. has_divisor n x (suc fuel)) next)
        ∙ sym (divisor_next n d (suc fuel) e f)
  ]
]
  where
    itself : (n : ℕ) → false ≡ (n % n == 0) → ⊥
    itself n q = ground (arith, q, mod_self n)

-- a prime behind 2 ^ 21
abbrev large_prime : ℕ
large_prime = 2097169

large_prime_lem : has_divisor large_prime 3 large_prime ≡ false
unfolding has_divisor
large_prime_lem = refl

loop_on :
    (fuel n : ℕ)
    → has_divisor n 3 n ≡ true
    → prime_loop n (suc fuel) ≡ prime_loop ((n + 2) % 2 ^ 32) fuel
unfolding prime_loop
loop_on fuel n e = rw (e, prime_loop) refl

loop_end : (fuel n : ℕ) → has_divisor n 3 n ≡ false → prime_loop n (suc fuel) ≡ some n
unfolding prime_loop
loop_end fuel n e = rw (e, prime_loop) refl

-- the search ends at the prime at the latest
prime_loop_bound :
    (fuel n : ℕ)
    → n ≤ large_prime
    → n % 2 ≡ 1
    → large_prime < n + 2 * fuel
    → (h : ℕ) × (prime_loop n fuel ≡ some h) × (n ≤ h)
prime_loop_bound zero n b odd enough = absurd (omega (arith, b, enough))
prime_loop_bound (suc fuel) n b odd enough = elim (Bool-cases (has_divisor n 3 n)) [
  | inl e ↦
      let other : n ≢ large_prime =
        λ q. ground (arith, sym e ∙ ap (λ m. has_divisor m 3 m) q ∙ large_prime_lem) in
      let next : (n + 2) % 2 ^ 32 ≡ n + 2 = omega (arith, b) in
      let (h, found, more) =
        prime_loop_bound fuel (n + 2) (omega (arith, b, odd, other)) (omega (arith, odd))
          (omega (arith, enough)) in
      (h, loop_on fuel n e ∙ ap (λ m. prime_loop m fuel) next ∙ found, omega (arith, more))
  | inr e ↦ (n, loop_end fuel n e, omega arith)
]

-- the hash table is as large as it is asked to be
pub next_prime_bound : (n : ℕ) → n ≤ 2 ^ 21 → (h : ℕ) × (next_prime n ≡ some h) × (n ≤ h)
unfolding next_prime
next_prime_bound n b = elim (dec_lt 2 n) [
  | yes above ↦
      let start = if n % 2 == 0 then n + 1 else n in
      let (h, found, more) =
        prime_loop_bound (2 ^ 31) start (ground (arith, b)) (ground arith) (ground arith) in
      (h, ground (arith, above, found), ground (arith, more))
  | no small ↦ (2, ground (arith, small), omega (arith, small))
]
