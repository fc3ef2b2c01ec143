-- ===== src/ResultSet/Bloom.antt =====
-- The bloom filter of a result set: a word of 64 bits per entry of an array.
use onion_relay.Prelude.{
  ℕ, zero, suc, length-replicate, sym, ◌≡◌, ◌<◌, ◌/◌, ◌%◌, refl, Bool, true, false, ◌&&◌, List, [],
  ◌∷◌, length, get_or, set, All, All-set, get_or-set_self, get_or-set_ne, length-set, ℕ_discrete,
  arith, replicate,
}
use onion_relay.ResultSet.{
  RecordId, test_bit, set_bit, bloom_test, bloom_set, bloom_hash1, bloom_hash2, no_bits,
}

and_split : (a b : Bool) → (a && b) ≡ true → (a ≡ true) × (b ≡ true)
and_split true true h = (refl, refl)
and_split true false h = absurd cc
and_split false b h = absurd cc

pub record IsBloom (bloom : List (List Bool)) : Type 0 where
  pub words : length bloom ≡ 64
  pub bits : All (λ word. length word ≡ 64) bloom

All-replicate {ℓ} : {A : Type 0} (P : A → Type ℓ) (n : ℕ) (a : A) → P a → All P (replicate n a)
All-replicate P zero a p = tt
All-replicate P (suc n) a p = (p, All-replicate P n a p)

All-get {ℓ} :
    {A : Type 0} (P : A → Type ℓ) (xs : List A) (i : ℕ) (d : A)
    → All P xs
    → i < length xs
    → P (get_or xs i d)
All-get P [] i d h l = absurd (omega arith)
All-get P (x ∷ xs) zero d h l = h.0
All-get P (x ∷ xs) (suc i) d h l = All-get P xs i d h.1 (omega arith)

pub no_bits-IsBloom : IsBloom no_bits
no_bits-IsBloom = record {
  words = unfold no_bits in refl;
  bits =
      unfold no_bits in
      All-replicate (λ word. length word ≡ 64) 64 (replicate 64 false) (length-replicate 64 false);
}

word-length :
    (bloom : List (List Bool)) (i : ℕ) → IsBloom bloom → i < 64 → length (get_or bloom i []) ≡ 64
word-length bloom i b h =
    All-get (λ word. length word ≡ 64) bloom i [] b.bits (omega (arith, b.words))

pub set_bit-IsBloom :
    (bloom : List (List Bool)) (h : ℕ) → h < 4096 → IsBloom bloom → IsBloom (set_bit bloom h)
unfolding set_bit
set_bit-IsBloom bloom h l b = record {
  words =
      omega
        (arith, b.words, length-set bloom (h / 64) (set (get_or bloom (h / 64) []) (h % 64) true));
  bits =
      All-set (λ word. length word ≡ 64) bloom (h / 64) _ b.bits
        (omega (
          arith,
          word-length bloom (h / 64) b (omega arith),
          length-set (get_or bloom (h / 64) []) (h % 64) true,
        ));
}

pub test_bit-set_self :
    (bloom : List (List Bool)) (h : ℕ)
    → h < 4096
    → IsBloom bloom
    → test_bit (set_bit bloom h) h ≡ true
unfolding test_bit set_bit
test_bit-set_self bloom h l b =
    rw
      (get_or-set_self bloom (h / 64) (set (get_or bloom (h / 64) []) (h % 64) true) []
        (omega (arith, b.words)))
      (get_or-set_self (get_or bloom (h / 64) []) (h % 64) true false
        (omega (arith, word-length bloom (h / 64) b (omega arith))))

pub test_bit-set_keep :
    (bloom : List (List Bool)) (h k : ℕ)
    → h < 4096
    → IsBloom bloom
    → test_bit bloom k ≡ true
    → test_bit (set_bit bloom h) k ≡ true
unfolding test_bit set_bit
test_bit-set_keep bloom h k l b t = elim (ℕ_discrete (h / 64) (k / 64)) [
  | no other ↦ rw (get_or-set_ne bloom (set (get_or bloom (h / 64) []) (h % 64) true) [] other) t
  | yes same ↦
      rw
        (
          sym same,
          get_or-set_self bloom (h / 64) (set (get_or bloom (h / 64) []) (h % 64) true) []
              (omega (arith, b.words)),
        )
        (elim (ℕ_discrete (h % 64) (k % 64)) [
          | no other ↦ rw (get_or-set_ne (get_or bloom (h / 64) []) true false other, same) t
          | yes bit ↦
              rw
                (
                  sym bit,
                  get_or-set_self (get_or bloom (h / 64) []) (h % 64) true false
                      (omega (arith, word-length bloom (h / 64) b (omega arith))),
                )
                refl
        ])
]

pub bloom_set-IsBloom :
    (bloom : List (List Bool)) (rid : RecordId) → IsBloom bloom → IsBloom (bloom_set bloom rid)
unfolding bloom_set
bloom_set-IsBloom bloom rid b =
    set_bit-IsBloom (set_bit bloom (bloom_hash1 rid % 4096)) (bloom_hash2 rid % 4096) (omega arith)
      (set_bit-IsBloom bloom (bloom_hash1 rid % 4096) (omega arith) b)

pub bloom_test-set_self :
    (bloom : List (List Bool)) (rid : RecordId)
    → IsBloom bloom
    → bloom_test (bloom_set bloom rid) rid ≡ true
unfolding bloom_test bloom_set
bloom_test-set_self bloom rid b =
    let one = set_bit bloom (bloom_hash1 rid % 4096) in
    let formed = set_bit-IsBloom bloom (bloom_hash1 rid % 4096) (omega arith) b in
    rw
      (
        test_bit-set_keep one (bloom_hash2 rid % 4096) (bloom_hash1 rid % 4096) (omega arith) formed
            (test_bit-set_self bloom (bloom_hash1 rid % 4096) (omega arith) b),
        test_bit-set_self one (bloom_hash2 rid % 4096) (omega arith) formed,
      )
      refl

set_keep :
    (bloom : List (List Bool)) (rid : RecordId) (k : ℕ)
    → IsBloom bloom
    → test_bit bloom k ≡ true
    → test_bit (bloom_set bloom rid) k ≡ true
unfolding bloom_set
set_keep bloom rid k b t =
    test_bit-set_keep (set_bit bloom (bloom_hash1 rid % 4096)) (bloom_hash2 rid % 4096) k
      (omega arith) (set_bit-IsBloom bloom (bloom_hash1 rid % 4096) (omega arith) b)
      (test_bit-set_keep bloom (bloom_hash1 rid % 4096) k (omega arith) b t)

pub bloom_test-set_keep :
    (bloom : List (List Bool)) (rid other : RecordId)
    → IsBloom bloom
    → bloom_test bloom other ≡ true
    → bloom_test (bloom_set bloom rid) other ≡ true
unfolding bloom_test
bloom_test-set_keep bloom rid other b t =
    let bits =
      and_split (test_bit bloom (bloom_hash1 other % 4096))
        (test_bit bloom (bloom_hash2 other % 4096)) t in
    rw
      (
        set_keep bloom rid (bloom_hash1 other % 4096) b bits.0,
        set_keep bloom rid (bloom_hash2 other % 4096) b bits.1,
      )
      refl
