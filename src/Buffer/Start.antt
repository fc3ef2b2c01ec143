-- ===== src/Buffer/Start.antt =====
-- buffer_pool_init: a pool of free frames.
use onion_relay.Prelude.{
  ℕ, zero, suc, ◌*◌, ◌%◌, ◌^◌, ◌≤◌, ◌<◌, ◌≡◌, ◌≢◌, refl, true, Option, none, some, replicate,
  length-replicate, arith, ◌∙◌, ap, sym, subst,
}
use onion_relay.DbTypes.{DbError}
use onion_relay.Disk.{DiskManager}
use onion_relay.Buffer.{BufferPool, empty_frame, next_prime}
use onion_relay.Buffer.Calls.{buffer_pool_init}
use onion_relay.Buffer.Primes.{next_prime_bound}
use onion_relay.Buffer.Table.{slot, page_of}
use onion_relay.Buffer.Used.{used-replicate}
use onion_relay.Buffer.View.{IsPool, occupied, view, view_missing}

abbrev pub get_some : Option ℕ → ℕ → ℕ
get_some none n = n
get_some (some h) n = h

abbrev pub started : DiskManager → ℕ → ℕ → BufferPool
started disk size hash_size = record {
  frames = replicate size empty_frame;
  clock_hand = 0;
  hash_table = replicate hash_size none;
  disk = disk;
}

slot-replicate : (n i : ℕ) → slot (replicate n none) i ≡ none
slot-replicate zero i = refl
slot-replicate (suc n) zero = refl
slot-replicate (suc n) (suc i) = slot-replicate n i

page_of-replicate : (n i : ℕ) → page_of (replicate n empty_frame) i ≡ 0
page_of-replicate zero i = refl
page_of-replicate (suc n) zero = refl
page_of-replicate (suc n) (suc i) = page_of-replicate n i

occupied-replicate : (n : ℕ) → occupied (replicate n empty_frame) ≡ 0
unfolding occupied
occupied-replicate zero = refl
occupied-replicate (suc n) = occupied-replicate n

no_entry : (n i f : ℕ) → slot (replicate n none) i ≡ some f → ⊥
no_entry n i f h = ground (arith, h, slot-replicate n i)

started-IsPool :
    (disk : DiskManager) (size hash_size : ℕ)
    → disk.is_open ≡ true
    → 0 < size
    → size * 2 < 2 ^ 32
    → size < hash_size
    → IsPool (started disk size hash_size)
started-IsPool disk size hash_size o p s h = record {
  table = record {
    inside = λ i f e. absurd (no_entry hash_size i f e);
    distinct = λ i j f g e. absurd (no_entry hash_size i f e);
    reach = λ i x f e. absurd (no_entry hash_size i f e);
  };
  meant = λ i f e. absurd (no_entry hash_size i f e);
  complete = λ f b n. absurd (n (page_of-replicate size f));
  counted = used-replicate hash_size ∙ sym (occupied-replicate size);
  room = rw (length-replicate size empty_frame, length-replicate {A = Option ℕ} hash_size none) h;
  hand = rw (length-replicate size empty_frame) p;
  small = rw (length-replicate size empty_frame) s;
  on_disk = λ f b n. absurd (n (page_of-replicate size f));
  clean = λ f b n. absurd (n (page_of-replicate size f));
  is_open = o;
}

-- the pool that buffer_pool_init makes
abbrev pub init_pool : DiskManager → ℕ → BufferPool
init_pool disk size = started disk size (get_some (next_prime (size * 2 % 2 ^ 32)) 0)

init_cases :
    (disk : DiskManager) (size hash_size : ℕ)
    → 0 < size
    → next_prime (size * 2 % 2 ^ 32) ≡ some hash_size
    → buffer_pool_init true disk size ≡ some (DbError.ok, some (started disk size hash_size))
unfolding buffer_pool_init
init_cases disk size hash_size p e = ground (arith, e, p)

-- buffer_pool_init makes a pool that is valid and stands for the file as it is.
pub buffer_pool_init_lem :
    (disk : DiskManager) (size : ℕ)
    → disk.is_open ≡ true
    → 0 < size
    → size ≤ 2 ^ 20
    → (buffer_pool_init true disk size ≡ some (DbError.ok, some (init_pool disk size)))
      × IsPool (init_pool disk size)
      × ((p : ℕ) → p ≢ 0 → view (init_pool disk size) p ≡ disk.file p)
buffer_pool_init_lem disk size o positive s =
    let (hash_size, found, more) = next_prime_bound (size * 2 % 2 ^ 32) (omega (arith, s)) in
    let same : init_pool disk size ≡ started disk size hash_size =
      ap (λ x. started disk size (get_some x 0)) found in
    let v =
      started-IsPool disk size hash_size o positive (omega (arith, s))
        (omega (arith, more, s, positive)) in
    (
      init_cases disk size hash_size positive found
          ∙ ap (λ x. some (DbError.ok, some x)) (sym same),
      subst IsPool (sym same) v,
      λ p h.
          ap (λ x. view x p) same
          ∙ (view_missing v p h (λ f b q. h (sym q ∙ page_of-replicate size f))).1,
    )
