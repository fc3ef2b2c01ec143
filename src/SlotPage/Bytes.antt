-- ===== src/SlotPage/Bytes.antt =====
-- Reading the bytes of a page back.
use onion_relay.Prelude.{
  ℕ, zero, suc, ◌+◌, ◌-◌, ◌≤◌, ◌<◌, ◌≡◌, refl, List, [], ◌∷◌, length, get_or, arith, get_or-suc,
}
use onion_relay.SlotPage.{load, store}

pub length-load : (page_data : ℕ → ℕ) (o n : ℕ) → length (load page_data o n) ≡ n
unfolding load
length-load page_data o zero = refl
length-load page_data o (suc n) = omega (arith, length-load page_data (o + 1) n)

pub get_or-load :
    (page_data : ℕ → ℕ) (o n i : ℕ) → i < n → get_or (load page_data o n) i 0 ≡ page_data (o + i)
unfolding load
get_or-load page_data o zero i h = absurd (omega arith)
get_or-load page_data o (suc n) zero h = ground arith
get_or-load page_data o (suc n) (suc i) h = ground (arith, get_or-load page_data (o + 1) n i)

-- equal bytes load the same
pub load_congr :
    (page_data page_data' : ℕ → ℕ) (o n : ℕ)
    → ((a : ℕ) → o ≤ a → a < o + n → page_data a ≡ page_data' a)
    → load page_data o n ≡ load page_data' o n
unfolding load
load_congr page_data page_data' o zero h = refl
load_congr page_data page_data' o (suc n) h =
    rw
      (
        h o (omega arith) (omega arith),
        load_congr page_data page_data' (o + 1) n (λ a l k. h a (omega arith) (omega arith)),
      )
      refl

pub store-in :
    (page_data : ℕ → ℕ) (o : ℕ) (bytes : List ℕ) (a : ℕ)
    → o ≤ a
    → a < o + length bytes
    → store page_data o bytes a ≡ get_or bytes (a - o) 0
unfolding store
store-in page_data o bytes a h k = ground arith

pub store-below :
    (page_data : ℕ → ℕ) (o : ℕ) (bytes : List ℕ) (a : ℕ)
    → a < o
    → store page_data o bytes a ≡ page_data a
unfolding store
store-below page_data o bytes a h = ground arith

pub store-above :
    (page_data : ℕ → ℕ) (o : ℕ) (bytes : List ℕ) (a : ℕ)
    → o + length bytes ≤ a
    → store page_data o bytes a ≡ page_data a
unfolding store
store-above page_data o bytes a h = ground arith

list_load :
    (page_data : ℕ → ℕ) (o : ℕ) (bytes : List ℕ)
    → ((i : ℕ) → i < length bytes → page_data (o + i) ≡ get_or bytes i 0)
    → load page_data o (length bytes) ≡ bytes
unfolding load
list_load page_data o [] h = refl
list_load page_data o (b ∷ bytes) h =
    rw
      (
        first_byte,
        list_load page_data (o + 1) bytes
            (λ i l. ground (arith, h (i + 1), get_or-suc b bytes i 0)),
      )
      refl
  where
    first_byte : page_data o ≡ b
    first_byte = ground (arith, h 0)

pub load-store :
    (page_data : ℕ → ℕ) (o : ℕ) (bytes : List ℕ)
    → load (store page_data o bytes) o (length bytes) ≡ bytes
load-store page_data o bytes =
    list_load (store page_data o bytes) o bytes
      (λ i l. rw (store-in page_data o bytes (o + i) (omega arith) (omega arith)) (ground arith))
