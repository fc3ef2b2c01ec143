-- ===== src/Buffer.antt =====
-- src/nostr/db/buffer/buffer_pool.c: the cache of pages. The arrays of the pool that have one entry for
-- each frame are one list of frames, and BUFFER_FRAME_INVALID in the hash table is `none`. A pointer to
-- a page is the index of its frame. Where a loop of the code would not end there is no result.
pub mod Frames
pub mod Calls
pub mod Cycle
pub mod Table
pub mod Used
pub mod Insert
pub mod Holed
pub mod Shift
pub mod Remove
pub mod Clock
pub mod Victim
pub mod View
pub mod Relabel
pub mod Flush
pub mod FlushAll
pub mod Evict
pub mod Acquire
pub mod Room
pub mod Install
pub mod Pin
pub mod Alloc
pub mod Write
pub mod Primes
pub mod Start
pub mod Session
use onion_relay.Prelude.{
  ℕ, zero, suc, ◌+◌, ◌-◌, ◌*◌, ◌%◌, ◌^◌, Bool, true, false, ◌&&◌, ◌||◌, not, Option, none, some,
  List, [], ◌∷◌, ltb, leb, ◌==◌, if◌then◌else◌, length, get_or, set, replicate,
}
use onion_relay.DbTypes.{DbError, is_ok, PageData, zero_page}
use onion_relay.Disk.{
  DiskManager, Kernel, is_page, disk_read_page, disk_write_page, disk_alloc_page, disk_free_page,
}

pub record Frame : Type 0 where
  pub page_id : ℕ
  pub pin_count : ℕ
  pub is_dirty : Bool
  pub ref_bit : Bool
  pub page : PageData
  pub lsn : ℕ

pub record BufferPool : Type 0 where
  pub frames : List Frame
  pub clock_hand : ℕ
  pub hash_table : List (Option ℕ)
  pub disk : DiskManager

abbrev pub empty_frame : Frame
empty_frame = record {
  page_id = 0;
  pin_count = 0;
  is_dirty = false;
  ref_bit = false;
  page = zero_page;
  lsn = 0;
}

abbrev pub frame_at : List Frame → ℕ → Frame
frame_at frames i = get_or frames i empty_frame

-- The loop over the divisors from `d` on, with the product in 32 bits. For an odd `n` it ends at the
-- divisor `n` at the latest, so that `n` is enough fuel.
unfoldable pub has_divisor : ℕ → ℕ → ℕ → Bool
has_divisor n d zero = false
has_divisor n d (suc fuel) = elim (leb (d * d % 2 ^ 32) n) [
  | true ↦ elim (n % d == 0) [ true ↦ true | false ↦ has_divisor n ((d + 2) % 2 ^ 32) fuel ]
  | false ↦ false
]

-- the odd numbers from `n` on, in 32 bits, of which there are 2 ^ 31
unfoldable pub prime_loop : ℕ → ℕ → Option ℕ
prime_loop n zero = none
prime_loop n (suc fuel) = elim (has_divisor n 3 n) [
  | true ↦ prime_loop ((n + 2) % 2 ^ 32) fuel
  | false ↦ some n
]

unfoldable pub next_prime : ℕ → Option ℕ
next_prime n = if leb n 2 then some 2 else prime_loop (if n % 2 == 0 then n + 1 else n) (2 ^ 31)

unfoldable pub hash_page_id : ℕ → ℕ → ℕ
hash_page_id page_id hash_size = page_id * 2654435761 % 2 ^ 32 % hash_size

-- The loop of hash_lookup and hash_remove that looks for a page, from the slot `idx` on: the slot. It
-- ends at the first empty slot, or after as many steps as there are slots.
unfoldable pub probe : List (Option ℕ) → List Frame → ℕ → ℕ → ℕ → Option ℕ
probe table frames page_id idx zero = none
probe table frames page_id idx (suc n) = elim (get_or table idx none) [
  | none ↦ none
  | some frame ↦
      let rest = probe table frames page_id ((idx + 1) % length table) n in
      if (frame_at frames frame).page_id == page_id then some idx else rest
]

unfoldable pub find_slot : List (Option ℕ) → List Frame → ℕ → Option ℕ
find_slot table frames page_id =
    probe table frames page_id (hash_page_id page_id (length table)) (length table)

unfoldable pub hash_lookup : List (Option ℕ) → List Frame → ℕ → Option ℕ
hash_lookup table frames page_id = elim (find_slot table frames page_id) [
  | none ↦ none
  | some idx ↦ get_or table idx none
]

-- the loop of hash_insert from the slot `idx` on, which ends only at a free slot or one of the page
unfoldable pub insert_loop : List (Option ℕ) → List Frame → ℕ → ℕ → ℕ → ℕ → Option (List (Option ℕ))
insert_loop table frames page_id frame idx zero = none
insert_loop table frames page_id frame idx (suc n) = elim (get_or table idx none) [
  | none ↦ some (set table idx (some frame))
  | some other ↦
      let rest = insert_loop table frames page_id frame ((idx + 1) % length table) n in
      if (frame_at frames other).page_id == page_id then some (set table idx (some frame)) else rest
]

unfoldable pub hash_insert : List (Option ℕ) → List Frame → ℕ → ℕ → Option (List (Option ℕ))
hash_insert table frames page_id frame =
    insert_loop table frames page_id frame (hash_page_id page_id (length table)) (length table)

-- whether the entry of the slot `j`, whose home is `k`, moves to the gap
unfoldable pub should_move : ℕ → ℕ → ℕ → Bool
should_move gap j k = if leb gap j then leb k gap || ltb j k else leb k gap && ltb j k

-- the loop of hash_remove that closes the gap, which ends only at a free slot
unfoldable pub shift_loop : List (Option ℕ) → List Frame → ℕ → ℕ → ℕ → Option (List (Option ℕ))
shift_loop table frames gap j zero = none
shift_loop table frames gap j (suc n) =
    let next = (j + 1) % length table in
    elim (get_or table next none) [
      | none ↦ some (set table gap none)
      | some frame ↦
          let moved = shift_loop (set table gap (some frame)) frames next next n in
          let kept = shift_loop table frames gap next n in
          if should_move gap next (hash_page_id (frame_at frames frame).page_id (length table))
          then moved
          else kept
    ]

unfoldable pub hash_remove : List (Option ℕ) → List Frame → ℕ → Option (List (Option ℕ))
hash_remove table frames page_id = elim (find_slot table frames page_id) [
  | none ↦ some table
  | some idx ↦ shift_loop table frames idx idx (length table)
]

-- the scans of clock_evict that are left: the victim, the frames and the hand
unfoldable pub clock_loop : ℕ → List Frame → ℕ → Option ℕ × List Frame × ℕ
clock_loop zero frames hand = (none, frames, hand)
clock_loop (suc n) frames hand =
    let f = frame_at frames hand in
    let next = (hand + 1) % length frames in
    let skipped = clock_loop n frames next in
    let cleared = clock_loop n (set frames hand (record f { ref_bit = false })) next in
    if ltb 0 f.pin_count then skipped else if f.ref_bit then cleared else (some hand, frames, next)

unfoldable pub clock_evict : BufferPool → Option ℕ × BufferPool
clock_evict pool =
    let (victim, frames, hand) =
      clock_loop (length pool.frames * 2 % 2 ^ 32) pool.frames pool.clock_hand in
    (victim, record pool { frames = frames; clock_hand = hand })
