-- ===== src/Wal/Log.antt =====
-- The log that the file and the buffer hold together, and what a flush makes of it.
use onion_relay.Prelude.{
  ℕ, ◌+◌, ◌-◌, ◌^◌, ◌≤◌, ◌<◌, ◌≡◌, inl, inr, true, List, [], ◌∷◌, ◌++◌, ltb, if◌then◌else◌, length,
  take, All, arith, min, Bool-cases,
}
use onion_relay.Wal.{WalManager, Io, write_loop}
use onion_relay.Wal.Records.{Written, IsWritten, encode}

-- the numbers rise from the one bound to below the other
abbrev pub IsRising : ℕ → List Written → ℕ → Type 0
IsRising low [] high = low ≤ high
IsRising low (r ∷ rs) high = (low ≤ r.header.lsn) × IsRising (r.header.lsn + 1) rs high

-- The file up to the offset and the buffer hold the two parts of the log. What a flush that failed left
-- behind the offset is not longer than the buffer, so that the next one covers it.
pub record IsLog (w : WalManager) (flushed pending : List Written) : Type 0 where
  pub at_disk : take w.file_offset w.file ≡ encode flushed
  pub offset : w.file_offset ≡ length (encode flushed)
  pub in_buffer : w.buffer ≡ encode pending
  pub tail : length w.file ≤ w.file_offset + length w.buffer
  pub written : All IsWritten (flushed ++ pending)
  pub rising : IsRising 1 (flushed ++ pending) w.next_lsn
  pub next : w.next_lsn < 2 ^ 64
  pub fits : length w.buffer ≤ w.buffer_size
  pub size : w.buffer_size ≡ 65536
  pub active : length w.active ≤ 64
  pub known : All (λ entry. entry.1 < 2 ^ 64) w.active

-- a kernel whose writes take the whole buffer and whose syncs succeed
pub record IsHealthy (io : ℕ → Io) : Type 0 where
  pub writing : (n used : ℕ) → used ≤ 65536 → (write_loop (io n).writes used 0).0 ≡ true
  pub syncing : (n : ℕ) → (io n).syncs ≡ true

pub write_loop-bound :
    (counts : List ℕ) (used written : ℕ)
    → written ≤ used
    → (write_loop counts used written).1 ≤ used
unfolding write_loop
write_loop-bound [] used written h = h
write_loop-bound (n ∷ counts) used written h =
    let rest = write_loop-bound counts used (written + min n (used - written)) (omega arith) in
    ground (arith, rest)

pub write_loop-whole :
    (counts : List ℕ) (used written : ℕ)
    → written ≤ used
    → (write_loop counts used written).0 ≡ true
    → (write_loop counts used written).1 ≡ used
unfolding write_loop
write_loop-whole [] used written h f = ground (arith, f)
write_loop-whole (n ∷ counts) used written h f = elim (Bool-cases (ltb written used)) [
  | inl more ↦
      rw more
        (write_loop-whole counts used (written + min n (used - written)) (omega arith) (go more f))
  | inr whole ↦ rw whole (ground arith)
]
  where
    go :
        ltb written used ≡ true
        → (if ltb written used
            then write_loop counts used (written + min n (used - written))
            else (true, written)).0
          ≡ true
        → (write_loop counts used (written + min n (used - written))).0 ≡ true
    go m g = ground (arith, m, g)

pub IsLog-active :
    (w : WalManager) (flushed pending : List Written) (active : List (ℕ × ℕ)) (tx_id : ℕ)
    → IsLog w flushed pending
    → length active ≤ 64
    → All (λ entry. entry.1 < 2 ^ 64) active
    → IsLog (record w { active = active; next_tx_id = tx_id }) flushed pending
IsLog-active w flushed pending active tx_id v l k = record {
  at_disk = v.at_disk;
  offset = v.offset;
  in_buffer = v.in_buffer;
  tail = v.tail;
  written = v.written;
  rising = v.rising;
  next = v.next;
  fits = v.fits;
  size = v.size;
  active = l;
  known = k;
}
