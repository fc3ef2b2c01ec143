-- ===== src/Tests/Wal.antt =====
-- The theorems about the log at a transaction with one update, and a kernel that never fails.
use onion_relay.Prelude.{ℕ, ◌≤◌, ◌≡◌, ◌⊎◌, refl, true, false, [], ◌∷◌, length, arith, bytes_of}
use onion_relay.DbTypes.{DbError, is_ok, zero_page}
use onion_relay.Disk.{DiskManager, Kernel}
use onion_relay.WalRecord.{header_bytes, log_records, record_commit}
use onion_relay.Wal.{
  WalManager, Io, write_loop, update_payload, wal_log_begin, wal_init, wal_checkpoint,
  wal_log_commit,
}
use onion_relay.Wal.Records.{Written, IsWritten, encode, seen, records_lem}
use onion_relay.Wal.Recovery.{tx_committed}
use onion_relay.Wal.Log.{IsHealthy, IsLog}
use onion_relay.Wal.Append.{IsArgument}
use onion_relay.Wal.Write.{IsHeld}
use onion_relay.Wal.Durable.{IsDurable}
use onion_relay.Wal.Commit.{with_end, commit_lem}
use onion_relay.Wal.Checkpoint.{checkpoint_of, IsCheckpointed, checkpoint_lem}
use onion_relay.Wal.Reachable.{Reachable, opened, began, HasLog, reachable_bounds}

abbrev io : ℕ → Io
io n = record { writes = 65536 ∷ []; syncs = true; truncates = true }

io-IsHealthy : IsHealthy io
unfolding write_loop
io-IsHealthy = record { writing = λ n used h. ground (arith, h); syncing = λ n. refl }

abbrev begin : Written
begin = record {
  header = record { lsn = 1; prev_lsn = 0; tx_id = 1; type = 1; data_length = 0 };
  payload = [];
}

abbrev update : Written
update = record {
  header = record { lsn = 2; prev_lsn = 1; tx_id = 1; type = 4; data_length = 10 };
  payload = update_payload 1 7 (5 ∷ []) (6 ∷ []);
}

abbrev commit : Written
commit = record {
  header = record { lsn = 3; prev_lsn = 2; tx_id = 1; type = 2; data_length = 0 };
  payload = [];
}

begin-IsWritten : IsWritten begin
begin-IsWritten = record {
  lsn = omega arith;
  prev_lsn = omega arith;
  tx_id = omega arith;
  type = omega arith;
  data_length = refl;
  short = omega arith;
}

update-IsWritten : IsWritten update
unfolding update_payload bytes_of
update-IsWritten = record {
  lsn = omega arith;
  prev_lsn = omega arith;
  tx_id = omega arith;
  type = omega arith;
  data_length = refl;
  short = omega arith;
}

commit-IsWritten : IsWritten commit
commit-IsWritten = record {
  lsn = omega arith;
  prev_lsn = omega arith;
  tx_id = omega arith;
  type = omega arith;
  data_length = refl;
  short = omega arith;
}

-- the begin in the file and the update in the buffer
abbrev manager : WalManager
manager = record {
  is_open = true;
  flushed_lsn = 1;
  next_lsn = 3;
  next_tx_id = 2;
  buffer = encode (update ∷ []);
  buffer_size = 65536;
  file_offset = 32;
  active = (1, 2) ∷ [];
  file = encode (begin ∷ []);
  flushes = 0;
}

manager-IsLog : IsLog manager (begin ∷ []) (update ∷ [])
unfolding encode header_bytes update_payload bytes_of
manager-IsLog = record {
  at_disk = refl;
  offset = refl;
  in_buffer = refl;
  tail = omega arith;
  written = (begin-IsWritten, (update-IsWritten, tt));
  rising = (omega arith, (omega arith, omega arith));
  next = omega arith;
  fits = omega arith;
  size = refl;
  active = omega arith;
  known = (omega arith, tt);
}

manager-IsHeld : IsHeld manager (begin ∷ update ∷ [])
manager-IsHeld = record {
  flushed = begin ∷ [];
  pending = update ∷ [];
  whole = refl;
  parts = manager-IsLog;
}

commit-IsArgument : IsArgument manager 1 record_commit []
commit-IsArgument = record {
  tx = omega arith;
  kind = omega arith;
  short = omega arith;
  next = omega arith;
}

records_example :
    log_records 4 (encode (begin ∷ update ∷ commit ∷ [])) ≡ seen (begin ∷ update ∷ commit ∷ [])
records_example =
    records_lem (begin ∷ update ∷ commit ∷ []) 4
      (begin-IsWritten, (update-IsWritten, (commit-IsWritten, tt))) (omega arith)

commit_example :
    let result = wal_log_commit io manager 1 in
    let whole = with_end manager (begin ∷ update ∷ []) 1 record_commit in
    (IsDurable whole result × (tx_committed (seen whole) 1 ≡ true))
    ⊎ (is_ok result.0 ≡ false) × (IsHeld result.1 (begin ∷ update ∷ []) ⊎ IsHeld result.1 whole)
commit_example = commit_lem io manager 1 (begin ∷ update ∷ []) manager-IsHeld commit-IsArgument

checkpoint_example :
    ((is_ok DbError.ok ≡ false) × (wal_checkpoint io DbError.ok manager ≡ (DbError.ok, manager)))
    ⊎ (is_ok DbError.ok ≡ true)
      × IsCheckpointed
          (begin ∷ update ∷ [])
          (begin ∷ update ∷ checkpoint_of manager ∷ [])
          (wal_checkpoint io DbError.ok manager)
checkpoint_example =
    checkpoint_lem io DbError.ok manager (begin ∷ update ∷ []) manager-IsHeld (omega arith)

-- a new log
abbrev new_log : WalManager
new_log = record {
  is_open = true;
  flushed_lsn = 0;
  next_lsn = 1;
  next_tx_id = 1;
  buffer = [];
  buffer_size = 65536;
  file_offset = 0;
  active = [];
  file = [];
  flushes = 0;
}

new_log-Reachable : Reachable io new_log
unfolding wal_init
new_log-Reachable = opened {w = new_log} refl

reachable_bounds_example :
    HasLog (wal_log_begin io new_log).1
    × (length (wal_log_begin io new_log).1.buffer ≤ 65536)
    × (length (wal_log_begin io new_log).1.active ≤ 64)
reachable_bounds_example = reachable_bounds {io = io} (
    began {w = new_log}
      record { tx = omega arith; kind = omega arith; short = omega arith; next = omega arith }
      new_log-Reachable)

abbrev kernel : Kernel
kernel = record {
  reads = λ n. true;
  writes = λ n. true;
  resizes = λ n. true;
  torn = λ n. zero_page;
}

abbrev disk : DiskManager
disk = record {
  is_open = true;
  total_pages = 4;
  free_list_head = 0;
  free_page_count = 0;
  file = λ p a. 5;
  calls = 0;
}

-- after a crash before the commit: the update is in the file
abbrev crashed : WalManager
crashed = record manager { buffer = []; file_offset = 74; file = encode (begin ∷ update ∷ []) }
