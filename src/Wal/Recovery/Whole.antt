-- ===== src/Wal/Recovery/Whole.antt =====
-- Recovery as a whole: both phases over the log of the manager, and recovery once more.
use onion_relay.Prelude.{
  ℕ, ◌+◌, ◌%◌, ◌^◌, ◌≡◌, refl, true, false, Option, none, some, List, ◌==◌, length,
}
use onion_relay.DbTypes.{DbError}
use onion_relay.Disk.{DiskManager, Kernel}
use onion_relay.Disk.Alloc.{IsReliable}
use onion_relay.WalRecord.{LogRecord, log_records, max_lsn}
use onion_relay.Wal.{WalManager}
use onion_relay.Wal.Recovery.{redo_phase, undo_phase, replayed, max_tx_id, is_sound, wal_recover}
use onion_relay.Wal.Recovery.Bytes.{last_new, first_old}

abbrev pub log_of : WalManager → List LogRecord
log_of w = log_records (length w.file) w.file

abbrev pub or_first : Option ℕ → Option ℕ → Option ℕ
or_first none y = y
or_first (some byte) y = some byte

-- what recovery puts at a place of a page: the oldest image of the updates without a commit that reach
-- the place, or else the newest image of the others
unfoldable pub recovered : List LogRecord → ℕ → ℕ → Option ℕ
recovered log p a = or_first (first_old log (replayed log) p a) (last_new log (replayed log) p a)

abbrev pub restarted : WalManager → WalManager
restarted w = record w {
  next_lsn = (max_lsn 0 (log_of w) + 1) % 2 ^ 64;
  next_tx_id = (max_tx_id 0 (log_of w) + 1) % 2 ^ 32;
  flushed_lsn = max_lsn 0 (log_of w);
}

module _ (k : Kernel) (reliable : IsReliable k) where
  steps :
      (w : WalManager) (d d₁ d₂ : DiskManager)
      → w.is_open ≡ true
      → (length w.file == 0) ≡ false
      → is_sound (log_of w) (replayed (log_of w)) ≡ true
      → redo_phase k (log_of w) (replayed (log_of w)) d ≡ (DbError.ok, d₁)
      → undo_phase k true (log_of w) (replayed (log_of w)) d₁ ≡ (DbError.ok, d₂)
      → wal_recover k true true w d ≡ some (DbError.ok, restarted w, d₂)
  unfolding wal_recover
  steps w d d₁ d₂ o e sound redone undone = rw (redone, undone, o, e, sound) refl
