-- ===== src/Wal/Append.antt =====
-- A record that is written is the last of the log, and the log is otherwise as before.
use onion_relay.Prelude.{
  ℕ, ◌+◌, ◌%◌, ◌^◌, ◌≤◌, ◌<◌, ◌≡◌, inl, inr, refl, List, [], ◌∷◌, ◌++◌, ◌==◌, length, All, All-snoc,
  arith, length-append, ap, ap₂, ◌∙◌, sym, Bool-cases, subst,
}
use mathlib.Core.List.{append_assoc, append-nil}
use onion_relay.WalRecord.{header_bytes}
use onion_relay.Wal.{WalManager, find_active_tx, set_active_lsn, prev_of, new_header, push_record}
use onion_relay.Wal.Records.{Written, IsWritten, encode, encode-append, length-header_bytes}
use onion_relay.Wal.Log.{IsLog, IsRising, IsLog-active}

-- the record that is written
abbrev pub record_of : WalManager → ℕ → ℕ → List ℕ → Written
record_of w tx_id type payload = record {
  header = new_header w tx_id type (length payload);
  payload = payload;
}

IsRising-snoc :
    (low : ℕ) (rs : List Written) (high : ℕ) (r : Written)
    → IsRising low rs high
    → r.header.lsn ≡ high
    → IsRising low (rs ++ (r ∷ [])) (high + 1)
IsRising-snoc low [] high r h e = (omega (arith, h, e), omega (arith, e))
IsRising-snoc low (s ∷ rs) high r h e = (h.0, IsRising-snoc (s.header.lsn + 1) rs high r h.1 e)

length-set_active_lsn :
    (active : List (ℕ × ℕ)) (tx_id lsn : ℕ)
    → length (set_active_lsn active tx_id lsn) ≡ length active
unfolding set_active_lsn
length-set_active_lsn [] tx_id lsn = refl
length-set_active_lsn ((tx, old) ∷ active) tx_id lsn =
    ground (arith, length-set_active_lsn active tx_id lsn)

set_active_lsn-All :
    (active : List (ℕ × ℕ)) (tx_id lsn : ℕ)
    → lsn < 2 ^ 64
    → All (λ entry. entry.1 < 2 ^ 64) active
    → All (λ entry. entry.1 < 2 ^ 64) (set_active_lsn active tx_id lsn)
unfolding set_active_lsn
set_active_lsn-All [] tx_id lsn h k = k
set_active_lsn-All ((tx, old) ∷ active) tx_id lsn h k = elim (Bool-cases (tx == tx_id)) [
  | inl same ↦ rw same (h, k.1)
  | inr other ↦ rw other (k.0, set_active_lsn-All active tx_id lsn h k.1)
]

find_active_tx-bound :
    (active : List (ℕ × ℕ)) (tx_id : ℕ)
    → All (λ entry. entry.1 < 2 ^ 64) active
    → prev_of (find_active_tx active tx_id) < 2 ^ 64
unfolding find_active_tx
find_active_tx-bound [] tx_id k = omega arith
find_active_tx-bound ((tx, lsn) ∷ active) tx_id k = elim (Bool-cases (tx == tx_id)) [
  | inl same ↦ rw same k.0
  | inr other ↦ rw other (find_active_tx-bound active tx_id k.1)
]

record_of-IsWritten :
    (w : WalManager) (tx_id type : ℕ) (payload : List ℕ)
    → w.next_lsn < 2 ^ 64
    → All (λ entry. entry.1 < 2 ^ 64) w.active
    → tx_id < 2 ^ 32
    → type < 2 ^ 32
    → length payload < 2 ^ 16
    → IsWritten (record_of w tx_id type payload)
record_of-IsWritten w tx_id type payload n k t y l = record {
  lsn = unfold new_header in n;
  prev_lsn = unfold new_header in find_active_tx-bound w.active tx_id k;
  tx_id = unfold new_header in t;
  type = unfold new_header in y;
  data_length = unfold new_header in refl;
  short = l;
}

-- the arguments that a record has room for
pub record IsArgument (w : WalManager) (tx_id type : ℕ) (payload : List ℕ) : Type 0 where
  pub tx : tx_id < 2 ^ 32
  pub kind : type < 2 ^ 32
  pub short : length payload < 2 ^ 16
  pub next : w.next_lsn + 1 < 2 ^ 64

-- any written record with the next number, behind what is pending
pub push-IsLog :
    (w : WalManager) (r : Written) (bytes : List ℕ) (flushed pending : List Written)
    → IsLog w flushed pending
    → bytes ≡ header_bytes r.header ++ r.payload
    → IsWritten r
    → r.header.lsn ≡ w.next_lsn
    → w.next_lsn + 1 < 2 ^ 64
    → length w.buffer + (32 + length r.payload) ≤ 65536
    → IsLog
        (record w { next_lsn = (w.next_lsn + 1) % 2 ^ 64; buffer = w.buffer ++ bytes })
        flushed
        (pending ++ (r ∷ []))
unfolding encode
push-IsLog w r bytes flushed pending v same written number room_lsn room =
    let h = header_bytes r.header in
    let next : (w.next_lsn + 1) % 2 ^ 64 ≡ w.next_lsn + 1 = omega (arith, room_lsn) in
    let size : length bytes ≡ 32 + length r.payload =
      omega (arith, ap length same, length-append h r.payload, length-header_bytes r.header) in
    record {
      at_disk = v.at_disk;
      offset = v.offset;
      in_buffer =
          ap₂ (λ xs ys. xs ++ ys) v.in_buffer
            (same ∙ ap (λ ys. h ++ ys) (sym (append-nil r.payload)))
          ∙ sym (encode-append pending (r ∷ []));
      tail = omega (arith, v.tail, length-append w.buffer bytes);
      written =
          subst (λ rs. All IsWritten rs) (append_assoc flushed pending (r ∷ []))
            (All-snoc IsWritten (flushed ++ pending) r v.written written);
      rising =
          subst (λ rs. IsRising 1 rs ((w.next_lsn + 1) % 2 ^ 64))
            (append_assoc flushed pending (r ∷ []))
            (subst (λ n. IsRising 1 ((flushed ++ pending) ++ (r ∷ [])) n) (sym next)
              (IsRising-snoc 1 (flushed ++ pending) w.next_lsn r v.rising number));
      next = omega (arith, next, room_lsn);
      fits = omega (arith, room, v.size, length-append w.buffer bytes, size);
      size = v.size;
      active = v.active;
      known = v.known;
    }

pub push_record-IsLog :
    (w : WalManager) (tx_id type : ℕ) (payload : List ℕ) (flushed pending : List Written)
    → IsLog w flushed pending
    → IsArgument w tx_id type payload
    → length w.buffer + (32 + length payload) ≤ 65536
    → IsLog
        (push_record w tx_id type payload)
        flushed
        (pending ++ (record_of w tx_id type payload ∷ []))
unfolding push_record
push_record-IsLog w tx_id type payload flushed pending v a room =
    let r = record_of w tx_id type payload in
    let bytes = header_bytes r.header ++ payload in
    IsLog-active (record w { next_lsn = (w.next_lsn + 1) % 2 ^ 64; buffer = w.buffer ++ bytes })
      flushed (pending ++ (r ∷ [])) (set_active_lsn w.active tx_id w.next_lsn) w.next_tx_id
      (push-IsLog w r bytes flushed pending v refl
        (record_of-IsWritten w tx_id type payload v.next v.known a.tx a.kind a.short)
        (unfold new_header in refl) a.next room)
      (omega (arith, v.active, length-set_active_lsn w.active tx_id w.next_lsn))
      (set_active_lsn-All w.active tx_id w.next_lsn v.next v.known)
