-- ===== src/Wal/Recovery/Replay.antt =====
-- The two phases of recovery, and recovery as a whole.
use onion_relay.Prelude.{
  ℕ, ◌≡◌, inl, inr, refl, true, false, Option, none, List, [], ◌∷◌, if◌then◌else◌, any, arith,
  Bool-cases, Option-cases, ◌∙◌, ap, sym,
}
use onion_relay.DbTypes.{DbError}
use onion_relay.Disk.{DiskManager, Kernel, is_page}
use onion_relay.Disk.Alloc.{IsReliable}
use onion_relay.WalRecord.{LogRecord}
use onion_relay.Wal.Recovery.{
  read_update, is_redone, is_undone, redo_record, redo_phase, undo_record, undo_loop, undo_phase,
}
use onion_relay.Wal.Recovery.Bytes.{
  image_byte, last_new, first_old, or_else, IsInside, IsChanged, put_store, outside, redo_skip,
  redo_lost, redo_done, undo_done,
}

one_new : List LogRecord → LogRecord → ℕ → ℕ → Option ℕ
one_new log r p a =
    let u = read_update r.payload in
    if is_redone log r then image_byte u.page_id u.offset u.new_data p a else none

or_else-last_new :
    (log : List LogRecord) (r : LogRecord) (rs : List LogRecord) (p a b : ℕ)
    → or_else (last_new log (r ∷ rs) p a) b
      ≡ or_else (last_new log rs p a) (or_else (one_new log r p a) b)
unfolding last_new one_new
or_else-last_new log r rs p a b = elim (Option-cases (last_new log rs p a)) [
  | inl e ↦ rw e refl
  | inr (byte, e) ↦ rw e refl
]

or_else-first_old :
    (log : List LogRecord) (r : LogRecord) (rs : List LogRecord) (p a b : ℕ)
    → is_undone log r ≡ true
    → or_else (first_old log (r ∷ rs) p a) b
      ≡ or_else
          (image_byte
            (read_update r.payload).page_id
            (read_update r.payload).offset
            (read_update r.payload).old_data
            p
            a)
          (or_else (first_old log rs p a) b)
unfolding first_old
or_else-first_old log r rs p a b h =
    let u = read_update r.payload in
    elim (Option-cases (image_byte u.page_id u.offset u.old_data p a)) [
      | inl e ↦ rw (h, e) refl
      | inr (byte, e) ↦ rw (h, e) refl
    ]

first_old-skip :
    (log : List LogRecord) (r : LogRecord) (rs : List LogRecord) (p a : ℕ)
    → is_undone log r ≡ false
    → first_old log (r ∷ rs) p a ≡ first_old log rs p a
unfolding first_old
first_old-skip log r rs p a h = rw h refl

first_old-none :
    (log rs : List LogRecord) (p a : ℕ)
    → any (is_undone log) rs ≡ false
    → first_old log rs p a ≡ none
first_old-none log [] p a h = unfold first_old in refl
first_old-none log (r ∷ rs) p a h =
    first_old-skip log r rs p a (ground (arith, h)) ∙ first_old-none log rs p a (ground (arith, h))

module _ (k : Kernel) (reliable : IsReliable k) (log : List LogRecord) where
  redo_record_lem :
      (r : LogRecord) (d : DiskManager)
      → d.is_open ≡ true
      → (d' : DiskManager) × (redo_record k log r d ≡ (DbError.ok, d'))
        × IsChanged d (one_new log r) d'
  unfolding one_new
  redo_record_lem r d o = elim (Bool-cases (is_redone log r)) [
    | inr other ↦ (
      d,
      redo_skip k reliable log r d other,
      record { is_open = o; total = refl; bytes = λ p a h. rw other refl },
    )
    | inl redone ↦
        let u = read_update r.payload in
        elim (Bool-cases (is_page d u.page_id)) [
          | inr lost ↦ (
            d,
            redo_lost k reliable log r d o redone lost,
            record {
              is_open = o;
              total = refl;
              bytes = λ p a h. rw (redone, outside d u.page_id u.offset u.new_data p a lost h) refl;
            },
          )
          | inl found ↦ (
            _,
            redo_done k reliable log r d o redone found,
            record {
              is_open = o;
              total = refl;
              bytes = λ p a h. rw redone (put_store d.file u.page_id u.offset u.new_data p a);
            },
          )
        ]
  ]

  pub redo_phase_lem :
      (rs : List LogRecord) (d : DiskManager)
      → d.is_open ≡ true
      → (d' : DiskManager) × (redo_phase k log rs d ≡ (DbError.ok, d'))
        × IsChanged d (last_new log rs) d'
  unfolding redo_phase
  redo_phase_lem [] d o =
      (d, refl, record { is_open = o; total = refl; bytes = λ p a h. unfold last_new in refl })
  redo_phase_lem (r ∷ rs) d o =
      let (d₁, e, c) = redo_record_lem r d o in
      let (d₂, e₂, c₂) = redo_phase_lem rs d₁ c.is_open in
      (
        d₂,
        rw (e, e₂) refl,
        record {
          is_open = c₂.is_open;
          total = c₂.total ∙ c.total;
          bytes = λ p a h.
              c₂.bytes p a (ground (arith, c.total, h))
              ∙ ap (or_else (last_new log rs p a)) (c.bytes p a h)
              ∙ sym (or_else-last_new log r rs p a (d.file p a));
        },
      )

  undo_record_lem :
      (r : LogRecord) (d : DiskManager)
      → d.is_open ≡ true
      → is_page d (read_update r.payload).page_id ≡ true
      → (d' : DiskManager) × (undo_record k r d ≡ (DbError.ok, d'))
        × IsChanged d
            (image_byte
              (read_update r.payload).page_id
              (read_update r.payload).offset
              (read_update r.payload).old_data)
            d'
  undo_record_lem r d o found =
      let u = read_update r.payload in
      (
        _,
        undo_done k reliable r d o found,
        record {
          is_open = o;
          total = refl;
          bytes = λ p a h. put_store d.file u.page_id u.offset u.old_data p a;
        },
      )

  undo_step :
      (r : LogRecord) (rs : List LogRecord) (d d₁ : DiskManager)
      → undo_loop k log rs d ≡ (DbError.ok, d₁)
      → undo_loop k log (r ∷ rs) d
        ≡ (if is_undone log r then undo_record k r d₁ else (DbError.ok, d₁))
  unfolding undo_loop
  undo_step r rs d d₁ e = rw e refl

  undo_loop_lem :
      (rs : List LogRecord) (d : DiskManager)
      → d.is_open ≡ true
      → IsInside log d rs
      → (d' : DiskManager) × (undo_loop k log rs d ≡ (DbError.ok, d'))
        × IsChanged d (first_old log rs) d'
  undo_loop_lem [] d o inside = (
    d,
    unfold undo_loop in refl,
    record { is_open = o; total = refl; bytes = λ p a h. unfold first_old in refl },
  )
  undo_loop_lem (r ∷ rs) d o inside =
      let (d₁, e, c) = undo_loop_lem rs d o inside.1 in
      elim (Bool-cases (is_undone log r)) [
        | inr other ↦ (
          d₁,
          undo_step r rs d d₁ e ∙ rw other refl,
          record {
            is_open = c.is_open;
            total = c.total;
            bytes = λ p a h. rw (first_old-skip log r rs p a other) (c.bytes p a h);
          },
        )
        | inl undone ↦
            let (d₂, e₂, c₂) =
              undo_record_lem r d₁ c.is_open (ground (arith, inside.0, undone, c.total)) in
            (
              d₂,
              undo_step r rs d d₁ e ∙ rw undone e₂,
              record {
                is_open = c₂.is_open;
                total = c₂.total ∙ c.total;
                bytes = λ p a h.
                    c₂.bytes p a (ground (arith, c.total, h))
                    ∙ ap
                        (or_else (
                          image_byte (read_update r.payload).page_id (read_update r.payload).offset
                            (read_update r.payload).old_data p a))
                        (c.bytes p a h)
                    ∙ sym (or_else-first_old log r rs p a (d.file p a) undone);
              },
            )
      ]

  pub undo_phase_lem :
      (rs : List LogRecord) (d : DiskManager)
      → d.is_open ≡ true
      → IsInside log d rs
      → (d' : DiskManager) × (undo_phase k true log rs d ≡ (DbError.ok, d'))
        × IsChanged d (first_old log rs) d'
  unfolding undo_phase
  undo_phase_lem rs d o inside = elim (Bool-cases (any (is_undone log) rs)) [
    | inl some_undone ↦ let (d₁, e, c) = undo_loop_lem rs d o inside in (d₁, rw some_undone e, c)
    | inr none_undone ↦ (
      d,
      rw none_undone refl,
      record {
        is_open = o;
        total = refl;
        bytes = λ p a h. rw (first_old-none log rs p a none_undone) refl;
      },
    )
  ]
