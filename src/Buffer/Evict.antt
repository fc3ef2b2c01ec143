-- ===== src/Buffer/Evict.antt =====
-- A frame for a page that comes in: a free one, or one that is written back and taken out of the table.
use onion_relay.Prelude.{
  ℕ, zero, suc, ◌+◌, ◌≤◌, ◌<◌, ◌≡◌, ◌≢◌, inl, inr, refl, Option, some, List, [], ◌∷◌, length, set,
  get_or-set_self, get_or-set_ne, length-set, arith, ◌∙◌, ap, sym, ℕ_discrete,
}
use onion_relay.Disk.{is_page}
use onion_relay.Buffer.{Frame, BufferPool, empty_frame, frame_at}
use onion_relay.Buffer.Table.{slot, page_of, IsTable}
use onion_relay.Buffer.Shift.{IsCleared}
use onion_relay.Buffer.View.{
  IsPool, occupied, view_cached, view_missing, cached-cases, one_frame, frames-IsTable, page_bound,
}
use onion_relay.Buffer.Relabel.{IsSameView}
use onion_relay.Buffer.Flush.{IsClean}

-- the pool with one frame that holds nothing
abbrev pub emptied : BufferPool → ℕ → BufferPool
emptied pool f = record pool { frames = set pool.frames f empty_frame }

pub occupied_bound : (frames : List Frame) → occupied frames ≤ length frames
unfolding occupied
occupied_bound [] = omega arith
occupied_bound (f ∷ frames) = ground (arith, occupied_bound frames)

pub occupied-set_empty :
    (frames : List Frame) (i : ℕ)
    → page_of frames i ≢ 0
    → occupied (set frames i empty_frame) + 1 ≡ occupied frames
unfolding occupied
occupied-set_empty [] i h = absurd (h refl)
occupied-set_empty (f ∷ frames) zero h = ground (arith, h)
occupied-set_empty (f ∷ frames) (suc i) h = ground (arith, occupied-set_empty frames i h)

module _ (pool : BufferPool) (f : ℕ) (fb : f < length pool.frames) where
  pub empty_self : frame_at (emptied pool f).frames f ≡ empty_frame
  empty_self = get_or-set_self pool.frames f empty_frame empty_frame fb

  pub empty_other : (i : ℕ) → f ≢ i → frame_at (emptied pool f).frames i ≡ frame_at pool.frames i
  empty_other i n = get_or-set_ne pool.frames empty_frame empty_frame n

  -- a frame with a page is not the emptied one
  pub still_other :
      (i : ℕ)
      → page_of (emptied pool f).frames i ≢ 0
      → (f ≢ i) × (frame_at (emptied pool f).frames i ≡ frame_at pool.frames i)
  still_other i n = elim (ℕ_discrete f i) [
    | yes e ↦
        absurd
          (n (ap (λ j. page_of (emptied pool f).frames j) (sym e) ∙ ap (λ x. x.page_id) empty_self))
    | no other ↦ (other, empty_other i other)
  ]

-- A clean frame is taken out of the table: the pool without it is valid and has the same content.
module _ (pool : BufferPool) (f i : ℕ) (table : List (Option ℕ)) (v : IsPool pool)
    (n : page_of pool.frames f ≢ 0) (at : slot pool.hash_table i ≡ some f)
    (t : IsTable table pool.frames) (c : IsCleared pool.hash_table i table) where
  abbrev pub removed : BufferPool
  removed = emptied (record pool { hash_table = table }) f

  fb : f < length pool.frames
  fb = page_bound pool.frames f n

  len : length removed.frames ≡ length pool.frames
  len = length-set pool.frames f empty_frame

  -- the table does not have the frame any more
  gone : (j g : ℕ) → slot table j ≡ some g → (j' : ℕ) × (f ≢ g) × (slot pool.hash_table j' ≡ some g)
  gone j g h =
      let (j', away, at') = c.from j g h in
      (j', λ e. away (v.table.distinct j' i g f at' at (ap (page_of pool.frames) (sym e))), at')

  same_page : (g : ℕ) → f ≢ g → page_of removed.frames g ≡ page_of pool.frames g
  same_page g other = ap (λ x. x.page_id) (empty_other pool f fb g other)

  pub removed-IsPool : IsPool removed
  removed-IsPool = record {
    table =
        frames-IsTable table pool.frames removed.frames t len (λ j g h. same_page g (gone j g h).1);
    meant = λ j g h e.
        let (j', other, old) = gone j g h in v.meant j' g old (sym (same_page g other) ∙ e);
    complete = λ g b m.
        let (other, same) = still_other pool f fb g m in
        let (j, at') =
          v.complete g (omega (arith, b, len)) (λ e. m (ap (λ x. x.page_id) same ∙ e)) in
        c.all j g (λ e. other (one_entry e at')) at';
    counted = omega (arith, c.fewer, v.counted, occupied-set_empty pool.frames f n);
    room = omega (arith, v.room, len, c.same_length);
    hand = omega (arith, v.hand, len);
    small = omega (arith, v.small, len);
    on_disk = λ g b m.
        let (other, same) = still_other pool f fb g m in
        ap (is_page pool.disk) (same_page g other)
        ∙ v.on_disk g (omega (arith, b, len)) (λ e. m (ap (λ x. x.page_id) same ∙ e));
    clean = λ g b m d.
        let (other, same) = still_other pool f fb g m in
        ap (λ x. x.page) same
        ∙ v.clean g (omega (arith, b, len)) (λ e. m (ap (λ x. x.page_id) same ∙ e))
            (ap (λ x. x.is_dirty) (sym same) ∙ d)
        ∙ ap pool.disk.file (sym (same_page g other));
    is_open = v.is_open;
  }
    where
      one_entry : {j g : ℕ} → j ≡ i → slot pool.hash_table j ≡ some g → f ≡ g
      one_entry {j} {g} e at' = ground (arith, at, at', ap (slot pool.hash_table) e)

  pub removed-view : IsClean pool f → IsSameView pool removed
  removed-view clean p h = elim (cached-cases v p h) [
    | inl (g, b, e) ↦ elim (ℕ_discrete f g) [
      | yes same ↦
          (view_missing removed-IsPool p h (λ l lb q.
            let (other, l_same) = still_other pool f fb l (λ z. h (sym q ∙ z)) in
            other (
              one_frame v f l n
                (ap (page_of pool.frames) same ∙ e ∙ sym q ∙ ap (λ x. x.page_id) l_same)))).1
          ∙ ap pool.disk.file (sym e ∙ ap (page_of pool.frames) (sym same))
          ∙ sym (v.clean f fb n (clean n))
          ∙ ap (λ l. (frame_at pool.frames l).page) same
          ∙ sym (view_cached v p g h e)
      | no other ↦
          view_cached removed-IsPool p g h (same_page g other ∙ e)
          ∙ ap (λ x. x.page) (empty_other pool f fb g other)
          ∙ sym (view_cached v p g h e)
    ]
    | inr missing ↦
        (view_missing removed-IsPool p h (λ l lb q.
          let (other, l_same) = still_other pool f fb l (λ z. h (sym q ∙ z)) in
          missing l (omega (arith, lb, len)) (ap (λ x. x.page_id) (sym l_same) ∙ q))).1
        ∙ sym (view_missing v p h missing).1
  ]
