-- ===== src/Buffer/Install.antt =====
-- A page comes into a free frame.
use onion_relay.Prelude.{
  ℕ, zero, suc, ◌+◌, ◌<◌, ◌≡◌, ◌≢◌, inl, inr, refl, true, false, Option, none, some, List, [], ◌∷◌,
  length, set, get_or-set_self, get_or-set_ne, length-set, set-set, arith, ◌∙◌, ap, sym, ℕ_discrete,
}
use onion_relay.Disk.{is_page}
use onion_relay.Buffer.{Frame, BufferPool, empty_frame, frame_at, hash_insert}
use onion_relay.Buffer.Frames.{install}
use onion_relay.Buffer.Table.{slot, page_of, IsAbsent, IsTable}
use onion_relay.Buffer.Used.{used, free_slot, used-set_new}
use onion_relay.Buffer.Insert.{
  IsInserted, inserted-cases, inserted_self, inserted_other, insert_lem,
}
use onion_relay.Buffer.View.{
  IsPool, occupied, view, view_cached, view_missing, cached-cases, frames-IsTable,
}
use onion_relay.Buffer.Evict.{emptied, occupied_bound}

occupied-set_full :
    (frames : List Frame) (i : ℕ) (f : Frame)
    → i < length frames
    → page_of frames i ≡ 0
    → f.page_id ≢ 0
    → occupied (set frames i f) ≡ occupied frames + 1
unfolding occupied
occupied-set_full [] i f b z n = absurd (omega (arith, b))
occupied-set_full (x ∷ frames) zero f b z n = ground (arith, z, n)
occupied-set_full (x ∷ frames) (suc i) f b z n =
    ground (arith, occupied-set_full frames i f (omega (arith, b)) z n)

abbrev install_at : BufferPool → ℕ → Frame → List Frame → Option BufferPool
install_at pool frame f frames = elim (hash_insert pool.hash_table frames f.page_id frame) [
  | none ↦ none
  | some table ↦ some (record pool { frames = frames; hash_table = table })
]

pub install-emptied :
    (pool : BufferPool) (frame : ℕ) (f : Frame)
    → install (emptied pool frame) frame f ≡ install pool frame f
unfolding install
install-emptied pool frame f =
    ap (install_at pool frame f) (set-set pool.frames frame empty_frame f)

install_of :
    (pool : BufferPool) (frame : ℕ) (f : Frame) (table : List (Option ℕ))
    → hash_insert pool.hash_table (set pool.frames frame f) f.page_id frame ≡ some table
    → install pool frame f
      ≡ some (record pool { frames = set pool.frames frame f; hash_table = table })
unfolding install
install_of pool frame f table e = ground (arith, e)

-- the pool with one page more
pub record IsInstalled (pool : BufferPool) (frame : ℕ) (f : Frame) (pool' : BufferPool)
    : Type 0 where
  pub valid : IsPool pool'
  pub here : view pool' f.page_id ≡ f.page
  pub others : (q : ℕ) → q ≢ 0 → q ≢ f.page_id → view pool' q ≡ view pool q
  pub frames : pool'.frames ≡ set pool.frames frame f
  pub disk : pool'.disk ≡ pool.disk

module _ (pool : BufferPool) (frame : ℕ) (f : Frame) (v : IsPool pool)
    (b : frame < length pool.frames) (z : page_of pool.frames frame ≡ 0) (n : f.page_id ≢ 0)
    (missing : (g : ℕ) → g < length pool.frames → page_of pool.frames g ≢ f.page_id)
    (found : is_page pool.disk f.page_id ≡ true)
    (fresh : f.is_dirty ≡ false → f.page ≡ pool.disk.file f.page_id) where
  abbrev filled_frames : List Frame
  filled_frames = set pool.frames frame f

  at_frame : frame_at filled_frames frame ≡ f
  at_frame = get_or-set_self pool.frames frame f empty_frame b

  at_other : (g : ℕ) → frame ≢ g → frame_at filled_frames g ≡ frame_at pool.frames g
  at_other g other = get_or-set_ne pool.frames f empty_frame other

  len : length filled_frames ≡ length pool.frames
  len = length-set pool.frames frame f

  -- a frame that has a page is another one
  occupied_other : (g : ℕ) → page_of pool.frames g ≢ 0 → frame ≢ g
  occupied_other g m e = m (ap (page_of pool.frames) (sym e) ∙ z)

  entry_page :
      (i g : ℕ) → slot pool.hash_table i ≡ some g → page_of filled_frames g ≡ page_of pool.frames g
  entry_page i g h = ap (λ x. x.page_id) (at_other g (occupied_other g (v.meant i g h)))

  module _ (table : List (Option ℕ)) (t : IsInserted pool.hash_table frame table)
      (valid_table : IsTable table filled_frames) where
    abbrev installed : BufferPool
    installed = record pool { frames = filled_frames; hash_table = table }

    installed-IsPool : IsPool installed
    installed-IsPool = record {
      table = valid_table;
      meant = λ i g h e. elim (inserted-cases t i g h) [
        | inl (at, same) ↦
            n (sym (ap (λ x. x.page_id) at_frame) ∙ ap (page_of filled_frames) (sym same) ∙ e)
        | inr old ↦ v.meant i g old (sym (entry_page i g old) ∙ e)
      ];
      complete = λ g gb m. elim (ℕ_discrete frame g) [
        | yes e ↦ (t.at, inserted_self t ∙ ap some e)
        | no other ↦
            let (i, at) =
              v.complete g (omega (arith, gb, len))
                (λ e. m (ap (λ x. x.page_id) (at_other g other) ∙ e)) in
            (i, inserted_other t i g at)
      ];
      counted =
          ap used t.result
          ∙ used-set_new pool.hash_table t.at frame t.bound t.free
          ∙ ap (λ c. c + 1) v.counted
          ∙ sym (occupied-set_full pool.frames frame f b z n);
      room =
          omega
            (arith, v.room, len, ap length t.result, length-set pool.hash_table t.at (some frame));
      hand = omega (arith, v.hand, len);
      small = omega (arith, v.small, len);
      on_disk = λ g gb m. elim (ℕ_discrete frame g) [
        | yes e ↦
            ap (is_page pool.disk)
              (ap (page_of filled_frames) (sym e) ∙ ap (λ x. x.page_id) at_frame)
            ∙ found
        | no other ↦
            let same = ap (λ x. x.page_id) (at_other g other) in
            ap (is_page pool.disk) same ∙ v.on_disk g (omega (arith, gb, len)) (λ e. m (same ∙ e))
      ];
      clean = λ g gb m d. elim (ℕ_discrete frame g) [
        | yes e ↦
            let same : frame_at filled_frames g ≡ f =
              ap (frame_at filled_frames) (sym e) ∙ at_frame in
            ap (λ x. x.page) same
            ∙ fresh (sym (ap (λ x. x.is_dirty) same) ∙ d)
            ∙ ap pool.disk.file (sym (ap (λ x. x.page_id) same))
        | no other ↦
            let same = at_other g other in
            ap (λ x. x.page) same
            ∙ v.clean g (omega (arith, gb, len)) (λ e. m (ap (λ x. x.page_id) same ∙ e))
                (sym (ap (λ x. x.is_dirty) same) ∙ d)
            ∙ ap pool.disk.file (sym (ap (λ x. x.page_id) same))
      ];
      is_open = v.is_open;
    }

    installed-IsInstalled : IsInstalled pool frame f installed
    installed-IsInstalled =
        let w = installed-IsPool in
        record {
          valid = w;
          here =
              view_cached w f.page_id frame n (ap (λ x. x.page_id) at_frame)
              ∙ ap (λ x. x.page) at_frame;
          others = λ q h other. elim (cached-cases v q h) [
            | inl (g, gb, e) ↦
                let same = at_other g (occupied_other g (λ y. h (sym e ∙ y))) in
                view_cached w q g h (ap (λ x. x.page_id) same ∙ e)
                ∙ ap (λ x. x.page) same
                ∙ sym (view_cached v q g h e)
            | inr gone ↦
                (view_missing w q h (λ g gb e. elim (ℕ_discrete frame g) [
                  | yes at ↦
                      other
                        (sym e ∙ ap (page_of filled_frames) (sym at) ∙ ap (λ x. x.page_id) at_frame)
                  | no away ↦
                      gone g (omega (arith, gb, len))
                        (sym (ap (λ x. x.page_id) (at_other g away)) ∙ e)
                ])).1
                ∙ sym (view_missing v q h gone).1
          ];
          frames = refl;
          disk = refl;
        }

  -- On a valid pool, a page that is in no frame comes into a free one.
  pub install_lem :
      (pool' : BufferPool) × (install pool frame f ≡ some pool') × IsInstalled pool frame f pool'
  install_lem =
      let (e, eb, free) =
        free_slot pool.hash_table (omega (arith, v.counted, occupied_bound pool.frames, v.room)) in
      let absent : IsAbsent pool.hash_table filled_frames f.page_id =
        λ i g h same. missing g (v.table.inside i g h) (sym (entry_page i g h) ∙ same) in
      let (table, result, t, valid_table) =
        insert_lem pool.hash_table filled_frames f.page_id frame e
          (frames-IsTable pool.hash_table pool.frames filled_frames v.table len entry_page) absent
          (ap (λ x. x.page_id) at_frame) (omega (arith, b, len)) eb free in
      (
        record pool { frames = filled_frames; hash_table = table },
        install_of pool frame f table result,
        installed-IsInstalled table t valid_table,
      )
