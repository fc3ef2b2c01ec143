-- ===== src/Buffer/Write.antt =====
-- A caller that writes to the page of a frame and calls buffer_pool_mark_dirty, and one that gives its
-- pin back with buffer_pool_unpin.
use onion_relay.Prelude.{
  ℕ, ◌-◌, ◌<◌, ◌≡◌, ◌≢◌, ◌⊎◌, inl, inr, refl, true, none, some, List, ltb, if◌then◌else◌, length,
  set, set-set, get_or-set_self, get_or-set_ne, length-set, arith, ◌∙◌, ap, sym, ℕ_discrete, subst,
}
use onion_relay.DbTypes.{PageData}
use onion_relay.Disk.{is_page, put_page}
use onion_relay.Buffer.{Frame, BufferPool, empty_frame, frame_at, hash_lookup}
use onion_relay.Buffer.Frames.{update_frame}
use onion_relay.Buffer.Calls.{buffer_pool_mark_dirty, buffer_pool_unpin}
use onion_relay.Buffer.Table.{page_of, IsTable, lookup-some}
use onion_relay.Buffer.View.{
  IsPool, view, view_cached, view_missing, cached-cases, frames-IsTable, page_bound,
}
use onion_relay.Buffer.Relabel.{IsSameView, same_occupied, relabel_lem, set-IsKept}

-- the caller writes to the page of a frame
abbrev pub store : BufferPool → ℕ → PageData → BufferPool
store pool f page = update_frame pool f (record (frame_at pool.frames f) { page = page })

-- a frame gets other content and is dirty from then on
module _ (pool : BufferPool) (v : IsPool pool) (f : ℕ) (g : Frame) (n : page_of pool.frames f ≢ 0)
    (same_id : g.page_id ≡ page_of pool.frames f) where
  bound : f < length pool.frames
  bound = page_bound pool.frames f n

  abbrev frames : List Frame
  frames = set pool.frames f g

  at_frame : frame_at frames f ≡ g
  at_frame = get_or-set_self pool.frames f g empty_frame bound

  at_other : (i : ℕ) → f ≢ i → frame_at frames i ≡ frame_at pool.frames i
  at_other i h = get_or-set_ne pool.frames g empty_frame h

  len : length frames ≡ length pool.frames
  len = length-set pool.frames f g

  pub same_page_id : (i : ℕ) → page_of frames i ≡ page_of pool.frames i
  same_page_id i = elim (ℕ_discrete f i) [
    | yes e ↦
        ap (page_of frames) (sym e)
        ∙ ap (λ x. x.page_id) at_frame
        ∙ same_id
        ∙ ap (page_of pool.frames) e
    | no other ↦ ap (λ x. x.page_id) (at_other i other)
  ]

  pub rewritten-IsTable : IsTable pool.hash_table frames
  rewritten-IsTable =
      frames-IsTable pool.hash_table pool.frames frames v.table len (λ i g h. same_page_id g)

  pub rewritten-lookup : hash_lookup pool.hash_table frames (page_of pool.frames f) ≡ some f
  rewritten-lookup =
      let (i, at) = v.complete f bound n in
      lookup-some rewritten-IsTable (page_of pool.frames f) i f at (same_page_id f)

  pub rewritten-IsPool : g.is_dirty ≡ true → IsPool (record pool { frames = frames })
  rewritten-IsPool dirty = record {
    table = rewritten-IsTable;
    meant = λ i j h e. v.meant i j h (sym (same_page_id j) ∙ e);
    complete = λ j b m. v.complete j (omega (arith, b, len)) (λ e. m (same_page_id j ∙ e));
    counted = v.counted ∙ sym (same_occupied pool.frames frames len same_page_id);
    room = omega (arith, v.room, len);
    hand = omega (arith, v.hand, len);
    small = omega (arith, v.small, len);
    on_disk = λ j b m.
        ap (is_page pool.disk) (same_page_id j)
        ∙ v.on_disk j (omega (arith, b, len)) (λ e. m (same_page_id j ∙ e));
    clean = λ j b m d. elim (ℕ_discrete f j) [
      | yes e ↦ absurd (
          ground (
            arith,
            ap (λ x. (frame_at frames x).is_dirty) e,
            d,
            dirty,
            ap (λ x. x.is_dirty) at_frame,
          ))
      | no other ↦
          let same = at_other j other in
          ap (λ x. x.page) same
          ∙ v.clean j (omega (arith, b, len)) (λ e. m (same_page_id j ∙ e))
              (sym (ap (λ x. x.is_dirty) same) ∙ d)
          ∙ ap pool.disk.file (sym (same_page_id j))
    ];
    is_open = v.is_open;
  }

  pub rewritten-view :
      g.is_dirty ≡ true
      → (p : ℕ) → p ≢ 0
      → view (record pool { frames = frames }) p
        ≡ put_page (view pool) (page_of pool.frames f) g.page p
  rewritten-view dirty p h =
      let w = rewritten-IsPool dirty in
      elim (ℕ_discrete p (page_of pool.frames f)) [
        | yes e ↦
            view_cached w p f h (same_page_id f ∙ sym e)
            ∙ ap (λ x. x.page) at_frame
            ∙ ground (arith, e)
        | no other ↦
            let unchanged : view (record pool { frames = frames }) p ≡ view pool p =
              elim (cached-cases v p h) [
                | inl (i, b, e) ↦
                    let away : f ≢ i = λ y. other (sym e ∙ ap (page_of pool.frames) (sym y)) in
                    view_cached w p i h (same_page_id i ∙ e)
                    ∙ ap (λ x. x.page) (at_other i away)
                    ∙ sym (view_cached v p i h e)
                | inr gone ↦
                    (view_missing w p h
                      (λ i b e. gone i (omega (arith, b, len)) (sym (same_page_id i) ∙ e))).1
                    ∙ sym (view_missing v p h gone).1
              ] in
            unchanged ∙ ground (arith, other)
      ]

abbrev marked : Frame → ℕ → Frame
marked f lsn = record f { is_dirty = true; lsn = if ltb f.lsn lsn then lsn else f.lsn }

mark_of :
    (pool : BufferPool) (p lsn f : ℕ)
    → p ≢ 0
    → hash_lookup pool.hash_table pool.frames p ≡ some f
    → buffer_pool_mark_dirty pool p lsn ≡ update_frame pool f (marked (frame_at pool.frames f) lsn)
unfolding buffer_pool_mark_dirty
mark_of pool p lsn f n e = ground (arith, n, e)

-- On a valid pool, a caller that writes to the page of a frame and then marks the page as dirty leaves
-- a valid pool that stands for the new content of this page and the same of the others.
pub write_lem :
    (pool : BufferPool) (f lsn : ℕ) (page : PageData)
    → IsPool pool
    → page_of pool.frames f ≢ 0
    → let p = page_of pool.frames f in
      let pool' = buffer_pool_mark_dirty (store pool f page) p lsn in
      IsPool pool' × ((q : ℕ) → q ≢ 0 → view pool' q ≡ put_page (view pool) p page q)
write_lem pool f lsn page v n =
    let p = page_of pool.frames f in
    let stored : Frame = record (frame_at pool.frames f) { page = page } in
    let g : Frame = marked stored lsn in
    let self = get_or-set_self pool.frames f stored empty_frame (page_bound pool.frames f n) in
    let result : buffer_pool_mark_dirty (store pool f page) p lsn
        ≡ record pool { frames = set pool.frames f g } =
      mark_of (store pool f page) p lsn f n (rewritten-lookup pool v f stored n refl)
      ∙ ap (λ x. record pool { frames = set (set pool.frames f stored) f (marked x lsn) }) self
      ∙ ap (λ x. record pool { frames = x }) (set-set pool.frames f stored g) in
    (
      subst IsPool (sym result) (rewritten-IsPool pool v f g n refl refl),
      λ q h. ap (λ x. view x q) result ∙ rewritten-view pool v f g n refl refl q h,
    )

unpin_cases :
    (pool : BufferPool) (p f : ℕ)
    → hash_lookup pool.hash_table pool.frames p ≡ some f
    → (buffer_pool_unpin pool p ≡ pool)
      ⊎ (buffer_pool_unpin pool p
          ≡ update_frame pool f (record (frame_at pool.frames f) {
            pin_count = (frame_at pool.frames f).pin_count - 1;
          }))
unfolding buffer_pool_unpin
unpin_cases pool p f e = ground (arith, e)

unpin_missing :
    (pool : BufferPool) (p : ℕ)
    → hash_lookup pool.hash_table pool.frames p ≡ none
    → buffer_pool_unpin pool p ≡ pool
unfolding buffer_pool_unpin
unpin_missing pool p e = ground (arith, e)

unpin_null : (pool : BufferPool) → buffer_pool_unpin pool 0 ≡ pool
unfolding buffer_pool_unpin
unpin_null pool = ground arith

-- a frame gets another count of pins
repinned-IsPool :
    (pool : BufferPool) (f count : ℕ)
    → IsPool pool
    → f < length pool.frames
    → let pool' = update_frame pool f (record (frame_at pool.frames f) { pin_count = count }) in
      IsPool pool' × IsSameView pool pool'
repinned-IsPool pool f count v b =
    let g : Frame = record (frame_at pool.frames f) { pin_count = count } in
    relabel_lem pool (set pool.frames f g) pool.clock_hand v
      (set-IsKept pool.frames f g b refl (λ m. refl))
      (λ i m d. elim (ℕ_discrete f i) [
        | yes e ↦
            ap (λ x. (frame_at pool.frames x).is_dirty) (sym e)
            ∙ ap (λ x. x.is_dirty) (sym (get_or-set_self pool.frames f g empty_frame b))
            ∙ ap (λ x. (frame_at (set pool.frames f g) x).is_dirty) e
            ∙ d
        | no other ↦ ap (λ x. x.is_dirty) (sym (get_or-set_ne pool.frames g empty_frame other)) ∙ d
      ])
      v.hand

-- buffer_pool_unpin keeps a pool valid and the content of every page.
pub unpin_lem :
    (pool : BufferPool) (p : ℕ)
    → IsPool pool
    → IsPool (buffer_pool_unpin pool p) × IsSameView pool (buffer_pool_unpin pool p)
unpin_lem pool p v = elim (ℕ_discrete p 0) [
  | yes z ↦ unchanged (ap (buffer_pool_unpin pool) z ∙ unpin_null pool)
  | no n ↦ elim (cached-cases v p n) [
    | inr gone ↦ unchanged (unpin_missing pool p (view_missing v p n gone).0)
    | inl (f, b, at) ↦
        let (i, s) = v.complete f b (λ z. n (sym at ∙ z)) in
        elim (unpin_cases pool p f (lookup-some v.table p i f s at)) [
          | inl e ↦ unchanged e
          | inr e ↦
              let c = (frame_at pool.frames f).pin_count - 1 in
              subst (λ x. IsPool x × IsSameView pool x) (sym e) (repinned-IsPool pool f c v b)
        ]
  ]
]
  where
    unchanged :
        buffer_pool_unpin pool p ≡ pool
        → IsPool (buffer_pool_unpin pool p) × IsSameView pool (buffer_pool_unpin pool p)
    unchanged e = subst (λ x. IsPool x × IsSameView pool x) (sym e) (v, λ q h. refl)
