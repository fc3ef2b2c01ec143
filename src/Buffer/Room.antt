-- ===== src/Buffer/Room.antt =====
-- A frame is found unless all are pinned.
use onion_relay.Prelude.{
  ℕ, ◌≡◌, ◌≢◌, ◌⊎◌, inl, inr, refl, Option, none, some, List, arith, Option-cases, ◌∙◌, sym,
}
use onion_relay.Disk.{Kernel}
use onion_relay.Disk.Alloc.{IsReliable}
use onion_relay.Buffer.{Frame, BufferPool, frame_at, clock_evict}
use onion_relay.Buffer.Frames.{flush_frame, free_frame, evict, acquire_frame}
use onion_relay.Buffer.Table.{page_of, found_lem}
use onion_relay.Buffer.Used.{free_slot}
use onion_relay.Buffer.Remove.{remove_lem}
use onion_relay.Buffer.Victim.{clock_evict_lem}
use onion_relay.Buffer.View.{IsPool, page_bound}
use onion_relay.Buffer.Relabel.{IsKept, IsSameView}
use onion_relay.Buffer.Flush.{flush_frame_lem}
use onion_relay.Buffer.Evict.{occupied_bound, removed-IsPool, removed-view}
use onion_relay.Buffer.Acquire.{
  IsAcquired, IsPinned, free_frame-cases, free-IsAcquired, clock_step, clocked_lem, evict-none,
  evict-some,
}

abbrev pub IsRefused : BufferPool → BufferPool → Type 0
IsRefused pool pool' =
    IsPool pool'
    × IsSameView pool pool'
    × IsPinned pool
    × (pool'.disk.total_pages ≡ pool.disk.total_pages)

-- the two outcomes
abbrev pub IsRoom : BufferPool → Option (Option ℕ × BufferPool) → Type 0
IsRoom pool result =
    ((pool' : BufferPool) × (result ≡ some (none, pool')) × IsRefused pool pool')
    ⊎ ((f : ℕ) × (pool' : BufferPool) × (result ≡ some (some f, pool')) × IsAcquired pool f pool')

IsKept-trans : {a b c : List Frame} → IsKept a b → IsKept b c → IsKept a c
IsKept-trans u v = record {
  same_length = v.same_length ∙ u.same_length;
  page_id = λ i. v.page_id i ∙ u.page_id i;
  page = λ i h. v.page i (λ z. h (sym (u.page_id i) ∙ z)) ∙ u.page i h;
}

-- the victim leaves the table
victim_lem :
    (k : Kernel) (pool : BufferPool) (f : ℕ)
    → IsReliable k
    → IsPool pool
    → page_of pool.frames f ≢ 0
    → (frame_at pool.frames f).pin_count ≡ 0
    → (clock_evict pool).0 ≡ some f
    → (pool' : BufferPool) × (evict k pool ≡ some (some f, pool')) × IsAcquired pool f pool'
victim_lem k pool f r v n pins e =
    let c = clocked_lem pool v in
    let pool₁ = (clock_evict pool).1 in
    let u = flush_frame_lem k pool₁ f r c.valid in
    let pool₂ = (flush_frame k pool₁ f).1 in
    let v₂ = u.valid in
    let kept = IsKept-trans c.kept u.kept in
    let n₂ : page_of pool₂.frames f ≢ 0 = λ z. n (sym (kept.page_id f) ∙ z) in
    let bound = page_bound pool₂.frames f n₂ in
    let (i, at) = v₂.complete f bound n₂ in
    let found = found_lem v₂.table (page_of pool₂.frames f) i f at refl in
    let (s, sb, free) =
      free_slot pool₂.hash_table
        (omega (arith, v₂.counted, occupied_bound pool₂.frames, v₂.room)) in
    let (table, result, valid, cleared) =
      remove_lem pool₂.hash_table pool₂.frames (page_of pool₂.frames f) i f s v₂.table found at sb
        free in
    (
      record pool₂ { hash_table = table },
      evict-some k pool f table e u.ok result,
      record {
        bound = bound;
        valid = removed-IsPool pool₂ f i table v₂ n₂ at valid cleared;
        same_view = λ p h.
            removed-view pool₂ f i table v₂ n₂ at valid cleared u.now_clean p h
            ∙ u.same_view p h
            ∙ c.same_view p h;
        free = λ m. pins;
        kept = kept;
        pins = λ j. u.pins j ∙ c.pins j;
        total = u.total ∙ c.total;
      },
    )

acquire_free :
    (k : Kernel) (pool : BufferPool) (f : ℕ)
    → free_frame pool.frames ≡ some f
    → acquire_frame k pool ≡ some (some f, pool)
unfolding acquire_frame
acquire_free k pool f e = ground (arith, e)

acquire_evict :
    (k : Kernel) (pool : BufferPool)
    → free_frame pool.frames ≡ none
    → acquire_frame k pool ≡ evict k pool
unfolding acquire_frame
acquire_evict k pool e = ground (arith, e)

-- With a reliable kernel, a valid pool finds a frame that is free or not pinned for a new page, unless all
-- frames are pinned; the loops end, and without the frame the pool is valid and gives every page the
-- content that it had.
pub acquire_lem :
    (k : Kernel) (pool : BufferPool)
    → IsReliable k
    → IsPool pool
    → IsRoom pool (acquire_frame k pool)
acquire_lem k pool r v = elim (free_frame-cases pool.frames) [
  | inl (f, e, b, z) ↦ inr (f, pool, acquire_free k pool f e, free-IsAcquired pool f v b z)
  | inr (full, all) ↦
      let (s, same) = clock_step pool v in
      elim (Option-cases (clock_evict pool).0) [
        | inr (f, e) ↦
            let (b, pins) = s.victim f e in
            let (pool', result, got) = victim_lem k pool f r v (all f b) pins e in
            inr (f, pool', acquire_evict k pool full ∙ result, got)
        | inl e ↦
            let c = clocked_lem pool v in
            inl (
              (clock_evict pool).1,
              acquire_evict k pool full ∙ evict-none k pool e,
              (
                c.valid,
                c.same_view,
                λ f b z.
                    let (g, found) = clock_evict_lem pool f v.hand v.small b z in
                    ground (arith, e, found),
                c.total,
              ),
            )
      ]
]
