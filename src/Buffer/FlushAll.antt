-- ===== src/Buffer/FlushAll.antt =====
-- After the whole pool has been written back, the disk has what the pool stands for.
use onion_relay.Prelude.{
  ℕ, zero, suc, ◌+◌, ◌<◌, ◌≡◌, ◌≢◌, inl, inr, refl, true, false, not, ◌&&◌, ◌==◌, length, arith,
  Bool-cases, ◌∙◌, ap, sym, ℕ_discrete, subst,
}
use onion_relay.DbTypes.{DbError}
use onion_relay.Disk.{Kernel}
use onion_relay.Disk.Alloc.{IsReliable}
use onion_relay.Buffer.{BufferPool, frame_at}
use onion_relay.Buffer.Frames.{flush_frame}
use onion_relay.Buffer.Calls.{
  flush_loop, buffer_pool_flush_all, shutdown_loop, buffer_pool_shutdown,
}
use onion_relay.Buffer.Table.{page_of}
use onion_relay.Buffer.View.{IsPool, view, view_cached, view_missing, cached-cases}
use onion_relay.Buffer.Relabel.{IsSameView}
use onion_relay.Buffer.Flush.{IsClean, flush_frame_lem}

loop_dirty :
    (k : Kernel) (pool : BufferPool) (i n : ℕ)
    → ((frame_at pool.frames i).is_dirty && not (page_of pool.frames i == 0)) ≡ true
    → (flush_frame k pool i).0 ≡ DbError.ok
    → flush_loop k pool i (suc n) ≡ flush_loop k (flush_frame k pool i).1 (i + 1) n
unfolding flush_loop
loop_dirty k pool i n d o = rw (d, o) refl

loop_skip :
    (k : Kernel) (pool : BufferPool) (i n : ℕ)
    → ((frame_at pool.frames i).is_dirty && not (page_of pool.frames i == 0)) ≡ false
    → flush_loop k pool i (suc n) ≡ flush_loop k pool (i + 1) n
unfolding flush_loop
loop_skip k pool i n d = rw d refl

record IsAllFlushed (pool : BufferPool) (result : DbError × BufferPool) : Type 0 where
  ok : result.0 ≡ DbError.ok
  valid : IsPool result.1
  same_view : IsSameView pool result.1
  clean : (f : ℕ) → f < length result.1.frames → IsClean result.1 f

flush_loop_lem :
    (k : Kernel) (n i : ℕ) (pool : BufferPool)
    → IsReliable k
    → IsPool pool
    → i + n ≡ length pool.frames
    → ((f : ℕ) → f < i → IsClean pool f)
    → IsAllFlushed pool (flush_loop k pool i n)
flush_loop_lem k zero i pool r v total before =
    unfold flush_loop in
    record {
      ok = refl;
      valid = v;
      same_view = λ p h. refl;
      clean = λ f b. before f (omega (arith, b, total));
    }
flush_loop_lem k (suc n) i pool r v total before =
    elim (Bool-cases ((frame_at pool.frames i).is_dirty && not (page_of pool.frames i == 0))) [
      | inr skip ↦
          let here : IsClean pool i = λ h. ground (arith, skip, h) in
          rw (loop_skip k pool i n skip) (
            flush_loop_lem k n (i + 1) pool r v (omega (arith, total)) (λ f b.
              elim (ℕ_discrete f i) [
                | yes e ↦ subst (λ g. IsClean pool g) (sym e) here
                | no other ↦ before f (omega (arith, b, other))
              ]))
      | inl dirty ↦
          let u = flush_frame_lem k pool i r v in
          let pool₁ = (flush_frame k pool i).1 in
          let w =
            flush_loop_lem k n (i + 1) pool₁ r u.valid (omega (arith, total, u.kept.same_length))
              (λ f b. elim (ℕ_discrete f i) [
                | yes e ↦ subst (λ g. IsClean pool₁ g) (sym e) u.now_clean
                | no other ↦ u.others f (before f (omega (arith, b, other)))
              ]) in
          rw (loop_dirty k pool i n dirty u.ok) record {
            ok = w.ok;
            valid = w.valid;
            same_view = λ p h. w.same_view p h ∙ u.same_view p h;
            clean = w.clean;
          }
    ]

flush_all_of :
    (k : Kernel) (synced : DbError) (pool : BufferPool)
    → (flush_loop k pool 0 (length pool.frames)).0 ≡ DbError.ok
    → buffer_pool_flush_all k synced pool ≡ (synced, (flush_loop k pool 0 (length pool.frames)).1)
unfolding buffer_pool_flush_all
flush_all_of k synced pool e = rw e refl

-- With a reliable kernel, buffer_pool_flush_all on a valid pool returns the answer of disk_sync, keeps
-- the pool valid and the content of every page, and leaves on the disk, for every page, the content
-- that the pool gave it.
pub flush_all_lem :
    (k : Kernel) (synced : DbError) (pool : BufferPool)
    → IsReliable k
    → IsPool pool
    → let result = buffer_pool_flush_all k synced pool in
      (result.0 ≡ synced)
      × IsPool result.1
      × IsSameView pool result.1
      × ((p : ℕ) → p ≢ 0 → result.1.disk.file p ≡ view pool p)
flush_all_lem k synced pool r v =
    let w =
      flush_loop_lem k (length pool.frames) 0 pool r v (omega arith)
        (λ f b. absurd (omega (arith, b))) in
    let pool₁ = (flush_loop k pool 0 (length pool.frames)).1 in
    rw (flush_all_of k synced pool w.ok) (
      refl,
      w.valid,
      w.same_view,
      λ p h. elim (cached-cases w.valid p h) [
        | inl (f, b, e) ↦
            let n : page_of pool₁.frames f ≢ 0 = λ z. h (sym e ∙ z) in
            ap pool₁.disk.file (sym e)
            ∙ sym (w.valid.clean f b n (w.clean f b n))
            ∙ sym (view_cached w.valid p f h e)
            ∙ w.same_view p h
        | inr missing ↦ sym (view_missing w.valid p h missing).1 ∙ w.same_view p h
      ],
    )

-- With a reliable kernel, buffer_pool_shutdown writes what buffer_pool_flush_all writes.
shutdown_loop_lem :
    (k : Kernel) (n i : ℕ) (pool : BufferPool)
    → IsReliable k
    → IsPool pool
    → shutdown_loop k pool i n ≡ (flush_loop k pool i n).1
unfolding shutdown_loop flush_loop
shutdown_loop_lem k zero i pool r v = refl
shutdown_loop_lem k (suc n) i pool r v =
    let u = flush_frame_lem k pool i r v in
    let after = shutdown_loop_lem k n (i + 1) (flush_frame k pool i).1 r u.valid in
    let skipped = shutdown_loop_lem k n (i + 1) pool r v in ground (arith, u.ok, after, skipped)

flush_all_disk :
    (k : Kernel) (synced : DbError) (pool : BufferPool)
    → (buffer_pool_flush_all k synced pool).1 ≡ (flush_loop k pool 0 (length pool.frames)).1
unfolding buffer_pool_flush_all
flush_all_disk k synced pool = ground arith

pub shutdown_lem :
    (k : Kernel) (synced : DbError) (pool : BufferPool)
    → IsReliable k
    → IsPool pool
    → buffer_pool_shutdown k pool ≡ (buffer_pool_flush_all k synced pool).1.disk
unfolding buffer_pool_shutdown
shutdown_lem k synced pool r v =
    ap (λ x. x.disk)
      (shutdown_loop_lem k (length pool.frames) 0 pool r v ∙ sym (flush_all_disk k synced pool))
