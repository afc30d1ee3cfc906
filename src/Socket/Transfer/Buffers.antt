-- ===== src/Socket/Transfer/Buffers.antt =====
-- The buffers of a receive of several parts: nothing is stored in them yet.
use nanomsgpp.Prelude.{
  ℕ, zero, suc, ◌+◌, ◌*◌, ◌^◌, ◌<◌, ◌≤◌, ◌≡◌, inl, inr, Bool-cases, refl, none, [], ◌∷◌, ◌++◌, ◌==◌,
  arith, length, drop, if◌then◌else◌,
}
use nanomsgpp.Prelude.Bytes.{Bytes, to_le, of_le-to_le}
use nanomsgpp.Memory.{
  Ptr, null, Heap, IsHeap, by_malloc, unset_cells, allocate, read_source, read_pointer, cells_at,
  set_bytes,
}
use nanomsgpp.Memory.Laws.{allocate-IsHeap, next-allocate, block-allocate}
use nanomsgpp.Platform.{Platform}
use nanomsgpp.World.{World, ok, pure}
use nanomsgpp.World.Calls.{malloc}
use nanomsgpp.Socket.Transfer.{make_buffers, buffer}
use nanomsgpp.Socket.Transfer.Overflow.{one_more}

-- No pointer can be read at the address, and none is allocated there later.
pub record Unset (h : Heap) (p : Ptr) : Type 0 where
  pub unread : read_pointer (cells_at h p) ≡ none
  pub old : p < h.next

-- The next pointer of an array.
buffer-suc : (i p : ℕ) (rest : Bytes) → buffer (to_le 8 p ++ rest) (suc i) ≡ buffer rest i
unfolding buffer to_le
buffer-suc i p rest =
    let e : 8 * suc i ≡ suc (suc (suc (suc (suc (suc (suc (suc (8 * i)))))))) = omega arith in
    rw e refl

buffer-first : (p : Ptr) (rest : Bytes) → p < 256 ^ 8 → buffer (to_le 8 p ++ rest) 0 ≡ p
unfolding buffer to_le
buffer-first p rest small = of_le-to_le 8 p small

-- A store at the start of the array leaves what is behind it.
pub drop-stored :
    (k : ℕ) (body frame : Bytes)
    → length body ≤ k
    → length body ≤ length frame
    → drop k (body ++ drop (length body) frame) ≡ drop k frame
drop-stored k [] frame le fits = refl
drop-stored zero (b ∷ body) frame le fits = absurd (omega (arith, le))
drop-stored (suc k) (b ∷ body) [] le fits = absurd (omega (arith, fits))
drop-stored (suc k) (b ∷ body) (c ∷ frame) le fits =
    drop-stored k body frame (omega (arith, le)) (omega (arith, fits))

read-unset : (n : ℕ) → read_pointer (unset_cells n) ≡ none
unfolding read_pointer read_source set_bytes
read-unset zero = refl
read-unset (suc n) = ground arith

module _ {S : Type 0} (nn : Platform S) where
  -- One buffer.
  make_one :
      (buf_size : ℕ) (w : World S)
      → IsHeap w.heap
      → w.heap.next < 256 ^ 8
      → (p : Ptr) × (h : Heap) × ((if buf_size == nn.nn_msg then pure null else malloc nn buf_size)
            w
          ≡ ok p (record w { heap = h }))
        × IsHeap h
        × (h.next ≤ suc w.heap.next)
        × Unset h p
        × (p < 256 ^ 8)
  unfolding malloc
  make_one buf_size w i room =
      let no_pointer : Unset w.heap null = record {
        unread = unfold read_pointer read_source in ground (arith, i.null_free);
        old = omega (arith, i.next_pos);
      } in
      elim (Bool-cases (buf_size == nn.nn_msg)) [
        | inl whole ↦ (null, w.heap, rw whole refl, i, omega arith, no_pointer, omega arith)
        | inr apart ↦ elim (Bool-cases (nn.malloc_fails w.heap buf_size)) [
          | inl fails ↦
              (null, w.heap, rw (apart, fails) refl, i, omega arith, no_pointer, omega arith)
          | inr works ↦
              let cells = unset_cells buf_size in
              let h = allocate by_malloc cells w.heap in
              let next = next-allocate by_malloc cells w.heap in
              let held : cells_at h w.heap.next ≡ cells =
                ground (arith, block-allocate by_malloc cells w.heap w.heap.next) in
              (
                w.heap.next,
                h,
                rw (apart, works) refl,
                allocate-IsHeap by_malloc cells i,
                omega (arith, next),
                record { unread = rw held (read-unset buf_size); old = omega (arith, next) },
                room,
              )
        ]
      ]

  -- The last of the buffers is unset.
  pub make_buffers-Unset :
      (buf_size n : ℕ) (w : World S)
      → IsHeap w.heap
      → w.heap.next + suc n < 256 ^ 8
      → (frame : Bytes) × (h : Heap) × (make_buffers nn buf_size (suc n) w
          ≡ ok frame (record w { heap = h }))
        × (length frame ≡ 8 * suc n)
        × Unset h (buffer frame n)
  unfolding make_buffers
  make_buffers-Unset buf_size zero w i room =
      let (p, h, run, i', next, unset, small) = make_one buf_size w i (omega (arith, room)) in
      (to_le 8 p ++ [], h, rw run refl, one_more p [] 0 refl, rw (buffer-first p [] small) unset)
  make_buffers-Unset buf_size (suc n) w i room =
      let (p, h, run, i', next, unset, small) = make_one buf_size w i (omega (arith, room)) in
      let (rest, g, run', size, unset') =
        make_buffers-Unset buf_size n (record w { heap = h }) i' (omega (arith, room, next)) in
      (
        to_le 8 p ++ rest,
        g,
        rw run (rw run' refl),
        one_more p rest (suc n) size,
        rw (buffer-suc n p rest) unset',
      )
