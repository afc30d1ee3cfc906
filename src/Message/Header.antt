-- ===== src/Message/Header.antt =====
-- The header that `gen_nn_msghdr` makes and `msghdr_free` frees.
use nanomsgpp.Prelude.{ℕ, suc, ◌*◌, ◌≡◌, ◌≢◌, false, none, List, [], ◌∷◌, arith, length, ap}
use nanomsgpp.Memory.{Ptr, null, Heap, IsHeap, by_malloc, unset_cells, allocate, set_block}
use nanomsgpp.Platform.{Platform}
use nanomsgpp.World.{World, ok}
use nanomsgpp.World.Calls.{malloc, free}
use nanomsgpp.Message.{
  Part, Message, MsgHdr, size, fill_iov, gen_nn_msghdr, use_msghdr, msghdr_free,
}

-- `malloc` never runs out of memory.
abbrev pub MallocWorks : {S : Type 0} → Platform S → Type 0
MallocWorks nn = (h : Heap) (n : ℕ) → nn.malloc_fails h n ≡ false

use_msghdr-ok :
    {S : Type 0} (h i : Ptr) (ps : List Part) (w : World S)
    → h ≢ null
    → i ≢ null
    → use_msghdr h i ps w
      ≡ ok (record { hdr = h; msg_iov = i; iov = fill_iov ps; msg_iovlen = length ps }) w
unfolding use_msghdr
use_msghdr-ok h i [] w hp ip = ground arith
use_msghdr-ok h i (p ∷ ps) w hp ip = ground arith

malloc-ok :
    {S : Type 0} (nn : Platform S) (n : ℕ) (w : World S)
    → nn.malloc_fails w.heap n ≡ false
    → malloc nn n w ≡ ok w.heap.next (record w { heap = allocate by_malloc (unset_cells n) w.heap })
unfolding malloc
malloc-ok nn n w works = rw works

-- The header of a message, in the block that `malloc` gives next.
abbrev header_of : Message → Heap → MsgHdr
header_of m h = record {
  hdr = h.next;
  msg_iov = suc h.next;
  iov = fill_iov m.d_parts;
  msg_iovlen = length m.d_parts;
}

-- The heap while the header and its array are in use.
pub with_header : {S : Type 0} → Platform S → Message → Heap → Heap
with_header nn m h =
    allocate by_malloc (unset_cells (nn.sizeof_iovec * size m))
      (allocate by_malloc (unset_cells nn.sizeof_msghdr) h)

module _ {S : Type 0} (nn : Platform S) where
  -- In a well-formed heap, where `malloc` works, `gen_nn_msghdr` returns a header that lists the
  -- pointer and the size of each part in order, with their number, and allocates just two blocks
  -- for it.
  pub gen_nn_msghdr-header_of :
      (m : Message) (w : World S)
      → MallocWorks nn
      → IsHeap w.heap
      → gen_nn_msghdr nn m w ≡ ok (header_of m w.heap) (record w { heap = with_header nn m w.heap })
  unfolding gen_nn_msghdr with_header
  gen_nn_msghdr-header_of m w works i = rw (malloc-ok nn nn.sizeof_msghdr w (works _ _)) (
      rw
        (malloc-ok nn (nn.sizeof_iovec * size m)
          (record w { heap = allocate by_malloc (unset_cells nn.sizeof_msghdr) w.heap })
          (works _ _))
        (unfold allocate in
          use_msghdr-ok w.heap.next (suc w.heap.next) m.d_parts _ (omega (arith, i.next_pos))
            (omega arith)))

  -- The blocks after the header is freed are those from before it was made.
  pub msghdr_free-with_header :
      (m : Message) (h : Heap) (w : World S)
      → IsHeap h
      → w.heap ≡ with_header nn m h
      → (g : Heap) × (msghdr_free (header_of m h) w ≡ ok tt (record w { heap = g }))
        × (g.next ≡ suc (suc h.next))
        × ((a : Ptr) → g.block a ≡ h.block a)
  unfolding msghdr_free with_header allocate set_block free
  msghdr_free-with_header m h w i same = (
    set_block h.next none (set_block (suc h.next) none w.heap),
    ground (arith, i.next_pos),
    ap (λ (k : Heap). k.next) same,
    λ a. ground (arith, i.above_free h.next, i.above_free (suc h.next)),
  )
