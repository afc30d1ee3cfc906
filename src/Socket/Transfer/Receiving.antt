-- ===== src/Socket/Transfer/Receiving.antt =====
-- What `recvmsg` makes of what nanomsg stores.
use nanomsgpp.Prelude.{
  ℕ, ◌^◌, ◌<◌, ◌≡◌, ◌≢◌, refl, Bool, true, false, none, some, All, List, [], ◌∷◌, ◌++◌, arith,
  length, take-length, map, suc, ap, ◌∙◌,
}
use nanomsgpp.Prelude.Int.{ℤ, pos}
use nanomsgpp.Prelude.Bytes.{to_le, of_le-to_le}
use nanomsgpp.Memory.{
  Ptr, null, Heap, IsHeap, Block, by_malloc, by_nn, Cell, unset_cells, allocate, set_block, stored,
  read_source,
}
use nanomsgpp.Platform.{Platform}
use nanomsgpp.World.{World, Ref, ok, recvmsg_call}
use nanomsgpp.World.Calls.{call_heap, use_heap}
use nanomsgpp.Message.{Message, message_of, part_move}
use nanomsgpp.Message.Ownership.{FreesChunks, Owns, nil, cons}
use nanomsgpp.Message.Writing.{
  copied, block-copied, next-copied, contents, new_part, part_copy-copied,
}
use nanomsgpp.Socket.Transfer.{
  recvmsg, flags_of, receive, take_chunk, store_all, store_at, buffer, make_buffers, collect,
  buffer_size,
}

-- `nn_recvmsg(3)` with NN_MSG: the pointer to a new chunk is stored, and the chunk's length
-- returned.
pub record Delivers {S : Type 0} (nn : Platform S) (fd flags : ℤ) (w : World S) (chunk : Ptr)
    (cells : List Cell) (h : Heap) (l : S) : Type 0 where
  pub answer :
      nn.nn_recvmsg fd (nn.nn_msg ∷ []) flags w.heap w.lib
      ≡ ((pos (length cells), to_le 8 chunk ∷ []), h, l)
  pub small : chunk < 256 ^ 8
  pub is_heap : IsHeap h
  pub has_chunk : h.block chunk ≡ some (record { owner = by_nn; cells = cells })

stored_pointer : (c : Ptr) → store_all 0 (to_le 8 c ∷ []) (to_le 8 null ++ []) ≡ some (to_le 8 c)
unfolding store_all store_at to_le
stored_pointer c = ground arith

buffer-to_le : (c : Ptr) → c < 256 ^ 8 → buffer (to_le 8 c) 0 ≡ c
unfolding buffer to_le
buffer-to_le c h = of_le-to_le 8 c h

read-chunk :
    (n : ℕ) (h : Heap) (c : Ptr) (o : Block)
    → IsHeap h
    → h.block c ≡ some o
    → n ≡ length o.cells
    → read_source (allocate by_malloc (unset_cells n) h) (stored c) n ≡ some o.cells
unfolding read_source allocate
read-chunk n h c o i e k = ground (arith, i.above_free c, take-length o.cells)

-- What is left of a delivery: a message of one part, which holds a copy of the chunk's cells in a
-- block of its own; the chunk is freed, and every other block is as nanomsg left it.
pub record Took {S : Type 0} (w : World S) (chunk : Ptr) (cells : List Cell) (h : Heap)
    (m : Message) (w' : World S) : Type 0 where
  pub holds_cells : contents w'.heap m.d_parts ≡ cells ∷ []
  pub owns : Owns w'.heap m.d_parts
  pub sized : map (λ p. p.d_size) m.d_parts ≡ length cells ∷ []
  pub malloced : All (λ p. p.d_malloc ≡ true) m.d_parts
  pub pointers : map (λ p. p.d_msg) m.d_parts ≡ h.next ∷ []
  pub same_out : w'.out ≡ w.out
  pub same_sockets : w'.sockets ≡ w.sockets
  pub next : w'.heap.next ≡ suc h.next
  pub chunk_freed : w'.heap.block chunk ≡ none
  pub blocks : (a : Ptr) → a ≢ chunk → a ≢ h.next → w'.heap.block a ≡ h.block a

module _ {S : Type 0} (nn : Platform S) (frees : FreesChunks nn) where
  heap_after : Ptr → List Cell → Heap → Heap
  heap_after c cells h = set_block c none (copied (length cells) cells h)

  take_chunk-ok :
      (c : Ptr) (cells : List Cell) (w : World S)
      → nn.malloc_fails w.heap (length cells) ≡ false
      → IsHeap w.heap
      → w.heap.block c ≡ some (record { owner = by_nn; cells = cells })
      → (g : Heap) × (take_chunk nn [] (pos (length cells)) c w
          ≡ ok
              (new_part w.heap.next (length cells) ∷ [])
              (record w { heap = heap_after c cells w.heap; lib = (nn.nn_freemsg c g w.lib).2 }))
  unfolding take_chunk use_heap part_move heap_after
  take_chunk-ok c cells w works i e =
      let n = length cells in
      let o : Block = record { owner = by_nn; cells = cells } in
      let g = copied n cells w.heap in
      (
        g,
        rw (part_copy-copied nn (stored c) n cells w works i (read-chunk n w.heap c o i e refl))
            (ground (arith, block-copied n cells w.heap c, i.above_free c, frees c g w.lib o)),
      )

  heap_after-Took :
      (w : World S) (c : Ptr) (cells : List Cell) (h : Heap) (w' : World S)
      → IsHeap h
      → h.block c ≡ some (record { owner = by_nn; cells = cells })
      → w'.heap ≡ heap_after c cells h
      → w'.out ≡ w.out
      → w'.sockets ≡ w.sockets
      → Took w c cells h (message_of (new_part h.next (length cells) ∷ [])) w'
  unfolding heap_after set_block message_of
  heap_after-Took w c cells h w' i e same out socks =
      let n = length cells in
      let ne : c ≢ h.next = λ k. ground (arith, i.above_free c) in
      record {
        holds_cells = ground (arith, block-copied n cells h h.next);
        owns =
            cons (record { owner = by_malloc; cells = cells }) (omega (arith, i.next_pos))
              (ground (arith, block-copied n cells h h.next)) refl refl nil;
        sized = refl;
        malloced = (refl, tt);
        pointers = refl;
        same_out = out;
        same_sockets = socks;
        next = ap (λ (g : Heap). g.next) same ∙ next-copied (length cells) cells h;
        chunk_freed = ground arith;
        blocks = λ a nc nn. ground (arith, block-copied n cells h a);
      }

  pub make_buffers-one : (w : World S) → make_buffers nn nn.nn_msg 1 w ≡ ok (to_le 8 null ++ []) w
  unfolding make_buffers
  make_buffers-one w = ground arith

  receive-one :
      (fd flags : ℤ) (w : World S) (chunk : Ptr) (cells : List Cell) (h : Heap) (l : S)
      → Delivers nn fd flags w chunk cells h l
      → receive nn fd (nn.nn_msg ∷ []) flags (to_le 8 null ++ []) w
        ≡ ok
            (pos (length cells), to_le 8 chunk)
            (record w {
              heap = h;
              lib = l;
              calls = recvmsg_call fd (nn.nn_msg ∷ []) flags ∷ w.calls;
            })
  unfolding receive call_heap
  receive-one fd flags w chunk cells h l d = rw d.answer (rw (stored_pointer chunk))

  -- The one call and the step of nanomsg's state, beside what is left.
  pub recvmsg-run :
      (s : Ref) (dont_wait : Bool) (w : World S) (chunk : Ptr) (cells : List Cell) (h : Heap)
      (l : S)
      → Delivers nn (w.sockets s).d_socket (flags_of nn dont_wait) w chunk cells h l
      → nn.malloc_fails h (length cells) ≡ false
      → (m : Message) × (w' : World S) × (g : Heap) × (recvmsg nn s 1 dont_wait w ≡ ok m w')
        × Took w chunk cells h m w'
        × (w'.lib ≡ (nn.nn_freemsg chunk g l).2)
        × (w'.calls
            ≡ recvmsg_call (w.sockets s).d_socket (nn.nn_msg ∷ []) (flags_of nn dont_wait)
              ∷ w.calls)
  unfolding recvmsg collect buffer_size message_of
  recvmsg-run s dont_wait w chunk cells h l d works =
      let fd = (w.sockets s).d_socket in
      let flags = flags_of nn dont_wait in
      let w1 = record w {
        heap = h;
        lib = l;
        calls = recvmsg_call fd (nn.nn_msg ∷ []) flags ∷ w.calls;
      } in
      let (g, run) = take_chunk-ok chunk cells w1 works d.is_heap d.has_chunk in
      let w2 = record w1 { heap = heap_after chunk cells h; lib = (nn.nn_freemsg chunk g l).2 } in
      (
        message_of (new_part h.next (length cells) ∷ []),
        w2,
        g,
        rw (make_buffers-one w) (
            rw (receive-one fd flags w chunk cells h l d)
              (rw (buffer-to_le chunk d.small) (rw run refl))),
        heap_after-Took w chunk cells h w2 d.is_heap d.has_chunk refl refl refl,
        refl,
        refl,
      )

  -- Where nanomsg delivers a chunk, `malloc` has room for a copy and `nn_freemsg` frees,
  -- `recvmsg(1)` returns, and frees the chunk after it has copied it: the message has one part with
  -- the chunk's bytes and size, in a block that it owns.
  pub recvmsg-Took :
      (s : Ref) (dont_wait : Bool) (w : World S) (chunk : Ptr) (cells : List Cell) (h : Heap)
      (l : S)
      → Delivers nn (w.sockets s).d_socket (flags_of nn dont_wait) w chunk cells h l
      → nn.malloc_fails h (length cells) ≡ false
      → (m : Message) × (w' : World S) × (recvmsg nn s 1 dont_wait w ≡ ok m w')
        × Took w chunk cells h m w'
  recvmsg-Took s dont_wait w chunk cells h l d works =
      let (m, w', g, run, took, lib, calls) = recvmsg-run s dont_wait w chunk cells h l d works in
      (m, w', run, took)
