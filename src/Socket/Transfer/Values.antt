-- ===== src/Socket/Transfer/Values.antt =====
-- A send of a message of several parts, from the values written to it to the buffers that nanomsg is
-- given.
use nanomsgpp.Prelude.{
  ◌≡◌, refl, Bool, Option, List, [], ◌∷◌, arith, map, length, take, take-length,
}
use nanomsgpp.Prelude.Int.{ℤ}
use nanomsgpp.Prelude.Bytes.{Bytes}
use nanomsgpp.Memory.{Ptr, Heap, IsHeap, Cell, bytes_of, cells_at}
use nanomsgpp.Platform.{Platform, Iovec}
use nanomsgpp.World.{World, Ref, ok, sendmsg_call}
use nanomsgpp.World.Ends.{Ends, Ends-mono}
use nanomsgpp.Message.{Part, Message, empty_message, fill_iov}
use nanomsgpp.Message.Header.{MallocWorks}
use nanomsgpp.Message.Writing.{contents, length-bytes_of}
use nanomsgpp.Message.Lifetime.{Value, bytes, write_all, write_all-Built}
use nanomsgpp.Socket.Transfer.{flags_of, sendmsg}
use nanomsgpp.Socket.Transfer.Sending.{GathersOnly, Sent, sendmsg-Sent}

-- The cells that each buffer of a call holds.
abbrev buffers : Heap → List Iovec → List (List Cell)
buffers h iov = map (λ v. take v.iov_len (cells_at h v.iov_base)) iov

buffers-fill_iov :
    (g h : Heap) (bss : List Bytes) (ps : List Part)
    → ((a : Ptr) → g.block a ≡ h.block a)
    → contents h ps ≡ map bytes_of bss
    → map (λ p. p.d_size) ps ≡ map (λ bs. length bs) bss
    → buffers g (fill_iov ps) ≡ map bytes_of bss
unfolding fill_iov
buffers-fill_iov g h [] [] same holds sized = refl
buffers-fill_iov g h [] (p ∷ ps) same holds sized = absurd (ground (arith, holds))
buffers-fill_iov g h (bs ∷ bss) [] same holds sized = absurd (ground (arith, holds))
buffers-fill_iov g h (bs ∷ bss) (p ∷ ps) same holds sized =
    let rest = buffers-fill_iov g h bss ps same (ground (arith, holds)) (ground (arith, sized)) in
    let held : cells_at g p.d_msg ≡ bytes_of bs = ground (arith, same p.d_msg, holds) in
    let long : p.d_size ≡ length (bytes_of bs) = ground (arith, sized, length-bytes_of bs) in
    rw (held, long, take-length (bytes_of bs), rest) refl

module _ {S : Type 0} (nn : Platform S) where
  -- One call of `nn_sendmsg`, whose buffers hold the values, one each and in order; no block is
  -- freed.
  abbrev pub HandsValues :
      Ref → Bool → List Value → World S → World S → Option (ℤ × Message) → World S → Type 0
  HandsValues s dont_wait vs w u r w' =
      (iov : List Iovec) × (w'.calls
        ≡ sendmsg_call (w.sockets s).d_socket iov (flags_of nn dont_wait) ∷ w.calls)
      × (buffers w'.heap iov ≡ map bytes_of (map bytes vs))
      × ((a : Ptr) → w'.heap.block a ≡ u.heap.block a)

  -- In a well-formed heap, where `malloc` works and `nn_sendmsg` leaves the heap alone, a message to
  -- which any strings and values of other types are written is sent, or refused with an exception,
  -- by one call of `nn_sendmsg` on the socket. Its buffers hold the bytes of the values, one buffer
  -- for each value in the order of the writes, and every block of the message stays allocated.
  pub write_all-sendmsg :
      (s : Ref) (dont_wait : Bool) (vs : List Value) (w : World S)
      → MallocWorks nn
      → IsHeap w.heap
      → ((iov : List Iovec) → GathersOnly nn (w.sockets s).d_socket iov (flags_of nn dont_wait))
      → (m : Message) × (u : World S) × (write_all nn empty_message vs w ≡ ok m u)
        × Ends (HandsValues s dont_wait vs w u) (sendmsg nn s m dont_wait u)
  write_all-sendmsg s dont_wait vs w works i gathers =
      let (m, u, run, b) = write_all-Built nn works vs w i in
      let gathers1 : GathersOnly nn (u.sockets s).d_socket (fill_iov m.d_parts)
          (flags_of nn dont_wait) =
        rw b.same_sockets (gathers (fill_iov m.d_parts)) in
      (
        m,
        u,
        run,
        Ends-mono (Sent nn s m dont_wait u) (HandsValues s dont_wait vs w u)
            (sendmsg nn s m dont_wait u) (sendmsg-Sent nn s m dont_wait u works b.is_heap gathers1)
            λ r w' sent. (
              fill_iov m.d_parts,
              ground (arith, sent.called, b.same_calls, b.same_sockets),
              buffers-fill_iov w'.heap u.heap (map bytes vs) m.d_parts sent.blocks b.holds_bytes
                  b.sized,
              sent.blocks,
            ),
      )
