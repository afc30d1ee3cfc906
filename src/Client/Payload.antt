-- ===== src/Client/Payload.antt =====
-- What the client hands to nanomsg when it sends a string.
use nanomsgpp.Prelude.{
  ℕ, ◌≡◌, refl, true, Option, none, some, List, [], ◌∷◌, ◌++◌, ◌∙◌, arith, map, length, take,
  take-length,
}
use mathlib.Core.List.{append-nil}
use nanomsgpp.Prelude.Bytes.{Bytes}
use nanomsgpp.Memory.{Heap, IsHeap, Cell, bytes_of, cells_at}
use nanomsgpp.Platform.{Platform, Iovec}
use nanomsgpp.World.{World, Ref, sendmsg_call}
use nanomsgpp.World.Ends.{Ends, and_then-Ends}
use nanomsgpp.Message.{Part, Message, fill_iov, empty_message, message_destroy, parts_destroy}
use nanomsgpp.Message.Ownership.{nil}
use nanomsgpp.Message.Header.{MallocWorks}
use nanomsgpp.Message.Writing.{contents, Wrote, write_string-Wrote, length-bytes_of}
use nanomsgpp.Socket.Transfer.{flags_of, sendmsg}
use nanomsgpp.Socket.Transfer.Sending.{GathersOnly, Sent, sendmsg-Sent}
use nanomsgpp.Client.Loops.{send_data}

-- The cells that the buffers of a call hold, one after the other.
abbrev pub gathered : Heap → List Iovec → List Cell
gathered h [] = []
gathered h (v ∷ vs) = take v.iov_len (cells_at h v.iov_base) ++ gathered h vs

gathered-one :
    (h : Heap) (ps : List Part) (cells : List Cell)
    → contents h ps ≡ cells ∷ []
    → map (λ p. p.d_size) ps ≡ length cells ∷ []
    → gathered h (fill_iov ps) ≡ cells
unfolding fill_iov
gathered-one h [] cells e sized = ground arith
gathered-one h (p ∷ []) cells e sized =
    append-nil (take p.d_size (cells_at h p.d_msg)) ∙ ground (arith, take-length cells)
gathered-one h (p ∷ q ∷ ps) cells e sized = ground arith

contents-same :
    (g h : Heap) (ps : List Part)
    → ((a : ℕ) → g.block a ≡ h.block a)
    → contents g ps ≡ contents h ps
contents-same g h [] same = refl
contents-same g h (p ∷ ps) same = ground (arith, same p.d_msg, contents-same g h ps same)

module _ {S : Type 0} (nn : Platform S) where
  -- One call of `nn_sendmsg`, whose buffers hold the bytes.
  abbrev pub Hands : Ref → Bytes → World S → Option (Unit {0}) → World S → Type 0
  Hands s payload w r w' =
      (iov : List Iovec) × (w'.calls
        ≡ sendmsg_call (w.sockets s).d_socket iov (flags_of nn true) ∷ w.calls)
      × (gathered w'.heap iov ≡ bytes_of payload)

  -- What the buffers of the message hold after the call.
  pub gathered-fill_iov :
      (payload : Bytes) (w : World S) (m : Message) (w1 w' : World S)
      → Wrote empty_message payload w m w1
      → ((a : ℕ) → w'.heap.block a ≡ w1.heap.block a)
      → gathered w'.heap (fill_iov m.d_parts) ≡ bytes_of payload
  unfolding empty_message
  gathered-fill_iov payload w m w1 w' wrote blocks =
      gathered-one w'.heap m.d_parts (bytes_of payload)
        (contents-same w'.heap w1.heap m.d_parts blocks ∙ wrote.holds_bytes)
        (ground (arith, wrote.sized, length-bytes_of payload))

  handed :
      (s : Ref) (payload : Bytes) (w : World S) (m : Message) (w1 w' : World S)
      (r : Option (Unit {0}))
      → Wrote empty_message payload w m w1
      → w'.calls
        ≡ sendmsg_call (w1.sockets s).d_socket (fill_iov m.d_parts) (flags_of nn true) ∷ w1.calls
      → ((a : ℕ) → w'.heap.block a ≡ w1.heap.block a)
      → Hands s payload w r w'
  unfolding empty_message
  handed s payload w m w1 w' r wrote called blocks = (
    fill_iov m.d_parts,
    ground (arith, called, wrote.same_calls, wrote.same_sockets),
    gathered-fill_iov payload w m w1 w' wrote blocks,
  )

  -- In a well-formed heap, where `malloc` works and `nn_sendmsg` leaves the heap alone, `send_data`
  -- returns or throws after one call of `nn_sendmsg` on the socket, whose buffers hold together the
  -- bytes of the data and nothing else: no NUL is sent behind them.
  pub send_data-Hands :
      (s : Ref) (payload : Bytes) (w : World S)
      → MallocWorks nn
      → IsHeap w.heap
      → ((iov : List Iovec) → GathersOnly nn (w.sockets s).d_socket iov (flags_of nn true))
      → Ends (Hands s payload w) (send_data nn s payload w)
  unfolding send_data empty_message message_destroy parts_destroy
  send_data-Hands s payload w works i gathers =
      let (m, w1, run, wrote) =
        write_string-Wrote nn empty_message (nn.string_address payload) payload w (works _ _) i
          nil in
      let gathers1 : GathersOnly nn (w1.sockets s).d_socket (fill_iov m.d_parts)
          (flags_of nn true) =
        rw wrote.same_sockets (gathers (fill_iov m.d_parts)) in
      rw run (
        and_then-Ends (Sent nn s m true w1) (Hands s payload w) (sendmsg nn s m true w1)
          (λ r. message_destroy nn r.1) (sendmsg-Sent nn s m true w1 works wrote.is_heap gathers1)
          (λ w' sent. handed s payload w m w1 w' none wrote sent.called sent.blocks)
          (λ r w' sent.
            let left : r.1 ≡ empty_message = ground (arith, sent.result) in
            rw left (handed s payload w m w1 w' (some tt) wrote sent.called sent.blocks)))
