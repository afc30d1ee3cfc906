-- ===== src/Client/Peers.antt =====
-- What one client sends, at a client that receives it.
use nanomsgpp.Prelude.{
  ◌≡◌, refl, false, true, List, ◌∷◌, length, none, ◌++◌, ◌⊎◌, inl, inr, Bool-cases, if◌then◌else◌,
  ◌==◌,
}
use nanomsgpp.Prelude.Bytes.{Bytes}
use nanomsgpp.Memory.{Ptr, Heap, IsHeap, bytes_of}
use nanomsgpp.Memory.Strings.{HasNoNul, Splits, find_nul, c_string-none, c_string-some}
use nanomsgpp.Platform.{Platform, Iovec}
use nanomsgpp.World.{World, Ref, ok, undefined, sendmsg_call}
use nanomsgpp.World.Ends.{Leads, Ends-Leads}
use nanomsgpp.Message.Ownership.{FreesChunks}
use nanomsgpp.Message.Header.{MallocWorks}
use nanomsgpp.Socket.Transfer.{flags_of}
use nanomsgpp.Socket.Transfer.Sending.{GathersOnly}
use nanomsgpp.Socket.Transfer.Receiving.{Delivers}
use nanomsgpp.Client.Options.{Options, get_format}
use nanomsgpp.Client.Print.{can_print, print_message_part}
use nanomsgpp.Client.Loops.{send_data, receive_and_print}
use nanomsgpp.Client.Payload.{gathered, Hands, send_data-Hands}
use nanomsgpp.Client.Reading.{receive_and_print_overread, receive_and_print-text}

module _ {S R : Type 0} (nn : Platform S) (peer : Platform R) where
  -- nanomsg carries a message over unchanged: what the buffers of the sender's call hold together
  -- is the chunk that the receiver gets.
  abbrev pub Carries : Ref → Bytes → World S → Ref → World R → Ptr → Heap → R → Type 0
  Carries s payload w t v chunk h l =
      (iov : List Iovec) (u : World S)
      → Leads (send_data nn s payload w) u
      → u.calls ≡ sendmsg_call (w.sockets s).d_socket iov (flags_of nn true) ∷ w.calls
      → Delivers peer (v.sockets t).d_socket (flags_of peer true) v chunk (gathered u.heap iov) h l

  -- Two clients, where `malloc` works, `nn_sendmsg` leaves the heap alone, `nn_freemsg` frees, and
  -- nanomsg carries the message over unchanged. Where the data that one client sends has no NUL, the
  -- other reads past the end of its buffer when it prints what it received, in every format. Where
  -- it has one, and the printing of what stands before it is defined, the receiver prints the data up to the first NUL and nothing behind it, in the
  -- format asked for, and gives nanomsg's chunk back without a change of any other block; it is undefined for a text of
  -- 2 ^ 31 bytes or more, and for a byte from 128 on where the format tests it with `isprint`.
  pub send_data-receive_and_print :
      (s : Ref) (payload : Bytes) (w : World S) (t : Ref) (ops : Options) (v : World R)
      (chunk : Ptr) (h : Heap) (l : R)
      → MallocWorks nn
      → IsHeap w.heap
      → ((iov : List Iovec) → GathersOnly nn (w.sockets s).d_socket iov (flags_of nn true))
      → FreesChunks peer
      → peer.malloc_fails h (length (bytes_of payload)) ≡ false
      → Carries s payload w t v chunk h l
      → ((HasNoNul payload
            ⊎ ((text more : Bytes) × Splits payload text more
                × (can_print (get_format ops) text ≡ false)))
          × (receive_and_print peer t ops v ≡ undefined))
        ⊎ ((text more : Bytes) × (v' : World R) × Splits payload text more
            × (receive_and_print peer t ops v ≡ ok tt v')
            × (v'.out ≡ v.out ++ print_message_part (get_format ops) text)
            × ((a : Ptr) → v'.heap.block a ≡ (if a == chunk then none else h.block a)))
  send_data-receive_and_print s payload w t ops v chunk h l works i gathers frees room carries =
      let (r, u, leads, (iov, called, handed)) =
        Ends-Leads (Hands nn s payload w) (send_data nn s payload w)
          (send_data-Hands nn s payload w works i gathers) in
      let d = rw handed at (carries iov u leads called) in
      elim (find_nul payload) [
        | inl no_nul ↦ inl (
          inl no_nul,
          receive_and_print_overread peer frees t ops v chunk payload h l d room
              (rw (c_string-none payload no_nul) refl),
        )
        | inr (text, more, (e, no_nul)) ↦ elim (Bool-cases (can_print (get_format ops) text)) [
          | inl defined ↦
              let (v', run, out, blocks, next, same) =
                receive_and_print-text peer frees t ops v chunk text more h l (rw e at d)
                  (rw e at room) no_nul defined in
              inr (text, more, v', (e, no_nul), run, out, blocks)
          | inr bad ↦ inl (
            inr (text, more, (e, no_nul), bad),
            receive_and_print_overread peer frees t ops v chunk payload h l d room
                (rw e (rw (c_string-some text more no_nul) (rw bad refl))),
          )
        ]
      ]
