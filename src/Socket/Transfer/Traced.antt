-- ===== src/Socket/Transfer/Traced.antt =====
-- `sendmsg` and `recvmsg` make one call each, on the socket's descriptor.
use nanomsgpp.Prelude.{
  ℕ, zero, suc, Bool, true, none, some, Option, List, [], ◌∷◌, ◌==◌, ◌++◌, if◌then◌else◌, replicate,
}
use nanomsgpp.Prelude.Int.{ℤ}
use nanomsgpp.Prelude.Bytes.{Bytes, to_le}
use nanomsgpp.Memory.{Ptr, null, stored, cells_at, read_pointer}
use nanomsgpp.Platform.{Platform, Iovec}
use nanomsgpp.World.{Ref, pure, ◌>>=◌, undefined_behaviour, sendmsg_call, recvmsg_call}
use nanomsgpp.World.Calls.{malloc}
use nanomsgpp.World.Ends.{Always}
use nanomsgpp.World.Policy.{Policy}
use nanomsgpp.World.Traces.{Trace, IsTraced, bind-IsTraced, pure-IsTraced, if-IsTraced}
use nanomsgpp.World.Traces.Calls.{
  traced, call_heap-IsTraced, undefined-IsTraced, throw_internal-IsTraced,
}
use nanomsgpp.Message.{Part, Message, part_copy, part_move, message_of, gen_nn_msghdr}
use nanomsgpp.Message.Traced.{
  part_copy-IsTraced, parts_destroy-IsTraced, gen_nn_msghdr-IsTraced, msghdr_free-IsTraced,
}
use nanomsgpp.Socket.Transfer.{
  flags_of, buffer, buffer_size, hand_over, sendmsg, recvmsg, receive, finish_receive, make_buffers,
  collect, take_chunk, take_buffer, store_all,
}

module _ {S : Type 0} (nn : Platform S) (s : Ref) (fd : ℤ) (P : Policy nn) where
  pub make_buffers-IsTraced : (size n : ℕ) → IsTraced nn s fd P (make_buffers nn size n)
  unfolding make_buffers
  make_buffers-IsTraced size zero = pure-IsTraced nn s fd P []
  make_buffers-IsTraced size (suc n) =
      bind-IsTraced nn s fd P (if size == nn.nn_msg then pure null else malloc nn size) _
        (search traced depth 8)
        λ p.
          bind-IsTraced nn s fd P (make_buffers nn size n) (λ rest. pure (to_le 8 p ++ rest))
            (make_buffers-IsTraced size n) λ rest. pure-IsTraced nn s fd P _

  pub finish_receive-IsTraced :
      (nb : ℤ) (o : Option Bytes) → IsTraced nn s fd P (finish_receive nn nb o)
  unfolding finish_receive
  finish_receive-IsTraced nb none = undefined-IsTraced nn s fd P
  finish_receive-IsTraced nb (some frame) = pure-IsTraced nn s fd P (nb, frame)

  receive-IsTraced :
      (lens : List ℕ) (flags : ℤ) (buf : Bytes)
      → P.Allowed (recvmsg_call fd lens flags)
      → IsTraced nn s fd P (receive nn fd lens flags buf)
  unfolding receive
  receive-IsTraced lens flags buf a =
      bind-IsTraced nn s fd P _ _
        (call_heap-IsTraced nn s fd P _ _ a λ h l. P.recvmsg fd lens flags h l)
        λ r. finish_receive-IsTraced r.0 (store_all 0 r.1 buf)

  take_chunk-IsTraced :
      (ps : List Part) (nb : ℤ) (chunk : Ptr) → IsTraced nn s fd P (take_chunk nn ps nb chunk)
  unfolding take_chunk
  take_chunk-IsTraced ps nb chunk =
      search (traced, part_copy-IsTraced, parts_destroy-IsTraced) depth 8

  take_buffer-IsTraced :
      (ps : List Part) (size : ℕ) (buf : Ptr) → IsTraced nn s fd P (take_buffer nn ps size buf)
  unfolding take_buffer
  take_buffer-IsTraced ps size buf = record {
    at = λ w e.
        elim (read_pointer (cells_at w.heap buf))
          as (λ (o : Option Ptr). Always (Trace nn s fd P w) (elim o [
            | none ↦ undefined_behaviour w
            | some src ↦
                (do p ← part_copy nn (stored src) size true; pure (ps ++ (part_move p).0 ∷ [])) w
          ])) [
            | none ↦ tt
            | some src ↦
                (bind-IsTraced nn s fd P (part_copy nn (stored src) size true)
                    (λ p. pure (ps ++ (part_move p).0 ∷ []))
                    (part_copy-IsTraced nn s fd P (stored src) size true)
                    (λ p. pure-IsTraced nn s fd P _)).at
                  w e
          ];
  }

  pub collect-IsTraced :
      (n : ℕ) (nb : ℤ) (frame : Bytes) (i left : ℕ) (ps : List Part)
      → IsTraced nn s fd P (collect nn n nb frame i left ps)
  unfolding collect
  collect-IsTraced n nb frame i zero ps = pure-IsTraced nn s fd P ps
  collect-IsTraced n nb frame i (suc left) ps =
      bind-IsTraced nn s fd P {A = List Part} (if 1 == n then _ else _) _
        (if-IsTraced nn s fd P _ _ _ (take_chunk-IsTraced ps nb (buffer frame i))
          (take_buffer-IsTraced ps (buffer_size nn n) (buffer frame i)))
        λ ps'. collect-IsTraced n nb frame (suc i) left ps'

  pub recvmsg-IsTraced :
      (n : ℕ) (dont_wait : Bool)
      → ((lens : List ℕ) (flags : ℤ) → P.Allowed (recvmsg_call fd lens flags))
      → IsTraced nn s fd P (recvmsg nn s n dont_wait)
  unfolding recvmsg
  recvmsg-IsTraced n dont_wait a = record {
    at = λ w e. rw e (
        (bind-IsTraced nn s fd P (make_buffers nn (buffer_size nn n) n) _
            (make_buffers-IsTraced _ n)
            λ buf.
              bind-IsTraced nn s fd P
                (receive nn fd (replicate n (buffer_size nn n)) (flags_of nn dont_wait) buf) _
                (receive-IsTraced _ _ buf (a _ _))
                λ r. if-IsTraced nn s fd P _ _ _ (throw_internal-IsTraced nn s fd P Message) (
                  bind-IsTraced nn s fd P (collect nn n r.0 r.1 0 n []) (λ ps. pure (message_of ps))
                    (collect-IsTraced n r.0 r.1 0 n []) λ ps. pure-IsTraced nn s fd P _)).at
          w e);
  }

  hand_over-IsTraced :
      (m : Message) (dont_wait : Bool)
      → ((iov : List Iovec) (flags : ℤ) → P.Allowed (sendmsg_call fd iov flags))
      → IsTraced nn s fd P (hand_over nn s m dont_wait)
  unfolding hand_over
  hand_over-IsTraced m dont_wait a = record {
    at = λ w e. rw e (
        (bind-IsTraced nn s fd P (gen_nn_msghdr nn m) _ (gen_nn_msghdr-IsTraced nn s fd P m) λ hdr.
            bind-IsTraced nn s fd P _ _
              (call_heap-IsTraced nn s fd P _ _ (a hdr.iov (flags_of nn dont_wait))
                λ h l. P.sendmsg fd hdr.iov (flags_of nn dont_wait) h l)
              λ nb. search (traced, msghdr_free-IsTraced) depth 8).at
          w e);
  }

  pub sendmsg-IsTraced :
      (m : Message) (dont_wait : Bool)
      → ((iov : List Iovec) (flags : ℤ) → P.Allowed (sendmsg_call fd iov flags))
      → IsTraced nn s fd P (sendmsg nn s m dont_wait)
  unfolding sendmsg
  sendmsg-IsTraced m dont_wait a =
      bind-IsTraced nn s fd P (hand_over nn s m dont_wait) _ (hand_over-IsTraced m dont_wait a)
        λ r. search traced depth 8
