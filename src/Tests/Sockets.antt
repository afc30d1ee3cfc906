-- ===== src/Tests/Sockets.antt =====
-- The theorems on sockets and the poller, at small inputs.
use nanomsgpp.Prelude.{
  ap, inl, ◌≡◌, ◌≢◌, refl, true, false, some, List, [], ◌∷◌, ◌++◌, if◌then◌else◌, arith,
}
use nanomsgpp.Prelude.Int.{ℤ, pos, minus_one, is_nonneg}
use nanomsgpp.Prelude.Bytes.{Bytes, codes}
use nanomsgpp.Memory.{by_nn, bytes_of, allocate}
use nanomsgpp.Platform.{Platform}
use mathlib.Core.List.{append-nil}
use nanomsgpp.World.{World, ◌>>◌, Ref, close_call, ok, undefined}
use nanomsgpp.World.Ends.{Ends}
use nanomsgpp.SocketType.{receive_timeout}
use nanomsgpp.Message.{Message}
use nanomsgpp.Socket.{close, shutdown, set_option_int, get_option_int}
use nanomsgpp.Socket.Word.{int_bytes}
use nanomsgpp.Socket.Lifetime.{close-closed}
use nanomsgpp.Socket.Registry.{ShutTwice, shutdown-shutdown, get_option_int-set_option_int}
use nanomsgpp.Socket.Transfer.{sendmsg, recvmsg, flags_of}
use nanomsgpp.Socket.Transfer.Sending.{Sent, sendmsg-Sent}
use nanomsgpp.Socket.Transfer.Receiving.{Delivers, Took, recvmsg-Took}
use nanomsgpp.Socket.Transfer.Parts.{recvmsg_parts}
use nanomsgpp.Tests.Toy.{toy, toy_frees, toy_malloc, start, start-IsHeap, used, used-IsHeap, hi}

sendmsg-Sent_example : Ends (Sent toy 0 hi true used) (sendmsg toy 0 hi true used)
sendmsg-Sent_example = sendmsg-Sent toy 0 hi true used toy_malloc used-IsHeap λ h l. refl

-- A message to receive, and the heap once its chunk is there.
abbrev inbox : World (List Bytes)
inbox = start (codes "hi" ∷ [])

inbox-Delivers :
    Delivers toy
      (pos 3)
      (flags_of toy true)
      inbox
      1
      (bytes_of (codes "hi"))
      (allocate by_nn (bytes_of (codes "hi")) inbox.heap)
      []
unfolding allocate
inbox-Delivers = record {
  answer = refl;
  small = omega arith;
  is_heap = record { next_pos = omega arith; null_free = refl; above_free = λ p le. ground arith };
  has_chunk = refl;
}

recvmsg-Took_example :
    (m : Message) × (w' : World (List Bytes)) × (recvmsg toy 0 1 true inbox ≡ ok m w')
    × Took inbox 1 (bytes_of (codes "hi")) (allocate by_nn (bytes_of (codes "hi")) inbox.heap) m w'
recvmsg-Took_example =
    recvmsg-Took toy toy_frees 0 true inbox 1 (bytes_of (codes "hi"))
      (allocate by_nn (bytes_of (codes "hi")) inbox.heap) [] inbox-Delivers refl

recvmsg_parts_example : recvmsg toy 0 2 true inbox ≡ undefined
recvmsg_parts_example =
    recvmsg_parts toy 0 0 true (codes "hi") inbox (λ h. (_, _, refl, refl))
      (start-IsHeap (codes "hi" ∷ [])) (omega arith) (inl (omega arith))

close-closed_example :
    Ends
      (λ _ w'.
        (is_nonneg (w'.sockets 0).d_socket ≡ false)
        × (close toy 0 w' ≡ ok tt w')
        × (w'.calls ≡ (
            if is_nonneg (used.sockets 0).d_socket
            then close_call (used.sockets 0).d_socket ∷ used.calls
            else used.calls))
        × ((r : Ref) → r ≢ 0 → w'.sockets r ≡ used.sockets r))
      (close toy 0 used)
close-closed_example = close-closed toy 0 used

abbrev addr : Bytes
addr = codes "inproc://a"

shutdown-shutdown_example : Ends (ShutTwice toy 0 addr used) (shutdown toy 0 addr used)
shutdown-shutdown_example = shutdown-shutdown toy 0 addr used

-- nanomsg that remembers the option that was set last, and gives it back with some bytes behind it.
abbrev remembering : Bytes → Platform (List Bytes)
remembering more = record toy {
  nn_setsockopt = λ fd level opt val l. (pos 0, val ∷ []);
  nn_getsockopt = λ fd level opt len l. last_option more l;
}
  where
    last_option : Bytes → List Bytes → (ℤ × Bytes) × List Bytes
    last_option more [] = ((minus_one, []), [])
    last_option more (val ∷ l) = ((pos 0, val ++ more), val ∷ l)

get_option_int-set_option_int_example :
    Ends
      (λ v _. v ≡ some (pos 5))
      ((set_option_int (remembering []) 0 (pos 0) receive_timeout (pos 5)
          >> get_option_int (remembering []) 0 (pos 0) receive_timeout)
        used)
unfolding int_bytes
get_option_int-set_option_int_example =
    get_option_int-set_option_int (remembering []) 0 (pos 0) receive_timeout (pos 5) used
      (omega arith, omega arith)
      (record {
        takes = λ val l. refl;
        returns = λ val l. (val ∷ [], ap (λ b. ((pos 0, b), val ∷ [])) (append-nil val));
      })
