-- ===== src/Socket/Transfer/Survival.antt =====
-- Sending and receiving a message never ends the program: every part that the code makes comes from
-- malloc, and to free such a part cannot fail.
use nanomsgpp.Prelude.{
  ℕ, zero, suc, ◌≡◌, refl, Bool, true, none, some, Option, List, [], ◌∷◌, ◌==◌, if◌then◌else◌, All,
}
use nanomsgpp.Prelude.Int.{ℤ, eq_ℤ, minus_one}
use nanomsgpp.Prelude.Bytes.{Bytes}
use nanomsgpp.Memory.{Ptr, null, Source, stored}
use nanomsgpp.Platform.{Platform}
use nanomsgpp.World.{Ref, pure}
use nanomsgpp.World.Calls.{malloc, check_result}
use nanomsgpp.World.Survival.{
  Any, Survives, surviving, bind-Survives, then-Survives, pure-Survives, value-Survives,
  if-Survives, undefined-Survives, on_throw-Survives, throw_internal-Survives, call_heap-Survives,
  malloc-Survives, memcpy-Survives, use_heap-Survives, free-Survives, check_result-Survives,
}
use nanomsgpp.Message.{
  Part, Message, empty_message, part_copy, part_move, part_release, part_destroy, parts_destroy,
  message_destroy, message_of, add_part, write_string, release, gen_nn_msghdr, use_msghdr,
  msghdr_free,
}
use nanomsgpp.Socket.Transfer.{
  buffer, hand_over, sendmsg, recvmsg, receive, finish_receive, make_buffers, collect, take_chunk,
  store_all,
}

abbrev pub IsMalloced : Part → Type 0
IsMalloced p = p.d_malloc ≡ true

-- The message's parts are all of malloc.
abbrev pub OfMalloc : Message → Type 0
OfMalloc m = All IsMalloced m.d_parts

abbrev pub IsReleased : ℤ × Message → Type 0
IsReleased r = OfMalloc r.1

module _ {S : Type 0} (nn : Platform S) where
  part_copy-Survives : (src : Source) (n : ℕ) → Survives IsMalloced (part_copy nn src n true)
  unfolding part_copy
  part_copy-Survives src n = then-Survives IsMalloced (malloc nn n) _ (malloc-Survives nn n) λ p.
      then-Survives IsMalloced _ _ (memcpy-Survives p src n) λ _. pure-Survives IsMalloced _ refl

  part_destroy-Survives : (p : Part) → IsMalloced p → Survives Any (part_destroy nn p)
  unfolding part_destroy
  part_destroy-Survives p m =
      if-Survives Any (p.d_msg == null) _ _ (value-Survives tt) (rw m (free-Survives p.d_msg))

  parts_destroy-Survives : (ps : List Part) → All IsMalloced ps → Survives Any (parts_destroy nn ps)
  unfolding parts_destroy
  parts_destroy-Survives [] all = value-Survives tt
  parts_destroy-Survives (p ∷ ps) all =
      then-Survives Any (part_destroy nn p) _ (part_destroy-Survives p all.0)
        λ _. parts_destroy-Survives ps all.1

  pub message_destroy-Survives :
      (m : Message) → All IsMalloced m.d_parts → Survives Any (message_destroy nn m)
  unfolding message_destroy
  message_destroy-Survives m all = parts_destroy-Survives m.d_parts all

  make_buffers-Survives : (size n : ℕ) → Survives Any (make_buffers nn size n)
  unfolding make_buffers
  make_buffers-Survives size zero = value-Survives []
  make_buffers-Survives size (suc n) =
      then-Survives Any (if size == nn.nn_msg then pure null else malloc nn size) _
        (if-Survives Any (size == nn.nn_msg) _ _ (value-Survives null) (malloc-Survives nn size))
        λ p.
          then-Survives Any (make_buffers nn size n) _ (make_buffers-Survives size n)
            λ rest. value-Survives _

  finish_receive-Survives : (nb : ℤ) (o : Option Bytes) → Survives Any (finish_receive nn nb o)
  unfolding finish_receive
  finish_receive-Survives nb none = undefined-Survives Any
  finish_receive-Survives nb (some frame) = value-Survives (nb, frame)

  take_chunk-Survives :
      (nb : ℤ) (chunk : Ptr) → Survives (All IsMalloced) (take_chunk nn [] nb chunk)
  unfolding take_chunk part_move part_release
  take_chunk-Survives nb chunk =
      bind-Survives IsMalloced (All IsMalloced) (part_copy nn (stored chunk) _ true) _
        (part_copy-Survives (stored chunk) _)
        λ p m.
          on_throw-Survives (All IsMalloced) _ _
            (then-Survives (All IsMalloced) _ _ (use_heap-Survives (nn.nn_freemsg chunk)) λ rc.
              if-Survives (All IsMalloced) (eq_ℤ minus_one rc) _ _
                (throw_internal-Survives nn (All IsMalloced))
                (pure-Survives (All IsMalloced) _ (m, tt)))
            (parts_destroy-Survives _ (m, tt))

  collect-Survives :
      (nb : ℤ) (frame : Bytes) → Survives (All IsMalloced) (collect nn 1 nb frame 0 1 [])
  unfolding collect
  collect-Survives nb frame =
      bind-Survives (All IsMalloced) (All IsMalloced) (take_chunk nn [] nb (buffer frame 0)) _
        (take_chunk-Survives nb (buffer frame 0)) λ ps all. pure-Survives (All IsMalloced) ps all

  pub recvmsg-Survives : (s : Ref) (dont_wait : Bool) → Survives OfMalloc (recvmsg nn s 1 dont_wait)
  unfolding recvmsg receive message_of
  recvmsg-Survives s dont_wait = record {
    at = λ w.
        (then-Survives OfMalloc (make_buffers nn _ 1) _ (make_buffers-Survives _ 1) λ buf.
            then-Survives OfMalloc _ _
              (then-Survives Any _ _ (call_heap-Survives _ _)
                λ r. finish_receive-Survives r.0 (store_all 0 r.1 buf))
              λ r.
                if-Survives OfMalloc (eq_ℤ minus_one r.0) _ _ (throw_internal-Survives nn OfMalloc)
                  (bind-Survives (All IsMalloced) OfMalloc _ _ (collect-Survives r.0 r.1)
                    λ ps all. pure-Survives OfMalloc _ all)).at
          w;
  }

  pub write_string-Survives :
      (p : Ptr) (bs : Bytes) → Survives Any (write_string nn empty_message p bs)
  unfolding write_string add_part part_move part_release
  write_string-Survives p bs =
      bind-Survives IsMalloced Any (part_copy nn _ _ true) _ (part_copy-Survives _ _)
        λ q m. then-Survives Any _ _ (part_destroy-Survives _ m) λ _. value-Survives _

  use_msghdr-Survives : (h i : Ptr) (ps : List Part) → Survives Any (use_msghdr {S = S} h i ps)
  unfolding use_msghdr
  use_msghdr-Survives h i [] = search surviving depth 8
  use_msghdr-Survives h i (p ∷ ps) = search surviving depth 8

  hand_over-Survives :
      (s : Ref) (m : Message) (dont_wait : Bool)
      → Survives (λ r. IsReleased r) (hand_over nn s m dont_wait)
  unfolding hand_over gen_nn_msghdr msghdr_free release
  hand_over-Survives s m dont_wait = record {
    at = λ w.
        (then-Survives IsReleased _ _
            (then-Survives Any _ _ (malloc-Survives nn _) λ h.
              then-Survives Any _ _ (malloc-Survives nn _) λ i. use_msghdr-Survives h i m.d_parts)
            λ hdr. then-Survives IsReleased _ _ (call_heap-Survives _ _) λ nb.
              then-Survives IsReleased _ _
                (then-Survives Any _ _ (free-Survives hdr.msg_iov) λ _. free-Survives hdr.hdr)
                λ _. pure-Survives IsReleased _ tt).at
          w;
  }

  pub sendmsg-Survives :
      (s : Ref) (m : Message) (dont_wait : Bool) → Survives IsReleased (sendmsg nn s m dont_wait)
  unfolding sendmsg
  sendmsg-Survives s m dont_wait =
      bind-Survives IsReleased IsReleased (hand_over nn s m dont_wait) _
        (hand_over-Survives s m dont_wait)
        λ r released.
          then-Survives IsReleased (check_result nn r.0) _ (check_result-Survives nn r.0)
            λ nb. pure-Survives IsReleased _ released
