-- ===== src/Socket/Transfer.antt =====
-- `sendmsg` and `recvmsg` of socket.cpp.
pub mod Sending
pub mod Receiving
pub mod Overflow
pub mod Buffers
pub mod Parts
pub mod Survival
pub mod Values
pub mod Traced
use nanomsgpp.Prelude.{
  ℕ, zero, suc, ◌+◌, ◌-◌, ◌*◌, ◌^◌, Bool, true, Option, none, some, List, [], ◌∷◌, ◌++◌, ◌==◌, ltb,
  if◌then◌else◌, length, take, drop, replicate,
}
use nanomsgpp.Prelude.Int.{ℤ, pos, negsuc, minus_one, eq_ℤ}
use nanomsgpp.Prelude.Bytes.{Bytes, to_le, of_le}
use nanomsgpp.Memory.{Ptr, null, stored, cells_at, read_pointer}
use nanomsgpp.Platform.{Platform}
use nanomsgpp.World.{
  Ref, Cmd, pure, ◌>>=◌, ◌>>◌, undefined_behaviour, get_socket, on_throw, sendmsg_call,
  recvmsg_call,
}
use nanomsgpp.World.Calls.{call_heap, use_heap, malloc, throw_internal, check_result}
use nanomsgpp.Message.{
  Part, Message, message_of, release, part_move, gen_nn_msghdr, msghdr_free, part_copy,
  parts_destroy,
}

-- `int` to `size_t`.
abbrev pub to_size : ℤ → ℕ
to_size (pos n) = n
to_size (negsuc n) = 2 ^ 64 - 1 - n

-- A store of bytes at an offset of the array; past its end there is none.
unfoldable pub store_at : ℕ → Bytes → Bytes → Option Bytes
store_at off bs frame =
    if ltb (length frame) (off + length bs)
    then none
    else some (take off frame ++ bs ++ drop (off + length bs) frame)

-- `nn_recvmsg` stores at `&buf[i]` for each `i`.
unfoldable pub store_all : ℕ → List Bytes → Bytes → Option Bytes
store_all i [] frame = some frame
store_all i (bs ∷ stores) frame = elim (store_at (8 * i) bs frame) [
  | none ↦ none
  | some frame' ↦ store_all (suc i) stores frame'
]

-- `buf[i]`.
unfoldable pub buffer : Bytes → ℕ → Ptr
buffer frame i = of_le (take 8 (drop (8 * i) frame))

module _ {S : Type 0} (nn : Platform S) where
  unfoldable pub flags_of : Bool → ℤ
  flags_of dont_wait = if dont_wait then nn.nn_dontwait else pos 0

  -- `sendmsg` up to the test of the result: what nanomsg answered, and what is then left of the
  -- caller's `msg`, also where an exception is thrown next. The header is freed at the end of the
  -- statement with the call.
  unfoldable pub hand_over : Ref → Message → Bool → Cmd S (ℤ × Message)
  unfolding flags_of
  hand_over s msg dont_wait = do
    this ← get_socket s
    hdr ← gen_nn_msghdr nn msg
    nb ←
        call_heap (sendmsg_call this.d_socket hdr.iov (flags_of dont_wait))
          (nn.nn_sendmsg this.d_socket hdr.iov (flags_of dont_wait))
    msghdr_free hdr
    pure (nb, release msg)

  -- `sendmsg(message&& msg, bool dont_wait)`: the count, and what is left of `msg`.
  unfoldable pub sendmsg : Ref → Message → Bool → Cmd S (ℤ × Message)
  unfolding hand_over check_result
  sendmsg s msg dont_wait = do
    r ← hand_over s msg dont_wait
    nb ← check_result nn r.0
    pure (nb, r.1)

  -- `operator<<(message&&)`: what is left of the message.
  unfoldable pub stream_send : Ref → Message → Cmd S Message
  stream_send s msg = do r ← sendmsg s msg true; pure r.1

  unfoldable pub buffer_size : ℕ → ℕ
  buffer_size n_parts = if 1 == n_parts then nn.nn_msg else 2048

  -- The first loop: the array `buf` of pointers, as the bytes that it takes on the stack.
  unfoldable pub make_buffers : ℕ → ℕ → Cmd S Bytes
  make_buffers buf_size zero = pure []
  make_buffers buf_size (suc n) = do
    p ← (if buf_size == nn.nn_msg then pure null else malloc nn buf_size)
    rest ← make_buffers buf_size n
    pure (to_le 8 p ++ rest)

  -- A store past the end of the array is undefined.
  unfoldable pub finish_receive : ℤ → Option Bytes → Cmd S (ℤ × Bytes)
  finish_receive nb none = undefined_behaviour
  finish_receive nb (some frame) = pure (nb, frame)

  -- The call, with what it stored in the array.
  unfoldable pub receive : ℤ → List ℕ → ℤ → Bytes → Cmd S (ℤ × Bytes)
  unfolding finish_receive
  receive fd lens flags buf = do
    r ← call_heap (recvmsg_call fd lens flags) (nn.nn_recvmsg fd lens flags)
    finish_receive r.0 (store_all 0 r.1 buf)

  -- The body of the last loop, where one part is wanted: a copy of the chunk, which is then freed.
  unfoldable pub take_chunk : List Part → ℤ → Ptr → Cmd S (List Part)
  take_chunk msgparts nb chunk = do
    p ← part_copy nn (stored chunk) (to_size nb) true
    let msgparts' = msgparts ++ (part_move p).0 ∷ []
    on_throw
        (do
          rc ← use_heap (nn.nn_freemsg chunk)
          if eq_ℤ minus_one rc then throw_internal nn else pure msgparts')
        (parts_destroy nn msgparts')

  -- The body otherwise: `*(void**)buf[i]` is read as the source.
  unfoldable pub take_buffer : List Part → ℕ → Ptr → Cmd S (List Part)
  take_buffer msgparts buf_size buf w = elim (read_pointer (cells_at w.heap buf)) [
    | none ↦ undefined_behaviour w
    | some src ↦
        (do p ← part_copy nn (stored src) buf_size true; pure (msgparts ++ (part_move p).0 ∷ [])) w
  ]

  -- The last loop, from index `i` with `left` rounds to go.
  unfoldable pub collect : ℕ → ℤ → Bytes → ℕ → ℕ → List Part → Cmd S (List Part)
  unfolding take_chunk take_buffer buffer_size
  collect n_parts nb frame i zero msgparts = pure msgparts
  collect n_parts nb frame i (suc left) msgparts = do
    msgparts' ←
        (if 1 == n_parts
          then take_chunk msgparts nb (buffer frame i)
          else take_buffer msgparts (buffer_size n_parts) (buffer frame i))
    collect n_parts nb frame (suc i) left msgparts'

  -- `recvmsg(size_t n_parts, bool dont_wait)`.
  unfoldable pub recvmsg : Ref → ℕ → Bool → Cmd S Message
  recvmsg s n_parts dont_wait = do
    this ← get_socket s
    buf ← make_buffers (buffer_size n_parts) n_parts
    r ← receive this.d_socket (replicate n_parts (buffer_size n_parts)) (flags_of dont_wait) buf
    if eq_ℤ minus_one r.0
        then throw_internal nn
        else (do msgparts ← collect n_parts r.0 r.1 0 n_parts []; pure (message_of msgparts))
