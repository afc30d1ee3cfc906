-- ===== src/Message.antt =====
-- message.hpp and message.cpp: parts, which own a buffer, and messages of parts.
pub mod Traced
pub mod Ownership
pub mod Writing
pub mod Moves
pub mod Header
pub mod Lifetime
use nanomsgpp.Prelude.{
  ℕ, ◌*◌, Bool, true, false, none, some, List, [], ◌∷◌, ◌++◌, ◌==◌, if◌then◌else◌, length,
  get_elem?,
}
use nanomsgpp.Prelude.Int.{ℤ, minus_one, eq_ℤ}
use nanomsgpp.Prelude.Bytes.{Bytes}
use nanomsgpp.Memory.{Ptr, null, Source, object, address, bytes_of, byte}
use nanomsgpp.Platform.{Platform, Iovec}
use nanomsgpp.World.{Cmd, pure, throw, ◌>>=◌, ◌>>◌, undefined_behaviour, noexcept, out_of_range}
use nanomsgpp.World.Calls.{use_heap, free, memcpy, malloc, throw_internal}

pub record Part : Type 0 where
  pub d_msg : Ptr
  pub d_size : ℕ
  pub d_malloc : Bool

pub record Message : Type 0 where
  pub d_parts : List Part

-- `part::release`: the pointer, and the part without it.
unfoldable pub part_release : Part → Ptr × Part
part_release p = (p.d_msg, record p { d_msg = null })

-- The move constructor: the new part and the old one.
unfoldable pub part_move : Part → Part × Part
unfolding part_release
part_move other = (
  record {
    d_msg = (part_release other).0;
    d_size = (part_release other).1.d_size;
    d_malloc = (part_release other).1.d_malloc;
  },
  (part_release other).1,
)

-- The move assignment `parts[i] = std::move(parts[j])` among parts in memory, `i` and `j` may be
-- the same: the pointer is taken from `j` before `i` is written.
unfoldable pub part_assign : (ℕ → Part) → ℕ → ℕ → ℕ → Part
unfolding part_release
part_assign mem i j =
    let msg = (part_release (mem j)).0 in
    let released = λ (k : ℕ). if k == j then (part_release (mem j)).1 else mem k in
    λ k.
      if k == i
      then record { d_msg = msg; d_size = (released j).d_size; d_malloc = (released j).d_malloc }
      else released k

-- `message()`, and `message(parts&&)`.
unfoldable pub empty_message : Message
empty_message = record { d_parts = [] }

unfoldable pub message_of : List Part → Message
message_of ps = record { d_parts = ps }

unfoldable pub size : Message → ℕ
size m = length m.d_parts

-- `add_part(part&& p)`, and `operator<<(part&&)`: the message and what is left of `p`.
unfoldable pub add_part : Message → Part → Message × Part
unfolding part_move
add_part m p = (record { d_parts = m.d_parts ++ (part_move p).0 ∷ [] }, (part_move p).1)

-- `message::release`: each part gives up its pointer, and the list is cleared.
release_parts : List Part → List Part
release_parts [] = []
release_parts (p ∷ ps) = (part_release p).1 ∷ release_parts ps

clear : List Part → List Part
clear ps = []

unfoldable pub release : Message → Message
unfolding release_parts clear
release m = record { d_parts = clear (release_parts m.d_parts) }

-- The fields of the header that `gen_nn_msghdr` returns, with the address of the header itself.
pub record MsgHdr : Type 0 where
  pub hdr : Ptr
  pub msg_iov : Ptr
  pub iov : List Iovec
  pub msg_iovlen : ℕ

-- The loop over the parts.
unfoldable pub fill_iov : List Part → List Iovec
fill_iov [] = []
fill_iov (p ∷ ps) = record { iov_base = p.d_msg; iov_len = p.d_size } ∷ fill_iov ps

module _ {S : Type 0} where
  -- `at`.
  unfoldable pub at : Message → ℕ → Cmd S Part
  at m i = elim (get_elem? m.d_parts i) [ none ↦ throw out_of_range | some p ↦ pure p ]

  -- Writes through the pointers that `malloc` returned; with no part `iov` is not written.
  unfoldable pub use_msghdr : Ptr → Ptr → List Part → Cmd S MsgHdr
  use_msghdr h i [] =
      if h == null
      then undefined_behaviour
      else pure (record { hdr = h; msg_iov = i; iov = fill_iov []; msg_iovlen = 0 })
  use_msghdr h i (p ∷ ps) =
      if h == null
      then undefined_behaviour
      else (if i == null
          then undefined_behaviour
          else pure (record {
            hdr = h;
            msg_iov = i;
            iov = fill_iov (p ∷ ps);
            msg_iovlen = length (p ∷ ps);
          }))

  -- `msghdr_free`, the deleter of the header.
  unfoldable pub msghdr_free : MsgHdr → Cmd S (Unit {0})
  msghdr_free h = do free h.msg_iov; free h.hdr

module _ {S : Type 0} (nn : Platform S) where
  -- `part(const void* ptr, size_t size, bool deep_copy)`.
  unfoldable pub part_copy : Source → ℕ → Bool → Cmd S Part
  part_copy src n deep_copy =
      if deep_copy
      then (do
        p ← malloc nn n
        memcpy p src n
        pure (record { d_msg = p; d_size = n; d_malloc = deep_copy }))
      else pure (record { d_msg = address src; d_size = n; d_malloc = deep_copy })

  -- `part(size_t size, int type)`.
  unfoldable pub part_alloc : ℕ → ℤ → Cmd S Part
  part_alloc n type = do
    p ← use_heap (nn.nn_allocmsg n type)
    pure (record { d_msg = p; d_size = nn.nn_msg; d_malloc = false })

  -- `part(size_t size)`.
  unfoldable pub part_malloc : ℕ → Cmd S Part
  part_malloc n = do p ← malloc nn n; pure (record { d_msg = p; d_size = n; d_malloc = true })

  -- `~part()`; its exception leaves a destructor.
  unfoldable pub part_destroy : Part → Cmd S (Unit {0})
  part_destroy p =
      if p.d_msg == null
      then pure tt
      else (if p.d_malloc
          then free p.d_msg
          else noexcept (do
            result ← use_heap (nn.nn_freemsg p.d_msg)
            if eq_ℤ minus_one result then throw_internal nn else pure tt))

  unfoldable pub parts_destroy : List Part → Cmd S (Unit {0})
  parts_destroy [] = pure tt
  parts_destroy (p ∷ ps) = part_destroy p >> parts_destroy ps

  -- `~message()`.
  unfoldable pub message_destroy : Message → Cmd S (Unit {0})
  message_destroy m = parts_destroy m.d_parts

  -- `write(const T& data)`, with the cells of `data` at address `p`; `operator<<(const T&)`.
  unfoldable pub write : Message → Ptr → Bytes → Cmd S Message
  write m p bs = do
    new ← part_copy (object p (bytes_of bs)) (length bs) true
    part_destroy (add_part m new).1
    pure (add_part m new).0

  -- `write(const std::string& data)`: `c_str()` has a NUL behind the `size()` bytes.
  unfoldable pub write_string : Message → Ptr → Bytes → Cmd S Message
  write_string m p bs = do
    new ← part_copy (object p (bytes_of bs ++ byte 0 ∷ [])) (length bs) true
    part_destroy (add_part m new).1
    pure (add_part m new).0

  -- `gen_nn_msghdr`.
  unfoldable pub gen_nn_msghdr : Message → Cmd S MsgHdr
  unfolding use_msghdr
  gen_nn_msghdr m = do
    h ← malloc nn nn.sizeof_msghdr
    i ← malloc nn (nn.sizeof_iovec * size m)
    use_msghdr h i m.d_parts
