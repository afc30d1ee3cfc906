-- ===== src/Socket.antt =====
-- socket.hpp and socket.cpp without `sendmsg` and `recvmsg`, which are in the children. A socket
-- object lives in `World.sockets`, so that a method's change is kept when it throws.
pub mod Endpoints
pub mod Word
pub mod Transfer
pub mod Lifetime
pub mod Registry
pub mod Descriptors
pub mod Strings
pub mod Traced
use nanomsgpp.Prelude.{ℕ, none, some, List, [], ◌∷◌, ◌==◌, if◌then◌else◌, length}
use nanomsgpp.Prelude.Int.{ℤ, pos, minus_one, eq_ℤ, is_nonneg}
use nanomsgpp.Prelude.Bytes.{Bytes}
use nanomsgpp.Memory.{Ptr, bytes_of, c_string}
use nanomsgpp.Platform.{Platform}
use nanomsgpp.SocketType.{
  SocketDomain, SocketType, SocketOption, domain_value, type_value, option_value,
}
use nanomsgpp.World.{
  World, Socket, Ref, Cmd, pure, ◌>>=◌, ◌>>◌, noexcept, undefined_behaviour, get_socket, set_socket,
  socket_call, close_call, setsockopt_call, getsockopt_call, bind_call, connect_call, shutdown_call,
  send_call, recv_call,
}
use nanomsgpp.World.Calls.{call_lib, call_heap, throw_internal, check_result}
use Endpoints.{find, insert_or_assign}
use Word.{int_bytes, bytes_int}

-- `c_str()` as a C function reads it: the bytes before the first NUL.
unfoldable pub c_str : Bytes → Bytes
c_str [] = []
c_str (b ∷ bs) = if b == 0 then [] else b ∷ c_str bs

module _ {S : Type 0} where
  -- `get_fd`.
  unfoldable pub get_fd : Ref → Cmd S ℤ
  get_fd s = do this ← get_socket s; pure this.d_socket

  -- `socket(int socket)`.
  unfoldable pub from_fd : Ref → ℤ → Cmd S (Unit {0})
  from_fd s fd = set_socket s (record { d_socket = fd; d_endpoints = [] })

  -- `*this = std::move(other)`, where both may be one object. A map that is moved from is empty,
  -- which the standard leaves open; so is a map that is moved to itself.
  unfoldable pub move_assign : Ref → Ref → Cmd S (Unit {0})
  move_assign s other = do
    o ← get_socket other
    this ← get_socket s
    set_socket s (record this { d_socket = o.d_socket })
    o ← get_socket other
    set_socket other (record o { d_socket = minus_one })
    o ← get_socket other
    this ← get_socket s
    set_socket s (record this { d_endpoints = o.d_endpoints })
    o ← get_socket other
    set_socket other (record o { d_endpoints = [] })

  -- `socket(socket&&)`: the map starts empty, and the descriptor unset until it is assigned.
  unfoldable pub move_construct : Ref → Ref → Cmd S (Unit {0})
  unfolding move_assign
  move_construct s other = move_assign s other

module _ {S : Type 0} (nn : Platform S) where
  -- `socket(socket_domain, socket_type)`: the result of `nn_socket` is not checked.
  unfoldable pub open_socket : Ref → SocketDomain → SocketType → Cmd S (Unit {0})
  unfolding domain_value type_value
  open_socket s d t = do
    let domain = domain_value nn.header d
    let protocol = type_value nn.header t
    fd ← call_lib (socket_call domain protocol) (nn.nn_socket domain protocol)
    set_socket s (record { d_socket = fd; d_endpoints = [] })

  -- `close`.
  unfoldable pub close : Ref → Cmd S (Unit {0})
  close s = do
    this ← get_socket s
    if is_nonneg this.d_socket
        then (do
          result ← call_lib (close_call this.d_socket) (nn.nn_close this.d_socket)
          set_socket s (record this { d_socket = minus_one })
          if eq_ℤ minus_one result then throw_internal nn else pure tt)
        else pure tt

  -- `~socket()`.
  unfoldable pub destroy : Ref → Cmd S (Unit {0})
  unfolding close
  destroy s = noexcept (close s)

  -- `set_option_raw`: any result but 0 is an error.
  unfoldable pub set_option_raw : Ref → ℤ → ℤ → Bytes → Cmd S (Unit {0})
  set_option_raw s level option val = do
    this ← get_socket s
    result ←
        call_lib (setsockopt_call this.d_socket level option val)
          (nn.nn_setsockopt this.d_socket level option val)
    if eq_ℤ result (pos 0) then pure tt else throw_internal nn

  -- `set_option` of an `int` and of a string.
  unfoldable pub set_option_int : Ref → ℤ → SocketOption → ℤ → Cmd S (Unit {0})
  unfolding set_option_raw
  set_option_int s level opt val =
      set_option_raw s level (option_value nn.header opt) (int_bytes val)

  unfoldable pub set_option_string : Ref → ℤ → SocketOption → Bytes → Cmd S (Unit {0})
  unfolding set_option_raw
  set_option_string s level opt val = set_option_raw s level (option_value nn.header opt) val

  -- `get_option_raw` into a buffer of `len` bytes: the bytes that the call wrote.
  unfoldable pub get_option_raw : Ref → ℤ → ℤ → ℕ → Cmd S Bytes
  get_option_raw s level option len = do
    this ← get_socket s
    r ←
        call_lib (getsockopt_call this.d_socket level option)
          (nn.nn_getsockopt this.d_socket level option len)
    if eq_ℤ r.0 (pos 0) then pure r.1 else throw_internal nn

  -- `get_option<int>`: undefined if the call left a part of `val` unset.
  unfoldable pub get_option_int : Ref → ℤ → SocketOption → Cmd S ℤ
  unfolding get_option_raw
  get_option_int s level opt = do
    val ← get_option_raw s level (option_value nn.header opt) 4
    if length val == 4 then pure (bytes_int val) else undefined_behaviour

  -- `get_option<std::string>`: undefined if no NUL stands in what the call wrote.
  unfoldable pub get_option_string : Ref → ℤ → SocketOption → Cmd S Bytes
  unfolding get_option_raw
  get_option_string s level opt = do
    val ← get_option_raw s level (option_value nn.header opt) 1024
    elim (c_string (bytes_of val)) [ none ↦ undefined_behaviour | some text ↦ pure text ]

  -- The common end of `bind` and `connect`.
  unfoldable pub add_endpoint : Ref → Bytes → ℤ → Cmd S (Unit {0})
  add_endpoint s addr id = if eq_ℤ minus_one id then throw_internal nn else (do
    this ← get_socket s
    set_socket s (record this { d_endpoints = insert_or_assign addr id this.d_endpoints }))

  unfoldable pub bind : Ref → Bytes → Cmd S (Unit {0})
  unfolding add_endpoint
  bind s addr = do
    this ← get_socket s
    id ← call_lib (bind_call this.d_socket (c_str addr)) (nn.nn_bind this.d_socket (c_str addr))
    add_endpoint s addr id

  unfoldable pub connect : Ref → Bytes → Cmd S (Unit {0})
  unfolding add_endpoint
  connect s addr = do
    this ← get_socket s
    id ←
        call_lib (connect_call this.d_socket (c_str addr))
          (nn.nn_connect this.d_socket (c_str addr))
    add_endpoint s addr id

  -- The endpoint that `shutdown` names: -1 for an unknown address.
  unfoldable pub endpoint_id : Bytes → List (Bytes × ℤ) → ℤ
  endpoint_id addr m = elim (find addr m) [ none ↦ minus_one | some id ↦ id ]

  unfoldable pub shutdown : Ref → Bytes → Cmd S (Unit {0})
  unfolding endpoint_id
  shutdown s addr = do
    this ← get_socket s
    let id = endpoint_id addr this.d_endpoints
    result ← call_lib (shutdown_call this.d_socket id) (nn.nn_shutdown this.d_socket id)
    if eq_ℤ minus_one result then throw_internal nn else pure tt

  -- `send_raw` and `recv_raw`.
  unfoldable pub send_raw : Ref → Ptr → ℕ → ℤ → Cmd S ℤ
  unfolding check_result
  send_raw s buf len flags = do
    this ← get_socket s
    nb ← call_heap (send_call this.d_socket) (nn.nn_send this.d_socket buf len flags)
    check_result nn nb

  unfoldable pub recv_raw : Ref → Ptr → ℕ → ℤ → Cmd S ℤ
  unfolding check_result
  recv_raw s buf len flags = do
    this ← get_socket s
    nb ← call_heap (recv_call this.d_socket) (nn.nn_recv this.d_socket buf len flags)
    check_result nn nb
