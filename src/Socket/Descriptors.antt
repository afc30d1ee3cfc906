-- ===== src/Socket/Descriptors.antt =====
-- Who owns which descriptor, over any sequence of the operations that make, move, use and close
-- sockets.
pub mod Keeps
pub mod Owning
pub mod Invariant
use nanomsgpp.Prelude.{ℕ, ◌≡◌, ◌≢◌, Bool, true, false, if◌then◌else◌, ◌⊎◌, List}
use nanomsgpp.Prelude.Int.{ℤ, eq_ℤ, is_nonneg}
use nanomsgpp.Prelude.Bytes.{Bytes}
use nanomsgpp.Memory.{Ptr, Heap}
use nanomsgpp.Platform.{Platform, Iovec}
use nanomsgpp.SocketType.{SocketDomain, SocketType}
use nanomsgpp.World.{World, Ref}
use nanomsgpp.Message.{Message}
use nanomsgpp.World.Ends.{Leads}
use nanomsgpp.Socket.{
  from_fd, move_assign, open_socket, close, set_option_raw, get_option_raw, bind, connect, shutdown,
  send_raw, recv_raw,
}
use nanomsgpp.Socket.Transfer.{sendmsg, recvmsg}
use nanomsgpp.Device.{device}

-- What nanomsg promises of descriptors: `nn_socket(3)` answers -1 or opens one that was not open,
-- `nn_close(3)` closes no other than the one it is given, and the other calls open and close none.
pub record Descriptors {S : Type 0} (nn : Platform S) : Type 0 where
  pub is_open : S → ℤ → Bool
  pub socket_opens :
      (d p : ℤ) (l : S)
      → ((is_nonneg (nn.nn_socket d p l).0 ≡ false)
          × ((g : ℤ) → is_open (nn.nn_socket d p l).1 g ≡ is_open l g))
        ⊎ ((is_open l (nn.nn_socket d p l).0 ≡ false)
            × ((g : ℤ)
                → is_open (nn.nn_socket d p l).1 g
                  ≡ (if eq_ℤ (nn.nn_socket d p l).0 g then true else is_open l g)))
  pub close_keeps :
      (fd g : ℤ) (l : S) → eq_ℤ fd g ≡ false → is_open (nn.nn_close fd l).1 g ≡ is_open l g
  pub set_keeps :
      (fd level opt : ℤ) (val : Bytes) (l : S) (g : ℤ)
      → is_open (nn.nn_setsockopt fd level opt val l).1 g ≡ is_open l g
  pub get_keeps :
      (fd level opt : ℤ) (len : ℕ) (l : S) (g : ℤ)
      → is_open (nn.nn_getsockopt fd level opt len l).1 g ≡ is_open l g
  pub bind_keeps :
      (fd : ℤ) (addr : Bytes) (l : S) (g : ℤ) → is_open (nn.nn_bind fd addr l).1 g ≡ is_open l g
  pub connect_keeps :
      (fd : ℤ) (addr : Bytes) (l : S) (g : ℤ) → is_open (nn.nn_connect fd addr l).1 g ≡ is_open l g
  pub send_keeps :
      (fd : ℤ) (buf : Ptr) (len : ℕ) (flags : ℤ) (h : Heap) (l : S) (g : ℤ)
      → is_open (nn.nn_send fd buf len flags h l).2 g ≡ is_open l g
  pub recv_keeps :
      (fd : ℤ) (buf : Ptr) (len : ℕ) (flags : ℤ) (h : Heap) (l : S) (g : ℤ)
      → is_open (nn.nn_recv fd buf len flags h l).2 g ≡ is_open l g
  pub sendmsg_keeps :
      (fd : ℤ) (iov : List Iovec) (flags : ℤ) (h : Heap) (l : S) (g : ℤ)
      → is_open (nn.nn_sendmsg fd iov flags h l).2 g ≡ is_open l g
  pub recvmsg_keeps :
      (fd : ℤ) (lens : List ℕ) (flags : ℤ) (h : Heap) (l : S) (g : ℤ)
      → is_open (nn.nn_recvmsg fd lens flags h l).2 g ≡ is_open l g
  pub device_keeps :
      (fd fd' : ℤ) (l : S) (g : ℤ) → is_open (nn.nn_device fd fd' l).1 g ≡ is_open l g
  pub freemsg_keeps :
      (p : Ptr) (h : Heap) (l : S) (g : ℤ) → is_open (nn.nn_freemsg p h l).2 g ≡ is_open l g
  pub shutdown_keeps :
      (fd id : ℤ) (l : S) (g : ℤ) → is_open (nn.nn_shutdown fd id l).1 g ≡ is_open l g

abbrev pub fd_of : {S : Type 0} → World S → Ref → ℤ
fd_of w r = (w.sockets r).d_socket

-- The object has a descriptor.
abbrev pub is_live : {S : Type 0} → World S → Ref → Bool
is_live w r = is_nonneg (fd_of w r)

module _ {S : Type 0} (nn : Platform S) (ds : Descriptors nn) where
  open ds use {is_open}

  -- One operation on a socket, by a value or an exception. An object is made where there is no live
  -- one, and is given a descriptor only if that is open and no other object has it.
  pub data Step (w w' : World S) : Type 0 where
    create :
        (s : Ref) (d : SocketDomain) (t : SocketType)
        → is_live w s ≡ false
        → Leads (open_socket nn s d t w) w'
        → Step w w'
    adopt :
        (s : Ref) (fd : ℤ)
        → is_live w s ≡ false
        → is_open w.lib fd ≡ true
        → ((r : Ref) → eq_ℤ (fd_of w r) fd ≡ false)
        → Leads (from_fd s fd w) w'
        → Step w w'
    move : (s other : Ref) → Leads (move_assign s other w) w' → Step w w'
    shut : (s : Ref) → Leads (close nn s w) w' → Step w w'
    bind_to : (s : Ref) (addr : Bytes) → Leads (bind nn s addr w) w' → Step w w'
    connect_to : (s : Ref) (addr : Bytes) → Leads (connect nn s addr w) w' → Step w w'
    leave : (s : Ref) (addr : Bytes) → Leads (shutdown nn s addr w) w' → Step w w'
    set_option :
        (s : Ref) (level opt : ℤ) (val : Bytes)
        → Leads (set_option_raw nn s level opt val w) w'
        → Step w w'
    get_option :
        (s : Ref) (level opt : ℤ) (len : ℕ)
        → Leads (get_option_raw nn s level opt len w) w'
        → Step w w'
    send :
        (s : Ref) (buf : Ptr) (len : ℕ) (flags : ℤ)
        → Leads (send_raw nn s buf len flags w) w'
        → Step w w'
    recv :
        (s : Ref) (buf : Ptr) (len : ℕ) (flags : ℤ)
        → Leads (recv_raw nn s buf len flags w) w'
        → Step w w'
    send_message :
        (s : Ref) (m : Message) (dont_wait : Bool)
        → Leads (sendmsg nn s m dont_wait w) w'
        → Step w w'
    recv_message :
        (s : Ref) (n : ℕ) (dont_wait : Bool) → Leads (recvmsg nn s n dont_wait w) w' → Step w w'
    relay : (s other : Ref) → Leads (device nn s other w) w' → Step w w'

  pub data Reach (v : World S) : World S → Type 0 where
    start : Reach v v
    later : {w w' : World S} → Reach v w → Step w w' → Reach v w'

  -- Every descriptor of a live object is open in nanomsg, and no other object has it.
  pub record Owned (w : World S) : Type 0 where
    pub is_opened : (r : Ref) → is_live w r ≡ true → is_open w.lib (fd_of w r) ≡ true
    pub unique : (r q : Ref) → r ≢ q → is_live w r ≡ true → eq_ℤ (fd_of w r) (fd_of w q) ≡ false
