-- ===== src/Client/Connecting.antt =====
-- What `connect_socket` of client/nanomsgpp.cpp registers, and where it stops.
use nanomsgpp.Prelude.{
  ℕ, ◌+◌, ◌<◌, ◌≡◌, false, Option, none, some, List, [], ◌∷◌, length, take, All,
}
use nanomsgpp.Prelude.Int.{ℤ, minus_one, eq_ℤ}
use nanomsgpp.Prelude.Bytes.{Bytes}
use nanomsgpp.Platform.{Platform}
use nanomsgpp.World.{World, Ref, Call, bind_call, connect_call}
use nanomsgpp.World.Ends.{Ends}
use nanomsgpp.Socket.{c_str, endpoint_id}
use nanomsgpp.Client.Options.{Options}

abbrev failures : Option (Unit {0}) → ℕ
failures none = 1
failures (some u) = 0

-- A command returns just where all of `size` addresses were taken.
abbrev pub Stops : Option (Unit {0}) → ℕ → ℕ → Type 0
Stops none count size = count < size
Stops (some u) count size = count ≡ size

-- The calls of some requests behind others, the newest first.
abbrev pub behind : List (Bytes × Call) → List Call → List Call
behind [] cs = cs
behind (a ∷ asked) cs = behind asked (a.1 ∷ cs)

-- The calls for addresses to bind to, and for those to connect to, on a descriptor.
abbrev pub binds : ℤ → Bytes → Bytes × Call
binds fd addr = (addr, bind_call fd (c_str addr))

abbrev pub connects : ℤ → Bytes → Bytes × Call
connects fd addr = (addr, connect_call fd (c_str addr))

module _ {S : Type 0} (nn : Platform S) (s : Ref) where
  -- The socket remembers an identifier for the address.
  abbrev pub Known : World S → Bytes → Type 0
  Known w addr = eq_ℤ (endpoint_id nn addr (w.sockets s).d_endpoints) minus_one ≡ false

  -- Of some requests, an address and the call that is to be made for it: the first `count` addresses
  -- are known, those known before still are, and the calls made are those of the first `count` and
  -- of the one that was refused, in order.
  pub record Registered (asked : List (Bytes × Call)) (w : World S) (r : Option (Unit {0}))
      (w' : World S) : Type 0 where
    pub count : ℕ
    pub stops : Stops r count (length asked)
    pub known : All (λ a. Known w' a.0) (take count asked)
    pub kept : (addr : Bytes) → Known w addr → Known w' addr
    pub called : w'.calls ≡ behind (take (count + failures r) asked) w.calls
    pub at_fd : (w'.sockets s).d_socket ≡ (w.sockets s).d_socket
