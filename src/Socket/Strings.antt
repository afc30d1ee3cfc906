-- ===== src/Socket/Strings.antt =====
-- Options whose value is a string.
use nanomsgpp.Prelude.{◌≡◌, Option, none, some, ◌∷◌}
use nanomsgpp.Prelude.Int.{ℤ, pos}
use nanomsgpp.Prelude.Bytes.{Bytes}
use nanomsgpp.Platform.{Platform}
use nanomsgpp.SocketType.{SocketOption, option_value}
use nanomsgpp.World.{World, Ref, Outcome, ok, undefined, getsockopt_call}
use nanomsgpp.World.Ends.{Ends}

module _ {S : Type 0} (nn : Platform S) where
  -- What `nn_getsockopt` stores for an option of a string, into the 1024 bytes given to it.
  abbrev Stores : Ref → ℤ → SocketOption → World S → Bytes → Type 0
  Stores s level opt w bytes =
      (l : S) × (nn.nn_getsockopt (w.sockets s).d_socket level (option_value nn.header opt) 1024
          w.lib
        ≡ ((pos 0, bytes), l))

  -- The text found in what was stored, if there is one.
  abbrev read_back : Option Bytes → World S → Outcome S Bytes
  read_back none w = undefined
  read_back (some text) w = ok text w

  after_get : Ref → ℤ → SocketOption → World S → S → World S
  after_get s level opt w l = record w {
    lib = l;
    calls = getsockopt_call (w.sockets s).d_socket level (option_value nn.header opt) ∷ w.calls;
  }
