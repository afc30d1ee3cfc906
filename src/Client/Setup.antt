-- ===== src/Client/Setup.antt =====
-- The options that `configure_socket` of client/nanomsgpp.cpp sets.
use nanomsgpp.Prelude.{◌≡◌, refl, Bool, true, false, some, Option, List, [], ◌∷◌, if◌then◌else◌}
use nanomsgpp.Prelude.Int.{ℤ, pos, scale, fits_int}
use nanomsgpp.Prelude.Bytes.{Bytes}
use nanomsgpp.Platform.{Platform}
use nanomsgpp.SocketType.{SocketType, option_value}
use nanomsgpp.World.{World, Ref, Call, ok, pure, setsockopt_call}
use nanomsgpp.World.Ends.{Ends}
use nanomsgpp.World.Calls.{call_lib, throw_internal}
use nanomsgpp.Socket.{set_option_raw, set_option_int, set_option_string}
use nanomsgpp.Socket.Word.{int_bytes}
use nanomsgpp.Client.Options.{Options}
use nanomsgpp.Client.Options.Names.{type_name, get_type-type_name}
use nanomsgpp.Client.Loops.{is_subscribe, subscribe_all, configure_socket}

-- `nn_setsockopt(3)` returns 0: the library knows the option and takes the value.
abbrev pub TakesOptions : {S : Type 0} → Platform S → Type 0
TakesOptions {S} nn =
    (fd level opt : ℤ) (val : Bytes) (l : S) → (nn.nn_setsockopt fd level opt val l).0 ≡ pos 0

module _ {S : Type 0} (nn : Platform S) where
  -- The calls that subscribe a descriptor to topics, the last topic's call first, after others.
  abbrev pub subscriptions : ℤ → List Bytes → List Call → List Call
  subscriptions fd [] calls = calls
  subscriptions fd (topic ∷ topics) calls =
      subscriptions fd topics (setsockopt_call fd nn.nn_sub nn.nn_sub_subscribe topic ∷ calls)

  set_option_raw-ok :
      (s : Ref) (level opt : ℤ) (val : Bytes) (w : World S)
      → TakesOptions nn
      → set_option_raw nn s level opt val w
        ≡ ok tt (record w {
          lib = (nn.nn_setsockopt (w.sockets s).d_socket level opt val w.lib).1;
          calls = setsockopt_call (w.sockets s).d_socket level opt val ∷ w.calls;
        })
  unfolding set_option_raw call_lib throw_internal
  set_option_raw-ok s level opt val w takes =
      rw (takes (w.sockets s).d_socket level opt val w.lib) refl

  -- The topics in `w'`, after the world `w`.
  abbrev Subscribed : Ref → List Bytes → World S → Option (Unit {0}) → World S → Type 0
  Subscribed s topics w r w' =
      (r ≡ some tt)
      × (w'.calls ≡ subscriptions (w.sockets s).d_socket topics w.calls)
      × (w'.sockets ≡ w.sockets)

  subscribe_all-subscriptions :
      (s : Ref) (topics : List Bytes) (w : World S)
      → TakesOptions nn
      → Ends (Subscribed s topics w) (subscribe_all nn s topics w)
  unfolding subscribe_all set_option_string option_value
  subscribe_all-subscriptions s [] w takes = (refl, refl, refl)
  subscribe_all-subscriptions s (topic ∷ topics) w takes =
      rw (set_option_raw-ok s nn.nn_sub nn.nn_sub_subscribe topic w takes)
        (subscribe_all-subscriptions s topics _ takes)

  subscribe-chosen :
      (b : Bool) (s : Ref) (topics : List Bytes) (w : World S)
      → TakesOptions nn
      → Ends
          (Subscribed s (if b then topics else []) w)
          ((if b then subscribe_all nn s topics else pure tt) w)
  subscribe-chosen true s topics w takes = subscribe_all-subscriptions s topics w takes
  subscribe-chosen false s topics w takes = (refl, refl, refl)

  -- Where the library takes every option and the send timeout in milliseconds is an `int`, a client
  -- whose type is given by its name sets first the send timeout, times 1000, then the receive
  -- timeout, as it is, and then, if it is a subscriber, subscribes to each topic in order: with no
  -- topic, to none.
  pub configure_socket-subscriptions :
      (s : Ref) (ops : Options) (type : SocketType) (w : World S)
      → TakesOptions nn
      → fits_int (scale ops.send_timeout 1000) ≡ true
      → ops.type ≡ type_name type
      → let fd = (w.sockets s).d_socket in
        let sol = nn.nn_sol_socket in
        Ends
          (λ r w'.
            (r ≡ some tt)
            × (w'.calls
                ≡ subscriptions fd (if is_subscribe type then ops.subscribe else []) (
                    setsockopt_call fd sol nn.nn_rcvtimeo (int_bytes ops.recv_timeout)
                    ∷ setsockopt_call fd sol nn.nn_sndtimeo
                        (int_bytes (scale ops.send_timeout 1000))
                    ∷ w.calls))
            × (w'.sockets ≡ w.sockets))
          (configure_socket nn s ops w)
  unfolding configure_socket set_option_int option_value
  configure_socket-subscriptions s ops type w takes fits known =
      let fd = (w.sockets s).d_socket in
      rw fits (
        rw
          (set_option_raw-ok s nn.nn_sol_socket nn.nn_sndtimeo
            (int_bytes (scale ops.send_timeout 1000)) w takes)
          (rw
            (set_option_raw-ok s nn.nn_sol_socket nn.nn_rcvtimeo (int_bytes ops.recv_timeout) _
              takes)
            (rw (get_type-type_name ops type _ known)
              (subscribe-chosen (is_subscribe type) s ops.subscribe _ takes))))
