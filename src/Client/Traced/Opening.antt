-- ===== src/Client/Traced/Opening.antt =====
-- The set-up of the client's socket sets options, then binds, then connects.
use nanomsgpp.Prelude.{List, [], ◌∷◌}
use nanomsgpp.Prelude.Int.{ℤ, fits_int, scale}
use nanomsgpp.Prelude.Bytes.{Bytes}
use nanomsgpp.Platform.{Platform}
use nanomsgpp.World.{Ref, setsockopt_call, bind_call, connect_call}
use nanomsgpp.World.Policy.{Policy}
use nanomsgpp.World.Traces.{IsTraced, bind-IsTraced, pure-IsTraced, if-IsTraced}
use nanomsgpp.World.Traces.Calls.{traced, undefined-IsTraced}
use nanomsgpp.Socket.{c_str, set_option_int, set_option_string, bind, connect}
use nanomsgpp.Socket.Traced.{set_option_raw-IsTraced, bind_address-IsTraced, connect-IsTraced}
use nanomsgpp.Client.Options.{Options, get_type, choose_type}
use nanomsgpp.Client.Loops.{is_subscribe, subscribe_all, configure_socket, bind_all, connect_all}

module _ {S : Type 0} (nn : Platform S) (s : Ref) (fd : ℤ) (P : Policy nn) where
  subscribe_all-IsTraced :
      (topics : List Bytes)
      → ((level opt : ℤ) (val : Bytes) → P.Allowed (setsockopt_call fd level opt val))
      → IsTraced nn s fd P (subscribe_all nn s topics)
  unfolding subscribe_all set_option_string
  subscribe_all-IsTraced [] a = pure-IsTraced nn s fd P tt
  subscribe_all-IsTraced (topic ∷ topics) a =
      bind-IsTraced nn s fd P _ _ (set_option_raw-IsTraced nn s fd P _ _ topic (a _ _ topic))
        λ _. subscribe_all-IsTraced topics a

  pub get_type-IsTraced : (ops : Options) → IsTraced nn s fd P (get_type {S = S} ops)
  unfolding get_type choose_type
  get_type-IsTraced ops = search traced depth 16

  pub configure_socket-IsTraced :
      (ops : Options)
      → ((level opt : ℤ) (val : Bytes) → P.Allowed (setsockopt_call fd level opt val))
      → IsTraced nn s fd P (configure_socket nn s ops)
  unfolding configure_socket set_option_int
  configure_socket-IsTraced ops a =
      if-IsTraced nn s fd P (fits_int (scale ops.send_timeout 1000)) _ _
        (bind-IsTraced nn s fd P _ _ (set_option_raw-IsTraced nn s fd P _ _ _ (a _ _ _)) λ _.
          bind-IsTraced nn s fd P _ _ (set_option_raw-IsTraced nn s fd P _ _ _ (a _ _ _)) λ _.
            bind-IsTraced nn s fd P (get_type ops) _ (get_type-IsTraced ops) λ type.
              if-IsTraced nn s fd P (is_subscribe type) _ _ (subscribe_all-IsTraced ops.subscribe a)
                (pure-IsTraced nn s fd P tt))
        (undefined-IsTraced nn s fd P)

  pub bind_all-IsTraced :
      (addrs : List Bytes)
      → ((addr : Bytes) → P.Allowed (bind_call fd addr))
      → IsTraced nn s fd P (bind_all nn s addrs)
  unfolding bind_all
  bind_all-IsTraced [] a = pure-IsTraced nn s fd P tt
  bind_all-IsTraced (addr ∷ addrs) a =
      bind-IsTraced nn s fd P (bind nn s addr) _
        (bind_address-IsTraced nn s fd P addr (a (c_str addr))) λ _. bind_all-IsTraced addrs a

  pub connect_all-IsTraced :
      (addrs : List Bytes)
      → ((addr : Bytes) → P.Allowed (connect_call fd addr))
      → IsTraced nn s fd P (connect_all nn s addrs)
  unfolding connect_all
  connect_all-IsTraced [] a = pure-IsTraced nn s fd P tt
  connect_all-IsTraced (addr ∷ addrs) a =
      bind-IsTraced nn s fd P (connect nn s addr) _
        (connect-IsTraced nn s fd P addr (a (c_str addr))) λ _. connect_all-IsTraced addrs a
