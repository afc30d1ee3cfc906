-- ===== src/Client/Survival/Whole.antt =====
-- Nor does the set-up of the socket, nor all that follows until it is destroyed.
use nanomsgpp.Prelude.{ℕ, List, [], ◌∷◌, arith}
use nanomsgpp.Prelude.Int.{ℤ, eq_ℤ, minus_one, fits_int, scale}
use nanomsgpp.Prelude.Bytes.{Bytes}
use nanomsgpp.Platform.{Platform}
use nanomsgpp.World.{Ref, Cmd, pure}
use nanomsgpp.World.Calls.{throw_internal}
use nanomsgpp.World.Survival.{
  Any, Survives, surviving, then-Survives, value-Survives, if-Survives, undefined-Survives,
  call_lib-Survives, sleep_for-Survives,
}
use nanomsgpp.Socket.{
  set_option_raw, set_option_int, set_option_string, add_endpoint, bind, connect,
}
use nanomsgpp.Client.Options.{Options, get_type, choose_type}
use nanomsgpp.Client.Loops.{
  is_subscribe, subscribe_all, configure_socket, bind_all, connect_all, connect_socket,
}
use nanomsgpp.Client.Main.{this_socket, run_socket}
use nanomsgpp.Client.Survival.{run_loop-Survives}

module _ {S : Type 0} (nn : Platform S) where
  abbrev Lasts : {A : Type 0} → Cmd S A → Type 0
  Lasts m = Survives Any m

  set_option_raw-Survives :
      (s : Ref) (level opt : ℤ) (val : Bytes) → Lasts (set_option_raw nn s level opt val)
  unfolding set_option_raw
  set_option_raw-Survives s level opt val = record {
    at = λ w. (then-Survives Any _ _ (call_lib-Survives _ _) λ r. search surviving depth 8).at w;
  }

  subscribe_all-Survives : (s : Ref) (topics : List Bytes) → Lasts (subscribe_all nn s topics)
  unfolding subscribe_all set_option_string
  subscribe_all-Survives s [] = value-Survives tt
  subscribe_all-Survives s (topic ∷ topics) =
      then-Survives Any _ _ (set_option_raw-Survives s _ _ topic)
        λ _. subscribe_all-Survives s topics

  get_type-Survives : (ops : Options) → Lasts (get_type {S = S} ops)
  unfolding get_type choose_type
  get_type-Survives ops = search surviving depth 16

  configure_socket-Survives : (s : Ref) (ops : Options) → Lasts (configure_socket nn s ops)
  unfolding configure_socket set_option_int
  configure_socket-Survives s ops =
      if-Survives Any (fits_int (scale ops.send_timeout 1000)) _ _
        (then-Survives Any _ _ (set_option_raw-Survives s _ _ _) λ _.
          then-Survives Any _ _ (set_option_raw-Survives s _ _ _) λ _.
            then-Survives Any (get_type ops) _ (get_type-Survives ops) λ type.
              if-Survives Any (is_subscribe type) _ _ (subscribe_all-Survives s ops.subscribe)
                (value-Survives tt))
        (undefined-Survives Any)

  add_endpoint-Survives : (s : Ref) (addr : Bytes) (id : ℤ) → Lasts (add_endpoint nn s addr id)
  unfolding add_endpoint throw_internal
  add_endpoint-Survives s addr id = record { at = λ w. ground arith }

  bind_address-Survives : (s : Ref) (addr : Bytes) → Lasts (bind nn s addr)
  unfolding bind
  bind_address-Survives s addr = record {
    at = λ w.
        (then-Survives Any _ _ (call_lib-Survives _ _) λ id. add_endpoint-Survives s addr id).at w;
  }

  connect-Survives : (s : Ref) (addr : Bytes) → Lasts (connect nn s addr)
  unfolding connect
  connect-Survives s addr = record {
    at = λ w.
        (then-Survives Any _ _ (call_lib-Survives _ _) λ id. add_endpoint-Survives s addr id).at w;
  }

  bind_all-Survives : (s : Ref) (addrs : List Bytes) → Lasts (bind_all nn s addrs)
  unfolding bind_all
  bind_all-Survives s [] = value-Survives tt
  bind_all-Survives s (addr ∷ addrs) =
      then-Survives Any (bind nn s addr) _ (bind_address-Survives s addr)
        λ _. bind_all-Survives s addrs

  connect_all-Survives : (s : Ref) (addrs : List Bytes) → Lasts (connect_all nn s addrs)
  unfolding connect_all
  connect_all-Survives s [] = value-Survives tt
  connect_all-Survives s (addr ∷ addrs) =
      then-Survives Any (connect nn s addr) _ (connect-Survives s addr)
        λ _. connect_all-Survives s addrs

  pub run_socket-Survives : (k : ℕ) (ops : Options) → Lasts (run_socket nn k ops)
  unfolding run_socket connect_socket
  run_socket-Survives k ops =
      then-Survives Any (configure_socket nn this_socket ops) _
        (configure_socket-Survives this_socket ops)
        λ _.
          then-Survives Any _ _
            (then-Survives Any (bind_all nn this_socket ops.bind) _
              (bind_all-Survives this_socket ops.bind)
              λ _. connect_all-Survives this_socket ops.connect)
            λ _.
              then-Survives Any _ _
                (if-Survives Any (eq_ℤ ops.delay minus_one) (pure tt) _ (value-Survives tt)
                  (sleep_for-Survives ops.delay))
                λ _.
                  then-Survives Any (get_type ops) _ (get_type-Survives ops)
                    λ type. run_loop-Survives nn k type ops
