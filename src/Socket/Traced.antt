-- ===== src/Socket/Traced.antt =====
-- The operations that use a socket, all but those in Socket/Transfer: each makes one call, on the
-- socket's descriptor; and a device.
use nanomsgpp.Prelude.{ℕ, refl, Bool-cases, inl, inr, ◌==◌, [], arith}
use nanomsgpp.Prelude.Int.{ℤ, pos, minus_one, eq_ℤ}
use nanomsgpp.Prelude.Bytes.{Bytes}
use nanomsgpp.Memory.{Ptr}
use nanomsgpp.Platform.{Platform}
use nanomsgpp.World.{
  Ref, setsockopt_call, getsockopt_call, bind_call, connect_call, shutdown_call, send_call,
  recv_call, device_call,
}
use nanomsgpp.World.Policy.{Policy}
use nanomsgpp.World.Traces.{IsTraced, bind-IsTraced, pure-IsTraced, if-IsTraced}
use nanomsgpp.World.Traces.Calls.{
  call_lib-IsTraced, call_heap-IsTraced, throw_internal-IsTraced, check_result-IsTraced,
}
use nanomsgpp.Device.{device}
use nanomsgpp.Socket.{
  c_str, set_option_raw, get_option_raw, bind, connect, shutdown, add_endpoint, endpoint_id,
  send_raw, recv_raw,
}

module _ {S : Type 0} (nn : Platform S) (s : Ref) (fd : ℤ) (P : Policy nn) where
  pub set_option_raw-IsTraced :
      (level opt : ℤ) (val : Bytes)
      → P.Allowed (setsockopt_call fd level opt val)
      → IsTraced nn s fd P (set_option_raw nn s level opt val)
  unfolding set_option_raw
  set_option_raw-IsTraced level opt val a = record {
    at = λ w e. rw e (
        (bind-IsTraced nn s fd P _ _
            (call_lib-IsTraced nn s fd P _ _ a (P.setsockopt fd level opt val))
            λ result.
              if-IsTraced nn s fd P (eq_ℤ result (pos 0)) _ _ (pure-IsTraced nn s fd P tt)
                (throw_internal-IsTraced nn s fd P _)).at
          w e);
  }

  pub get_option_raw-IsTraced :
      (level opt : ℤ) (len : ℕ)
      → P.Allowed (getsockopt_call fd level opt)
      → IsTraced nn s fd P (get_option_raw nn s level opt len)
  unfolding get_option_raw
  get_option_raw-IsTraced level opt len a = record {
    at = λ w e. rw e (
        (bind-IsTraced nn s fd P _ _
            (call_lib-IsTraced nn s fd P _ _ a (P.getsockopt fd level opt len))
            λ r.
              if-IsTraced nn s fd P (eq_ℤ r.0 (pos 0)) _ _ (pure-IsTraced nn s fd P r.1)
                (throw_internal-IsTraced nn s fd P _)).at
          w e);
  }

  add_endpoint-IsTraced : (addr : Bytes) (id : ℤ) → IsTraced nn s fd P (add_endpoint nn s addr id)
  unfolding add_endpoint
  add_endpoint-IsTraced addr id =
      if-IsTraced nn s fd P (eq_ℤ minus_one id) _ _ (throw_internal-IsTraced nn s fd P _) (record {
        at = λ w e. record {
          new = [];
          added = refl;
          allowed = tt;
          step = P.stay w.lib;
          same_fds =
              λ r. elim (Bool-cases (r == s)) [ inl here ↦ ground arith | inr away ↦ ground arith ];
        };
      })

  pub bind_address-IsTraced :
      (addr : Bytes) → P.Allowed (bind_call fd (c_str addr)) → IsTraced nn s fd P (bind nn s addr)
  unfolding bind
  bind_address-IsTraced addr a = record {
    at = λ w e. rw e (
        (bind-IsTraced nn s fd P _ _ (call_lib-IsTraced nn s fd P _ _ a (P.bind fd (c_str addr)))
            λ id. add_endpoint-IsTraced addr id).at
          w e);
  }

  pub connect-IsTraced :
      (addr : Bytes)
      → P.Allowed (connect_call fd (c_str addr))
      → IsTraced nn s fd P (connect nn s addr)
  unfolding connect
  connect-IsTraced addr a = record {
    at = λ w e. rw e (
        (bind-IsTraced nn s fd P _ _ (call_lib-IsTraced nn s fd P _ _ a (P.connect fd (c_str addr)))
            λ id. add_endpoint-IsTraced addr id).at
          w e);
  }

  pub shutdown-IsTraced :
      (addr : Bytes)
      → ((id : ℤ) → P.Allowed (shutdown_call fd id))
      → IsTraced nn s fd P (shutdown nn s addr)
  unfolding shutdown
  shutdown-IsTraced addr a = record {
    at = λ w e. rw e (
        let id = endpoint_id nn addr (w.sockets s).d_endpoints in
        (bind-IsTraced nn s fd P _ _ (call_lib-IsTraced nn s fd P _ _ (a id) (P.shutdown fd id))
            λ result.
              if-IsTraced nn s fd P (eq_ℤ minus_one result) _ _
                (throw_internal-IsTraced nn s fd P _) (pure-IsTraced nn s fd P tt)).at
          w e);
  }

  pub send_raw-IsTraced :
      (buf : Ptr) (len : ℕ) (flags : ℤ)
      → P.Allowed (send_call fd)
      → IsTraced nn s fd P (send_raw nn s buf len flags)
  unfolding send_raw
  send_raw-IsTraced buf len flags a = record {
    at = λ w e. rw e (
        (bind-IsTraced nn s fd P _ _ (call_heap-IsTraced nn s fd P _ _ a (P.send fd buf len flags))
            λ nb. check_result-IsTraced nn s fd P nb).at
          w e);
  }

  pub recv_raw-IsTraced :
      (buf : Ptr) (len : ℕ) (flags : ℤ)
      → P.Allowed (recv_call fd)
      → IsTraced nn s fd P (recv_raw nn s buf len flags)
  unfolding recv_raw
  recv_raw-IsTraced buf len flags a = record {
    at = λ w e. rw e (
        (bind-IsTraced nn s fd P _ _ (call_heap-IsTraced nn s fd P _ _ a (P.recv fd buf len flags))
            λ nb. check_result-IsTraced nn s fd P nb).at
          w e);
  }

  -- A device between the socket and another: the call has both descriptors.
  pub device-IsTraced :
      (other : Ref)
      → ((fd' : ℤ) → P.Allowed (device_call fd fd'))
      → IsTraced nn s fd P (device nn s other)
  unfolding device
  device-IsTraced other a = record {
    at = λ w e. rw e (
        let fd' = (w.sockets other).d_socket in
        (bind-IsTraced nn s fd P _ _ (call_lib-IsTraced nn s fd P _ _ (a fd') (P.device fd fd'))
            λ result.
              if-IsTraced nn s fd P (eq_ℤ minus_one result) _ _
                (throw_internal-IsTraced nn s fd P _) (pure-IsTraced nn s fd P tt)).at
          w e);
  }
