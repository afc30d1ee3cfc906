-- ===== src/Client/Accepted/Steps.antt =====
-- Commands of the set-up that return, and the calls that they add.
use nanomsgpp.Prelude.{◌≡◌, ◌∙◌, ap, refl, Bool, true, false, List, [], ◌∷◌, if◌then◌else◌, ◌==◌}
use nanomsgpp.Prelude.Int.{ℤ, minus_one, eq_ℤ}
use nanomsgpp.Prelude.Bytes.{Bytes}
use nanomsgpp.Platform.{Platform}
use nanomsgpp.SocketType.{option_value}
use nanomsgpp.World.{
  World, Call, Cmd, ok, pure, ◌>>◌, setsockopt_call, bind_call, connect_call, sleep_call, sleep_for,
}
use nanomsgpp.World.Calls.{call_lib}
use nanomsgpp.Socket.{c_str, set_option_raw, set_option_string, add_endpoint, bind, connect}
use nanomsgpp.Socket.Endpoints.{insert_or_assign}
use nanomsgpp.Client.Loops.{subscribe_all, bind_all, connect_all}
use nanomsgpp.Client.Main.{this_socket}
use nanomsgpp.Client.Setup.{subscriptions}
use nanomsgpp.Client.Accepted.{Accepts, SetUp, calls_for}

module _ {S V : Type 0} (nn : Platform S) (fd : ℤ) (view : S → V)
    (accepts : Accepts nn fd view) where
  -- A command that returns, and adds these calls to those made before.
  pub record Goes (m : Cmd S (Unit {0})) (add : List Call → List Call) : Type 0 where
    pub at :
        (w : World S)
        → (w.sockets this_socket).d_socket ≡ fd
        → (u : World S) × (m w ≡ ok tt u) × SetUp fd view w (add w.calls) u

  pub then-Goes :
      (m k : Cmd S (Unit {0})) (f g : List Call → List Call)
      → Goes m f
      → Goes k g
      → Goes (m >> k) (λ cs. g (f cs))
  then-Goes m k f g h next = record {
    at = λ w e.
        let (u, first, a) = h.at w e in
        let (v, second, b) = next.at u a.at_fd in
        (
          v,
          rw first second,
          record {
            heap = b.heap ∙ a.heap;
            stdin = b.stdin ∙ a.stdin;
            out = b.out ∙ a.out;
            at_fd = b.at_fd;
            same_view = b.same_view ∙ a.same_view;
            calls = b.calls ∙ ap g a.calls;
          },
        );
  }

  pub pure-Goes : Goes (pure tt) (λ cs. cs)
  pure-Goes = record {
    at = λ w e. (
      w,
      refl,
      record { heap = refl; stdin = refl; out = refl; at_fd = e; same_view = refl; calls = refl },
    );
  }

  pub if-Goes :
      (b : Bool) (m k : Cmd S (Unit {0})) (f g : List Call → List Call)
      → Goes m f
      → Goes k g
      → Goes (if b then m else k) (λ cs. if b then f cs else g cs)
  if-Goes true m k f g h next = h
  if-Goes false m k f g h next = next

  pub sleep_for-Goes : (n : ℤ) → Goes (sleep_for n) (λ cs. sleep_call n ∷ cs)
  sleep_for-Goes n = record {
    at = λ w e. (
      _,
      refl,
      record { heap = refl; stdin = refl; out = refl; at_fd = e; same_view = refl; calls = refl },
    );
  }

  pub set_option_raw-Goes :
      (level opt : ℤ) (val : Bytes)
      → Goes
          (set_option_raw nn this_socket level opt val)
          (λ cs. setsockopt_call fd level opt val ∷ cs)
  unfolding set_option_raw call_lib
  set_option_raw-Goes level opt val = record {
    at = λ w e.
        let (zeroth, same) = accepts.takes level opt val w.lib in
        (
          record w {
            lib = (nn.nn_setsockopt fd level opt val w.lib).1;
            calls = setsockopt_call fd level opt val ∷ w.calls;
          },
          rw e (rw zeroth refl),
          record {
            heap = refl;
            stdin = refl;
            out = refl;
            at_fd = e;
            same_view = same;
            calls = refl;
          },
        );
  }

  pub subscribe_all-Goes :
      (topics : List Bytes)
      → Goes (subscribe_all nn this_socket topics) (subscriptions nn fd topics)
  unfolding subscribe_all set_option_string option_value
  subscribe_all-Goes [] = pure-Goes
  subscribe_all-Goes (topic ∷ topics) =
      then-Goes _ (subscribe_all nn this_socket topics) _ (subscriptions nn fd topics)
        (set_option_raw-Goes nn.nn_sub nn.nn_sub_subscribe topic) (subscribe_all-Goes topics)

  -- The identifier of an address is remembered.
  remembered :
      (addr : Bytes) (id : ℤ) (w : World S)
      → eq_ℤ minus_one id ≡ false
      → (w.sockets this_socket).d_socket ≡ fd
      → (u : World S) × (add_endpoint nn this_socket addr id w ≡ ok tt u)
        × SetUp fd view w w.calls u
  unfolding add_endpoint
  remembered addr id w given e = (
    record w {
      sockets = λ q.
          if q == this_socket
          then record (w.sockets this_socket) {
            d_endpoints = insert_or_assign addr id (w.sockets this_socket).d_endpoints;
          }
          else w.sockets q;
    },
    rw given refl,
    record { heap = refl; stdin = refl; out = refl; at_fd = e; same_view = refl; calls = refl },
  )

  pub bind-Goes :
      (addr : Bytes) → Goes (bind nn this_socket addr) (λ cs. bind_call fd (c_str addr) ∷ cs)
  unfolding bind call_lib
  bind-Goes addr = record {
    at = λ w e.
        let r = nn.nn_bind fd (c_str addr) w.lib in
        let (given, same) = accepts.binds (c_str addr) w.lib in
        let (u, run, a) =
          remembered addr r.0 (record w { lib = r.1; calls = bind_call fd (c_str addr) ∷ w.calls })
            given e in
        (
          u,
          rw e run,
          record {
            heap = a.heap;
            stdin = a.stdin;
            out = a.out;
            at_fd = a.at_fd;
            same_view = a.same_view ∙ same;
            calls = a.calls;
          },
        );
  }

  pub connect-Goes :
      (addr : Bytes) → Goes (connect nn this_socket addr) (λ cs. connect_call fd (c_str addr) ∷ cs)
  unfolding connect call_lib
  connect-Goes addr = record {
    at = λ w e.
        let r = nn.nn_connect fd (c_str addr) w.lib in
        let (given, same) = accepts.connects (c_str addr) w.lib in
        let (u, run, a) =
          remembered addr r.0
            (record w { lib = r.1; calls = connect_call fd (c_str addr) ∷ w.calls }) given e in
        (
          u,
          rw e run,
          record {
            heap = a.heap;
            stdin = a.stdin;
            out = a.out;
            at_fd = a.at_fd;
            same_view = a.same_view ∙ same;
            calls = a.calls;
          },
        );
  }

  pub bind_all-Goes :
      (addrs : List Bytes)
      → Goes (bind_all nn this_socket addrs) (calls_for (λ a. bind_call fd (c_str a)) addrs)
  unfolding bind_all
  bind_all-Goes [] = pure-Goes
  bind_all-Goes (addr ∷ addrs) =
      then-Goes (bind nn this_socket addr) (bind_all nn this_socket addrs) _
        (calls_for (λ a. bind_call fd (c_str a)) addrs) (bind-Goes addr) (bind_all-Goes addrs)

  pub connect_all-Goes :
      (addrs : List Bytes)
      → Goes (connect_all nn this_socket addrs) (calls_for (λ a. connect_call fd (c_str a)) addrs)
  unfolding connect_all
  connect_all-Goes [] = pure-Goes
  connect_all-Goes (addr ∷ addrs) =
      then-Goes (connect nn this_socket addr) (connect_all nn this_socket addrs) _
        (calls_for (λ a. connect_call fd (c_str a)) addrs) (connect-Goes addr)
        (connect_all-Goes addrs)
