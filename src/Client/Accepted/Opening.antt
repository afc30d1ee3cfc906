-- ===== src/Client/Accepted/Opening.antt =====
-- The whole set-up of the client's socket.
use nanomsgpp.Prelude.{ℕ, ◌≡◌, ◌∙◌, refl, Bool, true, false, List, [], ◌∷◌, if◌then◌else◌}
use nanomsgpp.Prelude.Int.{ℤ, minus_one, eq_ℤ, scale, fits_int}
use nanomsgpp.Prelude.Bytes.{Bytes}
use nanomsgpp.Platform.{Platform}
use nanomsgpp.SocketType.{SocketType, option_value}
use nanomsgpp.World.{World, Call, Cmd, pure, ◌>>=◌, setsockopt_call, bind_call, connect_call}
use nanomsgpp.Socket.{c_str, set_option_int}
use nanomsgpp.Socket.Word.{int_bytes}
use nanomsgpp.Client.Options.{Options, get_type}
use nanomsgpp.Client.Options.Names.{type_name, get_type-type_name}
use nanomsgpp.Client.Loops.{is_subscribe, subscribe_all, configure_socket, connect_socket}
use nanomsgpp.Client.Main.{this_socket, run_loop, run_socket}
use nanomsgpp.Client.Setup.{subscriptions}
use nanomsgpp.Client.Accepted.{Accepts, SetUp, calls_for, set_up_calls}
use nanomsgpp.Client.Accepted.Steps.{
  Goes, set_option_raw-Goes, subscribe_all-Goes, connect_all-Goes, sleep_for-Goes, bind_all-Goes,
  pure-Goes, then-Goes, if-Goes,
}

module _ {S V : Type 0} (nn : Platform S) (fd : ℤ) (view : S → V)
    (accepts : Accepts nn fd view) where
  module _ (ops : Options) (t : SocketType) (named : ops.type ≡ type_name t)
      (fits : fits_int (scale ops.send_timeout 1000) ≡ true) where
    abbrev topics : List Bytes
    topics = if is_subscribe t then ops.subscribe else []

    chosen-Goes :
        (b : Bool)
        → Goes nn fd view accepts
            (if b then subscribe_all nn this_socket ops.subscribe else pure tt)
            (subscriptions nn fd (if b then ops.subscribe else []))
    chosen-Goes true = subscribe_all-Goes nn fd view accepts ops.subscribe
    chosen-Goes false = (pure-Goes nn fd view accepts)

    choosing-Goes :
        (k : SocketType → Cmd S (Unit {0})) (f : List Call → List Call)
        → Goes nn fd view accepts (k t) f
        → Goes nn fd view accepts (get_type ops >>= k) f
    choosing-Goes k f h = record {
      at = λ w e. let (u, run, a) = h.at w e in (u, rw (get_type-type_name ops t w named) run, a);
    }

    abbrev timeouts : List Call → List Call
    timeouts cs =
        setsockopt_call fd nn.nn_sol_socket nn.nn_rcvtimeo (int_bytes ops.recv_timeout)
        ∷ setsockopt_call fd nn.nn_sol_socket nn.nn_sndtimeo
            (int_bytes (scale ops.send_timeout 1000))
        ∷ cs

    configure_socket-Goes :
        Goes nn fd view accepts
          (configure_socket nn this_socket ops)
          (λ cs. subscriptions nn fd topics (timeouts cs))
    unfolding configure_socket set_option_int option_value
    configure_socket-Goes = rw fits (
        then-Goes nn fd view accepts _ _ _ _ (set_option_raw-Goes nn fd view accepts _ _ _) (
          then-Goes nn fd view accepts _ _ _ (subscriptions nn fd topics)
            (set_option_raw-Goes nn fd view accepts _ _ _)
            (choosing-Goes
              (λ type.
                if is_subscribe type then subscribe_all nn this_socket ops.subscribe else pure tt)
              (subscriptions nn fd topics) (chosen-Goes (is_subscribe t)))))

    connect_socket-Goes : Goes nn fd view accepts (connect_socket nn this_socket ops) (λ cs.
        calls_for
          (λ a. connect_call fd (c_str a))
          ops.connect
          (calls_for (λ a. bind_call fd (c_str a)) ops.bind cs))
    unfolding connect_socket
    connect_socket-Goes =
        then-Goes nn fd view accepts _ _ _ _ (bind_all-Goes nn fd view accepts ops.bind)
          (connect_all-Goes nn fd view accepts ops.connect)

    -- The socket is set up, and the loop for the type begins.
    pub run_socket-SetUp :
        (k : ℕ) (w : World S)
        → (w.sockets this_socket).d_socket ≡ fd
        → (u : World S) × (run_socket nn k ops w ≡ run_loop nn k t ops u)
          × SetUp fd view w (set_up_calls nn fd ops t w.calls) u
    unfolding run_socket
    run_socket-SetUp k w e =
        let (u1, first, a) = configure_socket-Goes.at w e in
        let (u2, second, b) = connect_socket-Goes.at u1 a.at_fd in
        let (u, third, c) =
          (if-Goes nn fd view accepts (eq_ℤ ops.delay minus_one) _ _ _ _
              (pure-Goes nn fd view accepts) (sleep_for-Goes nn fd view accepts ops.delay)).at
            u2 b.at_fd in
        (
          u,
          rw (first, second, third, get_type-type_name ops t u named) refl,
          record {
            heap = c.heap ∙ b.heap ∙ a.heap;
            stdin = c.stdin ∙ b.stdin ∙ a.stdin;
            out = c.out ∙ b.out ∙ a.out;
            at_fd = c.at_fd;
            same_view = c.same_view ∙ b.same_view ∙ a.same_view;
            calls = rw (c.calls, b.calls, a.calls) refl;
          },
        )
