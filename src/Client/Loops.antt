-- ===== src/Client/Loops.antt =====
-- The socket set-up and the four loops of client/nanomsgpp.cpp. A loop takes the number of rounds
-- that it may make; when they are used up it is `running`.
use nanomsgpp.Prelude.{ℕ, zero, suc, Bool, true, false, List, [], ◌∷◌, if◌then◌else◌, ◌||◌}
use nanomsgpp.Prelude.Int.{scale, fits_int, is_nonneg, eq_ℤ}
use nanomsgpp.Prelude.Bytes.{Bytes, codes}
use nanomsgpp.Platform.{Platform}
use nanomsgpp.SocketType.{SocketType, subscribe, send_timeout, receive_timeout, sub_subscribe}
use nanomsgpp.World.{
  Ref, Cmd, pure, throw, ◌>>=◌, ◌>>◌, undefined_behaviour, still_running, catch_internal, finally,
  put_err, sleep_for, InternalException, internal_exception,
}
use nanomsgpp.Message.{empty_message, write_string, message_destroy}
use nanomsgpp.Socket.{set_option_int, set_option_string, bind, connect}
use nanomsgpp.Socket.Transfer.{sendmsg, recvmsg}
use nanomsgpp.Client.Options.{Options, get_type, get_data}
use nanomsgpp.Client.Print.{print_message}

abbrev pub is_subscribe : SocketType → Bool
is_subscribe subscribe = true
is_subscribe _ = false

module _ {S : Type 0} (nn : Platform S) where
  unfoldable pub subscribe_all : Ref → List Bytes → Cmd S (Unit {0})
  subscribe_all s [] = pure tt
  subscribe_all s (topic ∷ topics) =
      set_option_string nn s nn.nn_sub sub_subscribe topic >> subscribe_all s topics

  -- `configure_socket`; the product overflows an `int` outside its range.
  unfoldable pub configure_socket : Ref → Options → Cmd S (Unit {0})
  unfolding subscribe_all get_type
  configure_socket s ops =
      if fits_int (scale ops.send_timeout 1000)
      then (do
        set_option_int nn s nn.nn_sol_socket send_timeout (scale ops.send_timeout 1000)
        set_option_int nn s nn.nn_sol_socket receive_timeout ops.recv_timeout
        type ← get_type ops
        if is_subscribe type then subscribe_all s ops.subscribe else pure tt)
      else undefined_behaviour

  unfoldable pub bind_all : Ref → List Bytes → Cmd S (Unit {0})
  bind_all s [] = pure tt
  bind_all s (addr ∷ addrs) = bind nn s addr >> bind_all s addrs

  unfoldable pub connect_all : Ref → List Bytes → Cmd S (Unit {0})
  connect_all s [] = pure tt
  connect_all s (addr ∷ addrs) = connect nn s addr >> connect_all s addrs

  -- `connect_socket`.
  unfoldable pub connect_socket : Ref → Options → Cmd S (Unit {0})
  unfolding bind_all connect_all
  connect_socket s ops = do bind_all s ops.bind; connect_all s ops.connect

  -- `nn::message m; m << data; socket.sendmsg(std::move(m));` and the destructor of `m`. Where
  -- `sendmsg` throws, `hand_over` has left `m` without a part to destroy.
  unfoldable pub send_data : Ref → Bytes → Cmd S (Unit {0})
  send_data s payload = do
    m ← write_string nn empty_message (nn.string_address payload) payload
    r ← sendmsg nn s m true
    message_destroy nn r.1

  -- The handler of a send: EAGAIN is reported, any other error thrown on.
  unfoldable pub report_unsent : InternalException → Cmd S (Unit {0})
  report_unsent e =
      if eq_ℤ e.d_error nn.eagain
      then put_err (codes "Message not sent (EAGAIN)\n")
      else throw (internal_exception e)

  unfoldable pub try_send : Ref → Bytes → Cmd S (Unit {0})
  unfolding report_unsent
  try_send s payload = catch_internal (send_data s payload) report_unsent

  -- `m = socket.recvmsg(1); print_message(m, ops);` and the destructor of `m`.
  unfoldable pub receive_and_print : Ref → Options → Cmd S (Unit {0})
  receive_and_print s ops = do
    m ← recvmsg nn s 1 true
    finally (print_message m ops) (message_destroy nn m)

  abbrev is_end : InternalException → Bool
  is_end e = eq_ℤ e.d_error nn.etimedout || eq_ℤ e.d_error nn.efsm

  unfoldable pub send_rounds : ℕ → Ref → Options → Bytes → Cmd S (Unit {0})
  send_rounds zero s ops payload = still_running
  send_rounds (suc k) s ops payload = do
    try_send s payload
    if is_nonneg ops.interval
        then (do sleep_for ops.interval; send_rounds k s ops payload)
        else pure tt

  -- `send_loop`.
  unfoldable pub send_loop : ℕ → Ref → Options → Cmd S (Unit {0})
  unfolding send_rounds
  send_loop k s ops = do payload ← get_data nn ops; send_rounds k s ops payload

  -- The handler in `recv_loop`: whether the loop goes on.
  unfoldable pub recv_again : InternalException → Cmd S Bool
  recv_again e =
      if eq_ℤ e.d_error nn.eagain
      then pure true
      else if is_end e
      then pure false
      else throw (internal_exception e)

  -- `recv_loop`.
  unfoldable pub recv_loop : ℕ → Ref → Options → Cmd S (Unit {0})
  unfolding recv_again
  recv_loop zero s ops = still_running
  recv_loop (suc k) s ops = do
    again ← catch_internal (receive_and_print s ops >> pure true) recv_again
    if again then recv_loop k s ops else pure tt

  -- The handler of the inner loop of `rw_loop`, which ignores every other error.
  unfoldable pub pause : Options → InternalException → Cmd S (Unit {0})
  pause ops e =
      if eq_ℤ e.d_error nn.eagain
      then pure tt
      else if is_end e
      then sleep_for ops.interval
      else pure tt

  -- The inner `while (true)` of `rw_loop`.
  unfoldable pub read_rounds : ℕ → Ref → Options → Cmd S (Unit {0})
  unfolding pause
  read_rounds zero s ops = still_running
  read_rounds (suc k) s ops = do
    catch_internal (receive_and_print s ops) (pause ops)
    read_rounds k s ops

  unfoldable pub rw_rounds : ℕ → Ref → Options → Bytes → Cmd S (Unit {0})
  unfolding read_rounds recv_loop
  rw_rounds zero s ops payload = still_running
  rw_rounds (suc k) s ops payload = do
    try_send s payload
    if is_nonneg ops.interval then pure tt else recv_loop k s ops
    read_rounds k s ops
    rw_rounds k s ops payload

  -- `rw_loop`.
  unfoldable pub rw_loop : ℕ → Ref → Options → Cmd S (Unit {0})
  unfolding rw_rounds
  rw_loop k s ops = do payload ← get_data nn ops; rw_rounds k s ops payload

  -- The handler of the first half of `resp_loop`: whether a message came.
  unfoldable pub resp_again : InternalException → Cmd S Bool
  resp_again e = if eq_ℤ e.d_error nn.eagain then pure false else throw (internal_exception e)

  unfoldable pub resp_rounds : ℕ → Ref → Options → Bytes → Cmd S (Unit {0})
  unfolding resp_again
  resp_rounds zero s ops payload = still_running
  resp_rounds (suc k) s ops payload = do
    came ← catch_internal (receive_and_print s ops >> pure true) resp_again
    if came then try_send s payload else pure tt
    resp_rounds k s ops payload

  -- `resp_loop`.
  unfoldable pub resp_loop : ℕ → Ref → Options → Cmd S (Unit {0})
  unfolding resp_rounds
  resp_loop k s ops = do payload ← get_data nn ops; resp_rounds k s ops payload
