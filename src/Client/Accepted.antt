-- ===== src/Client/Accepted.antt =====
-- The set-up of the client's socket while nanomsg takes every option and every address.
pub mod Whole
pub mod Exchange
pub mod Inbox
pub mod Prints
pub mod Sends
pub mod OneMessage
pub mod Steps
pub mod Opening
use nanomsgpp.Prelude.{
  ℕ, ◌≡◌, ◌∙◌, ap, refl, Bool, true, false, List, [], ◌∷◌, if◌then◌else◌, ◌==◌, arith, Bool-cases,
  inl, inr,
}
use nanomsgpp.Prelude.Int.{ℤ, pos, minus_one, eq_ℤ, scale, fits_int}
use nanomsgpp.Prelude.Bytes.{Bytes}
use nanomsgpp.Platform.{Platform}
use nanomsgpp.SocketType.{SocketType, option_value}
use nanomsgpp.World.{
  World, Call, Cmd, ok, pure, ◌>>◌, ◌>>=◌, setsockopt_call, bind_call, connect_call, sleep_call,
  sleep_for,
}
use nanomsgpp.World.Calls.{call_lib, throw_internal}
use nanomsgpp.Socket.{
  c_str, set_option_raw, set_option_int, set_option_string, add_endpoint, bind, connect,
}
use nanomsgpp.Socket.Endpoints.{insert_or_assign}
use nanomsgpp.Socket.Word.{int_bytes}
use nanomsgpp.Client.Options.{Options, get_type}
use nanomsgpp.Client.Options.Names.{type_name, get_type-type_name}
use nanomsgpp.Client.Loops.{
  is_subscribe, subscribe_all, configure_socket, bind_all, connect_all, connect_socket,
}
use nanomsgpp.Client.Main.{this_socket, run_loop, run_socket}
use nanomsgpp.Client.Setup.{subscriptions}

-- nanomsg on a descriptor on which every option, every address and the close succeed. What is seen
-- of its state, for one the messages that wait, is not changed by the set-up.
pub record Accepts {S V : Type 0} (nn : Platform S) (fd : ℤ) (view : S → V) : Type 0 where
  pub takes :
      (level opt : ℤ) (val : Bytes) (l : S)
      → ((nn.nn_setsockopt fd level opt val l).0 ≡ pos 0)
        × (view (nn.nn_setsockopt fd level opt val l).1 ≡ view l)
  pub binds :
      (addr : Bytes) (l : S)
      → (eq_ℤ minus_one (nn.nn_bind fd addr l).0 ≡ false) × (view (nn.nn_bind fd addr l).1 ≡ view l)
  pub connects :
      (addr : Bytes) (l : S)
      → (eq_ℤ minus_one (nn.nn_connect fd addr l).0 ≡ false)
        × (view (nn.nn_connect fd addr l).1 ≡ view l)
  pub closes : (l : S) → eq_ℤ minus_one (nn.nn_close fd l).0 ≡ false

-- The calls for some addresses, the last address's call first, after others.
abbrev pub calls_for : (Bytes → Call) → List Bytes → List Call → List Call
calls_for call [] cs = cs
calls_for call (addr ∷ addrs) cs = calls_for call addrs (call addr ∷ cs)

-- The calls of the set-up, the newest first.
abbrev pub set_up_calls :
    {S : Type 0} → Platform S → ℤ → Options → SocketType → List Call → List Call
set_up_calls nn fd ops t cs =
    let timeouts =
      setsockopt_call fd nn.nn_sol_socket nn.nn_rcvtimeo (int_bytes ops.recv_timeout)
      ∷ setsockopt_call fd nn.nn_sol_socket nn.nn_sndtimeo (int_bytes (scale ops.send_timeout 1000))
      ∷ cs in
    let topics = subscriptions nn fd (if is_subscribe t then ops.subscribe else []) timeouts in
    let bound = calls_for (λ a. bind_call fd (c_str a)) ops.bind topics in
    let connected = calls_for (λ a. connect_call fd (c_str a)) ops.connect bound in
    if eq_ℤ ops.delay minus_one then connected else sleep_call ops.delay ∷ connected

module _ {S V : Type 0} (fd : ℤ) (view : S → V) where
  -- With these calls made, and nothing else that matters changed.
  pub record SetUp (w : World S) (cs : List Call) (u : World S) : Type 0 where
    pub heap : u.heap ≡ w.heap
    pub stdin : u.stdin ≡ w.stdin
    pub out : u.out ≡ w.out
    pub at_fd : (u.sockets this_socket).d_socket ≡ fd
    pub same_view : view u.lib ≡ view w.lib
    pub calls : u.calls ≡ cs
