-- ===== src/Client/Survival.antt =====
-- No loop of the client ends the program.
pub mod Whole
use nanomsgpp.Prelude.{
  Bool-cases, inl, inr, ℕ, zero, suc, ◌≡◌, refl, true, none, some, Option, Bool, List, [], ◌∷◌,
  if◌then◌else◌, ◌||◌, arith,
}
use nanomsgpp.Prelude.Int.{ℤ, eq_ℤ, is_nonneg, minus_one, fits_int, scale}
use nanomsgpp.Prelude.Bytes.{Bytes}
use nanomsgpp.Memory.{c_string, cells_at}
use nanomsgpp.Platform.{Platform}
use nanomsgpp.SocketType.{
  SocketType, publish, push, subscribe, pull, bus, pair, surveyor, request, reply, respondent,
}
use nanomsgpp.World.{Ref, Cmd, pure, ◌>>◌, ◌>>=◌, InternalException, catch_internal, sleep_for}
use nanomsgpp.World.Calls.{throw_internal}
use nanomsgpp.World.Survival.{
  Any, Survives, surviving, bind-Survives, then-Survives, value-Survives, if-Survives,
  undefined-Survives, catch_internal-Survives, finally-Survives, call_lib-Survives,
  sleep_for-Survives,
}
use nanomsgpp.Message.{Part, Message, empty_message, write_string, message_destroy}
use nanomsgpp.Socket.{
  set_option_raw, set_option_int, set_option_string, add_endpoint, bind, connect,
}
use nanomsgpp.Socket.Transfer.{sendmsg, recvmsg}
use nanomsgpp.Socket.Transfer.Survival.{
  OfMalloc, IsReleased, message_destroy-Survives, recvmsg-Survives, write_string-Survives,
  sendmsg-Survives,
}
use nanomsgpp.Client.Options.{
  Options, EchoFormat, get_format, get_type, choose_type, get_data, is_empty,
}
use nanomsgpp.Client.Print.{can_print, print_text, print_parts, print_message}
use nanomsgpp.Client.Loops.{
  is_subscribe, subscribe_all, configure_socket, bind_all, connect_all, connect_socket, send_data,
  report_unsent, try_send, receive_and_print, send_rounds, send_loop, recv_again, recv_loop, pause,
  read_rounds, rw_rounds, rw_loop, resp_again, resp_rounds, resp_loop,
}
use nanomsgpp.Client.Main.{this_socket, if_data, run_loop, run_socket}

print_text-Survives :
    {S : Type 0} (f : EchoFormat) (o : Option Bytes) → Survives Any (print_text {S = S} f o)
unfolding print_text
print_text-Survives f none = undefined-Survives Any
print_text-Survives f (some t) = elim (Bool-cases (can_print f t)) [
  | inl defined ↦ rw defined (record { at = λ w. tt })
  | inr bad ↦ rw bad (undefined-Survives Any)
]

print_parts-Survives :
    {S : Type 0} (f : EchoFormat) (ps : List Part) → Survives Any (print_parts {S = S} f ps)
unfolding print_parts
print_parts-Survives f [] = record { at = λ w. tt }
print_parts-Survives f (p ∷ ps) = record {
  at = λ w.
      (then-Survives Any (print_text f (c_string (cells_at w.heap p.d_msg))) _
          (print_text-Survives f _) (λ _. print_parts-Survives f ps)).at
        w;
}

module _ {S : Type 0} (nn : Platform S) where
  abbrev Lasts : {A : Type 0} → Cmd S A → Type 0
  Lasts m = Survives Any m

  receive_and_print-Survives : (s : Ref) (ops : Options) → Lasts (receive_and_print nn s ops)
  unfolding receive_and_print print_message
  receive_and_print-Survives s ops =
      bind-Survives OfMalloc Any (recvmsg nn s 1 true) _ (recvmsg-Survives nn s true) λ m all.
        finally-Survives Any _ (message_destroy nn m)
          (print_parts-Survives (get_format ops) m.d_parts) (message_destroy-Survives nn m all)

  report_unsent-Survives : (e : InternalException) → Lasts (report_unsent nn e)
  unfolding report_unsent
  report_unsent-Survives e = record { at = λ w. ground arith }

  try_send-Survives : (s : Ref) (payload : Bytes) → Lasts (try_send nn s payload)
  unfolding try_send send_data
  try_send-Survives s payload =
      catch_internal-Survives Any (send_data nn s payload) _
        (then-Survives Any (write_string nn empty_message _ payload) _
          (write_string-Survives nn _ payload)
          λ m.
            bind-Survives IsReleased Any (sendmsg nn s m true) _ (sendmsg-Survives nn s m true)
              λ r all. message_destroy-Survives nn r.1 all)
        report_unsent-Survives

  get_data-Survives : (ops : Options) → Lasts (get_data nn ops)
  unfolding get_data
  get_data-Survives ops = record { at = λ w. ground arith }

  send_rounds-Survives :
      (k : ℕ) (s : Ref) (ops : Options) (payload : Bytes) → Lasts (send_rounds nn k s ops payload)
  unfolding send_rounds
  send_rounds-Survives zero s ops payload = record { at = λ w. tt }
  send_rounds-Survives (suc k) s ops payload =
      then-Survives Any (try_send nn s payload) _ (try_send-Survives s payload) λ _.
        if-Survives Any (is_nonneg ops.interval) _ _
          (then-Survives Any (sleep_for ops.interval) _ (sleep_for-Survives ops.interval)
            λ _. send_rounds-Survives k s ops payload)
          (value-Survives tt)

  recv_again-Survives : (e : InternalException) → Lasts (recv_again nn e)
  unfolding recv_again
  recv_again-Survives e = record { at = λ w. ground arith }

  received-Survives : (s : Ref) (ops : Options) → Lasts (receive_and_print nn s ops >> pure true)
  received-Survives s ops =
      then-Survives Any (receive_and_print nn s ops) _ (receive_and_print-Survives s ops)
        λ _. value-Survives true

  recv_loop-Survives : (k : ℕ) (s : Ref) (ops : Options) → Lasts (recv_loop nn k s ops)
  unfolding recv_loop
  recv_loop-Survives zero s ops = record { at = λ w. tt }
  recv_loop-Survives (suc k) s ops =
      then-Survives Any _ _
        (catch_internal-Survives Any _ (recv_again nn) (received-Survives s ops)
          recv_again-Survives)
        λ again. if-Survives Any again _ _ (recv_loop-Survives k s ops) (value-Survives tt)

  pause-Survives : (ops : Options) (e : InternalException) → Lasts (pause nn ops e)
  unfolding pause
  pause-Survives ops e = record { at = λ w. ground arith }

  read_rounds-Survives : (k : ℕ) (s : Ref) (ops : Options) → Lasts (read_rounds nn k s ops)
  unfolding read_rounds
  read_rounds-Survives zero s ops = record { at = λ w. tt }
  read_rounds-Survives (suc k) s ops =
      then-Survives Any _ _
        (catch_internal-Survives Any _ (pause nn ops) (receive_and_print-Survives s ops)
          (pause-Survives ops))
        λ _. read_rounds-Survives k s ops

  rw_rounds-Survives :
      (k : ℕ) (s : Ref) (ops : Options) (payload : Bytes) → Lasts (rw_rounds nn k s ops payload)
  unfolding rw_rounds
  rw_rounds-Survives zero s ops payload = record { at = λ w. tt }
  rw_rounds-Survives (suc k) s ops payload =
      then-Survives Any (try_send nn s payload) _ (try_send-Survives s payload) λ _.
        then-Survives Any _ _
          (if-Survives Any (is_nonneg ops.interval) (pure tt) _ (value-Survives tt)
            (recv_loop-Survives k s ops))
          λ _.
            then-Survives Any (read_rounds nn k s ops) _ (read_rounds-Survives k s ops)
              λ _. rw_rounds-Survives k s ops payload

  resp_again-Survives : (e : InternalException) → Lasts (resp_again nn e)
  unfolding resp_again
  resp_again-Survives e = record { at = λ w. ground arith }

  resp_rounds-Survives :
      (k : ℕ) (s : Ref) (ops : Options) (payload : Bytes) → Lasts (resp_rounds nn k s ops payload)
  unfolding resp_rounds
  resp_rounds-Survives zero s ops payload = record { at = λ w. tt }
  resp_rounds-Survives (suc k) s ops payload =
      then-Survives Any _ _
        (catch_internal-Survives Any _ (resp_again nn) (received-Survives s ops)
          resp_again-Survives)
        λ came.
          then-Survives Any _ _
            (if-Survives Any came _ _ (try_send-Survives s payload) (value-Survives tt))
            λ _. resp_rounds-Survives k s ops payload

  send_loop-Survives : (k : ℕ) (s : Ref) (ops : Options) → Lasts (send_loop nn k s ops)
  unfolding send_loop
  send_loop-Survives k s ops =
      then-Survives Any (get_data nn ops) _ (get_data-Survives ops) (send_rounds-Survives k s ops)

  rw_loop-Survives : (k : ℕ) (s : Ref) (ops : Options) → Lasts (rw_loop nn k s ops)
  unfolding rw_loop
  rw_loop-Survives k s ops =
      then-Survives Any (get_data nn ops) _ (get_data-Survives ops) (rw_rounds-Survives k s ops)

  resp_loop-Survives : (k : ℕ) (s : Ref) (ops : Options) → Lasts (resp_loop nn k s ops)
  unfolding resp_loop
  resp_loop-Survives k s ops =
      then-Survives Any (get_data nn ops) _ (get_data-Survives ops) (resp_rounds-Survives k s ops)

  if_data-Survives :
      (k : ℕ) (ops : Options) (loop : Cmd S (Unit {0})) → Lasts loop → Lasts (if_data nn k ops loop)
  unfolding if_data
  if_data-Survives k ops loop h =
      then-Survives Any (get_data nn ops) _ (get_data-Survives ops)
        λ payload. if-Survives Any (is_empty payload) _ _ (recv_loop-Survives k this_socket ops) h

  pub run_loop-Survives : (k : ℕ) (t : SocketType) (ops : Options) → Lasts (run_loop nn k t ops)
  unfolding run_loop
  run_loop-Survives k publish ops = send_loop-Survives k this_socket ops
  run_loop-Survives k push ops = send_loop-Survives k this_socket ops
  run_loop-Survives k subscribe ops = recv_loop-Survives k this_socket ops
  run_loop-Survives k pull ops = recv_loop-Survives k this_socket ops
  run_loop-Survives k bus ops = if_data-Survives k ops _ (rw_loop-Survives k this_socket ops)
  run_loop-Survives k pair ops = if_data-Survives k ops _ (rw_loop-Survives k this_socket ops)
  run_loop-Survives k surveyor ops = rw_loop-Survives k this_socket ops
  run_loop-Survives k request ops = rw_loop-Survives k this_socket ops
  run_loop-Survives k reply ops = if_data-Survives k ops _ (resp_loop-Survives k this_socket ops)
  run_loop-Survives k respondent ops =
      if_data-Survives k ops _ (resp_loop-Survives k this_socket ops)
