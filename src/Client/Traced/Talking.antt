-- ===== src/Client/Traced/Talking.antt =====
-- The loops of the client receive, send and sleep.
use nanomsgpp.Prelude.{ℕ, zero, suc, refl, true, List, if◌then◌else◌, arith}
use nanomsgpp.Prelude.Int.{ℤ, is_nonneg}
use nanomsgpp.Prelude.Bytes.{Bytes}
use nanomsgpp.Platform.{Platform, Iovec}
use nanomsgpp.SocketType.{
  SocketType, publish, push, subscribe, pull, bus, pair, surveyor, request, reply, respondent,
}
use nanomsgpp.World.{
  Ref, Cmd, pure, ◌>>◌, sendmsg_call, recvmsg_call, sleep_call, InternalException, catch_internal,
  sleep_for,
}
use nanomsgpp.World.Policy.{Policy}
use nanomsgpp.World.Traces.{
  IsTraced, Trace-call, bind-IsTraced, pure-IsTraced, if-IsTraced, catch_internal-IsTraced,
}
use nanomsgpp.World.Traces.Calls.{traced, quiet-IsTraced}
use nanomsgpp.Message.{empty_message, write_string}
use nanomsgpp.Message.Traced.{message_destroy-IsTraced, write_string-IsTraced}
use nanomsgpp.Socket.Transfer.{sendmsg}
use nanomsgpp.Socket.Transfer.Traced.{sendmsg-IsTraced}
use nanomsgpp.Client.Options.{Options, get_data}
use nanomsgpp.Client.Loops.{
  receive_and_print, recv_loop, pause, read_rounds, rw_rounds, rw_loop, report_unsent, try_send,
  send_data, send_rounds, send_loop, resp_again, resp_rounds, resp_loop,
}
use nanomsgpp.Client.Main.{this_socket, if_data, run_loop}
use nanomsgpp.Client.Options.{is_empty}
use nanomsgpp.Client.Traced.{receive_and_print-IsTraced, get_data-IsTraced, recv_loop-IsTraced}

-- The calls of the loops are allowed.
pub record TalkAllowed {S : Type 0} (nn : Platform S) (fd : ℤ) (P : Policy nn) : Type 0 where
  pub recvs : (lens : List ℕ) (flags : ℤ) → P.Allowed (recvmsg_call fd lens flags)
  pub sends : (iov : List Iovec) (flags : ℤ) → P.Allowed (sendmsg_call fd iov flags)
  pub sleeps : (n : ℤ) → P.Allowed (sleep_call n)

module _ {S : Type 0} (nn : Platform S) (s : Ref) (fd : ℤ) (P : Policy nn)
    (talk : TalkAllowed nn fd P) where
  pub sleep_for-IsTraced : (n : ℤ) → IsTraced nn s fd P (sleep_for n)
  sleep_for-IsTraced n = record {
    at = λ w e. Trace-call nn s fd P (sleep_call n) w _ (talk.sleeps n) refl refl (P.stay w.lib);
  }

  report_unsent-IsTraced : (e : InternalException) → IsTraced nn s fd P (report_unsent nn e)
  unfolding report_unsent
  report_unsent-IsTraced e = quiet-IsTraced nn s fd P _ λ w. ground arith

  try_send-IsTraced : (payload : Bytes) → IsTraced nn s fd P (try_send nn s payload)
  unfolding try_send send_data
  try_send-IsTraced payload =
      catch_internal-IsTraced nn s fd P _ _
        (bind-IsTraced nn s fd P (write_string nn empty_message _ payload) _
          (write_string-IsTraced nn s fd P _ _ payload)
          λ m.
            bind-IsTraced nn s fd P (sendmsg nn s m true) _
              (sendmsg-IsTraced nn s fd P m true talk.sends)
              λ r. message_destroy-IsTraced nn s fd P r.1)
        report_unsent-IsTraced

  send_rounds-IsTraced :
      (k : ℕ) (ops : Options) (payload : Bytes)
      → IsTraced nn s fd P (send_rounds nn k s ops payload)
  unfolding send_rounds
  send_rounds-IsTraced zero ops payload = quiet-IsTraced nn s fd P _ λ w. (refl, refl, refl)
  send_rounds-IsTraced (suc k) ops payload =
      bind-IsTraced nn s fd P (try_send nn s payload) _ (try_send-IsTraced payload) λ _.
        if-IsTraced nn s fd P (is_nonneg ops.interval) _ _
          (bind-IsTraced nn s fd P (sleep_for ops.interval) _ (sleep_for-IsTraced ops.interval)
            λ _. send_rounds-IsTraced k ops payload)
          (pure-IsTraced nn s fd P tt)

  pause-IsTraced : (ops : Options) (e : InternalException) → IsTraced nn s fd P (pause nn ops e)
  unfolding pause
  pause-IsTraced ops e = search (traced, sleep_for-IsTraced) depth 8

  read_rounds-IsTraced : (k : ℕ) (ops : Options) → IsTraced nn s fd P (read_rounds nn k s ops)
  unfolding read_rounds
  read_rounds-IsTraced zero ops = quiet-IsTraced nn s fd P _ λ w. (refl, refl, refl)
  read_rounds-IsTraced (suc k) ops =
      bind-IsTraced nn s fd P (catch_internal (receive_and_print nn s ops) (pause nn ops)) _
        (catch_internal-IsTraced nn s fd P _ _ (receive_and_print-IsTraced nn s fd P ops talk.recvs)
          (pause-IsTraced ops))
        λ _. read_rounds-IsTraced k ops

  rw_rounds-IsTraced :
      (k : ℕ) (ops : Options) (payload : Bytes) → IsTraced nn s fd P (rw_rounds nn k s ops payload)
  unfolding rw_rounds
  rw_rounds-IsTraced zero ops payload = quiet-IsTraced nn s fd P _ λ w. (refl, refl, refl)
  rw_rounds-IsTraced (suc k) ops payload =
      bind-IsTraced nn s fd P (try_send nn s payload) _ (try_send-IsTraced payload) λ _.
        bind-IsTraced nn s fd P (if is_nonneg ops.interval then pure tt else recv_loop nn k s ops) _
          (if-IsTraced nn s fd P _ _ _ (pure-IsTraced nn s fd P tt)
            (recv_loop-IsTraced nn s fd P k ops talk.recvs))
          λ _.
            bind-IsTraced nn s fd P (read_rounds nn k s ops) _ (read_rounds-IsTraced k ops)
              λ _. rw_rounds-IsTraced k ops payload

  resp_again-IsTraced : (e : InternalException) → IsTraced nn s fd P (resp_again nn e)
  unfolding resp_again
  resp_again-IsTraced e = search traced depth 8

  resp_rounds-IsTraced :
      (k : ℕ) (ops : Options) (payload : Bytes)
      → IsTraced nn s fd P (resp_rounds nn k s ops payload)
  unfolding resp_rounds
  resp_rounds-IsTraced zero ops payload = quiet-IsTraced nn s fd P _ λ w. (refl, refl, refl)
  resp_rounds-IsTraced (suc k) ops payload =
      bind-IsTraced nn s fd P
        (catch_internal (receive_and_print nn s ops >> pure true) (resp_again nn)) _
        (catch_internal-IsTraced nn s fd P _ _
          (bind-IsTraced nn s fd P (receive_and_print nn s ops) _
            (receive_and_print-IsTraced nn s fd P ops talk.recvs) λ _. pure-IsTraced nn s fd P true)
          resp_again-IsTraced)
        λ came.
          bind-IsTraced nn s fd P (if came then try_send nn s payload else pure tt) _
            (if-IsTraced nn s fd P came _ _ (try_send-IsTraced payload)
              (pure-IsTraced nn s fd P tt))
            λ _. resp_rounds-IsTraced k ops payload

  send_loop-IsTraced : (k : ℕ) (ops : Options) → IsTraced nn s fd P (send_loop nn k s ops)
  unfolding send_loop
  send_loop-IsTraced k ops =
      bind-IsTraced nn s fd P (get_data nn ops) _ (get_data-IsTraced nn s fd P ops)
        λ payload. send_rounds-IsTraced k ops payload

  rw_loop-IsTraced : (k : ℕ) (ops : Options) → IsTraced nn s fd P (rw_loop nn k s ops)
  unfolding rw_loop
  rw_loop-IsTraced k ops =
      bind-IsTraced nn s fd P (get_data nn ops) _ (get_data-IsTraced nn s fd P ops)
        λ payload. rw_rounds-IsTraced k ops payload

  resp_loop-IsTraced : (k : ℕ) (ops : Options) → IsTraced nn s fd P (resp_loop nn k s ops)
  unfolding resp_loop
  resp_loop-IsTraced k ops =
      bind-IsTraced nn s fd P (get_data nn ops) _ (get_data-IsTraced nn s fd P ops)
        λ payload. resp_rounds-IsTraced k ops payload

module _ {S : Type 0} (nn : Platform S) (fd : ℤ) (P : Policy nn) (talk : TalkAllowed nn fd P) where
  if_data-IsTraced :
      (k : ℕ) (ops : Options) (loop : Cmd S (Unit {0}))
      → IsTraced nn this_socket fd P loop
      → IsTraced nn this_socket fd P (if_data nn k ops loop)
  unfolding if_data
  if_data-IsTraced k ops loop h =
      bind-IsTraced nn this_socket fd P (get_data nn ops) _
        (get_data-IsTraced nn this_socket fd P ops)
        λ payload.
          if-IsTraced nn this_socket fd P (is_empty payload) _ _
            (recv_loop-IsTraced nn this_socket fd P k ops talk.recvs) h

  pub run_loop-IsTraced :
      (k : ℕ) (t : SocketType) (ops : Options) → IsTraced nn this_socket fd P (run_loop nn k t ops)
  unfolding run_loop
  run_loop-IsTraced k publish ops = send_loop-IsTraced nn this_socket fd P talk k ops
  run_loop-IsTraced k push ops = send_loop-IsTraced nn this_socket fd P talk k ops
  run_loop-IsTraced k subscribe ops = recv_loop-IsTraced nn this_socket fd P k ops talk.recvs
  run_loop-IsTraced k pull ops = recv_loop-IsTraced nn this_socket fd P k ops talk.recvs
  run_loop-IsTraced k bus ops =
      if_data-IsTraced k ops _ (rw_loop-IsTraced nn this_socket fd P talk k ops)
  run_loop-IsTraced k pair ops =
      if_data-IsTraced k ops _ (rw_loop-IsTraced nn this_socket fd P talk k ops)
  run_loop-IsTraced k surveyor ops = rw_loop-IsTraced nn this_socket fd P talk k ops
  run_loop-IsTraced k request ops = rw_loop-IsTraced nn this_socket fd P talk k ops
  run_loop-IsTraced k reply ops =
      if_data-IsTraced k ops _ (resp_loop-IsTraced nn this_socket fd P talk k ops)
  run_loop-IsTraced k respondent ops =
      if_data-IsTraced k ops _ (resp_loop-IsTraced nn this_socket fd P talk k ops)
