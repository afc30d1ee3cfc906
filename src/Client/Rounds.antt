-- ===== src/Client/Rounds.antt =====
-- How often `send_loop` and `rw_loop` of client/nanomsgpp.cpp sends.
use mathlib.Core.Path.{subst}
use nanomsgpp.Prelude.{◌≡◌, sym, false, ℕ, zero, suc, refl, arith, if◌then◌else◌}
use nanomsgpp.Prelude.Int.{is_nonneg}
use nanomsgpp.Prelude.Bytes.{Bytes}
use nanomsgpp.Platform.{Platform}
use nanomsgpp.World.{
  World, Ref, Outcome, ok, throws, terminated, undefined, running, and_then, pure, catch_internal,
  InternalException,
}
use nanomsgpp.World.Ends.{Always}
use nanomsgpp.World.Sends.{SameSends, IsSilent, catch_internal-IsSilent, if-IsSilent}
use nanomsgpp.World.Posts.{
  Unfinished, and_then-Always, OneSend, and_then-Unfinished, and_then-refuses, silent-OneSend,
}
use nanomsgpp.Client.Sending.{try_send-OneSend}
use nanomsgpp.Client.Options.{Options, get_data}
use nanomsgpp.Client.Loops.{
  try_send, receive_and_print, recv_loop, pause, read_rounds, rw_rounds, rw_loop, send_rounds,
  send_loop,
}
use nanomsgpp.Client.Silent.{
  get_data-IsSilent, recv_loop-IsSilent, pure-IsSilent, receive_and_print-IsSilent,
}

module _ {S : Type 0} (nn : Platform S) where
  pause-IsSilent : (ops : Options) (e : InternalException) → IsSilent (pause nn ops e)
  unfolding pause
  pause-IsSilent ops e = record { at = λ w. ground arith }

  read_rounds-Unfinished :
      (k : ℕ) (s : Ref) (ops : Options) (v w : World S)
      → OneSend v w
      → Unfinished (OneSend v) (read_rounds nn k s ops w)
  unfolding read_rounds
  read_rounds-Unfinished zero s ops v w h = h
  read_rounds-Unfinished (suc k) s ops v w h =
      and_then-Unfinished (OneSend v) (OneSend v)
        (catch_internal (receive_and_print nn s ops) (pause nn ops) w) (λ _. read_rounds nn k s ops)
        (silent-OneSend v w (catch_internal (receive_and_print nn s ops) (pause nn ops))
          (catch_internal-IsSilent _ (pause nn ops) (receive_and_print-IsSilent nn s ops)
            (pause-IsSilent ops))
          h)
        (λ u h. h) λ _ u h'. read_rounds-Unfinished k s ops v u h'

  -- The outer loop never starts its second round: the inner loop has no way to return.
  rw_rounds-Unfinished :
      (k : ℕ) (s : Ref) (ops : Options) (payload : Bytes) (v w : World S)
      → SameSends v w
      → Unfinished (OneSend v) (rw_rounds nn k s ops payload w)
  unfolding rw_rounds
  rw_rounds-Unfinished zero s ops payload v w h = omega (arith, h)
  rw_rounds-Unfinished (suc k) s ops payload v w h =
      and_then-Unfinished (OneSend v) (OneSend v) (try_send nn s payload w) _
        (try_send-OneSend nn s payload v w h) (λ u h'. h')
        λ _ w1 h1.
          and_then-Unfinished (OneSend v) (OneSend v) _ _
            (silent-OneSend v w1 (if is_nonneg ops.interval then pure tt else recv_loop nn k s ops)
              (if-IsSilent (is_nonneg ops.interval) _ _ (pure-IsSilent nn tt)
                (recv_loop-IsSilent nn k s ops))
              h1)
            (λ u h'. h')
            λ _ w2 h2.
              and_then-refuses (OneSend v) (read_rounds nn k s ops w2) _
                (read_rounds-Unfinished k s ops v w2 h2)

  -- `rw_loop` never returns, and calls `nn_sendmsg` at most once, however many rounds it may make
  -- and whatever the options, the library and the memory do.
  pub rw_loop-Unfinished :
      (k : ℕ) (s : Ref) (ops : Options) (w : World S)
      → Unfinished (OneSend w) (rw_loop nn k s ops w)
  unfolding rw_loop
  rw_loop-Unfinished k s ops w =
      and_then-Unfinished (SameSends w) (OneSend w) (get_data nn ops w) (rw_rounds nn k s ops)
        ((get_data-IsSilent nn ops).at w) (λ u h. omega (arith, h))
        λ payload u h. rw_rounds-Unfinished k s ops payload w u h

  no_more : (o : Outcome S (Unit {0})) → and_then o (λ _. pure tt) ≡ o
  no_more (ok a u) = refl
  no_more (throws e u) = refl
  no_more (terminated u) = refl
  no_more undefined = refl
  no_more (running u) = refl

  send_rounds_once :
      (k : ℕ) (s : Ref) (ops : Options) (payload : Bytes) (w : World S)
      → is_nonneg ops.interval ≡ false
      → send_rounds nn (suc k) s ops payload w ≡ try_send nn s payload w
  unfolding send_rounds
  send_rounds_once k s ops payload w once = rw once (no_more (try_send nn s payload w))

  send_once :
      (k : ℕ) (s : Ref) (ops : Options) (o : Outcome S Bytes)
      → is_nonneg ops.interval ≡ false
      → and_then o (send_rounds nn (suc k) s ops) ≡ and_then o (try_send nn s)
  send_once k s ops (ok payload u) once = send_rounds_once k s ops payload u once
  send_once k s ops (throws e u) once = refl
  send_once k s ops (terminated u) once = refl
  send_once k s ops undefined once = refl
  send_once k s ops (running u) once = refl

  -- Without an interval `send_loop` reads its data and tries once to send it, and no more, however
  -- many rounds it may make: it ends as that one attempt does, and calls `nn_sendmsg` at most once.
  pub send_loop_once :
      (k : ℕ) (s : Ref) (ops : Options) (w : World S)
      → is_nonneg ops.interval ≡ false
      → (send_loop nn (suc k) s ops w ≡ and_then (get_data nn ops w) (try_send nn s))
        × Always (OneSend w) (send_loop nn (suc k) s ops w)
  unfolding send_loop
  send_loop_once k s ops w once = (
    send_once k s ops (get_data nn ops w) once,
    subst (λ o. Always (OneSend w) o) (sym (send_once k s ops (get_data nn ops w) once))
        (and_then-Always (SameSends w) (OneSend w) (get_data nn ops w) (try_send nn s)
          ((get_data-IsSilent nn ops).at w) (λ u h. omega (arith, h))
          λ payload u h. try_send-OneSend nn s payload w u h),
  )
