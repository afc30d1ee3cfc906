-- ===== src/Client/Answering/Rounds.antt =====
-- The rounds of `resp_loop`.
use nanomsgpp.Prelude.{ℕ, zero, suc, Bool, true, false, List, inl, inr, if◌then◌else◌, Bool-cases}
use nanomsgpp.Prelude.Int.{eq_ℤ}
use nanomsgpp.Prelude.Bytes.{Bytes}
use nanomsgpp.Platform.{Platform}
use nanomsgpp.World.{World, Ref, Call, pure, ◌>>◌, catch_internal}
use nanomsgpp.World.Policy.{calls_only}
use nanomsgpp.World.Ends.{Always}
use nanomsgpp.Client.Options.{Options, get_data}
use nanomsgpp.Client.Loops.{receive_and_print, try_send, resp_again, resp_rounds, resp_loop}
use nanomsgpp.Client.Traced.{get_data-IsTraced}
use nanomsgpp.Client.Answering.{IsRecv, IsSend, Answering, nothing, received, answered}
use nanomsgpp.Client.Answering.Posts.{
  NoCall, OkElse, and_then-OkElse, Quiet-OkElse, recover-OkElse, OkElse-mono, OkElse-Always,
}
use nanomsgpp.Client.Answering.Attempts.{Got, AtMost, receive_and_print-Got, try_send-AtMost}

module _ {S : Type 0} (nn : Platform S) (s : Ref) where
  -- Whether a message came: a receive was made if so.
  abbrev Came : List Call → Bool → List Call → Type 0
  Came before true cs = Got IsRecv before cs
  Came before false cs = AtMost IsRecv before cs

  receives-Came :
      (ops : Options) (w : World S)
      → OkElse
          (Came w.calls)
          (AtMost IsRecv w.calls)
          (catch_internal (receive_and_print nn s ops >> pure true) (resp_again nn) w)
  unfolding resp_again
  receives-Came ops w =
      let Q = AtMost IsRecv w.calls in
      recover-OkElse nn s (Came w.calls) Q Q ((receive_and_print nn s ops >> pure true) w)
        (resp_again nn)
        (and_then-OkElse nn s (λ _. Got IsRecv w.calls) (Came w.calls) Q
          (receive_and_print nn s ops w) (λ _. pure true) (receive_and_print-Got nn s ops w)
          λ _ u got. got)
        (λ cs h. h)
        λ e u h. elim (Bool-cases (eq_ℤ e.d_error nn.eagain)) [
          | inl again ↦ rw again h
          | inr other ↦ rw other h
        ]

  Answering-received :
      (before cs ds : List Call) → Answering before cs → AtMost IsRecv cs ds → Answering before ds
  Answering-received before cs ds h (inl same) = rw same h
  Answering-received before cs ds h (inr (c, recv, e)) = rw e (received c recv h)

  Answering-sent :
      (before cs ds es : List Call)
      → Answering before cs
      → Got IsRecv cs ds
      → AtMost IsSend ds es
      → Answering before es
  Answering-sent before cs ds es h (r, recv, e) (inl same) = rw same (rw e (received r recv h))
  Answering-sent before cs ds es h (r, recv, e) (inr (c, send, e')) =
      rw e' (rw e (answered r c recv send h))

  -- The second half of a round.
  answer-Answering :
      (came : Bool) (payload : Bytes) (before cs : List Call) (u : World S)
      → Answering before cs
      → Came cs came u.calls
      → OkElse
          (λ _. Answering before)
          (Answering before)
          ((if came then try_send nn s payload else pure tt) u)
  answer-Answering true payload before cs u h got =
      OkElse-mono (λ _. AtMost IsSend u.calls) (λ _. Answering before) (AtMost IsSend u.calls)
        (Answering before) (try_send nn s payload u) (try_send-AtMost nn s payload u)
        (λ _ es sent. Answering-sent before cs u.calls es h got sent)
        λ es sent. Answering-sent before cs u.calls es h got sent
  answer-Answering false payload before cs u h got = Answering-received before cs u.calls h got

  resp_rounds-Answering :
      (k : ℕ) (ops : Options) (payload : Bytes) (before : List Call) (w : World S)
      → Answering before w.calls
      → OkElse (λ _. Answering before) (Answering before) (resp_rounds nn k s ops payload w)
  unfolding resp_rounds
  resp_rounds-Answering zero ops payload before w h = h
  resp_rounds-Answering (suc k) ops payload before w h =
      let A = Answering before in
      and_then-OkElse nn s (Came w.calls) (λ _. A) A
        (catch_internal (receive_and_print nn s ops >> pure true) (resp_again nn) w) _
        (OkElse-mono (Came w.calls) (Came w.calls) (AtMost IsRecv w.calls) A _ (receives-Came ops w)
          (λ b cs c. c) λ cs c. Answering-received before w.calls cs h c)
        λ came u got.
          and_then-OkElse nn s (λ _. A) (λ _. A) A
            ((if came then try_send nn s payload else pure tt) u) _
            (answer-Answering came payload before w.calls u h got)
            λ _ v h'. resp_rounds-Answering k ops payload before v h'

  -- However often `resp_loop` goes round and however it ends, short of undefined behaviour, its
  -- calls are receives, and right behind some of them one send: it sends nothing before a message
  -- was asked for, and never twice for one call of `nn_recvmsg`.
  pub resp_loop-Answering :
      (k : ℕ) (ops : Options) (w : World S)
      → Always (λ u. Answering w.calls u.calls) (resp_loop nn k s ops w)
  unfolding resp_loop
  resp_loop-Answering k ops w = OkElse-Always (Answering w.calls) (resp_loop nn k s ops w) (
      and_then-OkElse nn s (λ _. Answering w.calls) (λ _. Answering w.calls) (Answering w.calls)
        (get_data nn ops w) _
        (Quiet-OkElse nn s (Answering w.calls) (Answering w.calls) (get_data nn ops) w
          (λ fd. get_data-IsTraced nn s fd (calls_only nn NoCall) ops) nothing nothing)
        λ payload u h. resp_rounds-Answering k ops payload w.calls u h)
