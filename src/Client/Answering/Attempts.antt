-- ===== src/Client/Answering/Attempts.antt =====
-- One attempt to receive, and one to send.
use nanomsgpp.Prelude.{
  ◌≡◌, refl, ap, true, List, [], ◌∷◌, ◌⊎◌, inl, inr, if◌then◌else◌, replicate, arith,
}
use nanomsgpp.Prelude.Int.{minus_one, eq_ℤ}
use nanomsgpp.Prelude.Bytes.{Bytes}
use nanomsgpp.Platform.{Platform}
use nanomsgpp.World.{World, Ref, Call, pure, ◌>>◌, ◌>>=◌, sendmsg_call, recvmsg_call, finally}
use nanomsgpp.World.Calls.{call_heap, throw_internal, check_result}
use nanomsgpp.World.Policy.{calls_only}
use nanomsgpp.World.Traces.{finally-IsTraced}
use nanomsgpp.World.Traces.Calls.{traced, quiet-IsTraced}
use nanomsgpp.Message.{
  Message, message_of, message_destroy, empty_message, write_string, gen_nn_msghdr, msghdr_free,
  release,
}
use nanomsgpp.Message.Traced.{
  message_destroy-IsTraced, write_string-IsTraced, gen_nn_msghdr-IsTraced, msghdr_free-IsTraced,
}
use nanomsgpp.Socket.Transfer.{
  hand_over, sendmsg, recvmsg, receive, finish_receive, make_buffers, buffer_size, collect,
  flags_of, store_all,
}
use nanomsgpp.Socket.Transfer.Traced.{
  make_buffers-IsTraced, finish_receive-IsTraced, collect-IsTraced,
}
use nanomsgpp.Client.Options.{Options, get_format}
use nanomsgpp.Client.Print.{print_message}
use nanomsgpp.Client.Loops.{receive_and_print, try_send, send_data, report_unsent}
use nanomsgpp.Client.Traced.{print_parts-IsTraced}
use nanomsgpp.Client.Answering.{IsRecv, IsSend}
use nanomsgpp.Client.Answering.Posts.{NoCall, OkElse, and_then-OkElse, Quiet-OkElse, recover-OkElse}

-- One call of a kind after those before; or none.
abbrev pub Got : (Call → Type 0) → List Call → List Call → Type 0
Got Kind before cs = (c : Call) × Kind c × (cs ≡ c ∷ before)

abbrev pub AtMost : (Call → Type 0) → List Call → List Call → Type 0
AtMost Kind before cs = (cs ≡ before) ⊎ Got Kind before cs

module _ {S : Type 0} (nn : Platform S) (s : Ref) where
  recvmsg-Got :
      (w : World S)
      → OkElse (λ _. Got IsRecv w.calls) (AtMost IsRecv w.calls) (recvmsg nn s 1 true w)
  unfolding recvmsg receive call_heap
  recvmsg-Got w =
      let size = buffer_size nn 1 in
      and_then-OkElse nn s (λ _ cs. cs ≡ w.calls) (λ _. Got IsRecv w.calls) (AtMost IsRecv w.calls)
        (make_buffers nn size 1 w) _
        (Quiet-OkElse nn s (λ cs. cs ≡ w.calls) (AtMost IsRecv w.calls) (make_buffers nn size 1) w
          (λ fd. make_buffers-IsTraced nn s fd (calls_only nn NoCall) size 1) refl (inl refl))
        λ buf u same.
          let fd' = (w.sockets s).d_socket in
          let lens = replicate 1 size in
          let flags = flags_of nn true in
          let r0 = nn.nn_recvmsg fd' lens flags u.heap u.lib in
          let r = r0.0 in
          let c = recvmsg_call fd' lens flags in
          let got : Got IsRecv w.calls (c ∷ u.calls) =
            (c, tt, ap (λ (cs : List Call). c ∷ cs) same) in
          Quiet-OkElse nn s (Got IsRecv w.calls) (AtMost IsRecv w.calls)
            (finish_receive nn r.0 (store_all 0 r.1 buf) >>= λ a.
              if eq_ℤ minus_one a.0
              then throw_internal nn
              else (collect nn 1 a.0 a.1 0 1 [] >>= λ ps. pure (message_of ps)))
            (record u { heap = r0.1; lib = r0.2; calls = c ∷ u.calls })
            (λ fd.
              search
                (
                  traced,
                  finish_receive-IsTraced nn s fd (calls_only nn NoCall),
                  collect-IsTraced nn s fd (calls_only nn NoCall),
                )
                depth 8)
            got (inr got)

  pub receive_and_print-Got :
      (ops : Options) (w : World S)
      → OkElse (λ _. Got IsRecv w.calls) (AtMost IsRecv w.calls) (receive_and_print nn s ops w)
  unfolding receive_and_print print_message
  receive_and_print-Got ops w =
      and_then-OkElse nn s (λ _. Got IsRecv w.calls) (λ _. Got IsRecv w.calls)
        (AtMost IsRecv w.calls) (recvmsg nn s 1 true w) _ (recvmsg-Got w)
        λ m u got.
          Quiet-OkElse nn s (Got IsRecv w.calls) (AtMost IsRecv w.calls)
            (finally (print_message m ops) (message_destroy nn m)) u
            (λ fd.
              finally-IsTraced nn s fd (calls_only nn NoCall) (print_message m ops)
                (message_destroy nn m)
                (print_parts-IsTraced nn s fd (calls_only nn NoCall) (get_format ops) m.d_parts)
                (message_destroy-IsTraced nn s fd (calls_only nn NoCall) m))
            got (inr got)

  hand_over-AtMost :
      (m : Message) (before : List Call) (w : World S)
      → w.calls ≡ before
      → OkElse (λ _. AtMost IsSend before) (AtMost IsSend before) (hand_over nn s m true w)
  unfolding hand_over call_heap
  hand_over-AtMost m before w same =
      and_then-OkElse nn s (λ _ cs. cs ≡ before) (λ _. AtMost IsSend before) (AtMost IsSend before)
        (gen_nn_msghdr nn m w) _
        (Quiet-OkElse nn s (λ cs. cs ≡ before) (AtMost IsSend before) (gen_nn_msghdr nn m) w
          (λ fd. gen_nn_msghdr-IsTraced nn s fd (calls_only nn NoCall) m) same (inl same))
        λ hdr u same'.
          let fd' = (w.sockets s).d_socket in
          let flags = flags_of nn true in
          let r = nn.nn_sendmsg fd' hdr.iov flags u.heap u.lib in
          let c = sendmsg_call fd' hdr.iov flags in
          let sent : AtMost IsSend before (c ∷ u.calls) =
            inr (c, tt, ap (λ (cs : List Call). c ∷ cs) same') in
          Quiet-OkElse nn s (AtMost IsSend before) (AtMost IsSend before)
            (msghdr_free hdr >> pure (r.0, release m))
            (record u { heap = r.1; lib = r.2; calls = c ∷ u.calls })
            (λ fd. search (traced, msghdr_free-IsTraced nn s fd (calls_only nn NoCall)) depth 8)
            sent sent

  sendmsg-AtMost :
      (m : Message) (before : List Call) (w : World S)
      → w.calls ≡ before
      → OkElse (λ _. AtMost IsSend before) (AtMost IsSend before) (sendmsg nn s m true w)
  unfolding sendmsg
  sendmsg-AtMost m before w same =
      let P = AtMost IsSend before in
      and_then-OkElse nn s (λ _. P) (λ _. P) P (hand_over nn s m true w) _
        (hand_over-AtMost m before w same)
        λ r u h.
          Quiet-OkElse nn s P P (check_result nn r.0 >>= λ nb. pure (nb, r.1)) u
            (λ fd. search traced depth 8) h h

  pub try_send-AtMost :
      (payload : Bytes) (w : World S)
      → OkElse (λ _. AtMost IsSend w.calls) (AtMost IsSend w.calls) (try_send nn s payload w)
  unfolding try_send send_data report_unsent
  try_send-AtMost payload w =
      let P = AtMost IsSend w.calls in
      let write = write_string nn empty_message (nn.string_address payload) payload in
      recover-OkElse nn s (λ _. P) P P _ (report_unsent nn)
        (and_then-OkElse nn s (λ _ cs. cs ≡ w.calls) (λ _. P) P (write w) _
          (Quiet-OkElse nn s (λ cs. cs ≡ w.calls) P write w
            (λ fd. write_string-IsTraced nn s fd (calls_only nn NoCall) _ _ payload) refl
            (inl refl))
          λ m u same.
            and_then-OkElse nn s (λ _. P) (λ _. P) P (sendmsg nn s m true u) _
              (sendmsg-AtMost m w.calls u same)
              λ r v sent.
                Quiet-OkElse nn s P P (message_destroy nn r.1) v
                  (λ fd. message_destroy-IsTraced nn s fd (calls_only nn NoCall) r.1) sent sent)
        (λ cs h. h)
        λ e u h.
          Quiet-OkElse nn s P P (report_unsent nn e) u
            (λ fd.
              quiet-IsTraced nn s fd (calls_only nn NoCall) (report_unsent nn e) λ v. ground arith)
            h h
