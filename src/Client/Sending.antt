-- ===== src/Client/Sending.antt =====
-- One attempt to send of the client's loops calls `nn_sendmsg` at most once.
use nanomsgpp.Prelude.{refl, true, arith, ◌∙◌}
use nanomsgpp.Prelude.Int.{eq_ℤ}
use nanomsgpp.Prelude.Bytes.{Bytes}
use nanomsgpp.Platform.{Platform}
use nanomsgpp.World.{
  World, Cmd, Ref, Outcome, ok, throws, terminated, undefined, running, recover, pure,
  invalid_argument, out_of_range, bad_any_cast, ◌>>=◌, InternalException, internal_exception,
}
use nanomsgpp.World.Calls.{call_heap, check_result}
use nanomsgpp.World.Ends.{Always}
use nanomsgpp.World.Sends.{sends, SameSends, IsSilent, bind-IsSilent, if-IsSilent}
use nanomsgpp.World.Posts.{OneSend, Always-mono, and_then-Always, silent-OneSend}
use nanomsgpp.Message.{Message, empty_message, gen_nn_msghdr, msghdr_free, write_string, release}
use nanomsgpp.Socket.Transfer.{hand_over, sendmsg, flags_of}
use nanomsgpp.Client.Loops.{send_data, report_unsent, try_send}
use nanomsgpp.Client.Silent.{
  pure-IsSilent, message_destroy-IsSilent, gen_nn_msghdr-IsSilent, msghdr_free-IsSilent,
  write_string-IsSilent, check_result-IsSilent,
}

module _ {S : Type 0} (nn : Platform S) where
  -- Silent, then a command that sends at most once.
  then-OneSend :
      {A B : Type 0} (v w : World S) (m : Cmd S A) (k : A → Cmd S B)
      → SameSends v w
      → IsSilent m
      → ((a : A) (u : World S) → SameSends v u → Always (OneSend v) (k a u))
      → Always (OneSend v) ((m >>= k) w)
  then-OneSend v w m k same silent next =
      and_then-Always (SameSends v) (OneSend v) (m w) k
        (Always-mono (SameSends w) (SameSends v) (m w) (silent.at w) λ u h. h ∙ same)
        (λ u h. omega arith) next

  hand_over-OneSend :
      (s : Ref) (m : Message) (v w : World S)
      → SameSends v w
      → Always (OneSend v) (hand_over nn s m true w)
  unfolding hand_over call_heap
  hand_over-OneSend s m v w same =
      then-OneSend v w (gen_nn_msghdr nn m) _ same (gen_nn_msghdr-IsSilent nn m) λ hdr u same'.
        let nb = (nn.nn_sendmsg (w.sockets s).d_socket hdr.iov (flags_of nn true) u.heap u.lib).0 in
        silent-OneSend v _ (msghdr_free hdr >>= λ _. pure (nb, release m))
          (bind-IsSilent (msghdr_free hdr) _ (msghdr_free-IsSilent nn hdr) λ _. pure-IsSilent nn _)
          (omega (arith, same'))

  then-silent :
      {A B : Type 0} (v w : World S) (m : Cmd S A) (k : A → Cmd S B)
      → Always (OneSend v) (m w)
      → ((a : A) → IsSilent (k a))
      → Always (OneSend v) ((m >>= k) w)
  then-silent v w m k once silent =
      and_then-Always (OneSend v) (OneSend v) (m w) k once (λ u h. h)
        λ a u h. silent-OneSend v u (k a) (silent a) h

  sendmsg-OneSend :
      (s : Ref) (m : Message) (v w : World S)
      → SameSends v w
      → Always (OneSend v) (sendmsg nn s m true w)
  unfolding sendmsg
  sendmsg-OneSend s m v w same =
      then-silent v w (hand_over nn s m true) _ (hand_over-OneSend s m v w same) λ r.
        bind-IsSilent (check_result nn r.0) _ (check_result-IsSilent nn r.0)
          λ nb. pure-IsSilent nn _

  report_unsent-IsSilent : (e : InternalException) → IsSilent (report_unsent nn e)
  unfolding report_unsent
  report_unsent-IsSilent e =
      if-IsSilent (eq_ℤ e.d_error nn.eagain) _ _ (record { at = λ w. refl {a = sends w.calls} })
        (record { at = λ w. refl {a = sends w.calls} })

  recover-OneSend :
      {A : Type 0} (v : World S) (o : Outcome S A) (handler : InternalException → Cmd S A)
      → Always (OneSend v) o
      → ((e : InternalException) → IsSilent (handler e))
      → Always (OneSend v) (recover o handler)
  recover-OneSend v (ok a w) handler h silent = h
  recover-OneSend v (throws (internal_exception e) w) handler h silent =
      silent-OneSend v w (handler e) (silent e) h
  recover-OneSend v (throws (invalid_argument m) w) handler h silent = h
  recover-OneSend v (throws out_of_range w) handler h silent = h
  recover-OneSend v (throws bad_any_cast w) handler h silent = h
  recover-OneSend v (terminated w) handler h silent = h
  recover-OneSend v undefined handler h silent = tt
  recover-OneSend v (running w) handler h silent = h

  pub try_send-OneSend :
      (s : Ref) (payload : Bytes) (v w : World S)
      → SameSends v w
      → Always (OneSend v) (try_send nn s payload w)
  unfolding try_send send_data
  try_send-OneSend s payload v w same =
      recover-OneSend v _ (report_unsent nn)
        (then-OneSend v w (write_string nn empty_message (nn.string_address payload) payload) _ same
          (write_string-IsSilent nn _ _ payload)
          λ m u same'.
            then-silent v u (sendmsg nn s m true) _ (sendmsg-OneSend s m v u same')
              λ r. message_destroy-IsSilent nn r.1)
        report_unsent-IsSilent
