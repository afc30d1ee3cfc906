-- ===== src/Client/Silent.antt =====
-- Commands of the client that send nothing: what makes only other calls.
use nanomsgpp.Prelude.{ℕ, ◌≡◌, ◌∙◌, ap, refl, List, [], ◌∷◌, ◌++◌, All}
use nanomsgpp.Prelude.Int.{ℤ}
use nanomsgpp.Prelude.Bytes.{Bytes}
use nanomsgpp.Memory.{Ptr}
use nanomsgpp.Platform.{Platform}
use nanomsgpp.World.{
  Ref, Call, Cmd, ok, socket_call, close_call, setsockopt_call, getsockopt_call, bind_call,
  connect_call, shutdown_call, send_call, recv_call, sendmsg_call, recvmsg_call, device_call,
  sleep_call,
}
use nanomsgpp.World.Calls.{check_result}
use nanomsgpp.World.Posts.{Always-mono}
use nanomsgpp.World.Sends.{sends, SameSends, IsSilent}
use nanomsgpp.World.Policy.{calls_only}
use nanomsgpp.World.Traces.{Trace, IsTraced}
use nanomsgpp.World.Traces.Calls.{check_result-IsTraced}
use nanomsgpp.Message.{Message, MsgHdr, message_destroy, gen_nn_msghdr, msghdr_free, write_string}
use nanomsgpp.Message.Traced.{
  message_destroy-IsTraced, gen_nn_msghdr-IsTraced, msghdr_free-IsTraced, write_string-IsTraced,
}
use nanomsgpp.Client.Options.{Options, get_data}
use nanomsgpp.Client.Loops.{receive_and_print, recv_loop}
use nanomsgpp.Client.Traced.{receive_and_print-IsTraced, recv_loop-IsTraced, get_data-IsTraced}

-- Any call but `nn_sendmsg`.
abbrev pub IsOther : Call → Type 0
IsOther (sendmsg_call fd iov flags) = ⊥
IsOther _ = Unit

sends-append : (new cs : List Call) → All IsOther new → sends (new ++ cs) ≡ sends cs
sends-append [] cs h = refl
sends-append (socket_call d p ∷ new) cs h = sends-append new cs h.1
sends-append (close_call d ∷ new) cs h = sends-append new cs h.1
sends-append (setsockopt_call d l o v ∷ new) cs h = sends-append new cs h.1
sends-append (getsockopt_call d l o ∷ new) cs h = sends-append new cs h.1
sends-append (bind_call d a ∷ new) cs h = sends-append new cs h.1
sends-append (connect_call d a ∷ new) cs h = sends-append new cs h.1
sends-append (shutdown_call d i ∷ new) cs h = sends-append new cs h.1
sends-append (send_call d ∷ new) cs h = sends-append new cs h.1
sends-append (recv_call d ∷ new) cs h = sends-append new cs h.1
sends-append (sendmsg_call d v f ∷ new) cs h = elim h.0 [ ]
sends-append (recvmsg_call d l f ∷ new) cs h = sends-append new cs h.1
sends-append (device_call a b ∷ new) cs h = sends-append new cs h.1
sends-append (sleep_call n ∷ new) cs h = sends-append new cs h.1

module _ {S : Type 0} (nn : Platform S) where
  -- A command that, on whatever descriptor, makes only other calls.
  pub traced-IsSilent :
      {A : Type 0} (s : Ref) (m : Cmd S A)
      → ((fd : ℤ) → IsTraced nn s fd (calls_only nn IsOther) m)
      → IsSilent m
  traced-IsSilent s m h = record {
    at = λ w.
        Always-mono (Trace nn s (w.sockets s).d_socket (calls_only nn IsOther) w) (SameSends w)
          (m w) ((h (w.sockets s).d_socket).at w refl)
          λ u t. ap sends t.added ∙ sends-append t.new w.calls t.allowed;
  }

module _ {S : Type 0} (nn : Platform S) where
  pub pure-IsSilent : {A : Type 0} (a : A) → IsSilent {S = S} (ok a)
  pure-IsSilent a = record { at = λ w. refl }

  pub msghdr_free-IsSilent : (h : MsgHdr) → IsSilent {S = S} (msghdr_free h)
  msghdr_free-IsSilent h =
      traced-IsSilent nn 0 _ λ fd. msghdr_free-IsTraced nn 0 fd (calls_only nn IsOther) h

  pub message_destroy-IsSilent : (m : Message) → IsSilent (message_destroy nn m)
  message_destroy-IsSilent m =
      traced-IsSilent nn 0 _ λ fd. message_destroy-IsTraced nn 0 fd (calls_only nn IsOther) m

  pub gen_nn_msghdr-IsSilent : (m : Message) → IsSilent (gen_nn_msghdr nn m)
  gen_nn_msghdr-IsSilent m =
      traced-IsSilent nn 0 _ λ fd. gen_nn_msghdr-IsTraced nn 0 fd (calls_only nn IsOther) m

  pub write_string-IsSilent :
      (m : Message) (p : Ptr) (bs : Bytes) → IsSilent (write_string nn m p bs)
  write_string-IsSilent m p bs =
      traced-IsSilent nn 0 _ λ fd. write_string-IsTraced nn 0 fd (calls_only nn IsOther) m p bs

  pub check_result-IsSilent : (r : ℤ) → IsSilent (check_result nn r)
  check_result-IsSilent r =
      traced-IsSilent nn 0 _ λ fd. check_result-IsTraced nn 0 fd (calls_only nn IsOther) r

  pub get_data-IsSilent : (ops : Options) → IsSilent (get_data nn ops)
  get_data-IsSilent ops =
      traced-IsSilent nn 0 _ λ fd. get_data-IsTraced nn 0 fd (calls_only nn IsOther) ops

  pub receive_and_print-IsSilent : (s : Ref) (ops : Options) → IsSilent (receive_and_print nn s ops)
  receive_and_print-IsSilent s ops =
      traced-IsSilent nn s _
        λ fd. receive_and_print-IsTraced nn s fd (calls_only nn IsOther) ops λ l f. tt

  pub recv_loop-IsSilent : (k : ℕ) (s : Ref) (ops : Options) → IsSilent (recv_loop nn k s ops)
  recv_loop-IsSilent k s ops =
      traced-IsSilent nn s _
        λ fd. recv_loop-IsTraced nn s fd (calls_only nn IsOther) k ops λ l f. tt
