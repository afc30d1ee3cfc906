-- ===== src/Client/Traced.antt =====
-- Each part of the client makes only calls of its kind, all on the descriptor of its socket.
pub mod Talking
pub mod Opening
use nanomsgpp.Prelude.{ℕ, zero, suc, refl, true, none, some, Option, List, [], ◌∷◌, arith}
use nanomsgpp.Prelude.Int.{ℤ}
use nanomsgpp.Prelude.Bytes.{Bytes}
use nanomsgpp.Memory.{c_string, cells_at}
use nanomsgpp.Platform.{Platform}
use nanomsgpp.World.{
  World, Ref, Call, pure, ◌>>◌, Outcome, recvmsg_call, InternalException, catch_internal,
}
use nanomsgpp.World.Policy.{Policy}
use nanomsgpp.World.Traces.{
  IsTraced, bind-IsTraced, pure-IsTraced, if-IsTraced, finally-IsTraced, catch_internal-IsTraced,
}
use nanomsgpp.World.Traces.Calls.{traced, quiet-IsTraced, undefined-IsTraced}
use nanomsgpp.Message.{Part, message_destroy}
use nanomsgpp.Message.Traced.{message_destroy-IsTraced}
use nanomsgpp.Socket.Transfer.{recvmsg}
use nanomsgpp.Socket.Transfer.Traced.{recvmsg-IsTraced}
use nanomsgpp.Client.Options.{Options, EchoFormat, get_format, get_data}
use nanomsgpp.Client.Print.{can_print, print_text, print_parts, print_message}
use nanomsgpp.Client.Loops.{receive_and_print, recv_again, recv_loop}

module _ {S : Type 0} (nn : Platform S) (s : Ref) (fd : ℤ) (P : Policy nn) where
  abbrev Makes : {A : Type 0} → (World S → Outcome S A) → Type 0
  Makes m = IsTraced nn s fd P m

  print_text-IsTraced : (f : EchoFormat) (o : Option Bytes) → Makes (print_text f o)
  unfolding print_text
  print_text-IsTraced f none = undefined-IsTraced nn s fd P
  print_text-IsTraced f (some t) =
      if-IsTraced nn s fd P (can_print f t) _ _ (quiet-IsTraced nn s fd P _ λ w. (refl, refl, refl))
        (undefined-IsTraced nn s fd P)

  pub print_parts-IsTraced : (f : EchoFormat) (ps : List Part) → Makes (print_parts f ps)
  unfolding print_parts
  print_parts-IsTraced f [] = quiet-IsTraced nn s fd P _ λ w. (refl, refl, refl)
  print_parts-IsTraced f (p ∷ ps) = record {
    at = λ w.
        (bind-IsTraced nn s fd P _ (λ _. print_parts f ps)
            (print_text-IsTraced f (c_string (cells_at w.heap p.d_msg)))
            (λ _. print_parts-IsTraced f ps)).at
          w;
  }

  pub receive_and_print-IsTraced :
      (ops : Options)
      → ((lens : List ℕ) (flags : ℤ) → P.Allowed (recvmsg_call fd lens flags))
      → Makes (receive_and_print nn s ops)
  unfolding receive_and_print print_message
  receive_and_print-IsTraced ops a =
      bind-IsTraced nn s fd P (recvmsg nn s 1 true) _ (recvmsg-IsTraced nn s fd P 1 true a) λ m.
        finally-IsTraced nn s fd P (print_message m ops) (message_destroy nn m)
          (print_parts-IsTraced (get_format ops) m.d_parts) (message_destroy-IsTraced nn s fd P m)

  pub get_data-IsTraced : (ops : Options) → Makes (get_data nn ops)
  unfolding get_data
  get_data-IsTraced ops = quiet-IsTraced nn s fd P _ λ w. ground arith

  recv_again-IsTraced : (e : InternalException) → Makes (recv_again nn e)
  unfolding recv_again
  recv_again-IsTraced e = search traced depth 8

  pub recv_loop-IsTraced :
      (k : ℕ) (ops : Options)
      → ((lens : List ℕ) (flags : ℤ) → P.Allowed (recvmsg_call fd lens flags))
      → Makes (recv_loop nn k s ops)
  unfolding recv_loop
  recv_loop-IsTraced zero ops a = quiet-IsTraced nn s fd P _ λ w. (refl, refl, refl)
  recv_loop-IsTraced (suc k) ops a =
      bind-IsTraced nn s fd P
        (catch_internal (receive_and_print nn s ops >> pure true) (recv_again nn)) _
        (catch_internal-IsTraced nn s fd P _ (recv_again nn)
          (bind-IsTraced nn s fd P (receive_and_print nn s ops) _ (receive_and_print-IsTraced ops a)
            λ _. pure-IsTraced nn s fd P true)
          recv_again-IsTraced)
        λ again.
          if-IsTraced nn s fd P again _ _ (recv_loop-IsTraced k ops a) (pure-IsTraced nn s fd P tt)
