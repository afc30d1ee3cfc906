-- ===== src/Client/Session.antt =====
-- The order of the client's calls of nanomsg, from `main` of client/nanomsgpp.cpp.
pub mod Reaches
pub mod Run
use nanomsgpp.Prelude.{◌≡◌, Bool, true, false, List, ◌∷◌, ◌⊎◌}
use nanomsgpp.Prelude.Int.{ℤ, is_nonneg}
use nanomsgpp.World.{
  World, Call, close_call, setsockopt_call, bind_call, connect_call, sendmsg_call, recvmsg_call,
  sleep_call, Outcome, ok, throws, terminated, undefined, running,
}

-- How far a client is with its socket.
pub data Stage : Type 0 where
  setting binding connecting talking closed : Stage

abbrev pub after : Stage → Stage
after setting = binding
after binding = connecting
after connecting = talking
after talking = talking
after closed = closed

abbrev pub is_closed : Stage → Bool
is_closed closed = true
is_closed _ = false

-- The calls of a stage, all on the one descriptor.
abbrev pub AllowedIn : ℤ → Stage → Call → Type 0
AllowedIn fd setting (setsockopt_call d level opt val) = d ≡ fd
AllowedIn fd binding (bind_call d addr) = d ≡ fd
AllowedIn fd connecting (connect_call d addr) = d ≡ fd
AllowedIn fd talking (sendmsg_call d iov flags) = d ≡ fd
AllowedIn fd talking (recvmsg_call d lens flags) = d ≡ fd
AllowedIn fd talking (sleep_call n) = Unit
AllowedIn fd _ _ = ⊥

-- The calls, newest first, of a client with one socket, which goes through the stages in order, and
-- closes the socket last; `before` ends with the call that opened it.
pub data Session (fd : ℤ) (before : List Call) : Stage → List Call → Type 0 where
  opens : Session fd before setting before
  makes :
      {st : Stage} {cs : List Call} (c : Call)
      → AllowedIn fd st c
      → Session fd before st cs
      → Session fd before st (c ∷ cs)
  goes_on :
      {st : Stage} {cs : List Call} → Session fd before st cs → Session fd before (after st) cs
  closes :
      {st : Stage} {cs : List Call}
      → is_closed st ≡ false
      → Session fd before st cs
      → Session fd before closed (close_call fd ∷ cs)

-- How a command that opened the descriptor `fd` ends: by a value or an exception only with the
-- session closed, unless there was no descriptor to close; elsewhere it may be at any stage.
module _ {S : Type 0} (fd : ℤ) (before : List Call) where
  abbrev pub Halfway : World S → Type 0
  Halfway w = (st : Stage) × Session fd before st w.calls

  abbrev pub Finished : World S → Type 0
  Finished w = Session fd before closed w.calls ⊎ ((is_nonneg fd ≡ false) × Halfway w)

  abbrev pub Follows : {A : Type 0} → Outcome S A → Type 0
  Follows (ok a w) = Finished w
  Follows (throws e w) = Finished w
  Follows (terminated w) = Halfway w
  Follows undefined = Unit
  Follows (running w) = Halfway w
