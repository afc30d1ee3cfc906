-- ===== src/World.antt =====
-- The state that the code changes and the commands over it: the heap, nanomsg's state, the socket
-- objects, the calls made, what standard input still holds, and the two output streams. A command
-- ends in a value, a thrown exception, `std::terminate`, or undefined behaviour; or it is still
-- running when its fuel is gone.
pub mod Calls
pub mod Ends
pub mod Sends
pub mod Posts
pub mod Policy
pub mod Traces
pub mod Survival
use nanomsgpp.Prelude.{ℕ, List, [], ◌∷◌, ◌++◌, ◌==◌, if◌then◌else◌}
use nanomsgpp.Prelude.Int.{ℤ}
use nanomsgpp.Prelude.Bytes.{Bytes}
use nanomsgpp.Memory.{Heap}
use nanomsgpp.Platform.{Iovec}

-- `socket` of socket.hpp.
pub record Socket : Type 0 where
  pub d_socket : ℤ
  pub d_endpoints : List (Bytes × ℤ)

-- A `socket&`.
abbrev pub Ref : Type 0
Ref = ℕ

-- A call of nanomsg or a sleep, with its arguments.
pub data Call : Type 0 where
  socket_call : ℤ → ℤ → Call
  close_call : ℤ → Call
  setsockopt_call : ℤ → ℤ → ℤ → Bytes → Call
  getsockopt_call : ℤ → ℤ → ℤ → Call
  bind_call : ℤ → Bytes → Call
  connect_call : ℤ → Bytes → Call
  shutdown_call : ℤ → ℤ → Call
  send_call : ℤ → Call
  recv_call : ℤ → Call
  sendmsg_call : ℤ → List Iovec → ℤ → Call
  recvmsg_call : ℤ → List ℕ → ℤ → Call
  device_call : ℤ → ℤ → Call
  sleep_call : ℤ → Call

-- `internal_exception` of exception.hpp.
pub record InternalException : Type 0 where
  pub message : Bytes
  pub d_error : ℤ
  pub d_reason : Bytes

pub data Exception : Type 0 where
  internal_exception : InternalException → Exception
  invalid_argument : Bytes → Exception
  out_of_range : Exception
  bad_any_cast : Exception

-- `calls` is newest first.
pub record World (S : Type 0) : Type 0 where
  pub heap : Heap
  pub lib : S
  pub sockets : Ref → Socket
  pub calls : List Call
  pub stdin : Bytes
  pub out : Bytes
  pub err : Bytes

pub data Outcome (S : Type 0) (A : Type 0) : Type 0 where
  ok : A → World S → Outcome S A
  throws : Exception → World S → Outcome S A
  terminated : World S → Outcome S A
  undefined : Outcome S A
  running : World S → Outcome S A

abbrev pub Cmd : Type 0 → Type 0 → Type 0
Cmd S A = World S → Outcome S A

module _ {S : Type 0} where
  abbrev pub pure : {A : Type 0} → A → Cmd S A
  pure = ok

  abbrev pub throw : {A : Type 0} → Exception → Cmd S A
  throw = throws

  abbrev pub undefined_behaviour : {A : Type 0} → Cmd S A
  undefined_behaviour w = undefined

  abbrev pub and_then : {A B : Type 0} → Outcome S A → (A → Cmd S B) → Outcome S B
  and_then (ok a w) k = k a w
  and_then (throws e w) k = throws e w
  and_then (terminated w) k = terminated w
  and_then undefined k = undefined
  and_then (running w) k = running w

  infixl 5 ◌>>=◌ ◌>>◌
  abbrev pub ◌>>=◌ : {A B : Type 0} → Cmd S A → (A → Cmd S B) → Cmd S B
  ◌>>=◌ m k w = and_then (m w) k

  abbrev pub ◌>>◌ : {B : Type 0} → Cmd S (Unit {0}) → Cmd S B → Cmd S B
  m >> k = m >>= λ _. k

  -- `try { m } catch (internal_exception& e) { handler(e) }`.
  abbrev pub recover : {A : Type 0} → Outcome S A → (InternalException → Cmd S A) → Outcome S A
  recover (ok a w) handler = ok a w
  recover (throws (internal_exception e) w) handler = handler e w
  recover (throws (invalid_argument m) w) handler = throws (invalid_argument m) w
  recover (throws out_of_range w) handler = throws out_of_range w
  recover (throws bad_any_cast w) handler = throws bad_any_cast w
  recover (terminated w) handler = terminated w
  recover undefined handler = undefined
  recover (running w) handler = running w

  abbrev pub catch_internal : {A : Type 0} → Cmd S A → (InternalException → Cmd S A) → Cmd S A
  catch_internal m handler w = recover (m w) handler

  -- A destructor on the way out of a scope, by a value or by an exception.
  abbrev pub unwind : {A : Type 0} → Outcome S A → Cmd S (Unit {0}) → Outcome S A
  unwind (ok a w) destroy = and_then (destroy w) λ _. ok a
  unwind (throws e w) destroy = and_then (destroy w) λ _. throws e
  unwind (terminated w) destroy = terminated w
  unwind undefined destroy = undefined
  unwind (running w) destroy = running w

  abbrev pub finally : {A : Type 0} → Cmd S A → Cmd S (Unit {0}) → Cmd S A
  finally m destroy w = unwind (m w) destroy

  -- The destructors that only an exception runs here.
  abbrev pub clean_up : {A : Type 0} → Outcome S A → Cmd S (Unit {0}) → Outcome S A
  clean_up (ok a w) destroy = ok a w
  clean_up (throws e w) destroy = and_then (destroy w) λ _. throws e
  clean_up (terminated w) destroy = terminated w
  clean_up undefined destroy = undefined
  clean_up (running w) destroy = running w

  abbrev pub on_throw : {A : Type 0} → Cmd S A → Cmd S (Unit {0}) → Cmd S A
  on_throw m destroy w = clean_up (m w) destroy

  -- An exception that leaves a destructor ends the program.
  abbrev pub noexcept_end : {A : Type 0} → Outcome S A → Outcome S A
  noexcept_end (ok a w) = ok a w
  noexcept_end (throws e w) = terminated w
  noexcept_end (terminated w) = terminated w
  noexcept_end undefined = undefined
  noexcept_end (running w) = running w

  abbrev pub noexcept : {A : Type 0} → Cmd S A → Cmd S A
  noexcept m w = noexcept_end (m w)

  abbrev pub put_out : Bytes → Cmd S (Unit {0})
  put_out bs w = ok tt (record w { out = w.out ++ bs })

  abbrev pub put_err : Bytes → Cmd S (Unit {0})
  put_err bs w = ok tt (record w { err = w.err ++ bs })

  -- `std::this_thread::sleep_for`.
  abbrev pub sleep_for : ℤ → Cmd S (Unit {0})
  sleep_for n w = ok tt (record w { calls = sleep_call n ∷ w.calls })

  -- The rounds of a loop are used up.
  abbrev pub still_running : {A : Type 0} → Cmd S A
  still_running = running

  abbrev pub get_socket : Ref → Cmd S Socket
  get_socket r w = ok (w.sockets r) w

  abbrev pub set_socket : Ref → Socket → Cmd S (Unit {0})
  set_socket r s w = ok tt (record w { sockets = λ q. if q == r then s else w.sockets q })
