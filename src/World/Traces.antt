-- ===== src/World/Traces.antt =====
-- Commands that keep to a policy, and leave each socket its descriptor.
pub mod Calls
use mathlib.Core.List.{append_assoc}
use nanomsgpp.Prelude.{
  if◌then◌else◌, ◌≡◌, refl, sym, ap, ◌∙◌, Bool, true, false, List, [], ◌∷◌, ◌++◌, All, All-append,
}
use nanomsgpp.Prelude.Int.{ℤ}
use nanomsgpp.World.{
  World, Ref, Socket, Call, Outcome, ok, throws, terminated, undefined, running, Cmd,
  InternalException, internal_exception, invalid_argument, out_of_range, bad_any_cast, and_then,
  recover, unwind, clean_up, noexcept_end, ◌>>=◌, catch_internal, finally, on_throw, noexcept, pure,
  throw, Exception,
}
use nanomsgpp.Platform.{Platform}
use nanomsgpp.World.Policy.{Policy}
use nanomsgpp.World.Ends.{Always}

module _ {S : Type 0} (nn : Platform S) (s : Ref) (fd : ℤ) (P : Policy nn) where
  -- The calls between two worlds, the step of nanomsg's state, and the descriptors at the end.
  pub record Trace (w w' : World S) : Type 0 where
    pub new : List Call
    pub added : w'.calls ≡ new ++ w.calls
    pub allowed : All P.Allowed new
    pub step : P.Step w.lib w'.lib
    pub same_fds : (r : Ref) → (w'.sockets r).d_socket ≡ (w.sockets r).d_socket

  -- Started where the socket `s` has the descriptor `fd`.
  pub record IsTraced {A : Type 0} (m : Cmd S A) : Type 0 where
    pub at : (w : World S) → (w.sockets s).d_socket ≡ fd → Always (Trace w) (m w)

  Trace-trans : (u v w : World S) → Trace u v → Trace v w → Trace u w
  Trace-trans u v w a b = record {
    new = b.new ++ a.new;
    added = b.added ∙ ap (λ cs. b.new ++ cs) a.added ∙ sym (append_assoc b.new a.new u.calls);
    allowed = All-append P.Allowed b.new a.new b.allowed a.allowed;
    step = P.follow u.lib v.lib w.lib a.step b.step;
    same_fds = λ r. b.same_fds r ∙ a.same_fds r;
  }

  -- No call, and the sockets are the same.
  pub Trace-quiet :
      (w w' : World S)
      → w'.calls ≡ w.calls
      → w'.sockets ≡ w.sockets
      → P.Step w.lib w'.lib
      → Trace w w'
  Trace-quiet w w' calls sockets step = record {
    new = [];
    added = calls;
    allowed = tt;
    step = step;
    same_fds = λ r. ap (λ (f : Ref → Socket). (f r).d_socket) sockets;
  }

  -- One call that is allowed.
  pub Trace-call :
      (c : Call) (w w' : World S)
      → P.Allowed c
      → w'.calls ≡ c ∷ w.calls
      → w'.sockets ≡ w.sockets
      → P.Step w.lib w'.lib
      → Trace w w'
  Trace-call c w w' a calls sockets step = record {
    new = c ∷ [];
    added = calls;
    allowed = (a, tt);
    step = step;
    same_fds = λ r. ap (λ (f : Ref → Socket). (f r).d_socket) sockets;
  }

  Always-trans :
      {A : Type 0} (v w : World S) (o : Outcome S A)
      → Trace v w
      → Always (Trace w) o
      → Always (Trace v) o
  Always-trans v w (ok a u) e h = Trace-trans v w u e h
  Always-trans v w (throws x u) e h = Trace-trans v w u e h
  Always-trans v w (terminated u) e h = Trace-trans v w u e h
  Always-trans v w undefined e h = tt
  Always-trans v w (running u) e h = Trace-trans v w u e h

  -- The rest of a command.
  pub then-Trace :
      {A : Type 0} (v w : World S) (m : Cmd S A)
      → (v.sockets s).d_socket ≡ fd
      → Trace v w
      → IsTraced m
      → Always (Trace v) (m w)
  then-Trace v w m e t h = Always-trans v w (m w) t (h.at w (t.same_fds s ∙ e))

  and_then-Trace :
      {A B : Type 0} (v : World S) (o : Outcome S A) (k : A → Cmd S B)
      → (v.sockets s).d_socket ≡ fd
      → Always (Trace v) o
      → ((a : A) → IsTraced (k a))
      → Always (Trace v) (and_then o k)
  and_then-Trace v (ok a w) k at_fd h next = then-Trace v w (k a) at_fd h (next a)
  and_then-Trace v (throws e w) k at_fd h next = h
  and_then-Trace v (terminated w) k at_fd h next = h
  and_then-Trace v undefined k at_fd h next = tt
  and_then-Trace v (running w) k at_fd h next = h

  pub bind-IsTraced :
      {A B : Type 0} (m : Cmd S A) (k : A → Cmd S B)
      → IsTraced m
      → ((a : A) → IsTraced (k a))
      → IsTraced (m >>= k)
  bind-IsTraced m k h next = record { at = λ w e. and_then-Trace w (m w) k e (h.at w e) next }

  pub pure-IsTraced : {A : Type 0} (a : A) → IsTraced (pure {S = S} a)
  pure-IsTraced a = record { at = λ w e. Trace-quiet w w refl refl (P.stay w.lib) }

  pub throw-IsTraced : {A : Type 0} (x : Exception) → IsTraced {A = A} (throw {S = S} x)
  throw-IsTraced x = record { at = λ w e. Trace-quiet w w refl refl (P.stay w.lib) }

  recover-Trace :
      {A : Type 0} (v : World S) (o : Outcome S A) (handler : InternalException → Cmd S A)
      → (v.sockets s).d_socket ≡ fd
      → Always (Trace v) o
      → ((e : InternalException) → IsTraced (handler e))
      → Always (Trace v) (recover o handler)
  recover-Trace v (ok a w) handler at_fd h next = h
  recover-Trace v (throws (internal_exception e) w) handler at_fd h next =
      then-Trace v w (handler e) at_fd h (next e)
  recover-Trace v (throws (invalid_argument m) w) handler at_fd h next = h
  recover-Trace v (throws out_of_range w) handler at_fd h next = h
  recover-Trace v (throws bad_any_cast w) handler at_fd h next = h
  recover-Trace v (terminated w) handler at_fd h next = h
  recover-Trace v undefined handler at_fd h next = tt
  recover-Trace v (running w) handler at_fd h next = h

  pub catch_internal-IsTraced :
      {A : Type 0} (m : Cmd S A) (handler : InternalException → Cmd S A)
      → IsTraced m
      → ((e : InternalException) → IsTraced (handler e))
      → IsTraced (catch_internal m handler)
  catch_internal-IsTraced m handler h next = record {
    at = λ w e. recover-Trace w (m w) handler e (h.at w e) next;
  }

  unwind-Trace :
      {A : Type 0} (v : World S) (o : Outcome S A) (destroy : Cmd S (Unit {0}))
      → (v.sockets s).d_socket ≡ fd
      → Always (Trace v) o
      → IsTraced destroy
      → Always (Trace v) (unwind o destroy)
  unwind-Trace v (ok a w) destroy at_fd h d =
      and_then-Trace v (destroy w) (λ _. ok a) at_fd (then-Trace v w destroy at_fd h d)
        λ _. pure-IsTraced a
  unwind-Trace v (throws e w) destroy at_fd h d =
      and_then-Trace v (destroy w) (λ _. throws e) at_fd (then-Trace v w destroy at_fd h d)
        λ _. throw-IsTraced e
  unwind-Trace v (terminated w) destroy at_fd h d = h
  unwind-Trace v undefined destroy at_fd h d = tt
  unwind-Trace v (running w) destroy at_fd h d = h

  pub finally-IsTraced :
      {A : Type 0} (m : Cmd S A) (destroy : Cmd S (Unit {0}))
      → IsTraced m
      → IsTraced destroy
      → IsTraced (finally m destroy)
  finally-IsTraced m destroy h d = record {
    at = λ w e. unwind-Trace w (m w) destroy e (h.at w e) d;
  }

  clean_up-Trace :
      {A : Type 0} (v : World S) (o : Outcome S A) (destroy : Cmd S (Unit {0}))
      → (v.sockets s).d_socket ≡ fd
      → Always (Trace v) o
      → IsTraced destroy
      → Always (Trace v) (clean_up o destroy)
  clean_up-Trace v (ok a w) destroy at_fd h d = h
  clean_up-Trace v (throws e w) destroy at_fd h d =
      and_then-Trace v (destroy w) (λ _. throws e) at_fd (then-Trace v w destroy at_fd h d)
        λ _. throw-IsTraced e
  clean_up-Trace v (terminated w) destroy at_fd h d = h
  clean_up-Trace v undefined destroy at_fd h d = tt
  clean_up-Trace v (running w) destroy at_fd h d = h

  pub on_throw-IsTraced :
      {A : Type 0} (m : Cmd S A) (destroy : Cmd S (Unit {0}))
      → IsTraced m
      → IsTraced destroy
      → IsTraced (on_throw m destroy)
  on_throw-IsTraced m destroy h d = record {
    at = λ w e. clean_up-Trace w (m w) destroy e (h.at w e) d;
  }

  noexcept-Trace :
      {A : Type 0} (v : World S) (o : Outcome S A)
      → Always (Trace v) o
      → Always (Trace v) (noexcept_end o)
  noexcept-Trace v (ok a w) h = h
  noexcept-Trace v (throws e w) h = h
  noexcept-Trace v (terminated w) h = h
  noexcept-Trace v undefined h = tt
  noexcept-Trace v (running w) h = h

  pub noexcept-IsTraced : {A : Type 0} (m : Cmd S A) → IsTraced m → IsTraced (noexcept m)
  noexcept-IsTraced m h = record { at = λ w e. noexcept-Trace w (m w) (h.at w e) }

  pub if-IsTraced :
      {A : Type 0} (b : Bool) (m n : Cmd S A)
      → IsTraced m
      → IsTraced n
      → IsTraced (if b then m else n)
  if-IsTraced true m n h k = h
  if-IsTraced false m n h k = k
