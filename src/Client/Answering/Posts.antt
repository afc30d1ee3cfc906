-- ===== src/Client/Answering/Posts.antt =====
-- Postconditions on the calls that a command has made, apart for a command that returns.
use nanomsgpp.Prelude.{◌≡◌, refl, List, [], ◌∷◌, ◌++◌, All}
use nanomsgpp.Prelude.Int.{ℤ}
use nanomsgpp.Platform.{Platform}
use nanomsgpp.World.{
  World, Ref, Call, Cmd, Outcome, ok, throws, terminated, undefined, running, and_then, recover,
  InternalException, internal_exception, invalid_argument, out_of_range, bad_any_cast,
}
use nanomsgpp.World.Ends.{Always}
use nanomsgpp.World.Policy.{calls_only}
use nanomsgpp.World.Traces.{Trace, IsTraced}

-- No call is allowed.
abbrev pub NoCall : Call → Type 0
NoCall c = ⊥

same_calls : (new cs ds : List Call) → All NoCall new → ds ≡ new ++ cs → ds ≡ cs
same_calls [] cs ds h e = e
same_calls (c ∷ new) cs ds h e = elim h.0 [ ]

-- The calls at the end are in one set where the command returns, and in another elsewhere.
abbrev pub OkElse :
    {S A : Type 0} → (A → List Call → Type 0) → (List Call → Type 0) → Outcome S A → Type 0
OkElse P Q (ok a u) = P a u.calls
OkElse P Q (throws e u) = Q u.calls
OkElse P Q (terminated u) = Q u.calls
OkElse P Q undefined = Unit
OkElse P Q (running u) = Q u.calls

pub OkElse-mono :
    {S A : Type 0} (P P' : A → List Call → Type 0) (Q Q' : List Call → Type 0) (o : Outcome S A)
    → OkElse P Q o
    → ((a : A) (cs : List Call) → P a cs → P' a cs)
    → ((cs : List Call) → Q cs → Q' cs)
    → OkElse P' Q' o
OkElse-mono P P' Q Q' (ok a u) h right left = right a u.calls h
OkElse-mono P P' Q Q' (throws e u) h right left = left u.calls h
OkElse-mono P P' Q Q' (terminated u) h right left = left u.calls h
OkElse-mono P P' Q Q' undefined h right left = tt
OkElse-mono P P' Q Q' (running u) h right left = left u.calls h

pub OkElse-Always :
    {S A : Type 0} (P : List Call → Type 0) (o : Outcome S A)
    → OkElse (λ _. P) P o
    → Always (λ u. P u.calls) o
OkElse-Always P (ok a u) h = h
OkElse-Always P (throws e u) h = h
OkElse-Always P (terminated u) h = h
OkElse-Always P undefined h = tt
OkElse-Always P (running u) h = h

module _ {S : Type 0} (nn : Platform S) (s : Ref) where
  -- A command that makes no call.
  abbrev pub Quiet : {A : Type 0} → Cmd S A → Type 0
  Quiet m = (fd : ℤ) → IsTraced nn s fd (calls_only nn NoCall) m

  pub and_then-OkElse :
      {A B : Type 0} (P : A → List Call → Type 0) (P' : B → List Call → Type 0)
      (Q : List Call → Type 0) (o : Outcome S A) (k : A → Cmd S B)
      → OkElse P Q o
      → ((a : A) (u : World S) → P a u.calls → OkElse P' Q (k a u))
      → OkElse P' Q (and_then o k)
  and_then-OkElse P P' Q (ok a u) k h next = next a u h
  and_then-OkElse P P' Q (throws e u) k h next = h
  and_then-OkElse P P' Q (terminated u) k h next = h
  and_then-OkElse P P' Q undefined k h next = tt
  and_then-OkElse P P' Q (running u) k h next = h

  Trace-OkElse :
      {A : Type 0} (fd : ℤ) (P Q : List Call → Type 0) (w : World S) (o : Outcome S A)
      → P w.calls
      → Q w.calls
      → Always (Trace nn s fd (calls_only nn NoCall) w) o
      → OkElse (λ _. P) Q o
  Trace-OkElse fd P Q w (ok a u) p q t = rw (same_calls t.new w.calls u.calls t.allowed t.added) p
  Trace-OkElse fd P Q w (throws e u) p q t =
      rw (same_calls t.new w.calls u.calls t.allowed t.added) q
  Trace-OkElse fd P Q w (terminated u) p q t =
      rw (same_calls t.new w.calls u.calls t.allowed t.added) q
  Trace-OkElse fd P Q w undefined p q t = tt
  Trace-OkElse fd P Q w (running u) p q t =
      rw (same_calls t.new w.calls u.calls t.allowed t.added) q

  pub Quiet-OkElse :
      {A : Type 0} (P Q : List Call → Type 0) (m : Cmd S A) (w : World S)
      → Quiet m
      → P w.calls
      → Q w.calls
      → OkElse (λ _. P) Q (m w)
  Quiet-OkElse P Q m w quiet p q =
      let fd = (w.sockets s).d_socket in Trace-OkElse fd P Q w (m w) p q ((quiet fd).at w refl)

  pub recover-OkElse :
      {A : Type 0} (P : A → List Call → Type 0) (Q Q' : List Call → Type 0) (o : Outcome S A)
      (handler : InternalException → Cmd S A)
      → OkElse P Q o
      → ((cs : List Call) → Q cs → Q' cs)
      → ((e : InternalException) (u : World S) → Q u.calls → OkElse P Q' (handler e u))
      → OkElse P Q' (recover o handler)
  recover-OkElse P Q Q' (ok a u) handler h weaken next = h
  recover-OkElse P Q Q' (throws (internal_exception e) u) handler h weaken next = next e u h
  recover-OkElse P Q Q' (throws (invalid_argument m) u) handler h weaken next = weaken u.calls h
  recover-OkElse P Q Q' (throws out_of_range u) handler h weaken next = weaken u.calls h
  recover-OkElse P Q Q' (throws bad_any_cast u) handler h weaken next = weaken u.calls h
  recover-OkElse P Q Q' (terminated u) handler h weaken next = weaken u.calls h
  recover-OkElse P Q Q' undefined handler h weaken next = tt
  recover-OkElse P Q Q' (running u) handler h weaken next = weaken u.calls h
