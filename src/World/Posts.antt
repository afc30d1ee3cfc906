-- ===== src/World/Posts.antt =====
-- Postconditions of composed commands: at most one send, and commands that do not return.
use nanomsgpp.Prelude.{suc, ◌≤◌}
use nanomsgpp.World.{World, Cmd, Outcome, ok, throws, terminated, undefined, running, and_then}
use nanomsgpp.World.Ends.{Always}
use nanomsgpp.World.Sends.{sends, SameSends, IsSilent}

-- The command does not return, and the world it got to is in the set.
abbrev pub Unfinished : {S A : Type 0} → (World S → Type 0) → Outcome S A → Type 0
Unfinished P (ok a w) = ⊥
Unfinished P (throws e w) = P w
Unfinished P (terminated w) = P w
Unfinished P undefined = Unit
Unfinished P (running w) = P w

module _ {S : Type 0} where
  -- At most one call of `nn_sendmsg` more.
  abbrev pub OneSend : World S → World S → Type 0
  OneSend v w = sends w.calls ≤ suc (sends v.calls)

  pub Always-mono :
      {A : Type 0} (P Q : World S → Type 0) (o : Outcome S A)
      → Always P o
      → ((w : World S) → P w → Q w)
      → Always Q o
  Always-mono P Q (ok a w) h weaken = weaken w h
  Always-mono P Q (throws e w) h weaken = weaken w h
  Always-mono P Q (terminated w) h weaken = weaken w h
  Always-mono P Q undefined h weaken = tt
  Always-mono P Q (running w) h weaken = weaken w h

  -- The rest of a command after a first part.
  pub and_then-Always :
      {A B : Type 0} (P Q : World S → Type 0) (o : Outcome S A) (k : A → Cmd S B)
      → Always P o
      → ((w : World S) → P w → Q w)
      → ((a : A) (w : World S) → P w → Always Q (k a w))
      → Always Q (and_then o k)
  and_then-Always P Q (ok a w) k h weaken next = next a w h
  and_then-Always P Q (throws e w) k h weaken next = weaken w h
  and_then-Always P Q (terminated w) k h weaken next = weaken w h
  and_then-Always P Q undefined k h weaken next = tt
  and_then-Always P Q (running w) k h weaken next = weaken w h

  pub and_then-Unfinished :
      {A B : Type 0} (P Q : World S → Type 0) (o : Outcome S A) (k : A → Cmd S B)
      → Always P o
      → ((w : World S) → P w → Q w)
      → ((a : A) (w : World S) → P w → Unfinished Q (k a w))
      → Unfinished Q (and_then o k)
  and_then-Unfinished P Q (ok a w) k h weaken next = next a w h
  and_then-Unfinished P Q (throws e w) k h weaken next = weaken w h
  and_then-Unfinished P Q (terminated w) k h weaken next = weaken w h
  and_then-Unfinished P Q undefined k h weaken next = tt
  and_then-Unfinished P Q (running w) k h weaken next = weaken w h

  pub and_then-refuses :
      {A B : Type 0} (P : World S → Type 0) (o : Outcome S A) (k : A → Cmd S B)
      → Unfinished P o
      → Unfinished P (and_then o k)
  and_then-refuses P (ok a w) k h = elim h [ ]
  and_then-refuses P (throws e w) k h = h
  and_then-refuses P (terminated w) k h = h
  and_then-refuses P undefined k h = tt
  and_then-refuses P (running w) k h = h

  -- A silent command keeps what is said of the number of sends.
  pub silent-OneSend :
      {A : Type 0} (v w : World S) (m : Cmd S A)
      → IsSilent m
      → OneSend v w
      → Always (OneSend v) (m w)
  silent-OneSend v w m silent h =
      Always-mono (SameSends w) (OneSend v) (m w) (silent.at w) λ u same. rw same h
