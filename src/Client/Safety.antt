-- ===== src/Client/Safety.antt =====
-- Commands of the client that stay clear of undefined behaviour and of termination, and what they
-- add to the heap.
pub mod Receiving
pub mod Loops
pub mod Setup
pub mod Data
pub mod Whole
pub mod Program
pub mod Sending
use nanomsgpp.Prelude.{
  ℕ, suc, ◌+◌, ◌^◌, ◌<◌, ◌≤◌, ◌≡◌, ◌≢◌, ◌∙◌, refl, sym, ap, none, some, Option, List, [], ◌∷◌,
  length, All, All-mono, arith,
}
use nanomsgpp.Prelude.Int.{ℤ}
use nanomsgpp.Memory.{Ptr, Heap, IsHeap, Block}
use nanomsgpp.World.Sends.{sends}
use nanomsgpp.Client.Growth.{IsDistinct}
use nanomsgpp.World.{
  World, Ref, Cmd, Outcome, ok, throws, terminated, undefined, running, and_then, recover,
  InternalException, internal_exception, invalid_argument, out_of_range, bad_any_cast,
}
use nanomsgpp.Client.Leaks.{Leaks, Leaks-same}

-- A value in a world of one set, or an exception or a loop that runs on in a world of another:
-- neither undefined behaviour nor termination.
abbrev pub Safe :
    {S A : Type 0} → (A → World S → Type 0) → (World S → Type 0) → Outcome S A → Type 0
Safe P Q (ok a w) = P a w
Safe P Q (throws e w) = Q w
Safe P Q (terminated w) = ⊥
Safe P Q undefined = ⊥
Safe P Q (running w) = Q w

-- The same with one set.
abbrev pub Safely : {S A : Type 0} → (World S → Type 0) → Outcome S A → Type 0
Safely P (ok a w) = P w
Safely P (throws e w) = P w
Safely P (terminated w) = ⊥
Safely P undefined = ⊥
Safely P (running w) = P w

pub Safe-Safely :
    {S A : Type 0} (P Q : World S → Type 0) (o : Outcome S A)
    → Safe (λ _. P) P o
    → ((w : World S) → P w → Q w)
    → Safely Q o
Safe-Safely P Q (ok a w) h weaken = weaken w h
Safe-Safely P Q (throws e w) h weaken = weaken w h
Safe-Safely P Q (terminated w) h weaken = h
Safe-Safely P Q undefined h weaken = h
Safe-Safely P Q (running w) h weaken = weaken w h

pub Safe-mono :
    {S A : Type 0} (P P' : A → World S → Type 0) (Q Q' : World S → Type 0) (o : Outcome S A)
    → Safe P Q o
    → ((a : A) (w : World S) → P a w → P' a w)
    → ((w : World S) → Q w → Q' w)
    → Safe P' Q' o
Safe-mono P P' Q Q' (ok a w) h right left = right a w h
Safe-mono P P' Q Q' (throws e w) h right left = left w h
Safe-mono P P' Q Q' (terminated w) h right left = h
Safe-mono P P' Q Q' undefined h right left = h
Safe-mono P P' Q Q' (running w) h right left = left w h

pub and_then-Safe :
    {S A B : Type 0} (P : A → World S → Type 0) (P' : B → World S → Type 0)
    (Q Q' : World S → Type 0) (o : Outcome S A) (k : A → Cmd S B)
    → Safe P Q o
    → ((w : World S) → Q w → Q' w)
    → ((a : A) (w : World S) → P a w → Safe P' Q' (k a w))
    → Safe P' Q' (and_then o k)
and_then-Safe P P' Q Q' (ok a w) k h stop next = next a w h
and_then-Safe P P' Q Q' (throws e w) k h stop next = stop w h
and_then-Safe P P' Q Q' (terminated w) k h stop next = h
and_then-Safe P P' Q Q' undefined k h stop next = h
and_then-Safe P P' Q Q' (running w) k h stop next = stop w h

pub recover-Safe :
    {S A : Type 0} (P : A → World S → Type 0) (Q Q' : World S → Type 0) (o : Outcome S A)
    (handler : InternalException → Cmd S A)
    → Safe P Q o
    → ((w : World S) → Q w → Q' w)
    → ((e : InternalException) (w : World S) → Q w → Safe P Q' (handler e w))
    → Safe P Q' (recover o handler)
recover-Safe P Q Q' (ok a w) handler h stop next = h
recover-Safe P Q Q' (throws (internal_exception e) w) handler h stop next = next e w h
recover-Safe P Q Q' (throws (invalid_argument m) w) handler h stop next = stop w h
recover-Safe P Q Q' (throws out_of_range w) handler h stop next = stop w h
recover-Safe P Q Q' (throws bad_any_cast w) handler h stop next = stop w h
recover-Safe P Q Q' (terminated w) handler h stop next = h
recover-Safe P Q Q' undefined handler h stop next = h
recover-Safe P Q Q' (running w) handler h stop next = stop w h

module _ {S : Type 0} (s : Ref) (fd : ℤ) (Kind : Block → Type 0) (start : World S) where
  -- The blocks that are new are leaked and of the kind, one for each call of `nn_sendmsg`, and there
  -- are addresses for `n` more below 2 ^ 64; the socket has its descriptor.
  pub record Sound (n : ℕ) (w : World S) : Type 0 where
    pub is_heap : IsHeap w.heap
    pub leaks : Leaks Kind start w
    pub room : w.heap.next + n < 256 ^ 8
    pub has_fd : (w.sockets s).d_socket ≡ fd

  pub Sound-less : (m n : ℕ) (w : World S) → m ≤ n → Sound n w → Sound m w
  Sound-less m n w le i = record {
    is_heap = i.is_heap;
    leaks = i.leaks;
    room = omega (arith, le, i.room);
    has_fd = i.has_fd;
  }

  pub Sound-same :
      (n : ℕ) (w u : World S)
      → u.heap ≡ w.heap
      → (u.sockets s).d_socket ≡ (w.sockets s).d_socket
      → sends u.calls ≡ sends w.calls
      → Sound n w
      → Sound n u
  Sound-same n w u heap fds calls i = record {
    is_heap = rw heap i.is_heap;
    leaks = Leaks-same Kind start w u i.leaks (λ a. rw heap refl) calls;
    room = rw heap i.room;
    has_fd = fds ∙ i.has_fd;
  }

  -- After a command that took `c` addresses.
  pub Sound-next :
      (c n : ℕ) (w u : World S)
      → Sound (c + n) w
      → IsHeap u.heap
      → Leaks Kind start u
      → u.heap.next ≡ c + w.heap.next
      → (u.sockets s).d_socket ≡ (w.sockets s).d_socket
      → Sound n u
  Sound-next c n w u i is_heap leaks next fds = record {
    is_heap = is_heap;
    leaks = leaks;
    room = omega (arith, next, i.room);
    has_fd = fds ∙ i.has_fd;
  }
