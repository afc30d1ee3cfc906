-- ===== src/World/Sends.antt =====
-- Commands that send nothing: the number of `nn_sendmsg` calls stays the same however they end.
use nanomsgpp.Prelude.{ℕ, suc, ◌≡◌, Bool, true, false, List, [], ◌∷◌, ◌∙◌, if◌then◌else◌}
use nanomsgpp.World.{
  World, Call, sendmsg_call, Outcome, ok, throws, terminated, undefined, running, Cmd,
  InternalException, internal_exception, invalid_argument, out_of_range, bad_any_cast, and_then,
  recover, ◌>>=◌, catch_internal,
}
use nanomsgpp.World.Ends.{Always}

abbrev pub sends : List Call → ℕ
sends [] = 0
sends (sendmsg_call fd iov flags ∷ cs) = suc (sends cs)
sends (_ ∷ cs) = sends cs

module _ {S : Type 0} where
  -- No more calls of `nn_sendmsg` in the second world.
  abbrev pub SameSends : World S → World S → Type 0
  SameSends v w = sends w.calls ≡ sends v.calls

  pub record IsSilent {A : Type 0} (m : Cmd S A) : Type 0 where
    pub at : (w : World S) → Always (SameSends w) (m w)

  Always-trans :
      {A : Type 0} (v w : World S) (o : Outcome S A)
      → SameSends v w
      → Always (SameSends w) o
      → Always (SameSends v) o
  Always-trans v w (ok a u) e h = h ∙ e
  Always-trans v w (throws x u) e h = h ∙ e
  Always-trans v w (terminated u) e h = h ∙ e
  Always-trans v w undefined e h = tt
  Always-trans v w (running u) e h = h ∙ e

  and_then-Always :
      {A B : Type 0} (v : World S) (o : Outcome S A) (k : A → Cmd S B)
      → Always (SameSends v) o
      → ((a : A) → IsSilent (k a))
      → Always (SameSends v) (and_then o k)
  and_then-Always v (ok a w) k h next = Always-trans v w (k a w) h ((next a).at w)
  and_then-Always v (throws e w) k h next = h
  and_then-Always v (terminated w) k h next = h
  and_then-Always v undefined k h next = tt
  and_then-Always v (running w) k h next = h

  pub bind-IsSilent :
      {A B : Type 0} (m : Cmd S A) (k : A → Cmd S B)
      → IsSilent m
      → ((a : A) → IsSilent (k a))
      → IsSilent (m >>= k)
  bind-IsSilent m k h next = record { at = λ w. and_then-Always w (m w) k (h.at w) next }

  recover-Always :
      {A : Type 0} (v : World S) (o : Outcome S A) (handler : InternalException → Cmd S A)
      → Always (SameSends v) o
      → ((e : InternalException) → IsSilent (handler e))
      → Always (SameSends v) (recover o handler)
  recover-Always v (ok a w) handler h next = h
  recover-Always v (throws (internal_exception e) w) handler h next =
      Always-trans v w (handler e w) h ((next e).at w)
  recover-Always v (throws (invalid_argument m) w) handler h next = h
  recover-Always v (throws out_of_range w) handler h next = h
  recover-Always v (throws bad_any_cast w) handler h next = h
  recover-Always v (terminated w) handler h next = h
  recover-Always v undefined handler h next = tt
  recover-Always v (running w) handler h next = h

  pub catch_internal-IsSilent :
      {A : Type 0} (m : Cmd S A) (handler : InternalException → Cmd S A)
      → IsSilent m
      → ((e : InternalException) → IsSilent (handler e))
      → IsSilent (catch_internal m handler)
  catch_internal-IsSilent m handler h next = record {
    at = λ w. recover-Always w (m w) handler (h.at w) next;
  }

  pub if-IsSilent :
      {A : Type 0} (b : Bool) (m n : Cmd S A)
      → IsSilent m
      → IsSilent n
      → IsSilent (if b then m else n)
  if-IsSilent true m n h k = h
  if-IsSilent false m n h k = k
