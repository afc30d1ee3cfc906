-- ===== src/World/Survival.antt =====
-- Commands that never end the program by std::terminate, and of what set a value that they return
-- is.
use nanomsgpp.Prelude.{ℕ, Bool, true, false, arith, if◌then◌else◌}
use nanomsgpp.Prelude.Int.{ℤ, eq_ℤ, minus_one}
use nanomsgpp.Memory.{Ptr, Heap, Source}
use nanomsgpp.Platform.{Platform}
use nanomsgpp.World.{
  World, Call, Outcome, ok, throws, terminated, undefined, running, Cmd, InternalException,
  Exception, internal_exception, invalid_argument, out_of_range, bad_any_cast, and_then, recover,
  unwind, clean_up, ◌>>=◌, catch_internal, finally, on_throw, pure, throw, undefined_behaviour,
  sleep_for,
}
use nanomsgpp.World.Calls.{
  call_lib, call_heap, use_heap, free, memcpy, malloc, throw_internal, check_result,
}

abbrev pub Stays : {S A : Type 0} → (A → Type 0) → Outcome S A → Type 0
Stays P (ok a w) = P a
Stays P (throws e w) = Unit
Stays P (terminated w) = ⊥
Stays P undefined = Unit
Stays P (running w) = Unit

-- Any value.
abbrev pub Any : {A : Type 0} → A → Type 0
Any a = Unit

module _ {S : Type 0} where
  pub record Survives {A : Type 0} (P : A → Type 0) (m : Cmd S A) : Type 0 where
    pub at : (w : World S) → Stays P (m w)

  and_then-Stays :
      {A B : Type 0} (P : A → Type 0) (Q : B → Type 0) (o : Outcome S A) (k : A → Cmd S B)
      → Stays P o
      → ((a : A) → P a → Survives Q (k a))
      → Stays Q (and_then o k)
  and_then-Stays P Q (ok a w) k h next = (next a h).at w
  and_then-Stays P Q (throws e w) k h next = tt
  and_then-Stays P Q (terminated w) k h next = h
  and_then-Stays P Q undefined k h next = tt
  and_then-Stays P Q (running w) k h next = tt

  pub bind-Survives :
      {A B : Type 0} (P : A → Type 0) (Q : B → Type 0) (m : Cmd S A) (k : A → Cmd S B)
      → Survives P m
      → ((a : A) → P a → Survives Q (k a))
      → Survives Q (m >>= k)
  bind-Survives P Q m k h next = record { at = λ w. and_then-Stays P Q (m w) k (h.at w) next }

  -- Where nothing is asked of the first value.
  pub then-Survives :
      {A B : Type 0} (Q : B → Type 0) (m : Cmd S A) (k : A → Cmd S B)
      → Survives Any m
      → ((a : A) → Survives Q (k a))
      → Survives Q (m >>= k)
  then-Survives Q m k h next = bind-Survives Any Q m k h λ a any. next a

  pub pure-Survives : {A : Type 0} (P : A → Type 0) (a : A) → P a → Survives P (pure {S = S} a)
  pure-Survives P a h = record { at = λ w. h }

  pub value-Survives : {A : Type 0} (a : A) → Survives Any (pure {S = S} a)
  value-Survives a = record { at = λ w. tt }

  pub throw-Survives : {A : Type 0} (P : A → Type 0) (x : Exception) → Survives P (throw {S = S} x)
  throw-Survives P x = record { at = λ w. tt }

  pub undefined-Survives :
      {A : Type 0} (P : A → Type 0) → Survives P (undefined_behaviour {S = S} {A = A})
  undefined-Survives P = record { at = λ w. tt }

  pub if-Survives :
      {A : Type 0} (P : A → Type 0) (b : Bool) (m n : Cmd S A)
      → Survives P m
      → Survives P n
      → Survives P (if b then m else n)
  if-Survives P true m n h k = h
  if-Survives P false m n h k = k

  recover-Stays :
      {A : Type 0} (P : A → Type 0) (o : Outcome S A) (handler : InternalException → Cmd S A)
      → Stays P o
      → ((e : InternalException) → Survives P (handler e))
      → Stays P (recover o handler)
  recover-Stays P (ok a w) handler h next = h
  recover-Stays P (throws (internal_exception e) w) handler h next = (next e).at w
  recover-Stays P (throws (invalid_argument m) w) handler h next = tt
  recover-Stays P (throws out_of_range w) handler h next = tt
  recover-Stays P (throws bad_any_cast w) handler h next = tt
  recover-Stays P (terminated w) handler h next = h
  recover-Stays P undefined handler h next = tt
  recover-Stays P (running w) handler h next = tt

  pub catch_internal-Survives :
      {A : Type 0} (P : A → Type 0) (m : Cmd S A) (handler : InternalException → Cmd S A)
      → Survives P m
      → ((e : InternalException) → Survives P (handler e))
      → Survives P (catch_internal m handler)
  catch_internal-Survives P m handler h next = record {
    at = λ w. recover-Stays P (m w) handler (h.at w) next;
  }

  unwind-Stays :
      {A : Type 0} (P : A → Type 0) (o : Outcome S A) (destroy : Cmd S (Unit {0}))
      → Stays P o
      → Survives Any destroy
      → Stays P (unwind o destroy)
  unwind-Stays P (ok a w) destroy h d =
      and_then-Stays Any P (destroy w) (λ _. ok a) (d.at w) λ _ any. pure-Survives P a h
  unwind-Stays P (throws e w) destroy h d =
      and_then-Stays Any P (destroy w) (λ _. throws e) (d.at w) λ _ any. throw-Survives P e
  unwind-Stays P (terminated w) destroy h d = h
  unwind-Stays P undefined destroy h d = tt
  unwind-Stays P (running w) destroy h d = tt

  pub finally-Survives :
      {A : Type 0} (P : A → Type 0) (m : Cmd S A) (destroy : Cmd S (Unit {0}))
      → Survives P m
      → Survives Any destroy
      → Survives P (finally m destroy)
  finally-Survives P m destroy h d = record { at = λ w. unwind-Stays P (m w) destroy (h.at w) d }

  clean_up-Stays :
      {A : Type 0} (P : A → Type 0) (o : Outcome S A) (destroy : Cmd S (Unit {0}))
      → Stays P o
      → Survives Any destroy
      → Stays P (clean_up o destroy)
  clean_up-Stays P (ok a w) destroy h d = h
  clean_up-Stays P (throws e w) destroy h d =
      and_then-Stays Any P (destroy w) (λ _. throws e) (d.at w) λ _ any. throw-Survives P e
  clean_up-Stays P (terminated w) destroy h d = h
  clean_up-Stays P undefined destroy h d = tt
  clean_up-Stays P (running w) destroy h d = tt

  pub on_throw-Survives :
      {A : Type 0} (P : A → Type 0) (m : Cmd S A) (destroy : Cmd S (Unit {0}))
      → Survives P m
      → Survives Any destroy
      → Survives P (on_throw m destroy)
  on_throw-Survives P m destroy h d = record { at = λ w. clean_up-Stays P (m w) destroy (h.at w) d }

  pub free-Survives : (p : Ptr) → Survives Any (free {S = S} p)
  unfolding free
  free-Survives p = record { at = λ w. ground arith }

  pub memcpy-Survives : (p : Ptr) (src : Source) (n : ℕ) → Survives Any (memcpy {S = S} p src n)
  unfolding memcpy
  memcpy-Survives p src n = record { at = λ w. ground arith }

  pub call_lib-Survives : {A : Type 0} (c : Call) (f : S → A × S) → Survives Any (call_lib c f)
  unfolding call_lib
  call_lib-Survives c f = record { at = λ w. tt }

  pub call_heap-Survives :
      {A : Type 0} (c : Call) (f : Heap → S → A × Heap × S) → Survives Any (call_heap c f)
  unfolding call_heap
  call_heap-Survives c f = record { at = λ w. tt }

  pub use_heap-Survives : {A : Type 0} (f : Heap → S → A × Heap × S) → Survives Any (use_heap f)
  unfolding use_heap
  use_heap-Survives f = record { at = λ w. tt }

  pub sleep_for-Survives : (n : ℤ) → Survives Any (sleep_for {S = S} n)
  sleep_for-Survives n = record { at = λ w. tt }

module _ {S : Type 0} (nn : Platform S) where
  pub malloc-Survives : (n : ℕ) → Survives Any (malloc nn n)
  unfolding malloc
  malloc-Survives n = record { at = λ w. ground arith }

  pub throw_internal-Survives :
      {A : Type 0} (P : A → Type 0) → Survives P (throw_internal nn {A = A})
  unfolding throw_internal
  throw_internal-Survives P = record { at = λ w. tt }

  pub check_result-Survives : (r : ℤ) → Survives Any (check_result nn r)
  unfolding check_result
  check_result-Survives r =
      if-Survives Any (eq_ℤ r minus_one) _ _ (throw_internal-Survives Any) (value-Survives r)

-- The ways to put commands together where nothing is asked of their values.
pub ruleset surviving = (
  then-Survives, value-Survives, throw-Survives, undefined-Survives, if-Survives,
  catch_internal-Survives, free-Survives, memcpy-Survives, call_lib-Survives, call_heap-Survives,
  use_heap-Survives, sleep_for-Survives, malloc-Survives, throw_internal-Survives,
  check_result-Survives,
)
