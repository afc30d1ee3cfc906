-- ===== src/World/Traces/Calls.antt =====
-- The commands of World/Calls.antt: those that use the heap make no call, and the others one.
use nanomsgpp.Prelude.{ℕ, ◌≡◌, refl, arith}
use nanomsgpp.Prelude.Int.{ℤ, minus_one, eq_ℤ}
use nanomsgpp.Memory.{Ptr, Heap, Source}
use nanomsgpp.Platform.{Platform}
use nanomsgpp.World.{World, Ref, Call, Cmd, undefined_behaviour}
use nanomsgpp.World.Calls.{
  use_heap, call_heap, call_lib, free, memcpy, malloc, throw_internal, check_result,
}
use nanomsgpp.World.Ends.{Always}
use nanomsgpp.World.Posts.{Always-mono}
use nanomsgpp.World.Policy.{Policy}
use nanomsgpp.World.Traces.{
  Trace, IsTraced, Trace-quiet, Trace-call, pure-IsTraced, throw-IsTraced, if-IsTraced,
  bind-IsTraced, noexcept-IsTraced, on_throw-IsTraced, finally-IsTraced, catch_internal-IsTraced,
}

module _ {S : Type 0} (nn : Platform S) (s : Ref) (fd : ℤ) (P : Policy nn) where
  -- The same calls, sockets and state of nanomsg.
  abbrev Same : World S → World S → Type 0
  Same w w' = (w'.calls ≡ w.calls) × (w'.sockets ≡ w.sockets) × (w'.lib ≡ w.lib)

  Same-Trace : (w u : World S) → Same w u → Trace nn s fd P w u
  Same-Trace w u h = Trace-quiet nn s fd P w u h.0 h.1 (rw h.2 (P.stay w.lib))

  pub quiet-IsTraced :
      {A : Type 0} (m : Cmd S A) → ((w : World S) → Always (Same w) (m w)) → IsTraced nn s fd P m
  quiet-IsTraced m h = record {
    at = λ w e. Always-mono (Same w) (Trace nn s fd P w) (m w) (h w) (Same-Trace w);
  }

  pub undefined-IsTraced : {A : Type 0} → IsTraced nn s fd P {A = A} undefined_behaviour
  undefined-IsTraced = record { at = λ w e. tt }

  pub free-IsTraced : (p : Ptr) → IsTraced nn s fd P (free p)
  unfolding free
  free-IsTraced p = quiet-IsTraced (free p) λ w. ground arith

  pub memcpy-IsTraced : (p : Ptr) (src : Source) (n : ℕ) → IsTraced nn s fd P (memcpy p src n)
  unfolding memcpy
  memcpy-IsTraced p src n = quiet-IsTraced (memcpy p src n) λ w. ground arith

  pub malloc-IsTraced : (n : ℕ) → IsTraced nn s fd P (malloc nn n)
  unfolding malloc
  malloc-IsTraced n = quiet-IsTraced (malloc nn n) λ w. ground arith

  pub freemsg-IsTraced : (p : Ptr) → IsTraced nn s fd P (use_heap (nn.nn_freemsg p))
  unfolding use_heap
  freemsg-IsTraced p = record {
    at = λ w e. Trace-quiet nn s fd P w _ refl refl (P.freemsg p w.heap w.lib);
  }

  pub call_lib-IsTraced :
      {A : Type 0} (c : Call) (f : S → A × S)
      → P.Allowed c
      → ((l : S) → P.Step l (f l).1)
      → IsTraced nn s fd P (call_lib c f)
  unfolding call_lib
  call_lib-IsTraced c f a step = record {
    at = λ w e. Trace-call nn s fd P c w _ a refl refl (step w.lib);
  }

  pub call_heap-IsTraced :
      {A : Type 0} (c : Call) (f : Heap → S → A × Heap × S)
      → P.Allowed c
      → ((h : Heap) (l : S) → P.Step l (f h l).2)
      → IsTraced nn s fd P (call_heap c f)
  unfolding call_heap
  call_heap-IsTraced c f a step = record {
    at = λ w e. Trace-call nn s fd P c w _ a refl refl (step w.heap w.lib);
  }

  pub throw_internal-IsTraced : (A : Type 0) → IsTraced nn s fd P {A = A} (throw_internal nn)
  unfolding throw_internal
  throw_internal-IsTraced A = quiet-IsTraced (throw_internal nn) λ w. (refl, refl, refl)

  pub check_result-IsTraced : (r : ℤ) → IsTraced nn s fd P (check_result nn r)
  unfolding check_result
  check_result-IsTraced r =
      if-IsTraced nn s fd P (eq_ℤ r minus_one) _ _ (throw_internal-IsTraced ℤ)
        (pure-IsTraced nn s fd P r)

-- The commands that make no call, and the ways to put commands together.
pub ruleset traced = (
  bind-IsTraced, pure-IsTraced, throw-IsTraced, if-IsTraced, noexcept-IsTraced, on_throw-IsTraced,
  finally-IsTraced, catch_internal-IsTraced, undefined-IsTraced, malloc-IsTraced,
  throw_internal-IsTraced, check_result-IsTraced, freemsg-IsTraced, free-IsTraced, memcpy-IsTraced,
)
