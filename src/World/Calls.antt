-- ===== src/World/Calls.antt =====
-- The calls of nanomsg, `malloc`, `free` and `memcpy` as commands, and the constructors of
-- `internal_exception` (exception.hpp).
use nanomsgpp.Prelude.{ℕ, none, some, ◌∷◌, ◌==◌, if◌then◌else◌}
use nanomsgpp.Prelude.Int.{ℤ, minus_one, eq_ℤ}
use nanomsgpp.Prelude.Bytes.{Bytes}
use nanomsgpp.Memory.{
  Ptr, null, Heap, by_malloc, by_nn, unset_cells, allocate, set_block, Source, read_source,
}
use nanomsgpp.Platform.{Platform}
use nanomsgpp.World.{Call, Cmd, pure, throw, ok, InternalException, internal_exception, undefined}

module _ {S : Type 0} where
  -- A call that works on nanomsg's own state.
  unfoldable pub call_lib : {A : Type 0} → Call → (S → A × S) → Cmd S A
  call_lib c f w = ok (f w.lib).0 (record w { lib = (f w.lib).1; calls = c ∷ w.calls })

  -- A call that may allocate or free memory.
  unfoldable pub call_heap : {A : Type 0} → Call → (Heap → S → A × Heap × S) → Cmd S A
  call_heap c f w =
      ok (f w.heap w.lib).0
        (record w { heap = (f w.heap w.lib).1; lib = (f w.heap w.lib).2; calls = c ∷ w.calls })

  -- The same for `nn_allocmsg` and `nn_freemsg`, which are not recorded.
  unfoldable pub use_heap : {A : Type 0} → (Heap → S → A × Heap × S) → Cmd S A
  use_heap f w =
      ok (f w.heap w.lib).0 (record w { heap = (f w.heap w.lib).1; lib = (f w.heap w.lib).2 })

  -- `std::free`: nothing for null, undefined for what `malloc` did not give or is freed already.
  unfoldable pub free : Ptr → Cmd S (Unit {0})
  free p w = if p == null then ok tt w else elim (w.heap.block p) [
    | none ↦ undefined
    | some b ↦ elim b.owner [
      | by_malloc ↦ ok tt (record w { heap = set_block p none w.heap })
      | by_nn ↦ undefined
    ]
  ]

  -- `std::memcpy` to the start of a block that has just the `n` cells: undefined at a null pointer
  -- or a source that is too short.
  unfoldable pub memcpy : Ptr → Source → ℕ → Cmd S (Unit {0})
  memcpy p src n w = if p == null then undefined else elim (read_source w.heap src n) [
    | none ↦ undefined
    | some cs ↦
        ok tt
          (record w { heap = set_block p (some (record { owner = by_malloc; cells = cs })) w.heap })
  ]

module _ {S : Type 0} (nn : Platform S) where
  -- `std::malloc`: null when it fails.
  unfoldable pub malloc : ℕ → Cmd S Ptr
  malloc n w =
      if nn.malloc_fails w.heap n
      then ok null w
      else ok w.heap.next (record w { heap = allocate by_malloc (unset_cells n) w.heap })

  -- `internal_exception()`.
  unfoldable pub current_error : S → InternalException
  current_error s = record {
    message = nn.nn_strerror (nn.nn_errno s);
    d_error = nn.nn_errno s;
    d_reason = nn.nn_strerror (nn.nn_errno s);
  }

  -- `internal_exception(message)`.
  unfoldable pub current_error_with : Bytes → S → InternalException
  current_error_with m s = record {
    message = m;
    d_error = nn.nn_errno s;
    d_reason = nn.nn_strerror (nn.nn_errno s);
  }

  -- `throw internal_exception()`.
  unfoldable pub throw_internal : {A : Type 0} → Cmd S A
  unfolding current_error
  throw_internal w = throw (internal_exception (current_error w.lib)) w

  -- `if (-1 == result) throw internal_exception();`, else the result.
  unfoldable pub check_result : ℤ → Cmd S ℤ
  unfolding throw_internal
  check_result r = if eq_ℤ r minus_one then throw_internal else pure r
