-- ===== src/Socket/Lifetime.antt =====
-- Descriptors: who owns one, and when it is closed.
use nanomsgpp.Prelude.{
  ◌≡◌, ◌≢◌, refl, false, Option, [], ◌∷◌, ◌&&◌, if◌then◌else◌, arith, Bool-cases, inl, inr,
}
use nanomsgpp.Prelude.Int.{minus_one, eq_ℤ, is_nonneg}
use nanomsgpp.Platform.{Platform}
use nanomsgpp.World.{World, Ref, ok, close_call}
use nanomsgpp.World.Calls.{call_lib, throw_internal}
use nanomsgpp.World.Ends.{Ends, is_terminated}
use nanomsgpp.Socket.{move_assign, close, destroy}

module _ {S : Type 0} (nn : Platform S) where
  -- What `close` leaves.
  abbrev pub AfterClose : Ref → World S → Option (Unit {0}) → World S → Type 0
  AfterClose s w r w' =
      (is_nonneg (w'.sockets s).d_socket ≡ false)
      × (close nn s w' ≡ ok tt w')
      × (w'.calls ≡ (
          if is_nonneg (w.sockets s).d_socket
          then close_call (w.sockets s).d_socket ∷ w.calls
          else w.calls))
      × ((r : Ref) → r ≢ s → w'.sockets r ≡ w.sockets r)

  -- However `close` ends, the object is without a descriptor afterwards, so that closing it again
  -- does nothing; nanomsg has been asked once to close the descriptor, or not at all where there
  -- was none; and no other socket is changed.
  pub close-closed : (s : Ref) (w : World S) → Ends (AfterClose s w) (close nn s w)
  unfolding close call_lib throw_internal
  close-closed s w = elim (Bool-cases (is_nonneg (w.sockets s).d_socket)) [
    | inl live ↦
        rw live (elim (Bool-cases (eq_ℤ minus_one (nn.nn_close (w.sockets s).d_socket w.lib).0)) [
          | inl refused ↦
              rw refused (ground arith, ground arith, ground arith, λ r ne. ground arith)
          | inr closed ↦ rw closed (ground arith, ground arith, ground arith, λ r ne. ground arith)
        ])
    | inr dead ↦ rw dead (ground arith, ground arith, ground arith, λ r ne. refl)
  ]

  -- The destructor ends the program just where there is a descriptor and nanomsg refuses to close
  -- it.
  destroy-is_terminated :
      (s : Ref) (w : World S)
      → is_terminated (destroy nn s w) ≡ (
          is_nonneg (w.sockets s).d_socket
          && eq_ℤ minus_one (nn.nn_close (w.sockets s).d_socket w.lib).0)
  unfolding destroy call_lib throw_internal
  destroy-is_terminated s w = ground arith

module _ {S : Type 0} where
  -- A move between two objects hands over the descriptor and the endpoints, and leaves the source
  -- with neither. What the target had is forgotten, with no call of nanomsg to close it. No other
  -- object changes.
  pub move_assign-moves :
      (s other : Ref) (w : World S)
      → s ≢ other
      → Ends
          (λ _ w'.
            (w'.sockets s ≡ w.sockets other)
            × (w'.sockets other ≡ record { d_socket = minus_one; d_endpoints = [] })
            × ((r : Ref) → r ≢ s → r ≢ other → w'.sockets r ≡ w.sockets r)
            × (w'.calls ≡ w.calls))
          (move_assign s other w)
  unfolding move_assign
  move_assign-moves s other w ne = (ground arith, ground arith, (λ r n m. ground arith), refl)
