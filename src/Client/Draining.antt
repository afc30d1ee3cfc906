-- ===== src/Client/Draining.antt =====
-- What `recv_loop` of client/nanomsgpp.cpp promises: it prints what comes until the library says
-- that nothing more will.
use nanomsgpp.Prelude.{
  ℕ, zero, suc, ◌<◌, ◌≡◌, refl, sym, ◌∙◌, Bool-cases, inl, inr, true, false, arith, ◌||◌,
}
use nanomsgpp.Prelude.Int.{eq_ℤ}
use nanomsgpp.Platform.{Platform}
use nanomsgpp.World.{
  World, Ref, Outcome, ok, throws, terminated, undefined, running, InternalException,
  internal_exception, invalid_argument, out_of_range, bad_any_cast,
}
use nanomsgpp.Client.Options.{Options}
use nanomsgpp.Client.Loops.{receive_and_print, recv_again, recv_loop}

module _ {S : Type 0} (nn : Platform S) (s : Ref) (ops : Options) where
  -- In so many rounds, each of which prints a message or finds none yet (EAGAIN), the first world
  -- comes to the second, where the socket timed out or is in no state to receive.
  pub data Drains : ℕ → World S → World S → Type 0 where
    printed :
        {n : ℕ} {w v : World S} (u : World S)
        → receive_and_print nn s ops w ≡ ok tt u
        → Drains n u v
        → Drains (suc n) w v
    waited :
        {n : ℕ} {w v : World S} (u : World S) (e : InternalException)
        → receive_and_print nn s ops w ≡ throws (internal_exception e) u
        → eq_ℤ e.d_error nn.eagain ≡ true
        → Drains n u v
        → Drains (suc n) w v
    ended :
        {w u : World S} (e : InternalException)
        → receive_and_print nn s ops w ≡ throws (internal_exception e) u
        → eq_ℤ e.d_error nn.eagain ≡ false
        → (eq_ℤ e.d_error nn.etimedout || eq_ℤ e.d_error nn.efsm) ≡ true
        → Drains 0 w u

  -- Where printing message after message, and trying again on EAGAIN, comes in `n` rounds to a
  -- world in which the socket times out or is in no state to receive, `recv_loop` with more than
  -- `n` rounds returns, in that world.
  pub recv_loop_complete :
      {n : ℕ} (k : ℕ) (w v : World S) → n < k → Drains n w v → recv_loop nn k s ops w ≡ ok tt v
  unfolding recv_loop recv_again
  recv_loop_complete zero w v less d = ground arith
  recv_loop_complete (suc k) w v less (printed {n = n} u run rest) =
      rw run (recv_loop_complete k u v (omega (arith, less)) rest)
  recv_loop_complete (suc k) w v less (waited {n = n} u e run again rest) =
      rw run (rw again (recv_loop_complete k u v (omega (arith, less)) rest))
  recv_loop_complete (suc k) w v less (ended e run fresh done) = rw run (rw fresh (rw done refl))

  -- One round, from how the receive ended.
  recv_round_sound :
      (k : ℕ) (w v : World S) (o : Outcome S (Unit {0}))
      → receive_and_print nn s ops w ≡ o
      → recv_loop nn (suc k) s ops w ≡ ok tt v
      → ((u : World S) → recv_loop nn k s ops u ≡ ok tt v → (n : ℕ) × (n < k) × Drains n u v)
      → (n : ℕ) × (n < suc k) × Drains n w v
  unfolding recv_loop recv_again
  recv_round_sound k w v (ok value u) run h next =
      let (n, less, rest) = next u (sym (rw run refl) ∙ h) in
      (suc n, omega (arith, less), printed u run rest)
  recv_round_sound k w v (throws (internal_exception e) u) run h next =
      elim (Bool-cases (eq_ℤ e.d_error nn.eagain)) [
        | inl again ↦
            let (n, less, rest) = next u (sym (rw run (rw again refl)) ∙ h) in
            (suc n, omega (arith, less), waited u e run again rest)
        | inr fresh ↦ elim (Bool-cases (eq_ℤ e.d_error nn.etimedout || eq_ℤ e.d_error nn.efsm)) [
          | inl done ↦
              let round : recv_loop nn (suc k) s ops w ≡ ok tt u =
                (rw run (rw fresh (rw done refl))) in
              let same : u ≡ v = cc in (zero, omega arith, rw (sym same) (ended e run fresh done))
          | inr other ↦
              let round : recv_loop nn (suc k) s ops w ≡ throws (internal_exception e) u =
                (rw run (rw fresh (rw other refl))) in
              cc
        ]
      ]
  recv_round_sound k w v (throws (invalid_argument m) u) run h next = ground arith
  recv_round_sound k w v (throws out_of_range u) run h next = ground arith
  recv_round_sound k w v (throws bad_any_cast u) run h next = ground arith
  recv_round_sound k w v (terminated u) run h next = ground arith
  recv_round_sound k w v undefined run h next = ground arith
  recv_round_sound k w v (running u) run h next = ground arith

  -- If `recv_loop` returns, then the world in which it does is one that printing message after
  -- message, and trying again on EAGAIN, comes to in fewer rounds than it was given, and in which
  -- the socket timed out or was in no state to receive.
  pub recv_loop_sound :
      (k : ℕ) (w v : World S) → recv_loop nn k s ops w ≡ ok tt v → (n : ℕ) × (n < k) × Drains n w v
  unfolding recv_loop
  recv_loop_sound zero w v h = ground arith
  recv_loop_sound (suc k) w v h =
      recv_round_sound k w v (receive_and_print nn s ops w) refl h λ u. recv_loop_sound k u v
