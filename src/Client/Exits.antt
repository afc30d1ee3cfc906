-- ===== src/Client/Exits.antt =====
-- How `main` of client/nanomsgpp.cpp ends, and what it leaves behind.
use nanomsgpp.Prelude.{ℕ, List, ◌≡◌, if◌then◌else◌, ◌⊎◌, inl, inr, refl, false, Bool, true, ◌||◌}
use nanomsgpp.Prelude.Int.{is_nonneg}
use nanomsgpp.Prelude.Bytes.{Bytes, codes}
use nanomsgpp.Platform.{Platform}
use nanomsgpp.World.{
  World, Outcome, Cmd, ok, throws, terminated, undefined, running, unwind, noexcept_end, put_out,
  pure, ◌>>◌, and_then, internal_exception, invalid_argument, out_of_range, bad_any_cast,
}
use nanomsgpp.World.Ends.{Ends, Ends-mono}
use nanomsgpp.World.Calls.{call_lib}
use nanomsgpp.Socket.{open_socket, close, destroy}
use nanomsgpp.Socket.Lifetime.{AfterClose, close-closed}
use nanomsgpp.Client.Options.{Options}
use nanomsgpp.Client.Options.Names.{get_type-cases}
use nanomsgpp.Client.CommandLine.Reading.{
  read_options, IsTyped, IsUntyped, process_command_line-cases,
}
use nanomsgpp.Client.Main.{
  exit_success, exit_failure, this_socket, report_exception, handle, run_socket, run_client,
  main_with, main, help,
}

module _ {S : Type 0} where
  abbrev IsClosed : World S → Type 0
  IsClosed w = is_nonneg (w.sockets this_socket).d_socket ≡ false

  -- By a value or an exception, only with the socket closed.
  abbrev LeavesClosed : {A : Type 0} → Outcome S A → Type 0
  LeavesClosed (ok a w) = IsClosed w
  LeavesClosed (throws e w) = IsClosed w
  LeavesClosed (terminated w) = Unit
  LeavesClosed undefined = Unit
  LeavesClosed (running w) = Unit

  -- With an exit code and the socket closed, and never by an exception.
  abbrev pub Exits : Outcome S ℕ → Type 0
  Exits (ok code w) = ((code ≡ exit_success) ⊎ (code ≡ exit_failure)) × IsClosed w
  Exits (throws e w) = ⊥
  Exits (terminated w) = Unit
  Exits undefined = Unit
  Exits (running w) = Unit

module _ {S : Type 0} (nn : Platform S) where
  closing :
      {A : Type 0} (o : Outcome S (Unit {0})) (next : Cmd S A)
      → Ends (λ _ w'. IsClosed w') o
      → ((w : World S) → IsClosed w → LeavesClosed (next w))
      → LeavesClosed (and_then (noexcept_end o) λ _. next)
  closing (ok a w) next h keeps = keeps w h
  closing (throws e w) next h keeps = tt
  closing (terminated w) next h keeps = elim h [ ]
  closing undefined next h keeps = elim h [ ]
  closing (running w) next h keeps = elim h [ ]

  destroy-closing :
      {A : Type 0} (w : World S) (next : Cmd S A)
      → ((w : World S) → IsClosed w → LeavesClosed (next w))
      → LeavesClosed (and_then (destroy nn this_socket w) λ _. next)
  unfolding destroy
  destroy-closing w next keeps =
      closing (close nn this_socket w) next
        (Ends-mono (AfterClose nn this_socket w) (λ _ w'. IsClosed w') (close nn this_socket w)
          (close-closed nn this_socket w) λ a u h. h.0)
        keeps

  unwind-closing : {A : Type 0} (o : Outcome S A) → LeavesClosed (unwind o (destroy nn this_socket))
  unwind-closing (ok a w) = destroy-closing w (ok a) λ u h. h
  unwind-closing (throws e w) = destroy-closing w (throws e) λ u h. h
  unwind-closing (terminated w) = tt
  unwind-closing undefined = tt
  unwind-closing (running w) = tt

  exit_with_success :
      (o : Outcome S (Unit {0}))
      → LeavesClosed o
      → Exits (handle nn (and_then o λ _. ok exit_success))
  unfolding report_exception
  exit_with_success (ok a w) closed = (inl refl, closed)
  exit_with_success (throws (internal_exception e) w) closed = (inr refl, closed)
  exit_with_success (throws (invalid_argument m) w) closed = (inr refl, closed)
  exit_with_success (throws out_of_range w) closed = (inr refl, closed)
  exit_with_success (throws bad_any_cast w) closed = (inr refl, closed)
  exit_with_success (terminated w) closed = tt
  exit_with_success undefined closed = tt
  exit_with_success (running w) closed = tt

  exit_after :
      (k : ℕ) (ops : Options) (w : World S)
      → Exits (
          handle nn (
            and_then
              (unwind (run_socket nn k ops w) (destroy nn this_socket))
              λ _. ok exit_success))
  exit_after k ops w =
      exit_with_success (unwind (run_socket nn k ops w) (destroy nn this_socket))
        (unwind-closing (run_socket nn k ops w))

  if-Exits :
      (b : Bool) (m n : Cmd S ℕ) (w : World S)
      → Exits (m w)
      → Exits (n w)
      → Exits ((if b then m else n) w)
  if-Exits true m n w h g = h
  if-Exits false m n w h g = g

  run_client-Exits :
      (k : ℕ) (ops : Options) (w : World S) → IsClosed w → Exits (handle nn (run_client nn k ops w))
  unfolding run_client open_socket call_lib report_exception
  run_client-Exits k ops w closed = elim (get_type-cases ops w) [
    | inl (t, named, run) ↦ rw run (exit_after k ops _)
    | inr (unnamed, run) ↦ rw run (inr refl, closed)
  ]

  shown_closed :
      (b : Bool) (w : World S)
      → IsClosed w
      → Exits (
          ((if b then (do put_out (codes "\n"); put_out (help nn)) else pure tt)
              >> pure exit_failure)
            w)
  shown_closed true w closed = (inr refl, closed)
  shown_closed false w closed = (inr refl, closed)

  -- Once the command line is read.
  main_with-Exits :
      (k : ℕ) (ops : Options) (w : World S)
      → is_nonneg (w.sockets this_socket).d_socket ≡ false
      → Exits (main_with nn k ops w)
  unfolding main_with
  main_with-Exits k ops w closed =
      if-Exits ops.show_version _ _ w (inr refl, closed)
        (if-Exits (ops.show_usage || ops.show_help) _ _ w (shown_closed ops.show_help _ closed)
          (run_client-Exits k ops w closed))

  -- With no socket open yet: where each option that is stored has a value of its type, the client
  -- exits with 0 or 1 and with its socket closed, however far it got and whatever failed, and no
  -- exception but std::bad_alloc, which is not modelled, leaves `main`. (It may also be terminated, run into undefined behaviour, or still be
  -- running.) Where some option has not, bad_any_cast leaves `main`, and only the error stream has
  -- changed.
  pub main-Exits :
      (k : ℕ) (args : List Bytes) (w : World S)
      → is_nonneg (w.sockets this_socket).d_socket ≡ false
      → (IsTyped nn args × Exits (main nn k args w))
        ⊎ (IsUntyped nn args
            × ((said : Bytes) × (main nn k args w ≡ throws bad_any_cast (record w { err = said }))))
  unfolding main
  main-Exits k args w closed =
      let (said, cases) = process_command_line-cases nn args w in
      elim cases [
        | inl (typed, run) ↦
            rw run (
              inl
                (typed, main_with-Exits k (read_options nn args) (record w { err = said }) closed))
        | inr (untyped, run) ↦ rw run (inr (untyped, (said, refl)))
      ]
