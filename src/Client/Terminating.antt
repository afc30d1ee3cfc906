-- ===== src/Client/Terminating.antt =====
-- Where std::terminate ends the client.
use nanomsgpp.Prelude.{
  ℕ, ◌≡◌, refl, Bool, true, false, List, ◌∷◌, if◌then◌else◌, ◌||◌, Bool-cases, inl, inr,
}
use nanomsgpp.Prelude.Int.{ℤ, is_nonneg, minus_one, eq_ℤ}
use nanomsgpp.Prelude.Bytes.{Bytes, codes}
use nanomsgpp.Platform.{Platform}
use nanomsgpp.World.{
  World, Call, Exception, Outcome, Cmd, ok, throws, terminated, undefined, running, unwind, put_out,
  pure, ◌>>◌, and_then, internal_exception, invalid_argument, out_of_range, bad_any_cast,
  close_call,
}
use nanomsgpp.World.Calls.{call_lib, throw_internal}
use nanomsgpp.World.Survival.{Any, Stays}
use nanomsgpp.Socket.{open_socket, close, destroy}
use nanomsgpp.Client.Options.{Options}
use nanomsgpp.Client.Options.Names.{get_type-cases}
use nanomsgpp.Client.CommandLine.Reading.{IsUntyped, read_options, process_command_line-cases}
use nanomsgpp.Client.Main.{
  exit_failure, this_socket, report_exception, handle, run_client, main_with, main, help,
}
use nanomsgpp.Client.Survival.Whole.{run_socket-Survives}

module _ {S : Type 0} (nn : Platform S) where
  -- Terminated, if at all, right after nanomsg refused to close an open descriptor; an exception
  -- leaves only as `P` says.
  abbrev pub AtClose : {A : Type 0} → (Exception → World S → Type 0) → Outcome S A → Type 0
  AtClose P (ok a u) = Unit
  AtClose P (throws e u) = P e u
  AtClose P (terminated u) =
      (fd : ℤ) × (l : S) × (cs : List Call) × (is_nonneg fd ≡ true)
      × (eq_ℤ minus_one (nn.nn_close fd l).0 ≡ true)
      × (u.lib ≡ (nn.nn_close fd l).1)
      × (u.calls ≡ close_call fd ∷ cs)
  AtClose P undefined = Unit
  AtClose P (running u) = Unit

  abbrev Anything : Exception → World S → Type 0
  Anything e u = Unit

  abbrev Nothing : Exception → World S → Type 0
  Nothing e u = ⊥

  -- With only the error stream changed.
  abbrev pub CastFails : List Bytes → World S → Exception → World S → Type 0
  CastFails args w e u =
      IsUntyped nn args × (e ≡ bad_any_cast) × ((said : Bytes) × (u ≡ record w { err = said }))

  AtClose-mono :
      (P : Exception → World S → Type 0) (o : Outcome S ℕ) → AtClose Nothing o → AtClose P o
  AtClose-mono P (ok a u) h = tt
  AtClose-mono P (throws e u) h = absurd h
  AtClose-mono P (terminated u) h = h
  AtClose-mono P undefined h = tt
  AtClose-mono P (running u) h = tt

  destroy-AtClose : (w : World S) → AtClose Anything (destroy nn this_socket w)
  unfolding destroy close call_lib throw_internal
  destroy-AtClose w =
      let fd = (w.sockets this_socket).d_socket in
      elim (Bool-cases (is_nonneg fd)) [
        | inl live ↦ elim (Bool-cases (eq_ℤ minus_one (nn.nn_close fd w.lib).0)) [
          | inl refused ↦ rw (live, refused) (fd, w.lib, w.calls, live, refused, refl, refl)
          | inr closed ↦ rw (live, closed) tt
        ]
        | inr dead ↦ rw dead tt
      ]

  and_then-AtClose :
      {A B : Type 0} (o : Outcome S A) (k : A → Cmd S B)
      → AtClose Anything o
      → ((a : A) (w : World S) → AtClose Anything (k a w))
      → AtClose Anything (and_then o k)
  and_then-AtClose (ok a w) k h next = next a w
  and_then-AtClose (throws e w) k h next = tt
  and_then-AtClose (terminated w) k h next = h
  and_then-AtClose undefined k h next = tt
  and_then-AtClose (running w) k h next = tt

  unwind-AtClose :
      {A : Type 0} (o : Outcome S A)
      → Stays Any o
      → AtClose Anything (unwind o (destroy nn this_socket))
  unwind-AtClose (ok a w) h =
      and_then-AtClose (destroy nn this_socket w) (λ _. ok a) (destroy-AtClose w) λ _ u. tt
  unwind-AtClose (throws e w) h =
      and_then-AtClose (destroy nn this_socket w) (λ _. throws e) (destroy-AtClose w) λ _ u. tt
  unwind-AtClose (terminated w) h = elim h [ ]
  unwind-AtClose undefined h = tt
  unwind-AtClose (running w) h = tt

  handle-AtClose : (o : Outcome S ℕ) → AtClose Anything o → AtClose Nothing (handle nn o)
  unfolding report_exception
  handle-AtClose (ok code w) h = tt
  handle-AtClose (throws (internal_exception e) w) h = tt
  handle-AtClose (throws (invalid_argument m) w) h = tt
  handle-AtClose (throws out_of_range w) h = tt
  handle-AtClose (throws bad_any_cast w) h = tt
  handle-AtClose (terminated w) h = h
  handle-AtClose undefined h = tt
  handle-AtClose (running w) h = tt

  run_client-AtClose :
      (k : ℕ) (ops : Options) (w : World S) → AtClose Nothing (handle nn (run_client nn k ops w))
  unfolding run_client open_socket call_lib report_exception
  run_client-AtClose k ops w = elim (get_type-cases ops w) [
    | inl (t, named, run) ↦ rw run (
        handle-AtClose _
          (and_then-AtClose _ _ (unwind-AtClose _ ((run_socket-Survives nn k ops).at _)) λ _ u. tt))
    | inr (unnamed, run) ↦ rw run tt
  ]

  if-AtClose :
      (b : Bool) (m n : Cmd S ℕ) (w : World S)
      → AtClose Nothing (m w)
      → AtClose Nothing (n w)
      → AtClose Nothing ((if b then m else n) w)
  if-AtClose true m n w h g = h
  if-AtClose false m n w h g = g

  shown-AtClose :
      (b : Bool) (w : World S)
      → AtClose Nothing (
          ((if b then (do put_out (codes "\n"); put_out (help nn)) else pure tt)
              >> pure exit_failure)
            w)
  shown-AtClose true w = tt
  shown-AtClose false w = tt

  -- Whatever the command line, nanomsg and `malloc` do, and std::bad_alloc aside: the client is ended
  -- by std::terminate in the destructor of its socket only where nanomsg refuses with -1 to close an open descriptor; that
  -- call is then its last, and nothing has happened since. An exception leaves `main`, which ends
  -- the client too, only where an option is stored without a value of its type: it is bad_any_cast,
  -- and only the error stream has changed.
  pub main-AtClose :
      (k : ℕ) (args : List Bytes) (w : World S) → AtClose (CastFails args w) (main nn k args w)
  unfolding main main_with
  main-AtClose k args w =
      let (said, cases) = process_command_line-cases nn args w in
      let ops = read_options nn args in
      let u = record w { err = said } in
      elim cases [
        | inl (typed, run) ↦ rw run (
            AtClose-mono (CastFails args w) _ (
              if-AtClose ops.show_version _ _ u tt (
                if-AtClose (ops.show_usage || ops.show_help) _ _ u (shown-AtClose ops.show_help _)
                  (run_client-AtClose k ops u))))
        | inr (untyped, run) ↦ rw run (untyped, refl, (said, refl))
      ]
