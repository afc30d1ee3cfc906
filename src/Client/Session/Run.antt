-- ===== src/Client/Session/Run.antt =====
-- `main` of client/nanomsgpp.cpp makes the calls of one session.
use nanomsgpp.Prelude.{
  ℕ, ◌≡◌, refl, Bool, true, false, List, ◌∷◌, ◌⊎◌, inl, inr, Bool-cases, if◌then◌else◌, ◌||◌, arith,
}
use nanomsgpp.Prelude.Int.{ℤ, is_nonneg}
use nanomsgpp.Prelude.Bytes.{Bytes, codes}
use nanomsgpp.Platform.{Platform}
use nanomsgpp.SocketType.{SocketType, sp, domain_value, type_value}
use nanomsgpp.World.{
  socket_call, World, Call, close_call, Outcome, Cmd, ok, throws, terminated, undefined, running,
  unwind, noexcept_end, put_out, pure, ◌>>◌, and_then, internal_exception, invalid_argument,
  out_of_range, bad_any_cast,
}
use nanomsgpp.World.Ends.{Ends, Ends-mono, Always}
use nanomsgpp.Socket.{open_socket, close, destroy}
use nanomsgpp.Client.Options.{Options}
use nanomsgpp.Client.Options.Names.{type_name, get_type-cases}
use nanomsgpp.Client.CommandLine.Reading.{read_options, process_command_line-cases}
use nanomsgpp.Client.Main.{
  exit_success, exit_failure, this_socket, report_exception, handle, run_client, main_with, main,
  help,
}
use nanomsgpp.Client.Session.{talking, closed, opens, closes, Halfway, Finished, Follows}
use nanomsgpp.Socket.Lifetime.{AfterClose, close-closed}
use nanomsgpp.World.Calls.{call_lib}
use nanomsgpp.Client.Session.Reaches.{Open, Reaches, run_socket-Reaches}

module _ {S : Type 0} (nn : Platform S) (fd : ℤ) (before : List Call) where
  -- The close at the end, over what `close` leaves.
  abbrev Closes : World S → World S → Type 0
  Closes w w' = w'.calls ≡ (
      if is_nonneg (w.sockets this_socket).d_socket
      then close_call (w.sockets this_socket).d_socket ∷ w.calls
      else w.calls)

  Closes-Finished : (w w' : World S) → Open nn fd before w → Closes w w' → Finished fd before w'
  Closes-Finished w w' (st, still, h) e = elim (Bool-cases (is_nonneg fd)) [
    | inl live ↦
        let last : w'.calls ≡ close_call fd ∷ w.calls = ground (arith, e, h.has_fd) in
        inl (rw last (closes still h.session))
    | inr dead ↦
        let none_more : w'.calls ≡ w.calls = ground (arith, e, h.has_fd) in
        inr (dead, (st, rw none_more h.session))
  ]

  Open-Halfway : (w : World S) → Open nn fd before w → Halfway fd before w
  Open-Halfway w (st, still, h) = (st, h.session)

  Finished-Halfway : (w : World S) → Finished fd before w → Halfway fd before w
  Finished-Halfway w (inl done) = (closed, done)
  Finished-Halfway w (inr (dead, h)) = h

  after_close :
      {A : Type 0} (o : Outcome S (Unit {0})) (end : Cmd S A)
      → Ends (λ _ w'. Finished fd before w') o
      → ((w : World S) → Finished fd before w → Follows fd before (end w))
      → Follows fd before (and_then (noexcept_end o) λ _. end)
  after_close (ok a w) end h keeps = keeps w h
  after_close (throws e w) end h keeps = Finished-Halfway w h
  after_close (terminated w) end h keeps = elim h [ ]
  after_close undefined end h keeps = elim h [ ]
  after_close (running w) end h keeps = elim h [ ]

  destroy-Follows :
      {A : Type 0} (w : World S) (end : Cmd S A)
      → Open nn fd before w
      → ((w : World S) → Finished fd before w → Follows fd before (end w))
      → Follows fd before (and_then (destroy nn this_socket w) λ _. end)
  unfolding destroy
  destroy-Follows w end h keeps =
      after_close (close nn this_socket w) end
        (Ends-mono (AfterClose nn this_socket w) (λ _ w'. Finished fd before w')
          (close nn this_socket w) (close-closed nn this_socket w)
          λ a u e. Closes-Finished w u h e.2)
        keeps

  unwind-Follows :
      {A : Type 0} (o : Outcome S A)
      → Reaches nn fd before talking o
      → Follows fd before (unwind o (destroy nn this_socket))
  unwind-Follows (ok a w) h = destroy-Follows w (ok a) (talking, refl, h) λ u done. done
  unwind-Follows (throws e w) h = destroy-Follows w (throws e) h λ u done. done
  unwind-Follows (terminated w) h = Open-Halfway w h
  unwind-Follows undefined h = tt
  unwind-Follows (running w) h = Open-Halfway w h

  handle-Follows :
      (o : Outcome S (Unit {0}))
      → Follows fd before o
      → Follows fd before (handle nn (and_then o λ _. ok exit_success))
  unfolding report_exception
  handle-Follows (ok a w) h = h
  handle-Follows (throws (internal_exception e) w) h = h
  handle-Follows (throws (invalid_argument m) w) h = h
  handle-Follows (throws out_of_range w) h = h
  handle-Follows (throws bad_any_cast w) h = h
  handle-Follows (terminated w) h = h
  handle-Follows undefined h = tt
  handle-Follows (running w) h = h

module _ {S : Type 0} (nn : Platform S) where
  -- The descriptor that `nn_socket` answers for a type.
  abbrev pub fd_for : SocketType → S → ℤ
  fd_for t l = (nn.nn_socket (domain_value nn.header sp) (type_value nn.header t) l).0

  abbrev opening : SocketType → Call
  opening t = socket_call (domain_value nn.header sp) (type_value nn.header t)

  -- No call at all, or the calls of one session on the descriptor for the type asked for.
  abbrev pub OneSession : Options → World S → Outcome S ℕ → Type 0
  OneSession ops w o =
      Always (λ w'. w'.calls ≡ w.calls) o
      ⊎ ((t : SocketType) × (ops.type ≡ type_name t)
          × Follows (fd_for t w.lib) (opening t ∷ w.calls) o)

  run_client-OneSession :
      (k : ℕ) (ops : Options) (w : World S) → OneSession ops w (handle nn (run_client nn k ops w))
  unfolding run_client open_socket call_lib report_exception
  run_client-OneSession k ops w = elim (get_type-cases ops w) [
    | inl (t, named, run) ↦
        let fd = fd_for t w.lib in
        rw run (
          inr (
            t,
            named,
            handle-Follows nn fd (opening t ∷ w.calls) _ (
                unwind-Follows nn fd (opening t ∷ w.calls) _ (
                  run_socket-Reaches nn fd (opening t ∷ w.calls) k ops _
                    (record { session = opens; has_fd = refl }))),
          ))
    | inr (unnamed, run) ↦ rw run (inl refl)
  ]

  if-OneSession :
      (b : Bool) (m n : Cmd S ℕ) (ops : Options) (w : World S)
      → OneSession ops w (m w)
      → OneSession ops w (n w)
      → OneSession ops w ((if b then m else n) w)
  if-OneSession true m n ops w h g = h
  if-OneSession false m n ops w h g = g

  help_silent :
      (b : Bool) (w u : World S)
      → u.calls ≡ w.calls
      → Always
          (λ w'. w'.calls ≡ w.calls)
          (((if b then (do put_out (codes "\n"); put_out (help nn)) else pure tt)
              >> pure exit_failure)
            u)
  help_silent true w u e = e
  help_silent false w u e = e

  -- Once the command line is read.
  main_with-OneSession :
      (k : ℕ) (ops : Options) (w : World S) → OneSession ops w (main_with nn k ops w)
  unfolding main_with
  main_with-OneSession k ops w = if-OneSession ops.show_version _ _ ops w (inl refl) (
      if-OneSession (ops.show_usage || ops.show_help) _ _ ops w
        (inl (help_silent ops.show_help w _ refl)) (run_client-OneSession k ops w))

  -- Whatever the command line, the library and the memory do, short of undefined behaviour: `main`
  -- calls nothing of nanomsg, or its type is one that has a name and its calls are those of one
  -- session: one `nn_socket` for that type, and then, all on the descriptor that it answered, first
  -- only options, then only binds, then only connects, then only messages and sleeps. Where `main`
  -- returns, one `nn_close` of the descriptor is the last call, unless `nn_socket` answered a
  -- negative number.
  pub main-OneSession :
      (k : ℕ) (args : List Bytes) (w : World S)
      → OneSession (read_options nn args) w (main nn k args w)
  unfolding main
  main-OneSession k args w =
      let (said, cases) = process_command_line-cases nn args w in
      elim cases [
        | inl (typed, run) ↦
            rw run (main_with-OneSession k (read_options nn args) (record w { err = said }))
        | inr (untyped, run) ↦ rw run (inl refl)
      ]
