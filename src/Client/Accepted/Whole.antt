-- ===== src/Client/Accepted/Whole.antt =====
-- `main` around the loop for the type, while nanomsg takes every option and every address.
use nanomsgpp.Prelude.{
  ℕ, ◌≡◌, ◌∙◌, ap, refl, Bool, true, false, arith, List, [], ◌∷◌, ◌++◌, if◌then◌else◌, ◌||◌, ◌==◌,
}
use nanomsgpp.Prelude.Int.{ℤ, minus_one, is_nonneg, fits_int, scale}
use nanomsgpp.Prelude.Bytes.{Bytes, codes}
use nanomsgpp.Platform.{Platform}
use nanomsgpp.SocketType.{SocketType, sp, type_value}
use nanomsgpp.World.{
  World, Cmd, Outcome, ok, undefined, running, throws, internal_exception, InternalException,
  and_then, finally, pure, ◌>>◌, socket_call, close_call,
}
use nanomsgpp.World.Calls.{call_lib, throw_internal}
use nanomsgpp.Socket.{open_socket, close, destroy}
use nanomsgpp.Client.Options.{Options}
use nanomsgpp.Client.Options.Names.{type_name, get_type-type_name}
use nanomsgpp.Client.CommandLine.Reading.{IsTyped, read_options, process_command_line-read_options}
use nanomsgpp.Client.Main.{
  exit_success, exit_failure, report_exception, this_socket, run_loop, run_socket, handle,
  run_client, main_with, main,
}
use nanomsgpp.Client.Session.Run.{fd_for}
use nanomsgpp.Client.Accepted.{Accepts, SetUp, set_up_calls}
use nanomsgpp.Client.Accepted.Opening.{run_socket-SetUp}

-- The command line asks for a client of the type, and for no help, and the send timeout is an `int`
-- in milliseconds.
pub record Asks (ops : Options) (t : SocketType) : Type 0 where
  pub named : ops.type ≡ type_name t
  pub no_version : ops.show_version ≡ false
  pub no_help : (ops.show_usage || ops.show_help) ≡ false
  pub fits : fits_int (scale ops.send_timeout 1000) ≡ true

-- The world once the socket is opened.
abbrev pub opened : {S : Type 0} → Platform S → SocketType → World S → World S
opened nn t w = record w {
  lib = (nn.nn_socket nn.af_sp (type_value nn.header t) w.lib).1;
  calls = socket_call nn.af_sp (type_value nn.header t) ∷ w.calls;
}

module _ {S V : Type 0} (nn : Platform S) (view : S → V) where
  -- What `main` leaves where its loop ended in `v`.
  pub record Closed (fd : ℤ) (v x : World S) : Type 0 where
    pub heap : x.heap ≡ v.heap
    pub out : x.out ≡ v.out
    pub calls : x.calls ≡ close_call fd ∷ v.calls
    pub lib : x.lib ≡ (nn.nn_close fd v.lib).1

  else_branch : (b : Bool) (m n : Cmd S ℕ) (w : World S) → b ≡ false → (if b then m else n) w ≡ n w
  else_branch true m n w e = ground (arith, e)
  else_branch false m n w e = refl

  -- Where no help is asked for.
  main_with-run_client :
      (k : ℕ) (ops : Options) (t : SocketType) (w : World S)
      → Asks ops t
      → main_with nn k ops w ≡ handle nn (run_client nn k ops w)
  unfolding main_with
  main_with-run_client k ops t w asks =
      else_branch ops.show_version _ _ w asks.no_version
      ∙ else_branch (ops.show_usage || ops.show_help) _ _ w asks.no_help

  destroy-Closed :
      (fd : ℤ) (v : World S)
      → Accepts nn fd view
      → is_nonneg fd ≡ true
      → (v.sockets this_socket).d_socket ≡ fd
      → (x : World S) × (destroy nn this_socket v ≡ ok tt x) × Closed fd v x
  unfolding destroy close call_lib throw_internal
  destroy-Closed fd v accepts live e = (
    record v {
      lib = (nn.nn_close fd v.lib).1;
      sockets = λ q.
          if q == this_socket
          then record (v.sockets this_socket) { d_socket = minus_one }
          else v.sockets q;
      calls = close_call fd ∷ v.calls;
    },
    rw e (rw (live, accepts.closes v.lib) refl),
    record { heap = refl; out = refl; calls = refl; lib = refl },
  )

  -- `main` sets its socket up, and begins the loop in `begun`; where the loop returns, with the
  -- descriptor still in the socket, `main` closes it and exits with 0, and with 1 where the loop
  -- throws an internal exception. Where the loop is undefined, running, so is `main`, and where it is still running,
  -- so is `main`.
  pub record Session (k : ℕ) (args : List Bytes) (t : SocketType) (w : World S) : Type 0 where
    pub begun : World S
    pub set_up :
        SetUp
          (fd_for nn t w.lib)
          view
          (opened nn t w)
          (set_up_calls nn (fd_for nn t w.lib) (read_options nn args) t (opened nn t w).calls)
          begun
    pub ends :
        (v : World S)
        → run_loop nn k t (read_options nn args) begun ≡ ok tt v
        → (v.sockets this_socket).d_socket ≡ fd_for nn t w.lib
        → (x : World S) × (main nn k args w ≡ ok exit_success x) × Closed (fd_for nn t w.lib) v x
    pub refuses :
        (e : InternalException) (v : World S)
        → run_loop nn k t (read_options nn args) begun ≡ throws (internal_exception e) v
        → (v.sockets this_socket).d_socket ≡ fd_for nn t w.lib
        → (x : World S) × (main nn k args w ≡ ok exit_failure x) × Closed (fd_for nn t w.lib) v x
    pub waits :
        (v : World S)
        → run_loop nn k t (read_options nn args) begun ≡ running v
        → main nn k args w ≡ running v
    pub fails :
        run_loop nn k t (read_options nn args) begun ≡ undefined → main nn k args w ≡ undefined

  pub main-Session :
      (k : ℕ) (args : List Bytes) (t : SocketType) (w : World S)
      → IsTyped nn args
      → Asks (read_options nn args) t
      → Accepts nn (fd_for nn t w.lib) view
      → is_nonneg (fd_for nn t w.lib) ≡ true
      → Session k args t w
  unfolding main run_client open_socket call_lib report_exception
  main-Session k args t w typed asks accepts live =
      let ops = read_options nn args in
      let fd = fd_for nn t w.lib in
      let (said, read) = process_command_line-read_options nn args w typed in
      let w1 = record (opened nn t w) {
        err = said;
        sockets = λ q.
            if q == this_socket then record { d_socket = fd; d_endpoints = [] } else w.sockets q;
      } in
      let (u, run, s) = run_socket-SetUp nn fd view accepts ops t asks.named asks.fits k w1 refl in
      let opens =
        ap (λ (o : Outcome S Options). and_then o (main_with nn k)) read
        ∙ main_with-run_client k ops t (record w { err = said }) asks
        ∙ ap
            (λ (o : Outcome S SocketType). handle nn (
              and_then o λ type. do
                open_socket nn this_socket sp type
                finally (run_socket nn k ops) (destroy nn this_socket)
                pure exit_success))
            (get_type-type_name ops t (record w { err = said }) asks.named) in
      record {
        begun = u;
        set_up = record {
          heap = s.heap;
          stdin = s.stdin;
          out = s.out;
          at_fd = s.at_fd;
          same_view = s.same_view;
          calls = s.calls;
        };
        ends = λ v loop at_fd.
            let (x, end, closed) = destroy-Closed fd v accepts live at_fd in
            (x, opens ∙ rw run (rw loop (rw end refl)), closed);
        refuses = λ e v loop at_fd.
            let (x, end, closed) = destroy-Closed fd v accepts live at_fd in
            (
              record x { err = x.err ++ (e.d_reason ++ codes "\n") },
              opens ∙ rw run (rw loop (rw end refl)),
              record {
                heap = closed.heap;
                out = closed.out;
                calls = closed.calls;
                lib = closed.lib;
              },
            );
        waits = λ v loop. opens ∙ rw run (rw loop refl);
        fails = λ loop. opens ∙ rw run (rw loop refl);
      }
