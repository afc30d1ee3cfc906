-- ===== src/Client/Accepted/Prints.antt =====
-- A client that only receives, from the command line to its exit.
use nanomsgpp.Prelude.{
  ℕ, ◌+◌, ◌*◌, ◌^◌, ◌<◌, ◌≡◌, ◌∙◌, refl, ap, true, false, Bool, none, some, Option, List, ◌++◌,
  arith, length,
}
use nanomsgpp.Prelude.Int.{is_nonneg}
use nanomsgpp.Prelude.Bytes.{Bytes}
use nanomsgpp.Memory.{Ptr, IsHeap}
use nanomsgpp.Platform.{Platform}
use nanomsgpp.World.{World, Outcome, undefined, running}
use nanomsgpp.Message.Ownership.{FreesChunks}
use nanomsgpp.Message.Header.{MallocWorks}
use nanomsgpp.Client.Options.{Options, get_format}
use nanomsgpp.Client.Print.Messages.{printed}
use nanomsgpp.Client.Loops.{recv_loop}
use nanomsgpp.Client.Main.{this_socket, run_loop, main}
use nanomsgpp.SocketType.{
  SocketType, publish, push, subscribe, pull, bus, pair, surveyor, request, reply, respondent,
}
use nanomsgpp.Client.CommandLine.Reading.{IsTyped, read_options}
use nanomsgpp.Client.Session.Run.{fd_for}
use nanomsgpp.Client.Accepted.{Accepts, set_up_calls}
use nanomsgpp.Client.Accepted.Whole.{Asks, opened, Session, main-Session}
use nanomsgpp.Client.Accepted.Inbox.{texts_of, Inbox, receives, Reads, recv_loop-Reads}

abbrev pub only_pulls : SocketType → Bool
only_pulls pull = true
only_pulls _ = false

module _ {S : Type 0} (nn : Platform S) where
  run_loop-recv_loop :
      (k : ℕ) (t : SocketType) (ops : Options)
      → only_pulls t ≡ true
      → run_loop nn k t ops ≡ recv_loop nn k this_socket ops
  unfolding run_loop
  run_loop-recv_loop k subscribe ops e = ground (arith, e)
  run_loop-recv_loop k pull ops e = refl
  run_loop-recv_loop k publish ops e = ground (arith, e)
  run_loop-recv_loop k push ops e = ground (arith, e)
  run_loop-recv_loop k bus ops e = ground (arith, e)
  run_loop-recv_loop k pair ops e = ground (arith, e)
  run_loop-recv_loop k surveyor ops e = ground (arith, e)
  run_loop-recv_loop k request ops e = ground (arith, e)
  run_loop-recv_loop k reply ops e = ground (arith, e)
  run_loop-recv_loop k respondent ops e = ground (arith, e)

  -- What such a client does with messages that hold some texts, from its start in `w` to its `n`th
  -- receive, which ends in `x`.
  pub record PrintsAll (ops : Options) (t : SocketType) (n : ℕ) (texts : List Bytes) (w x : World S)
      : Type 0 where
    pub out : x.out ≡ w.out ++ printed (get_format ops) texts
    pub blocks : (a : Ptr) → x.heap.block a ≡ w.heap.block a
    pub calls :
        x.calls
        ≡ receives nn
            (fd_for nn t w.lib)
            n
            (set_up_calls nn (fd_for nn t w.lib) ops t (opened nn t w).calls)

  -- The texts are all printed and the client is still running, or there is a message that cannot be
  -- printed and the client is undefined.
  abbrev pub Shows : Options → SocketType → ℕ → World S → Option (List Bytes) → Outcome S ℕ → Type 0
  Shows ops t n w none o = o ≡ undefined
  Shows ops t n w (some texts) o = (x : World S) × (o ≡ running x) × PrintsAll ops t n texts w x

  module _ (k : ℕ) (args : List Bytes) (t : SocketType) (w : World S) (waiting : S → List Bytes)
      (typed : IsTyped nn args) (asks : Asks (read_options nn args) t) (only : only_pulls t ≡ true)
      (works : MallocWorks nn) (frees : FreesChunks nn) (i : IsHeap w.heap)
      (live : is_nonneg (fd_for nn t w.lib) ≡ true)
      (accepts : Accepts nn (fd_for nn t w.lib) waiting)
      (inbox : Inbox nn (fd_for nn t w.lib) waiting) where
    reading :
        (n : ℕ) (texts : Option (List Bytes)) (session : Session nn waiting k args t w)
        → Reads nn frees works
            (fd_for nn t w.lib)
            waiting
            inbox
            (read_options nn args)
            n
            session.begun
            texts
            (run_loop nn k t (read_options nn args) session.begun)
        → Shows (read_options nn args) t n w texts (main nn k args w)
    reading n none session bad = session.fails bad
    reading n (some texts) session (v, run, p) =
        let s = session.set_up in
        let fd = fd_for nn t w.lib in
        let format = get_format (read_options nn args) in
        (
          v,
          session.waits v run,
          record {
            out = p.out ∙ ap (λ (o : Bytes). o ++ printed format texts) s.out;
            blocks = λ a. ground (arith, p.blocks a, s.heap);
            calls = p.calls ∙ ap (λ cs. receives nn fd n cs) s.calls;
          },
        )

    -- A client that pulls, where `malloc` works, `nn_freemsg` frees, each option stored has a value
    -- of its type, and nanomsg opens a socket, takes every option and every address, and answers
    -- each receive without waiting: it delivers the messages that wait, any messages for which there
    -- are addresses below 2 ^ 64, and then says EAGAIN; with `k` rounds, more than messages. If each
    -- message has a NUL, and a text before it for which the printing is defined, the client is
    -- still running: it has printed the messages up to their first NUL, in order and in the format
    -- asked for, and nothing else, has given all memory back, and its calls are one `nn_socket`,
    -- those of the set-up in order, and one `nn_recvmsg` for each round. Otherwise its behaviour is
    -- undefined.
    pub main-Shows :
        let ms = waiting (opened nn t w).lib in
        length ms < k
        → w.heap.next + 2 * length ms < 256 ^ 8
        → Shows
            (read_options nn args)
            t
            k
            w
            (texts_of (get_format (read_options nn args)) ms)
            (main nn k args w)
    main-Shows enough room =
        let ms = waiting (opened nn t w).lib in
        let session = main-Session nn waiting k args t w typed asks accepts live in
        let s = session.set_up in
        reading k (texts_of (get_format (read_options nn args)) ms) session (
          rw (run_loop-recv_loop k t (read_options nn args) only) (
            recv_loop-Reads nn frees works (fd_for nn t w.lib) waiting inbox (read_options nn args)
              k ms session.begun enough s.same_view s.at_fd (rw s.heap i) (rw s.heap room)))
