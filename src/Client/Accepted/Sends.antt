-- ===== src/Client/Accepted/Sends.antt =====
-- A client that only sends, from the command line to its exit.
use nanomsgpp.Prelude.{
  ℕ, suc, ◌≡◌, ◌∙◌, refl, ap, true, false, Bool, some, Bool-cases, inl, inr, List, ◌∷◌, arith,
  if◌then◌else◌, ◌==◌,
}
use nanomsgpp.Prelude.Int.{ℤ, is_nonneg}
use nanomsgpp.Prelude.Bytes.{Bytes}
use nanomsgpp.Memory.{Ptr, Heap, IsHeap, bytes_of}
use nanomsgpp.Platform.{Platform, Iovec}
use nanomsgpp.SocketType.{
  SocketType, publish, push, subscribe, pull, bus, pair, surveyor, request, reply, respondent,
}
use nanomsgpp.World.{World, Ref, Socket, Cmd, ok, sendmsg_call, close_call}
use nanomsgpp.World.Calls.{current_error}
use nanomsgpp.Socket.Transfer.Sending.{GathersOnly}
use nanomsgpp.Message.Header.{MallocWorks}
use nanomsgpp.Socket.Transfer.{flags_of}
use nanomsgpp.Client.Options.{Options, get_data}
use nanomsgpp.Client.CommandLine.Reading.{IsTyped, read_options}
use nanomsgpp.Client.Loops.{send_loop}
use nanomsgpp.Client.Main.{exit_success, exit_failure, this_socket, run_loop, main}
use nanomsgpp.Client.Growth.{copy_of}
use nanomsgpp.Client.Payload.{gathered}
use nanomsgpp.Client.Safety.Data.{get_data-stdin}
use nanomsgpp.Client.Session.Run.{fd_for}
use nanomsgpp.Client.Accepted.{Accepts, SetUp, set_up_calls}
use nanomsgpp.Client.Accepted.Whole.{Asks, opened, Closed, main-Session}
use nanomsgpp.Client.Accepted.OneMessage.{is_failure, OneMessage, send_loop-OneMessage}

abbrev pub only_sends : SocketType → Bool
only_sends publish = true
only_sends push = true
only_sends _ = false

module _ {S : Type 0} (nn : Platform S) where
  run_loop-send_loop :
      (k : ℕ) (t : SocketType) (ops : Options)
      → only_sends t ≡ true
      → run_loop nn k t ops ≡ send_loop nn k this_socket ops
  unfolding run_loop
  run_loop-send_loop k publish ops e = refl
  run_loop-send_loop k push ops e = refl
  run_loop-send_loop k subscribe ops e = ground (arith, e)
  run_loop-send_loop k pull ops e = ground (arith, e)
  run_loop-send_loop k bus ops e = ground (arith, e)
  run_loop-send_loop k pair ops e = ground (arith, e)
  run_loop-send_loop k surveyor ops e = ground (arith, e)
  run_loop-send_loop k request ops e = ground (arith, e)
  run_loop-send_loop k reply ops e = ground (arith, e)
  run_loop-send_loop k respondent ops e = ground (arith, e)

module _ {S V : Type 0} (nn : Platform S) (view : S → V) where
  -- What such a client does, from its start in `w` to its exit in `x`. The message meets what can be
  -- seen of nanomsg as it was when the socket was opened, and the close is the only call behind it.
  pub record SendsOnce (ops : Options) (t : SocketType) (w : World S) (code : ℕ) (x : World S)
      : Type 0 where
    pub payload : Bytes
    pub after : World S
    pub data_read : get_data nn ops w ≡ ok payload after
    pub iov : List Iovec
    pub at_heap : Heap
    pub at_lib : S
    pub as_opened : view at_lib ≡ view (opened nn t w).lib
    pub lib :
        x.lib
        ≡ (nn.nn_close
            (fd_for nn t w.lib)
            (nn.nn_sendmsg (fd_for nn t w.lib) iov (flags_of nn true) at_heap at_lib).2).1
    pub exits :
        let a = nn.nn_sendmsg (fd_for nn t w.lib) iov (flags_of nn true) at_heap at_lib in
        code ≡ (if is_failure nn a.0 a.2 then exit_failure else exit_success)
    pub calls :
        x.calls
        ≡ close_call (fd_for nn t w.lib)
          ∷ sendmsg_call (fd_for nn t w.lib) iov (flags_of nn true)
          ∷ set_up_calls nn (fd_for nn t w.lib) ops t (opened nn t w).calls
    pub holds : gathered x.heap iov ≡ bytes_of payload
    pub blocks :
        (a : Ptr)
        → x.heap.block a ≡ (if a == w.heap.next then some (copy_of payload) else w.heap.block a)

  ended :
      (ops : Options) (t : SocketType) (w u v x : World S) (p : Bytes) (nb : ℤ) (code : ℕ)
      (z : World S)
      → SetUp
          (fd_for nn t w.lib)
          view
          (opened nn t w)
          (set_up_calls nn (fd_for nn t w.lib) ops t (opened nn t w).calls)
          u
      → get_data nn ops w ≡ ok p z
      → OneMessage nn p (fd_for nn t w.lib) nb u v
      → Closed nn view (fd_for nn t w.lib) v x
      → code ≡ (if is_failure nn nb v.lib then exit_failure else exit_success)
      → SendsOnce ops t w code x
  ended ops t w u v x p nb code z s data_read one closed exits = record {
    payload = p;
    after = z;
    data_read = data_read;
    iov = one.iov;
    at_heap = one.at_heap;
    at_lib = one.at_lib;
    as_opened = ap view one.starts ∙ s.same_view;
    lib = closed.lib ∙ ap (λ (l : S). (nn.nn_close (fd_for nn t w.lib) l).1) one.lib;
    exits = rw (one.answered, one.lib) at exits;
    calls =
        closed.calls
        ∙ ap (λ cs. close_call (fd_for nn t w.lib) ∷ cs)
            (one.called
              ∙ ap (λ cs. sendmsg_call (fd_for nn t w.lib) one.iov (flags_of nn true) ∷ cs)
                  s.calls);
    holds = ap (λ (h : Heap). gathered h one.iov) closed.heap ∙ one.holds;
    blocks = λ a. ground (arith, closed.heap, one.blocks a, s.heap);
  }

  -- A client that publishes or pushes, without an interval, where `malloc` works, a send leaves the
  -- heap alone, each option stored has a value of its type, and nanomsg opens a socket and takes every option, every address and the close,
  -- whatever it answers to the message. It exits with 0, and with 1 if the answer is an error other
  -- than EAGAIN. Its calls are, in this order, and no others: one `nn_socket`, the options, the
  -- addresses to bind to and those to connect to, the delay if there is one, one `nn_sendmsg` whose
  -- buffers hold what `get_data` answers, and one `nn_close`. A view of nanomsg's state that the
  -- set-up keeps is, at the send, as `nn_socket` left it. Of the blocks, only one copy of the data
  -- is new.
  pub main-SendsOnce :
      (k : ℕ) (args : List Bytes) (t : SocketType) (w : World S)
      → let ops = read_options nn args in
        IsTyped nn args
        → Asks ops t
        → only_sends t ≡ true
        → is_nonneg ops.interval ≡ false
        → MallocWorks nn
        → IsHeap w.heap
        → is_nonneg (fd_for nn t w.lib) ≡ true
        → Accepts nn (fd_for nn t w.lib) view
        → ((iov : List Iovec) (flags : ℤ) → GathersOnly nn (fd_for nn t w.lib) iov flags)
        → (code : ℕ) × (x : World S) × (main nn (suc k) args w ≡ ok code x)
          × SendsOnce ops t w code x
  main-SendsOnce k args t w typed asks sends once works i live accepts gathers =
      let ops = read_options nn args in
      let fd = fd_for nn t w.lib in
      let session = main-Session nn view (suc k) args t w typed asks accepts live in
      let s = session.set_up in
      let (p, y, nb, v, read, one, run) =
        send_loop-OneMessage nn k ops session.begun works (rw s.heap i) (rw s.at_fd gathers) once in
      let (z, data_read) = get_data-stdin nn ops w session.begun y p s.stdin read in
      let one' : OneMessage nn p fd nb session.begun v = rw s.at_fd at one in
      let at_fd : (v.sockets this_socket).d_socket ≡ fd =
        ap (λ (f : Ref → Socket). (f this_socket).d_socket) one.sockets ∙ s.at_fd in
      let loop =
        ap (λ (m : Cmd S (Unit {0})). m session.begun) (run_loop-send_loop nn (suc k) t ops sends)
        ∙ run in
      elim (Bool-cases (is_failure nn nb v.lib)) [
        | inl failed ↦
            let (x, end, closed) =
              session.refuses (current_error nn v.lib) v (loop ∙ rw failed refl) at_fd in
            (
              exit_failure,
              x,
              end,
              ended ops t w session.begun v x p nb exit_failure z s data_read one' closed
                  (rw failed refl),
            )
        | inr fine ↦
            let (x, end, closed) = session.ends v (loop ∙ rw fine refl) at_fd in
            (
              exit_success,
              x,
              end,
              ended ops t w session.begun v x p nb exit_success z s data_read one' closed
                  (rw fine refl),
            )
      ]
