-- ===== src/Client/Accepted/Exchange.antt =====
-- Two whole programs: a client that only sends, at a client that only receives.
use nanomsgpp.Prelude.{
  ℕ, suc, ◌+◌, ◌^◌, ◌<◌, ◌≡◌, false, true, some, List, [], ◌∷◌, ap, refl, ◌∙◌, length, arith,
}
use nanomsgpp.Prelude.Int.{is_nonneg, eq_ℤ, minus_one}
use nanomsgpp.Prelude.Bytes.{Bytes}
use nanomsgpp.Memory.{IsHeap, bytes_of}
use nanomsgpp.Memory.Strings.{up_to_nul}
use nanomsgpp.Platform.{Platform, Iovec}
use nanomsgpp.SocketType.{SocketType, push, pull}
use nanomsgpp.World.{World, ok, sendmsg_call, close_call}
use nanomsgpp.Message.Ownership.{FreesChunks}
use nanomsgpp.Message.Header.{MallocWorks}
use nanomsgpp.Socket.Transfer.{flags_of}
use nanomsgpp.Client.Options.{get_data, get_format}
use nanomsgpp.Client.CommandLine.Reading.{IsTyped, read_options}
use nanomsgpp.Client.Main.{exit_success, main}
use nanomsgpp.Client.Growth.{TakesMessages}
use nanomsgpp.Client.Payload.{gathered}
use nanomsgpp.Client.Print.Messages.{shown, cons_text}
use nanomsgpp.Client.Session.Run.{fd_for}
use nanomsgpp.Client.Accepted.{Accepts, set_up_calls}
use nanomsgpp.Client.Accepted.Whole.{Asks, opened}
use nanomsgpp.Client.Accepted.Sends.{only_sends, main-SendsOnce}
use nanomsgpp.Client.Accepted.Inbox.{Inbox}
use nanomsgpp.Client.Accepted.Prints.{only_pulls, Shows, main-Shows}

-- A run of a client that sends, and all that it needs.
pub record Sender {S : Type 0} (nn : Platform S) (args : List Bytes) (t : SocketType) (w : World S)
    : Type 0 where
  pub typed : IsTyped nn args
  pub asks : Asks (read_options nn args) t
  pub sends : only_sends t ≡ true
  pub once : is_nonneg (read_options nn args).interval ≡ false
  pub works : MallocWorks nn
  pub is_heap : IsHeap w.heap
  pub live : is_nonneg (fd_for nn t w.lib) ≡ true
  pub accepts : Accepts nn (fd_for nn t w.lib) (λ l. tt)
  pub takes : TakesMessages nn (fd_for nn t w.lib)

-- A run of a client that receives, and all that it needs.
pub record Receiver {S : Type 0} (nn : Platform S) (args : List Bytes) (t : SocketType)
    (w : World S) (waiting : S → List Bytes) : Type 0 where
  pub typed : IsTyped nn args
  pub asks : Asks (read_options nn args) t
  pub receives : only_pulls t ≡ true
  pub works : MallocWorks nn
  pub frees : FreesChunks nn
  pub is_heap : IsHeap w.heap
  pub room : w.heap.next + 2 < 256 ^ 8
  pub live : is_nonneg (fd_for nn t w.lib) ≡ true
  pub accepts : Accepts nn (fd_for nn t w.lib) waiting
  pub inbox : Inbox nn (fd_for nn t w.lib) waiting

module _ {S R : Type 0} (nn : Platform S) (peer : Platform R) where
  -- What waits for the receiver is just the message that the sender's one call handed over, as the
  -- buffers hold it when the sender has exited.
  abbrev pub CarriesOver :
      ℕ → List Bytes → SocketType → World S → SocketType → World R → (R → List Bytes) → Type 0
  CarriesOver k args t w t' v waiting =
      (x : World S) (iov : List Iovec) (m : Bytes)
      → main nn k args w ≡ ok exit_success x
      → x.calls
        ≡ close_call (fd_for nn t w.lib)
          ∷ sendmsg_call (fd_for nn t w.lib) iov (flags_of nn true)
          ∷ set_up_calls nn (fd_for nn t w.lib) (read_options nn args) t (opened nn t w).calls
      → gathered x.heap iov ≡ bytes_of m
      → waiting (opened peer t' v).lib ≡ m ∷ []

  -- Two clients, one that pushes and one that pulls, at nanomsg which accepts all that they ask for,
  -- carries the one message over unchanged and answers a receive without waiting. The sender exits
  -- with 0. Where the data that it was given has a NUL, and a text before it for which the printing
  -- is defined, the receiver, with two rounds or more, is still running, and has printed the data up
  -- to the first NUL and nothing else, in the format asked for, and given all memory back.
  -- Otherwise the receiver's behaviour is undefined.
  pub main-main :
      (k k' : ℕ) (args args' : List Bytes) (w : World S) (v : World R) (waiting : R → List Bytes)
      → Sender nn args push w
      → Receiver peer args' pull v waiting
      → CarriesOver (suc k) args push w pull v waiting
      → (p : Bytes) × (y : World S) × (x : World S) × (get_data nn (read_options nn args) w
          ≡ ok p y)
        × (main nn (suc k) args w ≡ ok exit_success x)
        × Shows peer
            (read_options peer args')
            pull
            (suc (suc k'))
            v
            (cons_text (shown (get_format (read_options peer args')) (up_to_nul p)) (some []))
            (main peer (suc (suc k')) args' v)
  main-main k k' args args' w v waiting s r carries =
      let (code, x, ran, sent) =
        main-SendsOnce nn (λ (l : S). tt) k args push w s.typed s.asks s.sends s.once s.works
          s.is_heap s.live s.accepts (λ iov flags h l. (s.takes iov flags h l).1) in
      let taken : eq_ℤ
            (nn.nn_sendmsg (fd_for nn push w.lib) sent.iov (flags_of nn true) sent.at_heap
              sent.at_lib).0
            minus_one
          ≡ false =
        (s.takes sent.iov (flags_of nn true) sent.at_heap sent.at_lib).0 in
      let succeeds : code ≡ exit_success = sent.exits ∙ rw taken refl in
      let run : main nn (suc k) args w ≡ ok exit_success x = rw succeeds at ran in
      let came = carries x sent.iov sent.payload run sent.calls sent.holds in
      let one : length (waiting (opened peer pull v).lib) ≡ 1 =
        ap (λ (ms : List Bytes). length ms) came in
      (
        sent.payload,
        sent.after,
        x,
        sent.data_read,
        run,
        rw came at (
            main-Shows peer (suc (suc k')) args' pull v waiting r.typed r.asks r.receives r.works
              r.frees r.is_heap r.live r.accepts r.inbox (omega (arith, one))
              (omega (arith, one, r.room))),
      )
