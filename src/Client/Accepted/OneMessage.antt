-- ===== src/Client/Accepted/OneMessage.antt =====
-- One attempt to send, of a client without an interval.
use nanomsgpp.Prelude.{
  ℕ, suc, ◌≡◌, ◌∙◌, refl, true, false, Bool, none, some, Option, Bool-cases, inl, inr, not, ◌&&◌,
  List, ◌∷◌, ◌++◌, arith, if◌then◌else◌, ◌==◌,
}
use nanomsgpp.Prelude.Int.{ℤ, is_nonneg, eq_ℤ, minus_one}
use nanomsgpp.Prelude.Bytes.{Bytes, codes}
use nanomsgpp.Memory.{Ptr, Heap, IsHeap, bytes_of}
use nanomsgpp.Platform.{Platform, Iovec}
use nanomsgpp.World.{
  World, Outcome, Cmd, ok, throws, and_then, pure, internal_exception, sendmsg_call,
}
use nanomsgpp.World.Calls.{current_error}
use nanomsgpp.Message.{Message, empty_message, message_destroy, parts_destroy, fill_iov}
use nanomsgpp.Message.Ownership.{nil}
use nanomsgpp.Message.Writing.{Wrote, write_string-Wrote}
use nanomsgpp.Socket.Transfer.Sending.{GathersOnly, Sent, answer, sendmsg-Answered}
use nanomsgpp.Message.Header.{MallocWorks, with_header}
use nanomsgpp.Socket.Transfer.{flags_of}
use nanomsgpp.Client.Options.{Options, get_data}
use nanomsgpp.Client.Loops.{send_loop, send_rounds, try_send, send_data, report_unsent}
use nanomsgpp.Client.Main.{this_socket}
use nanomsgpp.Client.Growth.{copy_of}
use nanomsgpp.Client.Payload.{gathered, gathered-fill_iov}
use nanomsgpp.Client.Safety.Data.{get_data-Read}

module _ {S : Type 0} (nn : Platform S) where
  -- nanomsg's answer to a send is an error other than EAGAIN.
  abbrev pub is_failure : ℤ → S → Bool
  is_failure nb l = eq_ℤ nb minus_one && not (eq_ℤ (nn.nn_errno l) nn.eagain)

  -- One attempt: a call with the payload, which nanomsg answers, and a new copy of the payload.
  pub record OneMessage (p : Bytes) (fd nb : ℤ) (w v : World S) : Type 0 where
    pub iov : List Iovec
    pub at_heap : Heap
    pub at_lib : S
    pub starts : at_lib ≡ w.lib
    pub answered : nb ≡ (nn.nn_sendmsg fd iov (flags_of nn true) at_heap at_lib).0
    pub lib : v.lib ≡ (nn.nn_sendmsg fd iov (flags_of nn true) at_heap at_lib).2
    pub called : v.calls ≡ sendmsg_call fd iov (flags_of nn true) ∷ w.calls
    pub holds : gathered v.heap iov ≡ bytes_of p
    pub blocks :
        (a : Ptr) → v.heap.block a ≡ (if a == w.heap.next then some (copy_of p) else w.heap.block a)
    pub sockets : v.sockets ≡ w.sockets

  -- Ends in the second world, by an exception if the answer is a failure.
  abbrev pub Attempts : ℤ → World S → Outcome S (Unit {0}) → Type 0
  Attempts nb v o = o ≡ (
      if is_failure nb v.lib
      then throws (internal_exception (current_error nn v.lib)) v
      else ok tt v)

  -- After a send, and perhaps a line on the error stream.
  Sent-OneMessage :
      (p : Bytes) (w w1 w2 : World S) (m : Message) (r : Option (ℤ × Message)) (err : Bytes)
      → Wrote empty_message p w m w1
      → (sent : Sent nn this_socket m true w1 r w2) → w2.lib ≡ (answer nn this_socket m true w1).2
      → OneMessage p (w.sockets this_socket).d_socket sent.nb w (record w2 { err = err })
  Sent-OneMessage p w w1 w2 m r err wrote sent lib = record {
    iov = fill_iov m.d_parts;
    at_heap = with_header nn m w1.heap;
    at_lib = w1.lib;
    starts = wrote.same_lib;
    answered = rw wrote.same_sockets at sent.answered;
    lib = rw wrote.same_sockets at lib;
    called = ground (arith, sent.called, wrote.same_calls, wrote.same_sockets);
    holds = gathered-fill_iov nn p w m w1 w2 wrote sent.blocks;
    blocks = λ a. ground (arith, sent.blocks a, wrote.old_blocks a, wrote.new_block);
    sockets = sent.sockets ∙ wrote.same_sockets;
  }

  try_send-OneMessage :
      (p : Bytes) (w : World S)
      → MallocWorks nn
      → IsHeap w.heap
      → ((iov : List Iovec) (flags : ℤ) → GathersOnly nn (w.sockets this_socket).d_socket iov flags)
      → (nb : ℤ) × (v : World S) × OneMessage p (w.sockets this_socket).d_socket nb w v
        × Attempts nb v (try_send nn this_socket p w)
  unfolding try_send send_data report_unsent empty_message message_destroy parts_destroy
      current_error
  try_send-OneMessage p w works i gathers =
      let (m, w1, write, wrote) =
        write_string-Wrote nn empty_message (nn.string_address p) p w (works _ _) i nil in
      let (w2, a) =
        sendmsg-Answered nn this_socket m true w1 works wrote.is_heap
          (rw wrote.same_sockets (gathers _ _)) in
      let nb = (answer nn this_socket m true w1).0 in
      elim (Bool-cases (eq_ℤ nb minus_one)) [
        | inl refused ↦
            let sent = a.sent none (rw refused refl) in
            let same : sent.nb ≡ nb = sent.answered in
            elim (Bool-cases (eq_ℤ (nn.nn_errno w2.lib) nn.eagain)) [
              | inl again ↦ (
                sent.nb,
                record w2 { err = w2.err ++ codes "Message not sent (EAGAIN)\n" },
                Sent-OneMessage p w w1 w2 m none _ wrote sent a.lib,
                rw (same, refused, again) (rw write (rw a.run (rw refused (rw again refl)))),
              )
              | inr other ↦ (
                sent.nb,
                w2,
                Sent-OneMessage p w w1 w2 m none w2.err wrote sent a.lib,
                rw (same, refused, other) (rw write (rw a.run (rw refused (rw other refl)))),
              )
            ]
        | inr taken ↦
            let sent = a.sent (some (nb, empty_message)) (rw taken refl) in
            let same : sent.nb ≡ nb = sent.answered in
            (
              sent.nb,
              w2,
              Sent-OneMessage p w w1 w2 m _ w2.err wrote sent a.lib,
              rw (same, taken) (rw write (rw a.run (rw taken refl))),
            )
      ]

  -- A loop that does not go round again.
  ends_once :
      (nb : ℤ) (v : World S) (b : Bool) (o : Outcome S (Unit {0})) (k : Cmd S (Unit {0}))
      → Attempts nb v o
      → b ≡ false
      → Attempts nb v (and_then o λ _. if b then k else pure tt)
  ends_once nb v b o k run once = elim (Bool-cases (is_failure nb v.lib)) [
    | inl failed ↦ rw (run, failed) refl
    | inr fine ↦ rw (run, fine, once) refl
  ]

  pub send_loop-OneMessage :
      (k : ℕ) (ops : Options) (w : World S)
      → MallocWorks nn
      → IsHeap w.heap
      → ((iov : List Iovec) (flags : ℤ) → GathersOnly nn (w.sockets this_socket).d_socket iov flags)
      → is_nonneg ops.interval ≡ false
      → (p : Bytes) × (u : World S) × (nb : ℤ) × (v : World S) × (get_data nn ops w ≡ ok p u)
        × OneMessage p (w.sockets this_socket).d_socket nb w v
        × Attempts nb v (send_loop nn (suc k) this_socket ops w)
  unfolding send_loop send_rounds
  send_loop-OneMessage k ops w works i gathers once =
      let r = get_data-Read nn ops w in
      let (nb, v, one, run) =
        try_send-OneMessage r.data_read r.after works (rw r.heap i) (rw r.sockets gathers) in
      (
        r.data_read,
        r.after,
        nb,
        v,
        r.run,
        record {
          iov = one.iov;
          at_heap = one.at_heap;
          at_lib = one.at_lib;
          starts = one.starts ∙ r.lib;
          answered = rw r.sockets at one.answered;
          lib = rw r.sockets at one.lib;
          called = ground (arith, one.called, r.calls, r.sockets);
          holds = one.holds;
          blocks = λ a. ground (arith, one.blocks a, r.heap);
          sockets = one.sockets ∙ r.sockets;
        },
        rw r.run (ends_once nb v (is_nonneg ops.interval) _ _ run once),
      )
