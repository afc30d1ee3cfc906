-- ===== src/Client/Safety/Sending.antt =====
-- What one attempt to send adds to the heap.
use nanomsgpp.Prelude.{
  ◌+◌, ◌≡◌, ℕ, suc, true, none, some, Option, List, refl, ◌∙◌, arith, Bool-cases, inl, inr, ap,
}
use nanomsgpp.Prelude.Int.{ℤ, eq_ℤ}
use nanomsgpp.Prelude.Bytes.{Bytes}
use nanomsgpp.Memory.{Block}
use nanomsgpp.Platform.{Platform, Iovec}
use nanomsgpp.World.{Socket, World, Ref, Outcome, ok, throws, terminated, undefined, running}
use nanomsgpp.World.Ends.{Ends}
use nanomsgpp.Message.{Message, empty_message, message_destroy, parts_destroy}
use nanomsgpp.Message.Ownership.{nil}
use nanomsgpp.Message.Header.{MallocWorks}
use nanomsgpp.Message.Writing.{Wrote, write_string-Wrote}
use nanomsgpp.Socket.Transfer.{sendmsg}
use nanomsgpp.Socket.Transfer.Sending.{GathersOnly, Sent, sendmsg-Sent}
use nanomsgpp.Client.Loops.{send_data, try_send, report_unsent}
use nanomsgpp.Client.Growth.{copy_of}
use nanomsgpp.Client.Safety.{Safe, and_then-Safe, recover-Safe, Sound, Sound-next, Sound-same}
use nanomsgpp.Client.Leaks.{Leaks-suc}
use nanomsgpp.World.Sends.{sends}

-- A command that ends is safe.
pub Ends-Safe :
    {S A : Type 0} (P : Option A → World S → Type 0) (o : Outcome S A)
    → Ends P o
    → Safe (λ a. P (some a)) (P none) o
Ends-Safe P (ok a w) h = h
Ends-Safe P (throws e w) h = h
Ends-Safe P (terminated w) h = h
Ends-Safe P undefined h = elim h [ ]
Ends-Safe P (running w) h = elim h [ ]

module _ {S : Type 0} (nn : Platform S) (works : MallocWorks nn) (s : Ref) (fd : ℤ)
    (Kind : Block → Type 0) (start : World S)
    (gathers : (iov : List Iovec) (flags : ℤ) → GathersOnly nn fd iov flags) where
  -- After a write and a send.
  Sent-Sound :
      (n : ℕ) (payload : Bytes) (m : Message) (w w1 w2 : World S) (r : Option (ℤ × Message))
      → Kind (copy_of payload)
      → Sound s fd Kind start (3 + n) w
      → Wrote empty_message payload w m w1
      → Sent nn s m true w1 r w2
      → Sound s fd Kind start n w2
  Sent-Sound n payload m w w1 w2 r kind i wrote sent =
      Sound-next s fd Kind start 3 n w w2 i sent.is_heap
        (Leaks-suc Kind start w w2 w.heap.next (copy_of payload) i.leaks
          (i.is_heap.above_free w.heap.next (omega arith))
          (sent.blocks w.heap.next ∙ wrote.new_block) kind
          (λ a away. sent.blocks a ∙ wrote.old_blocks a away)
          (ap sends sent.called ∙ ap (λ cs. suc (sends cs)) wrote.same_calls))
        (omega (arith, sent.next, wrote.next))
        (ap (λ (f : Ref → Socket). (f s).d_socket) (sent.sockets ∙ wrote.same_sockets))

  send_data-Safe :
      (n : ℕ) (payload : Bytes) (w : World S)
      → Kind (copy_of payload)
      → Sound s fd Kind start (3 + n) w
      → Safe (λ _. Sound s fd Kind start n) (Sound s fd Kind start n) (send_data nn s payload w)
  unfolding send_data empty_message message_destroy parts_destroy
  send_data-Safe n payload w kind i =
      let (m, w1, run, wrote) =
        write_string-Wrote nn empty_message (nn.string_address payload) payload w (works _ _)
          i.is_heap nil in
      let at_fd : (w1.sockets s).d_socket ≡ fd = rw wrote.same_sockets i.has_fd in
      rw run (
        and_then-Safe (λ r. Sent nn s m true w1 (some r)) (λ _. Sound s fd Kind start n)
          (Sent nn s m true w1 none) (Sound s fd Kind start n) (sendmsg nn s m true w1)
          (λ r. message_destroy nn r.1)
          (Ends-Safe (Sent nn s m true w1) (sendmsg nn s m true w1)
            (sendmsg-Sent nn s m true w1 works wrote.is_heap (rw at_fd (gathers _ _))))
          (λ w2 sent. Sent-Sound n payload m w w1 w2 none kind i wrote sent)
          λ r w2 sent.
            let left : r.1 ≡ empty_message = ground (arith, sent.result) in
            rw left (Sent-Sound n payload m w w1 w2 (some r) kind i wrote sent))

  -- Refused or not, a block more of the kind, and three addresses used.
  pub try_send-Safe :
      (n : ℕ) (payload : Bytes) (w : World S)
      → Kind (copy_of payload)
      → Sound s fd Kind start (3 + n) w
      → Safe (λ _. Sound s fd Kind start n) (Sound s fd Kind start n) (try_send nn s payload w)
  unfolding try_send report_unsent
  try_send-Safe n payload w kind i =
      let K = Sound s fd Kind start n in
      recover-Safe (λ _. K) K K (send_data nn s payload w) (report_unsent nn)
        (send_data-Safe n payload w kind i) (λ u j. j)
        λ e u j. elim (Bool-cases (eq_ℤ e.d_error nn.eagain)) [
          | inl again ↦ rw again (Sound-same s fd Kind start n u _ refl refl refl j)
          | inr other ↦ rw other j
        ]
