-- ===== src/Socket/Transfer/Sending.antt =====
-- What `sendmsg` hands to nanomsg and leaves on the heap.
use nanomsgpp.Prelude.{
  suc, ◌≡◌, refl, Bool, none, some, Option, List, ◌∷◌, if◌then◌else◌, Bool-cases, inl, inr,
}
use nanomsgpp.Prelude.Int.{ℤ, minus_one, eq_ℤ}
use nanomsgpp.Memory.{Ptr, Heap, IsHeap}
use nanomsgpp.Memory.Laws.{same_blocks-IsHeap}
use nanomsgpp.Platform.{Platform, Iovec}
use nanomsgpp.World.{World, Ref, ok, throws, internal_exception, sendmsg_call}
use nanomsgpp.World.Calls.{call_heap, throw_internal, current_error}
use nanomsgpp.World.Ends.{Ends}
use nanomsgpp.Message.{Message, empty_message, fill_iov, release}
use nanomsgpp.Message.Header.{
  MallocWorks, with_header, gen_nn_msghdr-header_of, msghdr_free-with_header,
}
use nanomsgpp.Socket.Transfer.{hand_over, sendmsg, flags_of}

-- `nn_sendmsg(3)` gathers what the buffers hold into a message of its own, and leaves them alone.
abbrev pub GathersOnly : {S : Type 0} → Platform S → ℤ → List Iovec → ℤ → Type 0
GathersOnly {S} nn fd iov flags = (h : Heap) (l : S) → (nn.nn_sendmsg fd iov flags h l).1 ≡ h

-- What a send leaves: the header is gone again and every other block is as it was; nanomsg has been
-- called once, with the parts in order; the result is the count, and -1 is thrown; the caller's
-- message has no part by then.
pub record Sent {S : Type 0} (nn : Platform S) (s : Ref) (m : Message) (dont_wait : Bool)
    (w : World S) (r : Option (ℤ × Message)) (w' : World S) : Type 0 where
  pub nb : ℤ
  pub answered :
      nb
      ≡ (nn.nn_sendmsg
          (w.sockets s).d_socket
          (fill_iov m.d_parts)
          (flags_of nn dont_wait)
          (with_header nn m w.heap)
          w.lib).0
  pub left : hand_over nn s m dont_wait w ≡ ok (nb, empty_message) w'
  pub result : r ≡ (if eq_ℤ nb minus_one then none else some (nb, empty_message))
  pub called :
      w'.calls
      ≡ sendmsg_call (w.sockets s).d_socket (fill_iov m.d_parts) (flags_of nn dont_wait) ∷ w.calls
  pub blocks : (a : Ptr) → w'.heap.block a ≡ w.heap.block a
  pub is_heap : IsHeap w'.heap
  pub next : w'.heap.next ≡ suc (suc w.heap.next)
  pub sockets : w'.sockets ≡ w.sockets

module _ {S : Type 0} (nn : Platform S) where
  -- What nanomsg makes of the call.
  abbrev pub answer : Ref → Message → Bool → World S → ℤ × Heap × S
  answer s m dont_wait w =
      nn.nn_sendmsg (w.sockets s).d_socket (fill_iov m.d_parts) (flags_of nn dont_wait)
        (with_header nn m w.heap) w.lib

  -- How a send ends by that: the count is returned, or the error thrown.
  pub record Answered (s : Ref) (m : Message) (dont_wait : Bool) (w w' : World S) : Type 0 where
    pub sent :
        (r : Option (ℤ × Message))
        → r ≡ (
            if eq_ℤ (answer s m dont_wait w).0 minus_one
            then none
            else some ((answer s m dont_wait w).0, empty_message))
        → Sent nn s m dont_wait w r w'
    pub run : sendmsg nn s m dont_wait w ≡ (
        if eq_ℤ (answer s m dont_wait w).0 minus_one
        then throws (internal_exception (current_error nn w'.lib)) w'
        else ok ((answer s m dont_wait w).0, empty_message) w')
    pub lib : w'.lib ≡ (answer s m dont_wait w).2

  pub sendmsg-Answered :
      (s : Ref) (m : Message) (dont_wait : Bool) (w : World S)
      → MallocWorks nn
      → IsHeap w.heap
      → GathersOnly nn (w.sockets s).d_socket (fill_iov m.d_parts) (flags_of nn dont_wait)
      → (w' : World S) × Answered s m dont_wait w w'
  unfolding hand_over sendmsg call_heap release empty_message throw_internal
  sendmsg-Answered s m dont_wait w works i gathers =
      let fd = (w.sockets s).d_socket in
      let iov = fill_iov m.d_parts in
      let flags = flags_of nn dont_wait in
      let a = nn.nn_sendmsg fd iov flags (with_header nn m w.heap) w.lib in
      let w1 = record w { heap = a.1; lib = a.2; calls = sendmsg_call fd iov flags ∷ w.calls } in
      let (g, run, next, blocks) =
        msghdr_free-with_header nn m w.heap w1 i (gathers (with_header nn m w.heap) w.lib) in
      let left : hand_over nn s m dont_wait w ≡ ok (a.0, empty_message) (record w1 { heap = g }) =
        rw (gen_nn_msghdr-header_of nn m w works i) (rw run refl) in
      (
        record w1 { heap = g },
        record {
          sent = λ r e. record {
            nb = a.0;
            answered = refl;
            left = left;
            result = e;
            called = refl;
            blocks = blocks;
            is_heap = same_blocks-IsHeap g i next blocks;
            next = next;
            sockets = refl;
          };
          run = rw (gen_nn_msghdr-header_of nn m w works i) (
              rw run (elim (Bool-cases (eq_ℤ a.0 minus_one)) [
                | inl refused ↦ rw refused refl
                | inr sent ↦ rw sent refl
              ]));
          lib = refl;
        },
      )

  -- In a well-formed heap, where `malloc` works and `nn_sendmsg` leaves the heap alone, `sendmsg`
  -- returns or throws, and throws just where nanomsg answers -1. It has made one call with the
  -- parts of the message in order, and leaves every block as it was before: the header is freed, and
  -- what the message pointed to is not. When the answer is tested, the caller's message is already
  -- left without parts, so also where `sendmsg` throws.
  pub sendmsg-Sent :
      (s : Ref) (m : Message) (dont_wait : Bool) (w : World S)
      → MallocWorks nn
      → IsHeap w.heap
      → GathersOnly nn (w.sockets s).d_socket (fill_iov m.d_parts) (flags_of nn dont_wait)
      → Ends (Sent nn s m dont_wait w) (sendmsg nn s m dont_wait w)
  sendmsg-Sent s m dont_wait w works i gathers =
      let (w', a) = sendmsg-Answered s m dont_wait w works i gathers in
      elim (Bool-cases (eq_ℤ (answer s m dont_wait w).0 minus_one)) [
        | inl refused ↦ rw (a.run, refused) (a.sent none (rw refused refl))
        | inr sent ↦ rw (a.run, sent) (a.sent (some _) (rw sent refl))
      ]
