-- ===== src/Client/Growth.antt =====
-- What `send_loop` does with an interval, while every call of nanomsg succeeds.
use nanomsgpp.Prelude.{
  ℕ, zero, suc, ◌+◌, ◌≡◌, ◌≢◌, refl, true, false, none, some, List, [], ◌∷◌, ap, ◌∙◌, arith, ◌==◌,
  if◌then◌else◌, length, All, All-mono,
}
use nanomsgpp.Prelude.Int.{ℤ, minus_one, is_nonneg, eq_ℤ}
use nanomsgpp.Prelude.Bytes.{Bytes}
use nanomsgpp.Memory.{Ptr, Heap, IsHeap, Block, by_malloc, bytes_of}
use nanomsgpp.Platform.{Platform, Iovec}
use nanomsgpp.World.{World, Ref, ok, running, sleep_call}
use nanomsgpp.World.Sends.{sends}
use nanomsgpp.World.Ends.{Ends-ok}
use nanomsgpp.Message.{empty_message, message_destroy, parts_destroy}
use nanomsgpp.Message.Ownership.{nil}
use nanomsgpp.Message.Header.{MallocWorks}
use nanomsgpp.Message.Writing.{write_string-Wrote}
use nanomsgpp.Socket.Transfer.{sendmsg}
use nanomsgpp.Socket.Transfer.Sending.{Sent, sendmsg-Sent}
use nanomsgpp.Client.Options.{Options}
use nanomsgpp.Client.Loops.{send_data, try_send, send_rounds}

-- `nn_sendmsg(3)` on a descriptor that takes every message: a count is returned, and the buffers
-- are left alone.
abbrev pub TakesMessages : {S : Type 0} → Platform S → ℤ → Type 0
TakesMessages {S} nn fd =
    (iov : List Iovec) (flags : ℤ) (h : Heap) (l : S)
    → (eq_ℤ (nn.nn_sendmsg fd iov flags h l).0 minus_one ≡ false)
      × ((nn.nn_sendmsg fd iov flags h l).1 ≡ h)

-- The block that a copy of the data is in.
abbrev pub copy_of : Bytes → Block
copy_of payload = record { owner = by_malloc; cells = bytes_of payload }

-- What one round leaves: one call more and one block more.
pub record Round {S : Type 0} (payload : Bytes) (w w' : World S) : Type 0 where
  pub is_heap : IsHeap w'.heap
  pub sockets : w'.sockets ≡ w.sockets
  pub sent : sends w'.calls ≡ suc (sends w.calls)
  pub blocks :
      (a : Ptr)
      → w'.heap.block a ≡ (if a == w.heap.next then some (copy_of payload) else w.heap.block a)

abbrev pub IsDistinct : List Ptr → Type 0
IsDistinct [] = Unit
IsDistinct (p ∷ ps) = All (λ q. q ≢ p) ps × IsDistinct ps

-- The blocks at these addresses are new and hold the data; what was allocated before still is.
pub record Kept (payload : Bytes) (ps : List Ptr) (h g : Heap) : Type 0 where
  pub distinct : IsDistinct ps
  pub filled : All (λ p. (h.block p ≡ none) × (g.block p ≡ some (copy_of payload))) ps
  pub old_blocks : (a : Ptr) (b : Block) → h.block a ≡ some b → g.block a ≡ some b

Round-Kept :
    {S : Type 0} (payload : Bytes) (w w1 : World S) (ps : List Ptr) (g : Heap)
    → IsHeap w.heap
    → Round payload w w1
    → Kept payload ps w1.heap g
    → Kept payload (w.heap.next ∷ ps) w.heap g
Round-Kept payload w w1 ps g i round kept = record {
  distinct = (
    All-mono _ (λ q. q ≢ w.heap.next) ps (λ q filled e. ground (arith, round.blocks q, filled.0))
        kept.filled,
    kept.distinct,
  );
  filled = (
    (
      i.above_free w.heap.next (omega arith),
      kept.old_blocks w.heap.next (copy_of payload) (ground (arith, round.blocks w.heap.next)),
    ),
    All-mono _ (λ p. (w.heap.block p ≡ none) × (g.block p ≡ some (copy_of payload))) ps
        (λ q filled. (ground (arith, round.blocks q, filled.0), filled.1)) kept.filled,
  );
  old_blocks =
      λ a b e. kept.old_blocks a b (ground (arith, round.blocks a, i.above_free w.heap.next));
}

module _ {S : Type 0} (nn : Platform S) (works : MallocWorks nn) where
  send_data-Round :
      (s : Ref) (payload : Bytes) (w : World S)
      → TakesMessages nn (w.sockets s).d_socket
      → IsHeap w.heap
      → (w' : World S) × (send_data nn s payload w ≡ ok tt w') × Round payload w w'
  unfolding send_data empty_message message_destroy parts_destroy
  send_data-Round s payload w takes i =
      let (m, w1, run, wrote) =
        write_string-Wrote nn empty_message (nn.string_address payload) payload w (works _ _) i
          nil in
      let takes1 : TakesMessages nn (w1.sockets s).d_socket = rw wrote.same_sockets takes in
      let (r, w2, sent_run, sent) =
        Ends-ok (Sent nn s m true w1) (sendmsg nn s m true w1)
          (sendmsg-Sent nn s m true w1 works wrote.is_heap λ h l. (takes1 _ _ h l).1)
          λ u refused.
            let counted : eq_ℤ refused.nb minus_one ≡ false =
              rw refused.answered (takes1 _ _ _ _).0 in
            ground (arith, refused.result) in
      let left : r.1 ≡ empty_message = ground (arith, sent.result) in
      (
        w2,
        rw run (rw sent_run (rw left refl)),
        record {
          is_heap = sent.is_heap;
          sockets = sent.sockets ∙ wrote.same_sockets;
          sent = ap sends sent.called ∙ ap (λ cs. suc (sends cs)) wrote.same_calls;
          blocks = λ a. ground (arith, sent.blocks a, wrote.old_blocks a, wrote.new_block);
        },
      )

  try_send-Round :
      (s : Ref) (payload : Bytes) (w : World S)
      → TakesMessages nn (w.sockets s).d_socket
      → IsHeap w.heap
      → (w' : World S) × (try_send nn s payload w ≡ ok tt w') × Round payload w w'
  unfolding try_send
  try_send-Round s payload w takes i =
      let (w', run, round) = send_data-Round s payload w takes i in (w', rw run refl, round)

  -- With an interval, where `malloc` works and the socket takes every message, the loop of
  -- `send_loop` goes on for ever: after `k` rounds it has called `nn_sendmsg` `k` times and runs
  -- on, and for each round one more copy of the data is allocated, at an address of its own, and
  -- never freed.
  pub send_rounds-Kept :
      (k : ℕ) (s : Ref) (ops : Options) (payload : Bytes) (w : World S)
      → is_nonneg ops.interval ≡ true
      → TakesMessages nn (w.sockets s).d_socket
      → IsHeap w.heap
      → (w' : World S) × (ps : List Ptr) × (send_rounds nn k s ops payload w ≡ running w')
        × (sends w'.calls ≡ sends w.calls + k)
        × (length ps ≡ k)
        × Kept payload ps w.heap w'.heap
  unfolding send_rounds
  send_rounds-Kept zero s ops payload w repeats takes i = (
    w,
    [],
    refl,
    omega arith,
    refl,
    record { distinct = tt; filled = tt; old_blocks = λ a b e. e },
  )
  send_rounds-Kept (suc k) s ops payload w repeats takes i =
      let (w1, sent, round) = try_send-Round s payload w takes i in
      let takes1 : TakesMessages nn (w1.sockets s).d_socket = rw round.sockets takes in
      let w2 = record w1 { calls = sleep_call ops.interval ∷ w1.calls } in
      let (w', ps, run, count, size, kept) =
        send_rounds-Kept k s ops payload w2 repeats takes1 round.is_heap in
      (
        w',
        w.heap.next ∷ ps,
        rw sent (rw repeats run),
        omega (arith, round.sent, count),
        ap suc size,
        Round-Kept payload w w1 ps w'.heap i round kept,
      )
