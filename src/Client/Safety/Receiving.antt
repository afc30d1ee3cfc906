-- ===== src/Client/Safety/Receiving.antt =====
-- The memory of `receive_and_print` and `recv_loop` while nanomsg delivers strings that end in a NUL.
use nanomsgpp.Prelude.{
  ℕ, zero, suc, ◌+◌, ◌*◌, ◌^◌, ◌<◌, ◌≡◌, ◌≢◌, All-mono, ap, ◌⊎◌, inl, inr, Bool-cases, refl, true,
  none, Option, List, [], ◌∷◌, ◌++◌, ◌==◌, if◌then◌else◌, arith, length, ◌||◌,
}
use nanomsgpp.Prelude.Int.{ℤ, pos, minus_one, eq_ℤ}
use nanomsgpp.Prelude.Bytes.{Bytes, to_le}
use nanomsgpp.Memory.{Ptr, Heap, IsHeap, Cell, Block, by_nn, bytes_of, allocate}
use nanomsgpp.Memory.Laws.{allocate-IsHeap, block-allocate, next-allocate, same_blocks-IsHeap}
use nanomsgpp.Platform.{Platform}
use nanomsgpp.World.{
  Socket, World, Ref, ok, throws, internal_exception, InternalException, recvmsg_call,
}
use nanomsgpp.World.Calls.{call_heap, throw_internal, current_error}
use nanomsgpp.Message.Ownership.{FreesChunks}
use nanomsgpp.Message.Header.{MallocWorks}
use nanomsgpp.Socket.Transfer.{recvmsg, receive, flags_of, buffer_size, store_all, finish_receive}
use nanomsgpp.Socket.Transfer.Receiving.{Delivers, make_buffers-one}
use nanomsgpp.Client.Options.{Options, EchoFormat, get_format}
use nanomsgpp.Memory.Strings.{HasNoNul}
use nanomsgpp.Client.Loops.{receive_and_print, recv_again, recv_loop}
use nanomsgpp.Client.Safety.{Safe, Safely, Safe-Safely, Sound, Sound-less, Sound-same, Sound-next}
use nanomsgpp.Client.Leaks.{Leaks-same, Leaks-refl}
use nanomsgpp.World.Sends.{sends, SameSends}
use nanomsgpp.Client.Silent.{receive_and_print-IsSilent}
use nanomsgpp.Client.Print.{can_print}
use nanomsgpp.Client.Reading.{receive_and_print-text}

-- The cells of a string with a NUL behind it.
abbrev pub text_cells : Bytes → Bytes → List Cell
text_cells text more = bytes_of (text ++ 0 ∷ more)

-- What ends in a NUL and can be printed in every format: it is ASCII and shorter than 2 ^ 31.
abbrev pub IsText : Bytes → Type 0
IsText text = HasNoNul text × ((f : EchoFormat) → can_print f text ≡ true)

-- `nn_recvmsg(3)` with NN_MSG on a descriptor where only such strings come: it answers -1 and
-- leaves the heap alone, or stores the pointer to a new chunk and returns the chunk's length.
abbrev pub DeliversText : {S : Type 0} → Platform S → ℤ → Type 0
DeliversText {S} nn fd =
    (h : Heap) (l : S)
    → ((l' : S) × (nn.nn_recvmsg fd (nn.nn_msg ∷ []) (flags_of nn true) h l
          ≡ ((minus_one, []), h, l')))
      ⊎ ((l' : S) × (text : Bytes) × (more : Bytes) × IsText text
          × (nn.nn_recvmsg fd (nn.nn_msg ∷ []) (flags_of nn true) h l ≡ (
            (pos (length (text_cells text more)), to_le 8 h.next ∷ []),
            allocate by_nn (text_cells text more) h,
            l',
          )))

-- No block more and none less than before.
abbrev pub SameBlocks : {S : Type 0} → World S → World S → Type 0
SameBlocks v w = (a : Ptr) → w.heap.block a ≡ v.heap.block a

module _ {S : Type 0} (nn : Platform S) (frees : FreesChunks nn) (works : MallocWorks nn) where
  -- A receive that finds nothing.
  pub receive_and_print-nothing :
      (s : Ref) (ops : Options) (w : World S) (l : S)
      → nn.nn_recvmsg (w.sockets s).d_socket (nn.nn_msg ∷ []) (flags_of nn true) w.heap w.lib
        ≡ ((minus_one, []), w.heap, l)
      → (e : InternalException) × (w' : World S) × (receive_and_print nn s ops w
          ≡ throws (internal_exception e) w')
        × (w'.heap ≡ w.heap)
        × (w'.sockets ≡ w.sockets)
        × (w'.calls
            ≡ recvmsg_call (w.sockets s).d_socket (nn.nn_msg ∷ []) (flags_of nn true) ∷ w.calls)
        × (w'.out ≡ w.out)
        × (w'.lib ≡ l)
        × (e.d_error ≡ nn.nn_errno l)
  unfolding receive_and_print recvmsg buffer_size receive call_heap throw_internal store_all
      finish_receive
  receive_and_print-nothing s ops w l answer = (
    current_error nn l,
    record w {
      lib = l;
      calls = recvmsg_call (w.sockets s).d_socket (nn.nn_msg ∷ []) (flags_of nn true) ∷ w.calls;
    },
    rw (make_buffers-one nn frees w) (rw answer refl),
    refl,
    refl,
    refl,
    refl,
    refl,
    unfold current_error in refl,
  )

  -- A chunk at the next address.
  pub Delivers-next :
      (fd : ℤ) (w : World S) (cells : List Cell) (l : S)
      → nn.nn_recvmsg fd (nn.nn_msg ∷ []) (flags_of nn true) w.heap w.lib
        ≡ ((pos (length cells), to_le 8 w.heap.next ∷ []), allocate by_nn cells w.heap, l)
      → IsHeap w.heap
      → w.heap.next < 256 ^ 8
      → Delivers nn fd (flags_of nn true) w w.heap.next cells (allocate by_nn cells w.heap) l
  Delivers-next fd w cells l answer i room = record {
    answer = answer;
    small = room;
    is_heap = allocate-IsHeap by_nn cells i;
    has_chunk = ground (arith, block-allocate by_nn cells w.heap w.heap.next);
  }

  pub received :
      (cells : List Cell) (h : Heap) (a : Ptr) (b : Option Block)
      → IsHeap h
      → b ≡ (if a == h.next then none else (allocate by_nn cells h).block a)
      → b ≡ h.block a
  received cells h a b i e = ground (arith, e, block-allocate by_nn cells h a, i.above_free h.next)

module _ {S : Type 0} (nn : Platform S) (frees : FreesChunks nn) (works : MallocWorks nn) (s : Ref)
    (fd : ℤ) (Kind : Block → Type 0) (start : World S) (delivers : DeliversText nn fd) where
  -- A value or an internal exception, and two addresses used.
  receive_and_print-cases :
      (n : ℕ) (ops : Options) (w : World S)
      → Sound s fd Kind start (2 + n) w
      → ((w' : World S) × (receive_and_print nn s ops w ≡ ok tt w') × Sound s fd Kind start n w')
        ⊎ ((e : InternalException) × (w' : World S) × (receive_and_print nn s ops w
              ≡ throws (internal_exception e) w')
            × Sound s fd Kind start n w')
  receive_and_print-cases n ops w i = elim (rw (← i.has_fd) at delivers w.heap w.lib) [
    | inl (l, answer) ↦
        let (e, w', run, heap, socks, calls, out, lib, errno) =
          receive_and_print-nothing nn frees works s ops w l answer in
        inr (
          e,
          w',
          run,
          Sound-same s fd Kind start n w w' heap (ap (λ (f : Ref → Socket). (f s).d_socket) socks)
              (ap sends calls) (Sound-less s fd Kind start n (2 + n) w (omega arith) i),
        )
    | inr (l, text, more, (no_nul, defined), answer) ↦
        let cells = text_cells text more in
        let g = allocate by_nn cells w.heap in
        let d =
          Delivers-next nn frees works (w.sockets s).d_socket w cells l answer i.is_heap
            (omega (arith, i.room)) in
        let (w', run, out, blocks, next, socks) =
          receive_and_print-text nn frees s ops w w.heap.next text more g l d (works _ _) no_nul
            (defined (get_format ops)) in
        let next' : w'.heap.next ≡ suc (suc w.heap.next) =
          omega (arith, next, next-allocate by_nn cells w.heap) in
        let same = λ (a : Ptr).
          received nn frees works cells w.heap a (w'.heap.block a) i.is_heap (blocks a) in
        let calls : SameSends w w' = rw run at ((receive_and_print-IsSilent nn s ops).at w) in
        inl (
          w',
          run,
          Sound-next s fd Kind start 2 n w w' i (same_blocks-IsHeap w'.heap i.is_heap next' same)
              (Leaks-same Kind start w w' i.leaks same calls) (omega (arith, next'))
              (ap (λ (f : Ref → Socket). (f s).d_socket) socks),
        )
  ]

  pub receive_and_print-Safe :
      (n : ℕ) (ops : Options) (w : World S)
      → Sound s fd Kind start (2 + n) w
      → Safe (λ _. Sound s fd Kind start n) (Sound s fd Kind start n) (receive_and_print nn s ops w)
  receive_and_print-Safe n ops w i = elim (receive_and_print-cases n ops w i) [
    | inl (w', run, j) ↦ rw run j
    | inr (e, w', run, j) ↦ rw run j
  ]

  pub recv_loop-Safe :
      (k n : ℕ) (ops : Options) (w : World S)
      → Sound s fd Kind start (2 * k + n) w
      → Safe (λ _. Sound s fd Kind start n) (Sound s fd Kind start n) (recv_loop nn k s ops w)
  unfolding recv_loop recv_again
  recv_loop-Safe zero n ops w i = Sound-less s fd Kind start n (2 * 0 + n) w (omega arith) i
  recv_loop-Safe (suc k) n ops w i =
      let m = 2 * k + n in
      let last = λ (u : World S) (j : Sound s fd Kind start m u).
        Sound-less s fd Kind start n m u (omega arith) j in
      elim (receive_and_print-cases m ops w
        (Sound-less s fd Kind start (2 + m) (2 * suc k + n) w (omega arith) i)) [
          | inl (w', run, j) ↦ rw run (recv_loop-Safe k n ops w' j)
          | inr (e, w', run, j) ↦ elim (Bool-cases (eq_ℤ e.d_error nn.eagain)) [
            | inl again ↦ rw run (rw again (recv_loop-Safe k n ops w' j))
            | inr other ↦
                elim (Bool-cases (eq_ℤ e.d_error nn.etimedout || eq_ℤ e.d_error nn.efsm)) [
                  | inl done ↦ rw run (rw other (rw done (last w' j)))
                  | inr thrown ↦ rw run (rw other (rw thrown (last w' j)))
                ]
          ]
        ]

module _ {S : Type 0} (nn : Platform S) (frees : FreesChunks nn) (works : MallocWorks nn) where
  -- Where nanomsg delivers only strings of ASCII, shorter than 2 ^ 31, that end in a NUL,
  -- `nn_freemsg` frees and `malloc` works, `recv_loop` neither meets undefined behaviour nor ends
  -- the program, and in every number of rounds for which there are addresses below 2 ^ 64, and
  -- however it ends, it leaks nothing: the blocks are those from before.
  pub recv_loop-Safely :
      (k : ℕ) (s : Ref) (ops : Options) (w : World S)
      → DeliversText nn (w.sockets s).d_socket
      → IsHeap w.heap
      → w.heap.next + 2 * k < 256 ^ 8
      → Safely (SameBlocks w) (recv_loop nn k s ops w)
  recv_loop-Safely k s ops w delivers i room =
      let fd = (w.sockets s).d_socket in
      let NoBlock = λ (b : Block). ⊥ in
      Safe-Safely (Sound s fd NoBlock w 0) (SameBlocks w) (recv_loop nn k s ops w)
        (recv_loop-Safe nn frees works s fd NoBlock w delivers k 0 ops w (record {
          is_heap = i;
          leaks = Leaks-refl NoBlock w;
          room = omega (arith, room);
          has_fd = refl;
        }))
        λ u j a. j.leaks.others a (
          All-mono _ (λ p. p ≢ a) j.leaks.leaked (λ p (free, (b, new, never)). absurd never)
            j.leaks.fresh)
