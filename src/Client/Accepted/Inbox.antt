-- ===== src/Client/Accepted/Inbox.antt =====
-- `recv_loop` over the messages that wait for the socket.
use nanomsgpp.Prelude.{
  ℕ, zero, suc, ◌+◌, ◌*◌, ◌^◌, ◌<◌, ◌≡◌, ◌∙◌, refl, ap, sym, true, none, some, Option, inl, inr,
  Bool-cases, List, [], ◌∷◌, ◌++◌, arith, length,
}
use mathlib.Core.List.{append_assoc, append-nil}
use nanomsgpp.Prelude.Int.{ℤ, pos, minus_one, eq_ℤ}
use nanomsgpp.Prelude.Bytes.{Bytes, to_le}
use nanomsgpp.Memory.{Ptr, Heap, IsHeap, by_nn, bytes_of, c_string, allocate}
use nanomsgpp.Memory.Laws.{next-allocate, same_blocks-IsHeap}
use nanomsgpp.Memory.Strings.{
  c_string-none, c_string-some, HasNoNul, find_nul, up_to_nul, up_to_nul-none, up_to_nul-some,
}
use nanomsgpp.Platform.{Platform}
use nanomsgpp.World.{World, Call, Outcome, ok, undefined, running, Socket, Ref, recvmsg_call}
use nanomsgpp.Message.Ownership.{FreesChunks}
use nanomsgpp.Message.Header.{MallocWorks}
use nanomsgpp.Socket.Transfer.{flags_of}
use nanomsgpp.Client.Options.{Options, EchoFormat, get_format}
use nanomsgpp.Client.Print.{can_print, print_message_part}
use nanomsgpp.Client.Print.Messages.{shown, printed, cons_text}
use nanomsgpp.Client.Loops.{receive_and_print, recv_loop, recv_again}
use nanomsgpp.Client.Main.{this_socket}
use nanomsgpp.Client.Reading.{receive_and_print-run, receive_and_print_overread}
use nanomsgpp.Client.Safety.Receiving.{Delivers-next, received, receive_and_print-nothing}

-- What each of some messages holds before its first NUL; `none` if one of them has no NUL, or a text
-- for which the printing in the format is not defined.
abbrev pub texts_of : EchoFormat → List Bytes → Option (List Bytes)
texts_of f [] = some []
texts_of f (m ∷ ms) = cons_text (shown f (up_to_nul m)) (texts_of f ms)

-- `nn_recvmsg(3)` with NN_MSG and NN_DONTWAIT while messages wait for the descriptor, and EAGAIN
-- behind the last: each is stored in a new chunk, in order, and freeing a chunk leaves the others waiting.
pub record Inbox {S : Type 0} (nn : Platform S) (fd : ℤ) (waiting : S → List Bytes) : Type 0 where
  pub brings :
      (h : Heap) (l : S) (m : Bytes) (ms : List Bytes)
      → waiting l ≡ m ∷ ms
      → (l' : S) × (nn.nn_recvmsg fd (nn.nn_msg ∷ []) (flags_of nn true) h l
          ≡ ((pos (length (bytes_of m)), to_le 8 h.next ∷ []), allocate by_nn (bytes_of m) h, l'))
        × ((p : Ptr) (g : Heap) → waiting (nn.nn_freemsg p g l').2 ≡ ms)
  pub ends :
      (h : Heap) (l : S)
      → waiting l ≡ []
      → (l' : S) × (nn.nn_recvmsg fd (nn.nn_msg ∷ []) (flags_of nn true) h l
          ≡ ((minus_one, []), h, l'))
        × (eq_ℤ (nn.nn_errno l') nn.eagain ≡ true)
        × (waiting l' ≡ [])

-- So many receives after other calls.
abbrev pub receives : {S : Type 0} → Platform S → ℤ → ℕ → List Call → List Call
receives nn fd zero cs = cs
receives nn fd (suc n) cs =
    receives nn fd n (recvmsg_call fd (nn.nn_msg ∷ []) (flags_of nn true) ∷ cs)

module _ {S : Type 0} (nn : Platform S) (frees : FreesChunks nn) (works : MallocWorks nn) (fd : ℤ)
    (waiting : S → List Bytes) (inbox : Inbox nn fd waiting) (ops : Options) where
  abbrev recvmsg_once : Call
  recvmsg_once = recvmsg_call fd (nn.nn_msg ∷ []) (flags_of nn true)

  -- The texts are printed in order, in the format asked for, after `n` receives, and all memory is
  -- given back.
  pub record Prints (n : ℕ) (texts : List Bytes) (w v : World S) : Type 0 where
    pub out : v.out ≡ w.out ++ printed (get_format ops) texts
    pub blocks : (a : Ptr) → v.heap.block a ≡ w.heap.block a
    pub sockets : v.sockets ≡ w.sockets
    pub calls : v.calls ≡ receives nn fd n w.calls

  -- The messages are read and the loop goes on, or one is met that cannot be printed.
  abbrev pub Reads : ℕ → World S → Option (List Bytes) → Outcome S (Unit {0}) → Type 0
  Reads n w none o = o ≡ undefined
  Reads n w (some texts) o = (v : World S) × (o ≡ running v) × Prints n texts w v

  -- One message.
  record One (text : Bytes) (ms : List Bytes) (w u : World S) : Type 0 where
    run : receive_and_print nn this_socket ops w ≡ ok tt u
    out : u.out ≡ w.out ++ print_message_part (get_format ops) text
    blocks : (a : Ptr) → u.heap.block a ≡ w.heap.block a
    is_heap : IsHeap u.heap
    next : u.heap.next ≡ suc (suc w.heap.next)
    sockets : u.sockets ≡ w.sockets
    waits : waiting u.lib ≡ ms
    calls : u.calls ≡ recvmsg_once ∷ w.calls

  receive_and_print-undefined :
      (m : Bytes) (ms : List Bytes) (w : World S)
      → waiting w.lib ≡ m ∷ ms
      → (w.sockets this_socket).d_socket ≡ fd
      → IsHeap w.heap
      → w.heap.next < 256 ^ 8
      → shown (get_format ops) (c_string (bytes_of m)) ≡ none
      → receive_and_print nn this_socket ops w ≡ undefined
  receive_and_print-undefined m ms w wait e i room bad =
      let (l, answer, left) = inbox.brings w.heap w.lib m ms wait in
      receive_and_print_overread nn frees this_socket ops w w.heap.next m
        (allocate by_nn (bytes_of m) w.heap) l
        (Delivers-next nn frees works (w.sockets this_socket).d_socket w (bytes_of m) l
          (rw e answer) i room)
        (works _ _) bad

  receive_and_print-One :
      (text more : Bytes) (ms : List Bytes) (w : World S)
      → waiting w.lib ≡ (text ++ 0 ∷ more) ∷ ms
      → (w.sockets this_socket).d_socket ≡ fd
      → IsHeap w.heap
      → w.heap.next < 256 ^ 8
      → HasNoNul text
      → can_print (get_format ops) text ≡ true
      → (u : World S) × One text ms w u
  receive_and_print-One text more ms w wait e i room no_nul defined =
      let cells = bytes_of (text ++ 0 ∷ more) in
      let (l, answer, left) = inbox.brings w.heap w.lib (text ++ 0 ∷ more) ms wait in
      let d =
        Delivers-next nn frees works (w.sockets this_socket).d_socket w cells l (rw e answer) i
          room in
      let (u, run, out, blocks, next, sockets, (g, lib), calls) =
        receive_and_print-run nn frees this_socket ops w w.heap.next text more
          (allocate by_nn cells w.heap) l d (works _ _) no_nul defined in
      let same =
        λ (a : Ptr). received nn frees works cells w.heap a (u.heap.block a) i (blocks a) in
      let after : u.heap.next ≡ suc (suc w.heap.next) =
        omega (arith, next, next-allocate by_nn cells w.heap) in
      (
        u,
        record {
          run = run;
          out = out;
          blocks = same;
          is_heap = same_blocks-IsHeap u.heap i after same;
          next = after;
          sockets = sockets;
          waits = ap waiting lib ∙ left w.heap.next g;
          calls = rw e at calls;
        },
      )

  -- Nothing comes, however often it is asked for.
  recv_loop-Waits :
      (k : ℕ) (w : World S)
      → waiting w.lib ≡ []
      → (w.sockets this_socket).d_socket ≡ fd
      → (v : World S) × (recv_loop nn k this_socket ops w ≡ running v) × Prints k [] w v
  unfolding recv_loop recv_again
  recv_loop-Waits zero w wait e = (
    w,
    refl,
    record { out = sym (append-nil w.out); blocks = λ a. refl; sockets = refl; calls = refl },
  )
  recv_loop-Waits (suc k) w wait e =
      let (l, answer, again, empty) = inbox.ends w.heap w.lib wait in
      let (x, u, run, heap, sockets, calls, out, lib, errno) =
        receive_and_print-nothing nn frees works this_socket ops w l (rw e answer) in
      let (v, rest, p) =
        recv_loop-Waits k u (ap waiting lib ∙ empty)
          (ap (λ (f : Ref → Socket). (f this_socket).d_socket) sockets ∙ e) in
      (
        v,
        rw run (rw (errno, again) rest),
        record {
          out = p.out ∙ ap (λ (o : Bytes). o ++ []) out;
          blocks = λ a. p.blocks a ∙ ap (λ (h : Heap). h.block a) heap;
          sockets = p.sockets ∙ sockets;
          calls = p.calls ∙ ap (λ cs. receives nn fd k cs) (rw e at calls);
        },
      )

  -- One message more in front.
  Reads-suc :
      (k n : ℕ) (text : Bytes) (ms : List Bytes) (w u : World S) (texts : Option (List Bytes))
      → One text ms w u
      → Reads n u texts (recv_loop nn k this_socket ops u)
      → Reads (suc n) w (cons_text (some text) texts) (recv_loop nn (suc k) this_socket ops w)
  unfolding recv_loop
  Reads-suc k n text ms w u none one bad = rw one.run bad
  Reads-suc k n text ms w u (some texts) one (v, rest, p) = (
    v,
    rw one.run rest,
    record {
      out =
          p.out
          ∙ ap (λ (o : Bytes). o ++ printed (get_format ops) texts) one.out
          ∙ append_assoc w.out _ _;
      blocks = λ a. p.blocks a ∙ one.blocks a;
      sockets = p.sockets ∙ one.sockets;
      calls = p.calls ∙ ap (λ cs. receives nn fd n cs) one.calls;
    },
  )

  pub recv_loop-Reads :
      (k : ℕ) (ms : List Bytes) (w : World S)
      → length ms < k
      → waiting w.lib ≡ ms
      → (w.sockets this_socket).d_socket ≡ fd
      → IsHeap w.heap
      → w.heap.next + 2 * length ms < 256 ^ 8
      → Reads k w (texts_of (get_format ops) ms) (recv_loop nn k this_socket ops w)
  unfolding recv_loop
  recv_loop-Reads zero ms w enough wait e i room = absurd (omega (arith, enough))
  recv_loop-Reads (suc k) [] w enough wait e i room = recv_loop-Waits (suc k) w wait e
  recv_loop-Reads (suc k) (m ∷ ms) w enough wait e i room = elim (find_nul m) [
    | inl no_nul ↦ rw (up_to_nul-none m no_nul) (
        rw
          (receive_and_print-undefined m ms w wait e i (omega (arith, room))
            (rw (c_string-none m no_nul) refl))
          refl)
    | inr (text, more, (split, no_nul)) ↦ elim (Bool-cases (can_print (get_format ops) text)) [
      | inl defined ↦
          let (u, one) =
            receive_and_print-One text more ms w (wait ∙ ap (λ t. t ∷ ms) split) e i
              (omega (arith, room)) no_nul defined in
          rw (split, up_to_nul-some text more no_nul, defined)
            (Reads-suc k k text ms w u (texts_of (get_format ops) ms) one (
              recv_loop-Reads k ms u (omega (arith, enough)) one.waits (rw one.sockets e)
                one.is_heap (omega (arith, room, one.next))))
      | inr bad ↦
          let run =
            receive_and_print-undefined m ms w wait e i (omega (arith, room))
              (rw split (rw (c_string-some text more no_nul) (rw bad refl))) in
          rw (split, up_to_nul-some text more no_nul, bad) (rw run refl)
    ]
  ]
