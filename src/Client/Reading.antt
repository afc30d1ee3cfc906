-- ===== src/Client/Reading.antt =====
-- What the client makes of one received message, from nanomsg's chunk to the printed line.
use nanomsgpp.Prelude.{
  suc, ◌≡◌, ◌≢◌, refl, true, false, none, some, Option, List, [], ◌∷◌, ◌++◌, arith, ap, ◌∙◌, length,
  if◌then◌else◌, ◌==◌, map,
}
use mathlib.Core.List.{append-nil}
use nanomsgpp.Prelude.Bytes.{Bytes}
use nanomsgpp.Memory.{Ptr, null, Heap, Cell, bytes_of, c_string}
use nanomsgpp.Platform.{Platform}
use nanomsgpp.World.{World, Ref, ok, undefined, recvmsg_call}
use nanomsgpp.Message.{Part}
use nanomsgpp.Message.Ownership.{FreesChunks, message_destroy-Owns, freed}
use nanomsgpp.Message.Writing.{contents}
use nanomsgpp.Socket.Transfer.{flags_of}
use nanomsgpp.Socket.Transfer.Receiving.{Delivers, recvmsg-Took, recvmsg-run}
use nanomsgpp.Client.Options.{Options, EchoFormat, get_format}
use nanomsgpp.Client.Print.{can_print, print_message_part}
use nanomsgpp.Memory.Strings.{HasNoNul, c_string-some}
use nanomsgpp.Client.Print.Messages.{
  shown, texts, cons_text, printed, print_end, print_message-texts,
}
use nanomsgpp.Client.Loops.{receive_and_print}

-- Parts that hold the cells one after the other have the texts of those cells.
texts-one :
    (f : EchoFormat) (h : Heap) (ps : List Part) (cells : List Cell)
    → contents h ps ≡ cells ∷ []
    → texts f h ps ≡ cons_text (shown f (c_string cells)) (some [])
texts-one f h [] cells e = ground arith
texts-one f h (p ∷ []) cells e =
    ap (λ (cs : List Cell). cons_text (shown f (c_string cs)) (some [])) (ground arith)
texts-one f h (p ∷ q ∷ ps) cells e = ground arith

freed-one :
    (n a : Ptr) (ps : List Part) → n ≢ null → map (λ p. p.d_msg) ps ≡ n ∷ [] → freed ps a ≡ (a == n)
freed-one n a [] ne e = ground arith
freed-one n a (p ∷ []) ne e = ground arith
freed-one n a (p ∷ q ∷ ps) ne e = ground arith

shown-some : (f : EchoFormat) (t : Bytes) → can_print f t ≡ true → shown f (some t) ≡ some t
shown-some f t defined = rw defined refl

module _ {S : Type 0} (nn : Platform S) (frees : FreesChunks nn) where
  -- Where nanomsg delivers a chunk without a NUL, or with a text for which the printing is not
  -- defined, `malloc` has room for a copy and `nn_freemsg` frees, the client is undefined.
  pub receive_and_print_overread :
      (s : Ref) (ops : Options) (w : World S) (chunk : Ptr) (text : Bytes) (h : Heap) (l : S)
      → Delivers nn (w.sockets s).d_socket (flags_of nn true) w chunk (bytes_of text) h l
      → nn.malloc_fails h (length (bytes_of text)) ≡ false
      → shown (get_format ops) (c_string (bytes_of text)) ≡ none
      → receive_and_print nn s ops w ≡ undefined
  unfolding receive_and_print
  receive_and_print_overread s ops w chunk text h l d works bad =
      let (m, w', run, took) = recvmsg-Took nn frees s true w chunk (bytes_of text) h l d works in
      rw run (
        rw (print_message-texts m ops w') (
          rw (texts-one (get_format ops) w'.heap m.d_parts (bytes_of text) took.holds_cells)
            (rw bad refl)))

  -- The text is printed, with one call and one step of nanomsg's state.
  pub receive_and_print-run :
      (s : Ref) (ops : Options) (w : World S) (chunk : Ptr) (text more : Bytes) (h : Heap) (l : S)
      → Delivers nn
          (w.sockets s).d_socket
          (flags_of nn true)
          w
          chunk
          (bytes_of (text ++ 0 ∷ more))
          h
          l
      → nn.malloc_fails h (length (bytes_of (text ++ 0 ∷ more))) ≡ false
      → HasNoNul text
      → can_print (get_format ops) text ≡ true
      → (w' : World S) × (receive_and_print nn s ops w ≡ ok tt w')
        × (w'.out ≡ w.out ++ print_message_part (get_format ops) text)
        × ((a : Ptr) → w'.heap.block a ≡ (if a == chunk then none else h.block a))
        × (w'.heap.next ≡ suc h.next)
        × (w'.sockets ≡ w.sockets)
        × ((g : Heap) × (w'.lib ≡ (nn.nn_freemsg chunk g l).2))
        × (w'.calls
            ≡ recvmsg_call (w.sockets s).d_socket (nn.nn_msg ∷ []) (flags_of nn true) ∷ w.calls)
  unfolding receive_and_print
  receive_and_print-run s ops w chunk text more h l d works no_nul defined =
      let cells = bytes_of (text ++ 0 ∷ more) in
      let (m, w1, g, run, took, lib, calls) =
        recvmsg-run nn frees s true w chunk cells h l d works in
      let w2 = record w1 { out = w1.out ++ printed (get_format ops) (text ∷ []) } in
      let (w3, end, gone) = message_destroy-Owns nn frees m w2 took.owns in
      let shown =
        print_message-texts m ops w1
        ∙ ap (λ (ts : Option (List Bytes)). print_end (get_format ops) ts w1)
            (texts-one (get_format ops) w1.heap m.d_parts cells took.holds_cells
              ∙ ap (λ (t : Option Bytes). cons_text t (some []))
                  (ap (λ (t : Option Bytes). shown (get_format ops) t)
                      (c_string-some text more no_nul)
                    ∙ shown-some (get_format ops) text defined)) in
      (
        w3,
        rw run (rw shown (rw end refl)),
        gone.else_same.out
            ∙ rw (append-nil (print_message_part (get_format ops) text))
                (ap (λ (o : Bytes). o ++ print_message_part (get_format ops) text) took.same_out),
        λ a.
            gone.blocks a
            ∙ ground (
              arith,
              freed-one h.next a m.d_parts (λ z. omega (arith, d.is_heap.next_pos)) took.pointers,
              took.chunk_freed,
              took.blocks a,
              d.is_heap.above_free h.next,
              d.is_heap.above_free chunk,
            ),
        gone.next ∙ took.next,
        gone.else_same.sockets ∙ took.same_sockets,
        (g, gone.same_lib took.malloced ∙ lib),
        gone.else_same.calls ∙ calls,
      )

  -- Where nanomsg delivers a chunk with a NUL behind its text, `malloc` has room for a copy and
  -- `nn_freemsg` frees, the text up to the NUL is printed where that is defined, in the format asked for, and all memory
  -- is given back: of the blocks that nanomsg left, the chunk is freed and no other has changed.
  pub receive_and_print-text :
      (s : Ref) (ops : Options) (w : World S) (chunk : Ptr) (text more : Bytes) (h : Heap) (l : S)
      → Delivers nn
          (w.sockets s).d_socket
          (flags_of nn true)
          w
          chunk
          (bytes_of (text ++ 0 ∷ more))
          h
          l
      → nn.malloc_fails h (length (bytes_of (text ++ 0 ∷ more))) ≡ false
      → HasNoNul text
      → can_print (get_format ops) text ≡ true
      → (w' : World S) × (receive_and_print nn s ops w ≡ ok tt w')
        × (w'.out ≡ w.out ++ print_message_part (get_format ops) text)
        × ((a : Ptr) → w'.heap.block a ≡ (if a == chunk then none else h.block a))
        × (w'.heap.next ≡ suc h.next)
        × (w'.sockets ≡ w.sockets)
  receive_and_print-text s ops w chunk text more h l d works no_nul defined =
      let (w', run, out, blocks, next, sockets, lib, calls) =
        receive_and_print-run s ops w chunk text more h l d works no_nul defined in
      (w', run, out, blocks, next, sockets)
