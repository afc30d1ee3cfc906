-- ===== src/Socket/Transfer/Parts.antt =====
-- Receiving several parts: what is left in the buffers after nanomsg has stored over their
-- pointers.
use nanomsgpp.Prelude.{
  ℕ, zero, suc, ◌+◌, ◌*◌, ◌^◌, ◌<◌, ◌≤◌, ◌≡◌, ◌≢◌, ◌⊎◌, ◌∙◌, ap, inl, inr, Bool-cases, Option-cases,
  refl, true, false, Bool, none, some, List, [], ◌∷◌, ◌++◌, ◌==◌, ltb, replicate, arith, length,
  take, drop,
}
use nanomsgpp.Prelude.Int.{ℤ, minus_one, eq_ℤ}
use nanomsgpp.Prelude.Bytes.{Bytes, of_le}
use nanomsgpp.Memory.{
  Ptr, null, Heap, IsHeap, by_malloc, unset_cells, allocate, set_block, stored, read_source,
  read_pointer, cells_at,
}
use nanomsgpp.Platform.{Platform}
use nanomsgpp.World.{World, Ref, ok, undefined, and_then, recvmsg_call}
use nanomsgpp.World.Calls.{malloc, memcpy, call_heap}
use nanomsgpp.Message.{Part, part_copy, part_move}
use nanomsgpp.Socket.Transfer.{
  recvmsg, flags_of, receive, finish_receive, store_all, store_at, buffer, buffer_size, take_buffer,
  collect,
}
use nanomsgpp.Socket.Transfer.Overflow.{recvmsg_overflow}
use nanomsgpp.Socket.Transfer.Buffers.{Unset, make_buffers-Unset, drop-stored}

module _ {S : Type 0} (nn : Platform S) where
  -- A copy is undefined, or changes no block but the next.
  part_copy-cases :
      (p : Ptr) (n : ℕ) (w : World S)
      → (part_copy nn (stored p) n true w ≡ undefined)
        ⊎ ((q : Part) × (h : Heap) × (part_copy nn (stored p) n true w
              ≡ ok q (record w { heap = h }))
            × (h.next ≡ suc w.heap.next)
            × ((a : Ptr) → a ≢ w.heap.next → h.block a ≡ w.heap.block a))
  unfolding part_copy malloc memcpy
  part_copy-cases p n w = elim (Bool-cases (nn.malloc_fails w.heap n)) [
    | inl fails ↦ inl (rw fails refl)
    | inr works ↦
        let g = allocate by_malloc (unset_cells n) w.heap in
        elim (Bool-cases (w.heap.next == null)) [
          | inl zeroth ↦ inl (rw (works, zeroth) refl)
          | inr live ↦ elim (Option-cases (read_source g (stored p) n)) [
            | inl short ↦ inl (rw (works, live, short) refl)
            | inr (cs, long) ↦ inr (
              record { d_msg = w.heap.next; d_size = n; d_malloc = true },
              set_block w.heap.next (some (record { owner = by_malloc; cells = cs })) g,
              rw (works, live, long) refl,
              unfold set_block allocate in refl,
              λ a ne. unfold set_block allocate in ground arith,
            )
          ]
        ]
  ]

  take_buffer-unread :
      (ps : List Part) (size : ℕ) (buf : Ptr) (w : World S)
      → read_pointer (cells_at w.heap buf) ≡ none
      → take_buffer nn ps size buf w ≡ undefined
  unfolding take_buffer
  take_buffer-unread ps size buf w unread = rw (take_buffer, unread) refl

  -- The body of the last loop, at any buffer.
  take_buffer-cases :
      (ps : List Part) (size : ℕ) (buf : Ptr) (w : World S)
      → (take_buffer nn ps size buf w ≡ undefined)
        ⊎ ((qs : List Part) × (h : Heap) × (take_buffer nn ps size buf w
              ≡ ok qs (record w { heap = h }))
            × (h.next ≡ suc w.heap.next)
            × ((a : Ptr) → a ≢ w.heap.next → h.block a ≡ w.heap.block a))
  unfolding take_buffer
  take_buffer-cases ps size buf w = elim (Option-cases (read_pointer (cells_at w.heap buf))) [
    | inl unread ↦ inl (take_buffer-unread ps size buf w unread)
    | inr (src, read) ↦ elim (part_copy-cases src size w) [
      | inl bad ↦ inl (rw (take_buffer, read) (rw bad refl))
      | inr (q, h, run, next, blocks) ↦
          inr (ps ++ (part_move q).0 ∷ [], h, rw (take_buffer, read) (rw run refl), next, blocks)
    ]
  ]

  collect-suc :
      (n left i : ℕ) (nb : ℤ) (frame : Bytes) (ps : List Part) (w : World S)
      → (1 == n) ≡ false
      → collect nn n nb frame i (suc left) ps w
        ≡ and_then
            (take_buffer nn ps 2048 (buffer frame i) w)
            λ qs. collect nn n nb frame (suc i) left qs
  unfolding collect buffer_size
  collect-suc n left i nb frame ps w several = rw several refl

  -- From index `i` to the last buffer.
  collect-undefined :
      (n left i : ℕ) (nb : ℤ) (frame : Bytes) (ps : List Part) (w : World S)
      → (1 == n) ≡ false
      → Unset w.heap (buffer frame (i + left))
      → collect nn n nb frame i (suc left) ps w ≡ undefined
  collect-undefined n zero i nb frame ps w several unset =
      let e : i + 0 ≡ i = omega arith in
      let none_read = rw e at unset.unread in
      collect-suc n zero i nb frame ps w several
      ∙ rw (take_buffer-unread ps 2048 (buffer frame i) w none_read) refl
  collect-undefined n (suc left) i nb frame ps w several unset =
      collect-suc n (suc left) i nb frame ps w several
      ∙ elim (take_buffer-cases ps 2048 (buffer frame i) w) [
        | inl bad ↦ rw bad refl
        | inr (qs, h, run, next, blocks) ↦
            let last = buffer frame (i + suc left) in
            let e : i + suc left ≡ suc i + left = omega arith in
            let held : Unset h last = record {
              unread = rw (cells_at, blocks last λ new. omega (arith, new, unset.old)) unset.unread;
              old = omega (arith, next, unset.old);
            } in
            rw run (
              collect-undefined n left (suc i) nb frame qs (record w { heap = h }) several
                (rw e at held))
      ]

  -- A store that ends before the last pointer.
  last_pointer :
      (m : ℕ) (body frame : Bytes)
      → length frame ≡ 8 * suc m
      → length body ≤ 8 * m
      → (frame' : Bytes) × (store_all 0 (body ∷ []) frame ≡ some frame')
        × (buffer frame' m ≡ buffer frame m)
  unfolding store_all store_at buffer
  last_pointer m body frame size short =
      let start : 0 + length body ≡ length body = omega arith in
      let fits : ltb (length frame) (length body) ≡ false = ground (arith, size, short) in
      (
        body ++ drop (length body) frame,
        rw (store_all, store_at, start, fits) refl,
        ap (λ bs. of_le (take 8 bs))
            (drop-stored (8 * m) body frame short (omega (arith, size, short))),
      )

-- `nn_recvmsg(3)` takes a message whose body is shorter than the 2048 bytes that it may store at
-- the first address: it stores the body there and nothing at the others.
abbrev pub StoresFirst : {S : Type 0} → Platform S → ℤ → ℤ → ℕ → S → Bytes → Type 0
StoresFirst {S} nn fd flags n l body =
    (h : Heap)
    → (nb : ℤ) × (l' : S) × (nn.nn_recvmsg fd (replicate n (buffer_size nn n)) flags h l
        ≡ ((nb, body ∷ []), h, l'))
      × (eq_ℤ minus_one nb ≡ false)

module _ {S : Type 0} (nn : Platform S) where
  -- In a well-formed heap with addresses below 2 ^ 64 for the buffers, receiving two parts or more
  -- is undefined, whatever `malloc` answers, when nanomsg stores the message's body at the first
  -- address: if the body is longer than the array of pointers, the store runs past its end; if it
  -- ends before the last pointer, a pointer is read from the last buffer, where nothing was stored.
  pub recvmsg_parts :
      (s : Ref) (m : ℕ) (dont_wait : Bool) (body : Bytes) (w : World S)
      → StoresFirst nn (w.sockets s).d_socket (flags_of nn dont_wait) (suc (suc m)) w.lib body
      → IsHeap w.heap
      → w.heap.next + suc (suc m) < 256 ^ 8
      → (length body ≤ 8 * suc m) ⊎ (8 * suc (suc m) < length body)
      → recvmsg nn s (suc (suc m)) dont_wait w ≡ undefined
  unfolding recvmsg receive finish_receive call_heap
  recvmsg_parts s m dont_wait body w stores i room (inr long) =
      recvmsg_overflow nn s (suc (suc m)) dont_wait w
        λ h. let (nb, l, answer, taken) = stores h in (body, [], ap (λ r. r.0.1) answer, long)
  recvmsg_parts s m dont_wait body w stores i room (inl short) =
      let n = suc (suc m) in
      let (frame, h, run, size, unset) =
        make_buffers-Unset nn (buffer_size nn n) (suc m) w i room in
      let (nb, l, answer, taken) = stores h in
      let (frame', stored_first, last) = last_pointer nn (suc m) body frame size short in
      let w1 = record w {
        heap = h;
        lib = l;
        calls =
            recvmsg_call (w.sockets s).d_socket (replicate n (buffer_size nn n))
              (flags_of nn dont_wait)
            ∷ w.calls;
      } in
      let e : 0 + suc m ≡ suc m = omega arith in
      let still : Unset h (buffer frame' (0 + suc m)) = rw e (rw last unset) in
      let ends = collect-undefined nn n (suc m) 0 nb frame' [] w1 (ground arith) still in
      rw run (rw answer (rw stored_first (rw taken (rw ends refl))))
