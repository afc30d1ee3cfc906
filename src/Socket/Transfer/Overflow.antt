-- ===== src/Socket/Transfer/Overflow.antt =====
-- Receiving several parts: nanomsg is told that 2048 bytes may be stored at the address of each
-- pointer of the array.
use nanomsgpp.Prelude.{
  ℕ, zero, suc, ◌*◌, ◌<◌, ◌≡◌, refl, Bool, none, List, [], ◌∷◌, ◌++◌, replicate, arith, length,
  length-append, Bool-cases, inl, inr, ◌==◌,
}
use nanomsgpp.Prelude.Int.{ℤ}
use nanomsgpp.Prelude.Bytes.{Bytes, to_le, length-to_le}
use nanomsgpp.Memory.{Ptr, null, Heap, by_malloc, unset_cells, allocate}
use nanomsgpp.Platform.{Platform}
use nanomsgpp.World.{World, Ref, ok, undefined}
use nanomsgpp.World.Calls.{call_heap, malloc}
use nanomsgpp.Socket.Transfer.{
  recvmsg, flags_of, receive, store_all, store_at, make_buffers, buffer_size,
}

-- nanomsg stores at the first address more bytes than the whole array of pointers has.
abbrev pub StoresPast : {S : Type 0} → Platform S → ℤ → ℤ → ℕ → S → Type 0
StoresPast nn fd flags n l =
    (h : Heap)
    → (body : Bytes) × (more : List Bytes) × ((nn.nn_recvmsg fd (replicate n (buffer_size nn n))
          flags h l).0.1
        ≡ body ∷ more)
      × (8 * n < length body)

pub one_more :
    (p : Ptr) (rest : Bytes) (n : ℕ) → length rest ≡ 8 * n → length (to_le 8 p ++ rest) ≡ 8 * suc n
one_more p rest n size = omega (arith, length-append (to_le 8 p) rest, length-to_le 8 p)

module _ {S : Type 0} (nn : Platform S) where
  make_buffers-length :
      (buf_size n : ℕ) (w : World S)
      → (frame : Bytes) × (h : Heap) × (make_buffers nn buf_size n w
          ≡ ok frame (record w { heap = h }))
        × (length frame ≡ 8 * n)
  unfolding make_buffers malloc
  make_buffers-length buf_size zero w = ([], w.heap, refl, refl)
  make_buffers-length buf_size (suc n) w = elim (Bool-cases (buf_size == nn.nn_msg)) [
    | inl whole ↦
        let (rest, h, run, size) = make_buffers-length buf_size n w in
        (to_le 8 null ++ rest, h, rw whole (rw run refl), one_more null rest n size)
    | inr apart ↦ elim (Bool-cases (nn.malloc_fails w.heap buf_size)) [
      | inl fails ↦
          let (rest, h, run, size) = make_buffers-length buf_size n w in
          (to_le 8 null ++ rest, h, rw apart (rw fails (rw run refl)), one_more null rest n size)
      | inr works ↦
          let p = w.heap.next in
          let g = allocate by_malloc (unset_cells buf_size) w.heap in
          let (rest, h, run, size) = make_buffers-length buf_size n (record w { heap = g }) in
          (to_le 8 p ++ rest, h, rw apart (rw works (rw run refl)), one_more p rest n size)
    ]
  ]

  store_all-past :
      (body frame : Bytes) (more : List Bytes)
      → length frame < length body
      → store_all 0 (body ∷ more) frame ≡ none
  unfolding store_all store_at
  store_all-past body frame more h = ground arith

  -- A message of several parts whose first store is longer than the array of pointers runs past the
  -- end of that array on the stack: the call is undefined, whatever `malloc` answers.
  pub recvmsg_overflow :
      (s : Ref) (n : ℕ) (dont_wait : Bool) (w : World S)
      → StoresPast nn (w.sockets s).d_socket (flags_of nn dont_wait) n w.lib
      → recvmsg nn s n dont_wait w ≡ undefined
  unfolding recvmsg receive call_heap
  recvmsg_overflow s n dont_wait w past =
      let (frame, h, run, size) = make_buffers-length (buffer_size nn n) n w in
      let (body, more, stored, long) = past h in
      rw run (rw stored (rw (store_all-past body frame more (omega arith))))
