-- ===== src/Message/Ownership.antt =====
-- Who frees what: the blocks that a list of parts owns, and their destruction.
use nanomsgpp.Prelude.{
  ◌≡◌, ◌≢◌, refl, Bool, true, false, none, some, All, List, [], ◌∷◌, ◌==◌, ◌||◌, ◌&&◌, not, arith,
  if◌then◌else◌, ◌∙◌, ap, Bool-cases, inl, inr,
}
use nanomsgpp.Prelude.Int.{pos}
use nanomsgpp.Memory.{Ptr, null, Heap, Block, Owner, by_malloc, by_nn, set_block}
use nanomsgpp.Platform.{Platform}
use nanomsgpp.World.{World, ok}
use nanomsgpp.World.Calls.{free, use_heap}
use nanomsgpp.Message.{Part, Message, part_destroy, parts_destroy, message_destroy}

abbrev owner_of : Bool → Owner
owner_of true = by_malloc
owner_of false = by_nn

-- A pointer of one of the parts.
abbrev pub holds : Ptr → List Part → Bool
holds a [] = false
holds a (p ∷ ps) = (a == p.d_msg) || holds a ps

-- Each part has let go of its pointer or has one to a live block of the right kind, which no later
-- part points to.
pub data Owns (h : Heap) : List Part → Type 0 where
  nil : Owns h []
  empty : {p : Part} {ps : List Part} → p.d_msg ≡ null → Owns h ps → Owns h (p ∷ ps)
  cons :
      {p : Part} {ps : List Part} (b : Block)
      → p.d_msg ≢ null
      → h.block p.d_msg ≡ some b
      → b.owner ≡ owner_of p.d_malloc
      → holds p.d_msg ps ≡ false
      → Owns h ps
      → Owns h (p ∷ ps)

-- `nn_freemsg(3)`: a message buffer is deallocated, and 0 returned.
abbrev pub FreesChunks : {S : Type 0} → Platform S → Type 0
FreesChunks {S} nn =
    (a : Ptr) (h : Heap) (l : S) (b : Block)
    → h.block a ≡ some b
    → b.owner ≡ by_nn
    → ((nn.nn_freemsg a h l).0 ≡ pos 0) × ((nn.nn_freemsg a h l).1 ≡ set_block a none h)

-- The world but for the heap and nanomsg's own state.
pub record SameElse {S : Type 0} (v w : World S) : Type 0 where
  pub sockets : w.sockets ≡ v.sockets
  pub calls : w.calls ≡ v.calls
  pub stdin : w.stdin ≡ v.stdin
  pub out : w.out ≡ v.out
  pub err : w.err ≡ v.err

same_else :
    {S : Type 0} {w w' : World S} {h : Heap} {l : S}
    → SameElse (record w { heap = h; lib = l }) w'
    → SameElse w w'
same_else s = record {
  sockets = s.sockets;
  calls = s.calls;
  stdin = s.stdin;
  out = s.out;
  err = s.err;
}

abbrev pub freed : List Part → (Ptr → Bool)
freed ps a = not (a == null) && holds a ps

-- The blocks after destruction: those of the parts are gone, the others as they were. Where `malloc`
-- made them all, nanomsg has no part in it.
pub record Destroyed {S : Type 0} (ps : List Part) (v w : World S) : Type 0 where
  pub blocks : (a : Ptr) → w.heap.block a ≡ (if freed ps a then none else v.heap.block a)
  pub next : w.heap.next ≡ v.heap.next
  pub else_same : SameElse v w
  pub same_lib : All (λ p. p.d_malloc ≡ true) ps → w.lib ≡ v.lib

module _ {S : Type 0} (nn : Platform S) (frees : FreesChunks nn) where
  part_destroy-malloc :
      (p : Part) (b : Block) (w : World S)
      → p.d_msg ≢ null
      → w.heap.block p.d_msg ≡ some b
      → b.owner ≡ by_malloc
      → p.d_malloc ≡ true
      → part_destroy nn p w ≡ ok tt (record w { heap = set_block p.d_msg none w.heap })
  unfolding part_destroy free
  part_destroy-malloc p b w ne e k m = ground arith

  part_destroy-chunk :
      (p : Part) (b : Block) (w : World S)
      → p.d_msg ≢ null
      → w.heap.block p.d_msg ≡ some b
      → b.owner ≡ by_nn
      → p.d_malloc ≡ false
      → (l : S) × (part_destroy nn p w
          ≡ ok tt (record w { heap = set_block p.d_msg none w.heap; lib = l }))
  unfolding part_destroy use_heap
  part_destroy-chunk p b w ne e k m =
      ((nn.nn_freemsg p.d_msg w.heap w.lib).2, ground (arith, frees p.d_msg w.heap w.lib b e k))

  part_destroy-owned :
      (p : Part) (b : Block) (w : World S)
      → p.d_msg ≢ null
      → w.heap.block p.d_msg ≡ some b
      → b.owner ≡ owner_of p.d_malloc
      → (l : S) × (part_destroy nn p w
          ≡ ok tt (record w { heap = set_block p.d_msg none w.heap; lib = l }))
        × (p.d_malloc ≡ true → l ≡ w.lib)
  part_destroy-owned p b w ne e k = elim (Bool-cases p.d_malloc) [
    | inl m ↦ (w.lib, part_destroy-malloc p b w ne e (k ∙ ap owner_of m) m, (λ same. refl))
    | inr m ↦
        let (l, run) = part_destroy-chunk p b w ne e (k ∙ ap owner_of m) m in
        (l, run, (λ other. absurd (ground (arith, m, other))))
  ]

  part_destroy-empty : (p : Part) (w : World S) → p.d_msg ≡ null → part_destroy nn p w ≡ ok tt w
  unfolding part_destroy
  part_destroy-empty p w e = ground arith

  parts_destroy-Owns :
      {h : Heap} {ps : List Part} (w : World S)
      → Owns h ps
      → ((a : Ptr) → holds a ps ≡ true → w.heap.block a ≡ h.block a)
      → (w' : World S) × (parts_destroy nn ps w ≡ ok tt w') × Destroyed ps w w'
  unfolding parts_destroy set_block
  parts_destroy-Owns w nil same = (
    w,
    refl,
    record {
      blocks = λ a. ground arith;
      next = refl;
      else_same = record { sockets = refl; calls = refl; stdin = refl; out = refl; err = refl };
      same_lib = λ all. refl;
    },
  )
  parts_destroy-Owns w (empty {p} {ps} e o) same =
      let (w', run, d) = parts_destroy-Owns w o (λ a i. same a (ground arith)) in
      (
        w',
        rw (part_destroy-empty p w e) run,
        record {
          blocks = λ a. ground (arith, d.blocks a);
          next = d.next;
          else_same = d.else_same;
          same_lib = λ all. d.same_lib all.1;
        },
      )
  parts_destroy-Owns w (cons {p} {ps} b ne e k out o) same =
      let here : w.heap.block p.d_msg ≡ some b = ground (arith, same p.d_msg) in
      let (l, first, kept) = part_destroy-owned p b w ne here k in
      let w1 = record w { heap = set_block p.d_msg none w.heap; lib = l } in
      let (w', run, d) = parts_destroy-Owns w1 o (λ a i. ground (arith, same a)) in
      (
        w',
        rw first run,
        record {
          blocks = λ a. ground (arith, d.blocks a);
          next = d.next;
          else_same = same_else d.else_same;
          same_lib = λ all. d.same_lib all.1 ∙ kept all.0;
        },
      )

  -- Where `nn_freemsg` frees, destroying a message that owns its blocks succeeds, and frees exactly
  -- those blocks: no other block is touched, none of them is freed twice and none is left.
  pub message_destroy-Owns :
      (m : Message) (w : World S)
      → Owns w.heap m.d_parts
      → (w' : World S) × (message_destroy nn m w ≡ ok tt w') × Destroyed m.d_parts w w'
  unfolding message_destroy
  message_destroy-Owns m w o = parts_destroy-Owns w o (λ a i. refl)
