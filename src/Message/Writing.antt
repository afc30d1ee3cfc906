-- ===== src/Message/Writing.antt =====
-- What `write` does to the heap: a message as the list of the byte strings that its parts hold.
use nanomsgpp.Prelude.{
  ℕ, suc, ◌≡◌, ◌≢◌, refl, true, false, some, List, [], ◌∷◌, ◌++◌, map, ◌==◌, ◌||◌, if◌then◌else◌,
  arith, ap, length, take, length-append,
}
use mathlib.Core.List.{append-nil}
use nanomsgpp.Prelude.Bytes.{Bytes}
use nanomsgpp.Memory.{
  Ptr, Heap, IsHeap, Block, by_malloc, Cell, byte, bytes_of, unset_cells, cells_at, allocate,
  set_block, Source, object, read_source,
}
use nanomsgpp.Platform.{Platform}
use nanomsgpp.World.{World, ok}
use nanomsgpp.World.Calls.{malloc, memcpy}
use nanomsgpp.Message.{Part, Message, add_part, part_copy, part_destroy, write, write_string}
use nanomsgpp.Message.Ownership.{Owns, nil, empty, cons, holds}

-- The cells that each part points to.
abbrev pub contents : Heap → List Part → List (List Cell)
contents h ps = map (λ p. cells_at h p.d_msg) ps

-- The heap after a copy of the cells into a new block.
pub copied : ℕ → List Cell → Heap → Heap
unfolding set_block allocate
copied n cs h =
    set_block h.next (some (record { owner = by_malloc; cells = cs }))
      (allocate by_malloc (unset_cells n) h)

pub next-copied : (n : ℕ) (cs : List Cell) (h : Heap) → (copied n cs h).next ≡ suc h.next
unfolding copied
next-copied n cs h = refl

pub block-copied :
    (n : ℕ) (cs : List Cell) (h : Heap) (a : Ptr)
    → (copied n cs h).block a
      ≡ (if a == h.next then some (record { owner = by_malloc; cells = cs }) else h.block a)
unfolding copied
block-copied n cs h a = ground arith

pub copied-IsHeap : (n : ℕ) (cs : List Cell) {h : Heap} → IsHeap h → IsHeap (copied n cs h)
unfolding copied
copied-IsHeap n cs {h} i = record {
  next_pos = omega arith;
  null_free = ground (arith, i.next_pos, i.null_free);
  above_free = λ p le. ground (arith, i.above_free p);
}

abbrev pub new_part : Ptr → ℕ → Part
new_part a n = record { d_msg = a; d_size = n; d_malloc = true }

holds-append :
    (a : Ptr) (ps : List Part) (q : Part) → holds a (ps ++ q ∷ []) ≡ (holds a ps || (a == q.d_msg))
holds-append a [] q = ground arith
holds-append a (p ∷ ps) q = ground (arith, holds-append a ps q)

pub cells_at-copied_ne :
    (n : ℕ) (cs : List Cell) (h : Heap) (a : Ptr)
    → a ≢ h.next
    → cells_at (copied n cs h) a ≡ cells_at h a
cells_at-copied_ne n cs h a ne = ground (arith, block-copied n cs h a)

pub cells_at-copied_self :
    (n : ℕ) (cs : List Cell) (h : Heap) → cells_at (copied n cs h) h.next ≡ cs
cells_at-copied_self n cs h = ground (arith, block-copied n cs h h.next)

not-next : {h : Heap} {a : Ptr} (b : Block) → IsHeap h → h.block a ≡ some b → a ≢ h.next
not-next {h} {a} b i e same = ground (arith, i.above_free a)

Owns-new :
    {h : Heap} {ps : List Part} (n k : ℕ) (cs : List Cell)
    → IsHeap h
    → Owns h ps
    → Owns (copied n cs h) (ps ++ new_part h.next k ∷ [])
Owns-new {h} n k cs i nil =
    cons (record { owner = by_malloc; cells = cs }) (omega (arith, i.next_pos))
      (ground (arith, block-copied n cs h h.next)) refl refl nil
Owns-new n k cs i (empty e o) = empty e (Owns-new n k cs i o)
Owns-new {h} n k cs i (cons {p} {ps} b ne e own out o) =
    cons b ne (ground (arith, block-copied n cs h p.d_msg, i.above_free p.d_msg)) own
      (ground (arith, holds-append p.d_msg ps (new_part h.next k), not-next b i e))
      (Owns-new n k cs i o)

contents-new :
    {h : Heap} {ps : List Part} (n k : ℕ) (cs : List Cell)
    → IsHeap h
    → Owns h ps
    → contents (copied n cs h) (ps ++ new_part h.next k ∷ []) ≡ contents h ps ++ cs ∷ []
contents-new {h} n k cs i nil = rw (cells_at-copied_self n cs h)
contents-new {h} n k cs i (empty {p} e o) =
    rw (cells_at-copied_ne n cs h p.d_msg (omega (arith, i.next_pos)))
      (ap (◌∷◌ (cells_at h p.d_msg)) (contents-new n k cs i o))
contents-new {h} n k cs i (cons {p} {ps} b ne e own out o) =
    rw (cells_at-copied_ne n cs h p.d_msg (not-next b i e))
      (ap (◌∷◌ (cells_at h p.d_msg)) (contents-new n k cs i o))

pub length-bytes_of : (bs : Bytes) → length (bytes_of bs) ≡ length bs
length-bytes_of [] = refl
length-bytes_of (b ∷ bs) = ap suc (length-bytes_of bs)

take-bytes_of :
    (bs : Bytes) (tail : List Cell) → take (length bs) (bytes_of bs ++ tail) ≡ bytes_of bs
take-bytes_of [] tail = refl
take-bytes_of (b ∷ bs) tail = ap (◌∷◌ (byte b)) (take-bytes_of bs tail)

module _ {S : Type 0} (nn : Platform S) where
  pub part_copy-copied :
      (src : Source) (n : ℕ) (cs : List Cell) (w : World S)
      → nn.malloc_fails w.heap n ≡ false
      → IsHeap w.heap
      → read_source (allocate by_malloc (unset_cells n) w.heap) src n ≡ some cs
      → part_copy nn src n true w
        ≡ ok (new_part w.heap.next n) (record w { heap = copied n cs w.heap })
  unfolding part_copy malloc memcpy copied
  part_copy-copied src n cs w works i readable = ground (arith, i.next_pos)

read-object :
    (h : Heap) (a : Ptr) (bs : Bytes) (tail : List Cell)
    → read_source h (object a (bytes_of bs ++ tail)) (length bs) ≡ some (bytes_of bs)
unfolding read_source
read-object h a bs tail =
    ground (arith, length-append (bytes_of bs) tail, length-bytes_of bs, take-bytes_of bs tail)

sized-append :
    (ps : List Part) (q : Part)
    → map (λ p. p.d_size) (ps ++ q ∷ []) ≡ map (λ p. p.d_size) ps ++ q.d_size ∷ []
sized-append [] q = refl
sized-append (p ∷ ps) q = ap (◌∷◌ p.d_size) (sized-append ps q)

-- What a write leaves: one more part, in a block of its own that holds a copy of the bytes.
pub record Wrote {S : Type 0} (m : Message) (bs : Bytes) (w : World S) (m' : Message) (w' : World S)
    : Type 0 where
  pub owns : Owns w'.heap m'.d_parts
  pub is_heap : IsHeap w'.heap
  pub holds_bytes : contents w'.heap m'.d_parts ≡ contents w.heap m.d_parts ++ bytes_of bs ∷ []
  pub sized : map (λ p. p.d_size) m'.d_parts ≡ map (λ p. p.d_size) m.d_parts ++ length bs ∷ []
  pub points : (a : Ptr) → holds a m'.d_parts ≡ (holds a m.d_parts || (a == w.heap.next))
  pub new_block :
      w'.heap.block w.heap.next ≡ some (record { owner = by_malloc; cells = bytes_of bs })
  pub old_blocks : (a : Ptr) → a ≢ w.heap.next → w'.heap.block a ≡ w.heap.block a
  pub next : w'.heap.next ≡ suc w.heap.next
  pub same_calls : w'.calls ≡ w.calls
  pub same_sockets : w'.sockets ≡ w.sockets
  pub same_lib : w'.lib ≡ w.lib

module _ {S : Type 0} (nn : Platform S) where
  -- The message after a part is added that was just made.
  extended : Message → ℕ → World S → Message
  extended m n w = record { d_parts = m.d_parts ++ new_part w.heap.next n ∷ [] }

  extended-Wrote :
      (m : Message) (bs : Bytes) (w : World S)
      → IsHeap w.heap
      → Owns w.heap m.d_parts
      → Wrote m bs w
          (extended m (length bs) w)
          (record w { heap = copied (length bs) (bytes_of bs) w.heap })
  unfolding extended
  extended-Wrote m bs w i o = record {
    owns = Owns-new (length bs) (length bs) (bytes_of bs) i o;
    is_heap = copied-IsHeap (length bs) (bytes_of bs) i;
    holds_bytes = contents-new (length bs) (length bs) (bytes_of bs) i o;
    sized = sized-append m.d_parts (new_part w.heap.next (length bs));
    points = λ a. holds-append a m.d_parts (new_part w.heap.next (length bs));
    new_block = ground (arith, block-copied (length bs) (bytes_of bs) w.heap w.heap.next);
    old_blocks = λ a ne. ground (arith, block-copied (length bs) (bytes_of bs) w.heap a);
    next = next-copied (length bs) (bytes_of bs) w.heap;
    same_calls = refl;
    same_sockets = refl;
    same_lib = refl;
  }

  module _ (m : Message) (a : Ptr) (bs : Bytes) (w : World S)
      (works : nn.malloc_fails w.heap (length bs) ≡ false) (i : IsHeap w.heap)
      (o : Owns w.heap m.d_parts) where
    -- In a well-formed heap in which `malloc` succeeds, writing a string to a message that owns its
    -- blocks adds one part with a copy of the string's bytes, without the NUL behind them: the byte
    -- strings that the message holds are those from before and the new one, the new part has a
    -- block of its own, and no other block changes.
    pub write_string-Wrote :
        (m' : Message) × (w' : World S) × (write_string nn m a bs w ≡ ok m' w') × Wrote m bs w m' w'
    unfolding write_string part_destroy add_part extended
    write_string-Wrote = (
      extended m (length bs) w,
      record w { heap = copied (length bs) (bytes_of bs) w.heap },
      rw
          (part_copy-copied nn (object a (bytes_of bs ++ byte 0 ∷ [])) (length bs) (bytes_of bs) w
            works i (read-object _ a bs (byte 0 ∷ [])))
          refl,
      extended-Wrote m bs w i o,
    )

    -- In a well-formed heap in which `malloc` succeeds, writing a value of another type to a
    -- message that owns its blocks adds one part with a copy of the bytes that represent the value,
    -- in a block of its own; the byte strings that the message held stay, and no other block
    -- changes.
    pub write-Wrote :
        (m' : Message) × (w' : World S) × (write nn m a bs w ≡ ok m' w') × Wrote m bs w m' w'
    unfolding write part_destroy add_part extended
    write-Wrote = (
      extended m (length bs) w,
      record w { heap = copied (length bs) (bytes_of bs) w.heap },
      rw
          (part_copy-copied nn (object a (bytes_of bs)) (length bs) (bytes_of bs) w works i (
            rw (append-nil) at
              (read-object (allocate by_malloc (unset_cells (length bs)) w.heap) a bs [])))
          refl,
      extended-Wrote m bs w i o,
    )
