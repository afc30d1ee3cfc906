-- ===== src/Memory/Laws.antt =====
-- Heaps after an allocation, and heaps with the same blocks.
use nanomsgpp.Prelude.{suc, ◌≡◌, refl, some, List, ◌==◌, if◌then◌else◌, arith, ◌∙◌}
use nanomsgpp.Memory.{Ptr, null, Heap, IsHeap, Owner, Cell, allocate}

pub allocate-IsHeap :
    (o : Owner) (cells : List Cell) {h : Heap} → IsHeap h → IsHeap (allocate o cells h)
unfolding allocate
allocate-IsHeap o cells {h} i = record {
  next_pos = omega arith;
  null_free = ground (arith, i.next_pos, i.null_free);
  above_free = λ p le. ground (arith, i.above_free p);
}

pub block-allocate :
    (o : Owner) (cells : List Cell) (h : Heap) (a : Ptr)
    → (allocate o cells h).block a
      ≡ (if a == h.next then some (record { owner = o; cells = cells }) else h.block a)
unfolding allocate
block-allocate o cells h a = refl

pub next-allocate :
    (o : Owner) (cells : List Cell) (h : Heap) → (allocate o cells h).next ≡ suc h.next
unfolding allocate
next-allocate o cells h = refl

pub same_blocks-IsHeap :
    {h : Heap} (g : Heap)
    → IsHeap h
    → g.next ≡ suc (suc h.next)
    → ((a : Ptr) → g.block a ≡ h.block a)
    → IsHeap g
same_blocks-IsHeap {h} g i next blocks = record {
  next_pos = omega (arith, i.next_pos);
  null_free = blocks null ∙ i.null_free;
  above_free = λ p le. blocks p ∙ i.above_free p (omega arith);
}
