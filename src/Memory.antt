-- ===== src/Memory.antt =====
-- The heap that message.cpp and socket.cpp work on: blocks at addresses, each made by `malloc` or
-- by `nn_allocmsg`, with cells that hold a byte or nothing yet.
pub mod Laws
pub mod Strings
use nanomsgpp.Prelude.{
  ℕ, zero, suc, ◌≤◌, ◌≡◌, Option, none, some, List, [], ◌∷◌, map, ◌==◌, ltb, if◌then◌else◌, length,
  take, replicate,
}
use nanomsgpp.Prelude.Bytes.{Bytes, of_le}
use mathlib.Core.Option

pub data Cell : Type 0 where
  unset : Cell
  byte : ℕ → Cell

pub data Owner : Type 0 where
  by_malloc by_nn : Owner

pub record Block : Type 0 where
  pub owner : Owner
  pub cells : List Cell

-- An address; 0 is the null pointer.
abbrev pub Ptr : Type 0
Ptr = ℕ

abbrev pub null : Ptr
null = 0

-- `next` is the address of the next new block.
pub record Heap : Type 0 where
  pub next : Ptr
  pub block : Ptr → Option Block

abbrev put : (Ptr → Option Block) → Ptr → Option Block → Ptr → Option Block
put f p b q = if q == p then b else f q

-- Nothing lives at null or at an address not yet given out.
pub record IsHeap (h : Heap) : Type 0 where
  pub next_pos : suc null ≤ h.next
  pub null_free : h.block null ≡ none
  pub above_free : (p : Ptr) → h.next ≤ p → h.block p ≡ none

abbrev pub bytes_of : Bytes → List Cell
bytes_of = map byte

abbrev pub unset_cells : ℕ → List Cell
unset_cells n = replicate n unset

unfoldable pub allocate : Owner → List Cell → Heap → Heap
allocate o cs h = record {
  next = suc h.next;
  block = put h.block h.next (some (record { owner = o; cells = cs }));
}

unfoldable pub set_block : Ptr → Option Block → Heap → Heap
set_block p b h = record h { block = put h.block p b }

-- What `memcpy` reads from: an object of the caller, or memory on the heap.
pub data Source : Type 0 where
  object : Ptr → List Cell → Source
  stored : Ptr → Source

abbrev pub address : Source → Ptr
address (object p cs) = p
address (stored p) = p

abbrev prefix : ℕ → List Cell → Option (List Cell)
prefix n cs = if ltb (length cs) n then none else some (take n cs)

-- The `n` cells from the source's start; `none` if they are not all there to read.
unfoldable pub read_source : Heap → Source → ℕ → Option (List Cell)
read_source h (object p cs) n = prefix n cs
read_source h (stored p) n = elim (h.block p) [ none ↦ none | some b ↦ prefix n b.cells ]

-- The bytes before the first NUL, as `strlen` finds them: `none` if it meets an unset cell or the
-- end of the block first.
unfoldable pub c_string : List Cell → Option Bytes
c_string [] = none
c_string (unset ∷ cs) = none
c_string (byte zero ∷ cs) = some []
c_string (byte (suc b) ∷ cs) = Option.map (λ bs. suc b ∷ bs) (c_string cs)

abbrev pub cells_at : Heap → Ptr → List Cell
cells_at h p = elim (h.block p) [ none ↦ [] | some b ↦ b.cells ]

-- The bytes of cells that are all set.
unfoldable pub set_bytes : List Cell → Option Bytes
set_bytes [] = some []
set_bytes (unset ∷ cs) = none
set_bytes (byte b ∷ cs) = Option.map (λ bs. b ∷ bs) (set_bytes cs)

-- A pointer read from the first eight cells.
unfoldable pub read_pointer : List Cell → Option Ptr
unfolding read_source set_bytes
read_pointer cs = elim (prefix 8 cs) [ none ↦ none | some ds ↦ Option.map of_le (set_bytes ds) ]
