-- ===== src/Message/Lifetime.antt =====
-- The life of a message that a program fills, reads and destroys: a message as the list of the byte
-- strings that were written to it.
use nanomsgpp.Prelude.{
  ℕ, zero, suc, ◌≡◌, refl, none, some, Option, List, [], ◌∷◌, ◌++◌, ◌∙◌, ap, sym, arith, map,
  length, length-map, length-maps, get_elem?, if◌then◌else◌,
}
use mathlib.Core.List.{append_assoc, append-nil, map-append}
use nanomsgpp.Prelude.Bytes.{Bytes}
use nanomsgpp.Memory.{Ptr, IsHeap, bytes_of, cells_at}
use nanomsgpp.Platform.{Platform}
use nanomsgpp.World.{World, Cmd, Outcome, ok, throws, out_of_range, pure, ◌>>=◌}
use nanomsgpp.Message.{Part, Message, size, empty_message, message_destroy, write, write_string, at}
use nanomsgpp.Message.Ownership.{Owns, nil, freed, FreesChunks, message_destroy-Owns}
use nanomsgpp.Message.Header.{MallocWorks}
use nanomsgpp.Message.Writing.{contents, Wrote, write_string-Wrote, write-Wrote}

-- What is written, with the address it is at: a string, or a value of another type.
pub data Value : Type 0 where
  text : Ptr → Bytes → Value
  raw : Ptr → Bytes → Value

abbrev pub bytes : Value → Bytes
bytes (text a bs) = bs
bytes (raw a bs) = bs

-- The blocks once the parts are destroyed are those from before.
abbrev pub Restores : {S : Type 0} → List Part → World S → World S → Type 0
Restores ps start w = (a : Ptr) → (if freed ps a then none else w.heap.block a) ≡ start.heap.block a

-- A message that holds the byte strings, and all that was allocated for it.
pub record Built {S : Type 0} (start : World S) (bss : List Bytes) (m : Message) (w : World S)
    : Type 0 where
  pub owns : Owns w.heap m.d_parts
  pub is_heap : IsHeap w.heap
  pub holds_bytes : contents w.heap m.d_parts ≡ map bytes_of bss
  pub sized : map (λ p. p.d_size) m.d_parts ≡ map (λ bs. length bs) bss
  pub restores : Restores m.d_parts start w
  pub same_calls : w.calls ≡ start.calls
  pub same_sockets : w.sockets ≡ start.sockets

-- What `at` answers for a byte string of the list, or for none.
abbrev pub Found : {S : Type 0} → World S → Option Bytes → Outcome S Part → Type 0
Found w none o = o ≡ throws out_of_range w
Found w (some bs) o =
    (p : Part) × (o ≡ ok p w) × (cells_at w.heap p.d_msg ≡ bytes_of bs) × (p.d_size ≡ length bs)

found :
    {S : Type 0} (w : World S) (bss : List Bytes) (ps : List Part) (i : ℕ)
    → contents w.heap ps ≡ map bytes_of bss
    → map (λ p. p.d_size) ps ≡ map (λ bs. length bs) bss
    → Found w (get_elem? bss i) (at (record { d_parts = ps }) i w)
unfolding at
found w [] [] i holds sized = refl
found w [] (p ∷ ps) i holds sized = absurd (ground (arith, holds))
found w (bs ∷ bss) [] i holds sized = absurd (ground (arith, holds))
found w (bs ∷ bss) (p ∷ ps) zero holds sized =
    (p, refl, ground (arith, holds), ground (arith, sized))
found w (bs ∷ bss) (p ∷ ps) (suc i) holds sized =
    found w bss ps i (ground (arith, holds)) (ground (arith, sized))

module _ {S : Type 0} (nn : Platform S) where
  -- `msg << v`.
  unfoldable pub write_value : Message → Value → Cmd S Message
  write_value m (text a bs) = write_string nn m a bs
  write_value m (raw a bs) = write nn m a bs

  -- `msg << v << ...`.
  unfoldable pub write_all : Message → List Value → Cmd S Message
  write_all m [] = pure m
  write_all m (v ∷ vs) = do m' ← write_value m v; write_all m' vs

  Wrote-Built :
      (start w w' : World S) (bss : List Bytes) (bs : Bytes) (m m' : Message)
      → Built start bss m w
      → Wrote m bs w m' w'
      → Built start (bss ++ bs ∷ []) m' w'
  Wrote-Built start w w' bss bs m m' b wrote = record {
    owns = wrote.owns;
    is_heap = wrote.is_heap;
    holds_bytes =
        wrote.holds_bytes
        ∙ ap (λ cs. cs ++ bytes_of bs ∷ []) b.holds_bytes
        ∙ sym (map-append bytes_of bss (bs ∷ []));
    sized =
        wrote.sized
        ∙ ap (λ ns. ns ++ length bs ∷ []) b.sized
        ∙ sym (map-append (λ (bs : Bytes). length bs) bss (bs ∷ []));
    restores = λ a. ground (
      arith,
      wrote.points a,
      wrote.old_blocks a,
      b.restores a,
      b.is_heap.next_pos,
      b.is_heap.above_free w.heap.next,
    );
    same_calls = wrote.same_calls ∙ b.same_calls;
    same_sockets = wrote.same_sockets ∙ b.same_sockets;
  }

  module _ (works : MallocWorks nn) where
    write_value-Built :
        (start : World S) (bss : List Bytes) (v : Value) (m : Message) (w : World S)
        → Built start bss m w
        → (m' : Message) × (w' : World S) × (write_value m v w ≡ ok m' w')
          × Built start (bss ++ bytes v ∷ []) m' w'
    unfolding write_value
    write_value-Built start bss (text a bs) m w b =
        let (m', w', run, wrote) = write_string-Wrote nn m a bs w (works _ _) b.is_heap b.owns in
        (m', w', run, Wrote-Built start w w' bss bs m m' b wrote)
    write_value-Built start bss (raw a bs) m w b =
        let (m', w', run, wrote) = write-Wrote nn m a bs w (works _ _) b.is_heap b.owns in
        (m', w', run, Wrote-Built start w w' bss bs m m' b wrote)

    write_all-more :
        (start : World S) (bss : List Bytes) (vs : List Value) (m : Message) (w : World S)
        → Built start bss m w
        → (m' : Message) × (w' : World S) × (write_all m vs w ≡ ok m' w')
          × Built start (bss ++ map bytes vs) m' w'
    unfolding write_all
    write_all-more start bss [] m w b = (m, w, refl, rw append-nil b)
    write_all-more start bss (v ∷ vs) m w b =
        let (m1, w1, first, b1) = write_value-Built start bss v m w b in
        let (m', w', rest, b') = write_all-more start (bss ++ bytes v ∷ []) vs m1 w1 b1 in
        (m', w', rw first rest, rw append_assoc at b')

    -- A new message is empty.
    pub write_all-Built :
        (vs : List Value) (w : World S)
        → IsHeap w.heap
        → (m : Message) × (w' : World S) × (write_all empty_message vs w ≡ ok m w')
          × Built w (map bytes vs) m w'
    unfolding empty_message
    write_all-Built vs w i = write_all-more w [] vs empty_message w (record {
      owns = nil;
      is_heap = i;
      holds_bytes = refl;
      sized = refl;
      restores = λ a. ground arith;
      same_calls = refl;
      same_sockets = refl;
    })

    -- In a well-formed heap, where `malloc` works and `nn_freemsg` frees, a message to which any
    -- strings and values of other types are written has a part for each: `at` gives the part with
    -- the bytes of the value at that place in the order of the writes, and throws out_of_range
    -- behind the last. Destroying the message then succeeds and gives all of its memory back: every
    -- block is as it was before the message was made.
    pub write_all-message_destroy :
        (vs : List Value) (w : World S)
        → FreesChunks nn
        → IsHeap w.heap
        → (m : Message) × (u : World S) × (v : World S) × (write_all empty_message vs w ≡ ok m u)
          × (size m ≡ length vs)
          × ((i : ℕ) → Found u (get_elem? (map bytes vs) i) (at m i u))
          × (message_destroy nn m u ≡ ok tt v)
          × ((a : Ptr) → v.heap.block a ≡ w.heap.block a)
          × (v.calls ≡ w.calls)
    unfolding size
    write_all-message_destroy vs w frees i =
        let (m, u, run, b) = write_all-Built vs w i in
        let (v, end, gone) = message_destroy-Owns nn frees m u b.owns in
        (
          m,
          u,
          v,
          run,
          length-maps (λ (p : Part). p.d_size) (λ (bs : Bytes). length bs) m.d_parts (map bytes vs)
                b.sized
              ∙ length-map bytes vs,
          (λ k. found u (map bytes vs) m.d_parts k b.holds_bytes b.sized),
          end,
          (λ a. gone.blocks a ∙ b.restores a),
          gone.else_same.calls ∙ b.same_calls,
        )
