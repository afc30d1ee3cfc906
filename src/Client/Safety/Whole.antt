-- ===== src/Client/Safety/Whole.antt =====
-- The memory of `main` of client/nanomsgpp.cpp.
use nanomsgpp.Prelude.{
  ℕ, ◌+◌, ◌*◌, ◌^◌, ◌<◌, ◌≡◌, ◌∙◌, ap, refl, true, false, Bool, arith, Bool-cases, inl, inr,
  if◌then◌else◌, ◌||◌, ◌==◌, ◌∷◌,
}
use nanomsgpp.Prelude.Int.{ℤ, minus_one, eq_ℤ, is_nonneg, fits_int, scale}
use nanomsgpp.Prelude.Bytes.{Bytes, codes}
use nanomsgpp.Memory.{Heap, IsHeap, Block}
use nanomsgpp.Platform.{Platform}
use nanomsgpp.SocketType.{SocketType}
use nanomsgpp.World.{
  World, Outcome, Cmd, close_call, ok, throws, terminated, undefined, running, unwind, put_out,
  pure, ◌>>◌, and_then, sleep_for, internal_exception, invalid_argument, out_of_range, bad_any_cast,
}
use nanomsgpp.World.Sends.{SameSends}
use nanomsgpp.World.Calls.{call_lib, throw_internal}
use nanomsgpp.Socket.{open_socket, close, destroy}
use nanomsgpp.Client.Options.{Options}
use nanomsgpp.Client.Options.Names.{type_name, get_type-cases, get_type-type_name}
use nanomsgpp.Client.Loops.{configure_socket, connect_socket}
use nanomsgpp.Client.Main.{
  exit_success, exit_failure, this_socket, report_exception, handle, run_socket, run_client,
  main_with, help,
}
use nanomsgpp.Client.Growth.{copy_of}
use nanomsgpp.Client.Session.Run.{fd_for}
use nanomsgpp.Client.Safety.{Safe, Safe-mono, and_then-Safe, Sound-less, Sound-same}
use nanomsgpp.Client.Leaks.{Leaks, Leaks-refl, Leaks-same}
use nanomsgpp.Client.Safety.Sending.{Ends-Safe}
use nanomsgpp.Client.Safety.Loops.{Works, Has}
use nanomsgpp.Client.Safety.Data.{IsData, IsData-stdin, may_send, run_loop-Safe}
use nanomsgpp.Client.Safety.Setup.{
  Kept, IsKept, configure_socket-IsKept, connect_socket-IsKept, sleep_for-IsKept, if-IsKept,
  pure-IsKept,
}

-- With an exit code or still in a loop, and with a world of the set.
abbrev pub EndsWell : {S : Type 0} → (World S → Type 0) → Outcome S ℕ → Type 0
EndsWell P (ok code u) = P u
EndsWell P (throws e u) = ⊥
EndsWell P (terminated u) = ⊥
EndsWell P undefined = ⊥
EndsWell P (running u) = P u

-- The type asked for is one that sends, and the block holds a copy of the data.
abbrev pub IsCopy : {S : Type 0} → Platform S → Options → World S → Block → Type 0
IsCopy nn ops w b =
    (t : SocketType) × (ops.type ≡ type_name t)
    × (may_send t ≡ true)
    × (p : Bytes) × IsData nn ops w p
    × (b ≡ copy_of p)

module _ {S : Type 0} (nn : Platform S) (k : ℕ) (ops : Options) (w : World S) (t : SocketType)
    (named : ops.type ≡ type_name t) (fd : ℤ) (works : Works nn fd)
    (fits : fits_int (scale ops.send_timeout 1000) ≡ true) where
  -- Before the loop.
  record Ready (u : World S) : Type 0 where
    has : Has nn fd works (IsCopy nn ops w) w (5 * k) u
    stdin : u.stdin ≡ w.stdin

  abbrev Stops : World S → Type 0
  Stops u = Has nn fd works (IsCopy nn ops w) w 0 u

  Ready-Stops : (u : World S) → Ready u → Stops u
  Ready-Stops u i = Sound-less this_socket fd (IsCopy nn ops w) w 0 (5 * k) u (omega arith) i.has

  Kept-Ready : (u v : World S) → Ready u → Kept u v → Ready v
  Kept-Ready u v i kept = record {
    has =
        Sound-same this_socket fd (IsCopy nn ops w) w (5 * k) u v kept.heap
          (kept.same_fds this_socket) kept.same_sends i.has;
    stdin = kept.stdin ∙ i.stdin;
  }

  then-Safe :
      {A B : Type 0} (m : Cmd S A) (next : A → Cmd S B) (u : World S)
      → IsKept m
      → Ready u
      → ((a : A) (v : World S) → Ready v → Safe (λ _. Stops) Stops (next a v))
      → Safe (λ _. Stops) Stops (and_then (m u) next)
  then-Safe m next u kept i safe =
      and_then-Safe (λ _. Ready) (λ _. Stops) Ready Stops (m u) next
        (Safe-mono (λ _. Kept u) (λ _. Ready) (Kept u) Ready (m u)
          (Ends-Safe (λ _. Kept u) (m u) (kept.at u)) (λ _ v j. Kept-Ready u v i j)
          λ v j. Kept-Ready u v i j)
        Ready-Stops safe

  run_socket-Safe : (u : World S) → Ready u → Safe (λ _. Stops) Stops (run_socket nn k ops u)
  unfolding run_socket
  run_socket-Safe u i =
      then-Safe (configure_socket nn this_socket ops) _ u
        (configure_socket-IsKept nn this_socket ops fits) i
        λ _ u1 i1.
          then-Safe (connect_socket nn this_socket ops) _ u1
            (connect_socket-IsKept nn this_socket ops) i1
            λ _ u2 i2.
              then-Safe (if eq_ℤ ops.delay minus_one then pure tt else sleep_for ops.delay) _ u2
                (if-IsKept (eq_ℤ ops.delay minus_one) _ _ (pure-IsKept tt)
                  (sleep_for-IsKept ops.delay))
                i2
                λ _ u3 i3. rw (get_type-type_name ops t u3 named) (
                  run_loop-Safe nn fd works (IsCopy nn ops w) w k ops t u3
                    (λ sends p d. (t, named, sends, p, IsData-stdin nn ops w u3 p i3.stdin d, refl))
                    i3.has)

  destroy-heap :
      (u : World S)
      → Stops u
      → (v : World S) × (destroy nn this_socket u ≡ ok tt v) × (v.heap ≡ u.heap) × SameSends u v
  unfolding destroy close call_lib throw_internal
  destroy-heap u i = elim (Bool-cases (is_nonneg (u.sockets this_socket).d_socket)) [
    | inl live ↦
        let d = (u.sockets this_socket).d_socket in
        let closes : eq_ℤ minus_one (nn.nn_close d u.lib).0 ≡ false =
          rw i.has_fd (works.closes u.lib) in
        (
          record u {
            lib = (nn.nn_close d u.lib).1;
            sockets = λ q.
                if q == this_socket
                then record (u.sockets this_socket) { d_socket = minus_one }
                else u.sockets q;
            calls = close_call d ∷ u.calls;
          },
          rw (live, closes) refl,
          refl,
          refl,
        )
    | inr dead ↦ (u, rw dead refl, refl, refl)
  ]

  closed : (u v : World S) → Stops u → v.heap ≡ u.heap → SameSends u v → Leaks (IsCopy nn ops w) w v
  closed u v i heap calls =
      Leaks-same (IsCopy nn ops w) w u v i.leaks (λ a. ap (λ (h : Heap). h.block a) heap) calls

  closing-EndsWell :
      (o : Outcome S (Unit {0}))
      → Safe (λ _. Stops) Stops o
      → EndsWell
          (Leaks (IsCopy nn ops w) w)
          (handle nn (and_then (unwind o (destroy nn this_socket)) λ _. ok exit_success))
  unfolding report_exception
  closing-EndsWell (ok a u) i =
      let (v, run, heap, calls) = destroy-heap u i in rw run (closed u _ i heap calls)
  closing-EndsWell (throws (internal_exception e) u) i =
      let (v, run, heap, calls) = destroy-heap u i in rw run (closed u _ i heap calls)
  closing-EndsWell (throws (invalid_argument m) u) i =
      let (v, run, heap, calls) = destroy-heap u i in rw run (closed u _ i heap calls)
  closing-EndsWell (throws out_of_range u) i =
      let (v, run, heap, calls) = destroy-heap u i in rw run (closed u _ i heap calls)
  closing-EndsWell (throws bad_any_cast u) i =
      let (v, run, heap, calls) = destroy-heap u i in rw run (closed u _ i heap calls)
  closing-EndsWell (terminated u) i = elim i [ ]
  closing-EndsWell undefined i = elim i [ ]
  closing-EndsWell (running u) i = i.leaks

-- Where the heap and the number of sends are those from before, nothing is leaked.
unchanged :
    {S : Type 0} (Kind : Block → Type 0) (w u : World S)
    → u.heap ≡ w.heap
    → SameSends w u
    → Leaks Kind w u
unchanged Kind w u heap calls =
    Leaks-same Kind w w u (Leaks-refl Kind w) (λ a. ap (λ (h : Heap). h.block a) heap) calls

module _ {S : Type 0} (nn : Platform S) where
  if-EndsWell :
      (b : Bool) (m n : Cmd S ℕ) (P : World S → Type 0) (w : World S)
      → EndsWell P (m w)
      → EndsWell P (n w)
      → EndsWell P ((if b then m else n) w)
  if-EndsWell true m n P w h g = h
  if-EndsWell false m n P w h g = g

  shown :
      (b : Bool) (P : World S → Type 0) (u : World S)
      → P u
      → ((o : Bytes) → P (record u { out = o }))
      → EndsWell P (
          ((if b then (do put_out (codes "\n"); put_out (help nn)) else pure tt)
              >> pure exit_failure)
            u)
  shown true P u h g = g _
  shown false P u h g = h

  run_client-EndsWell :
      (k : ℕ) (ops : Options) (w : World S)
      → ((t : SocketType) → ops.type ≡ type_name t → Works nn (fd_for nn t w.lib))
      → fits_int (scale ops.send_timeout 1000) ≡ true
      → IsHeap w.heap
      → w.heap.next + 5 * k < 256 ^ 8
      → EndsWell (Leaks (IsCopy nn ops w) w) (handle nn (run_client nn k ops w))
  unfolding run_client open_socket call_lib report_exception
  run_client-EndsWell k ops w works fits i room = elim (get_type-cases ops w) [
    | inl (t, named, run) ↦ rw run (
        let fd = fd_for nn t w.lib in
        closing-EndsWell nn k ops w t named fd (works t named) fits _ (
          run_socket-Safe nn k ops w t named fd (works t named) fits _ (record {
            has = record {
              is_heap = i;
              leaks = unchanged _ w _ refl refl;
              room = room;
              has_fd = refl;
            };
            stdin = refl;
          })))
    | inr (unnamed, run) ↦ rw run (unchanged _ w _ refl refl)
  ]

  -- Where `malloc` works, nanomsg delivers only strings that end in a NUL, frees chunks, leaves the
  -- heap alone in a send and closes the client's descriptor, where the send timeout in milliseconds
  -- is an `int`, and in every number of rounds for which there are addresses below 2 ^ 64: `main`,
  -- once the command line is read, meets no undefined behaviour and is not terminated, whatever
  -- else nanomsg refuses; it returns an exit code or is still in a loop. What it has leaked then is
  -- one block for each call of `nn_sendmsg`, each at an address of its own, which holds a copy of
  -- what `get_data` answers or is empty, and only if the type is one that sends; every other block
  -- is as it was before.
  pub main_with-EndsWell :
      (k : ℕ) (ops : Options) (w : World S)
      → ((t : SocketType) → ops.type ≡ type_name t → Works nn (fd_for nn t w.lib))
      → fits_int (scale ops.send_timeout 1000) ≡ true
      → IsHeap w.heap
      → w.heap.next + 5 * k < 256 ^ 8
      → EndsWell (Leaks (IsCopy nn ops w) w) (main_with nn k ops w)
  unfolding main_with
  main_with-EndsWell k ops w works fits i room =
      let P = Leaks (IsCopy nn ops w) w in
      let same = λ (u : World S) (e : u.heap ≡ w.heap) (c : SameSends w u).
        unchanged (IsCopy nn ops w) w u e c in
      if-EndsWell ops.show_version _ _ P w (same _ refl refl) (
        if-EndsWell (ops.show_usage || ops.show_help) _ _ P w
          (shown ops.show_help P _ (same _ refl refl) λ o. same _ refl refl)
          (run_client-EndsWell k ops w works fits i room))
