-- ===== src/Client/Safety/Program.antt =====
-- The memory of the whole program, from the command line to the exit code.
use nanomsgpp.Prelude.{ℕ, ◌+◌, ◌*◌, ◌^◌, ◌<◌, ◌≡◌, refl, true, List}
use nanomsgpp.Prelude.Int.{fits_int, scale}
use nanomsgpp.Prelude.Bytes.{Bytes}
use nanomsgpp.Memory.{IsHeap}
use nanomsgpp.Platform.{Platform}
use nanomsgpp.SocketType.{SocketType}
use nanomsgpp.World.{World, Outcome, ok, throws, terminated, undefined, running}
use nanomsgpp.Client.CommandLine.Reading.{IsTyped, read_options, process_command_line-read_options}
use nanomsgpp.Client.Main.{main, main_with}
use nanomsgpp.Client.Options.Names.{type_name}
use nanomsgpp.Client.Session.Run.{fd_for}
use nanomsgpp.Client.Leaks.{Leaks, Leaks-mono}
use nanomsgpp.Client.Safety.Loops.{Works}
use nanomsgpp.Client.Safety.Data.{IsData-stdin}
use nanomsgpp.Client.Safety.Whole.{EndsWell, IsCopy, main_with-EndsWell}

EndsWell-mono :
    {S : Type 0} (P Q : World S → Type 0) (o : Outcome S ℕ)
    → EndsWell P o
    → ((u : World S) → P u → Q u)
    → EndsWell Q o
EndsWell-mono P Q (ok code w) h weaken = weaken w h
EndsWell-mono P Q (throws e w) h weaken = h
EndsWell-mono P Q (terminated w) h weaken = h
EndsWell-mono P Q undefined h weaken = h
EndsWell-mono P Q (running w) h weaken = weaken w h

module _ {S : Type 0} (nn : Platform S) where
  -- Where `malloc` works, nanomsg delivers only strings of ASCII, shorter than 2 ^ 31, that end in a
  -- NUL, frees chunks, leaves the heap alone in a send and closes the client's descriptor, where
  -- each option that is stored has a value of its type and the send timeout in milliseconds is an
  -- `int`, and in every number of rounds for which there are addresses below 2 ^ 64: whatever else
  -- the command line says and nanomsg refuses, `main` meets no undefined behaviour and is not
  -- terminated; it returns an exit code or is still in a loop. What it has leaked then is one block
  -- for each call of `nn_sendmsg`, each at an address of its own, which holds a copy of what
  -- `get_data` answers or is empty, and only if the type is one that sends; every other block is as
  -- it was before.
  pub main-EndsWell :
      (k : ℕ) (args : List Bytes) (w : World S)
      → let ops = read_options nn args in
        IsTyped nn args
        → ((t : SocketType) → ops.type ≡ type_name t → Works nn (fd_for nn t w.lib))
        → fits_int (scale ops.send_timeout 1000) ≡ true
        → IsHeap w.heap
        → w.heap.next + 5 * k < 256 ^ 8
        → EndsWell (Leaks (IsCopy nn ops w) w) (main nn k args w)
  unfolding main
  main-EndsWell k args w typed works fits i room =
      let ops = read_options nn args in
      let (said, run) = process_command_line-read_options nn args w typed in
      let u = record w { err = said } in
      rw run (
        EndsWell-mono (Leaks (IsCopy nn ops u) u) (Leaks (IsCopy nn ops w) w) (main_with nn k ops u)
          (main_with-EndsWell nn k ops u works fits i room)
          λ v leaks.
            Leaks-mono (IsCopy nn ops u) (IsCopy nn ops w) w v
              (record {
                leaked = leaks.leaked;
                distinct = leaks.distinct;
                counted = leaks.counted;
                fresh = leaks.fresh;
                others = leaks.others;
              })
              λ b (t, named, sends, p, d, copy).
                (t, named, sends, p, IsData-stdin nn ops w u p refl d, copy))
