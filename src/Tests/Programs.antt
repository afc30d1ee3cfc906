-- ===== src/Tests/Programs.antt =====
-- The theorems on the whole client, at one that receives and sends.
use nanomsgpp.Prelude.{true, ◌≡◌, ◌⊎◌, refl, List, [], ◌∷◌, arith, length, inr, if◌then◌else◌, ◌||◌}
use nanomsgpp.Prelude.Int.{ℤ, pos}
use nanomsgpp.Prelude.Bytes.{Bytes, bytes_eq, codes, to_le}
use nanomsgpp.Memory.{by_nn, allocate}
use nanomsgpp.Platform.{Platform, VariablesMap, stored_all}
use nanomsgpp.Message.Ownership.{FreesChunks}
use nanomsgpp.World.{throws, bad_any_cast}
use nanomsgpp.Client.Options.{EchoFormat, default_options}
use nanomsgpp.Client.Print.{is_ascii, can_print}
use nanomsgpp.Client.Loops.{recv_loop}
use nanomsgpp.Client.Main.{main}
use nanomsgpp.Client.Safety.{Safely}
use nanomsgpp.Client.Leaks.{Leaks}
use nanomsgpp.Client.Safety.Receiving.{DeliversText, SameBlocks, text_cells, recv_loop-Safely}
use nanomsgpp.Client.Safety.Loops.{Works}
use nanomsgpp.Client.Safety.Whole.{EndsWell, IsCopy}
use nanomsgpp.Client.Safety.Program.{main-EndsWell}
use nanomsgpp.Client.Session.Run.{OneSession, main-OneSession}
use nanomsgpp.Client.Exits.{Exits, main-Exits}
use nanomsgpp.Client.CommandLine.{options_of}
use nanomsgpp.Client.CommandLine.Reading.{IsTyped, IsUntyped, read_options}
use nanomsgpp.Tests.Toy.{toy, toy_malloc, start-IsHeap}
use nanomsgpp.Tests.Runs.{at_start, closed, repeating}

-- nanomsg where "hi" and a NUL always come.
abbrev talking : Platform (List Bytes)
talking = record toy {
  nn_recvmsg = λ fd lens flags h l. (
    (pos (length (text_cells (codes "hi") [])), to_le 8 h.next ∷ []),
    allocate by_nn (text_cells (codes "hi") []) h,
    l,
  );
}

hi-printable : (f : EchoFormat) → can_print f (codes "hi") ≡ true
unfolding can_print is_ascii
hi-printable EchoFormat.none = refl
hi-printable EchoFormat.raw = refl
hi-printable EchoFormat.ascii = refl
hi-printable EchoFormat.quoted = refl
hi-printable EchoFormat.msgpack = refl

talking-DeliversText : (fd : ℤ) → DeliversText talking fd
talking-DeliversText fd h l =
    inr (l, codes "hi", [], ((omega arith, (omega arith, tt)), hi-printable), refl)

talking_frees : FreesChunks talking
talking_frees a h l b e k = (refl, refl)

recv_loop-Safely_example : Safely (SameBlocks at_start) (recv_loop talking 3 0 repeating at_start)
recv_loop-Safely_example =
    recv_loop-Safely talking talking_frees toy_malloc 3 0 repeating at_start
      (talking-DeliversText (pos 3)) (start-IsHeap []) (omega arith)

-- A client of a pair that sends "ping", with the default send timeout.
abbrev pair_map : VariablesMap
pair_map = record {
  count = λ n.
      if bytes_eq n (codes "type") || (bytes_eq n (codes "connect") || bytes_eq n (codes "data"))
      then 1
      else 0;
  is_typed = λ n. true;
  as_int = λ n. pos 0;
  as_string = λ n. if bytes_eq n (codes "type") then codes "pair" else codes "ping";
  as_strings = λ n. codes "inproc://a" ∷ [];
}

abbrev pairing : Platform (List Bytes)
pairing = record talking { parse_command_line = λ table positional args. (stored_all, pair_map) }

pairing-Works : (fd : ℤ) → Works pairing fd
pairing-Works fd = record {
  mallocs = toy_malloc;
  frees = talking_frees;
  delivers = talking-DeliversText fd;
  gathers = λ iov flags h l. refl;
  closes = λ l. refl;
}

main-EndsWell_example :
    EndsWell
      (Leaks (IsCopy pairing (read_options pairing []) closed) closed)
      (main pairing 3 [] closed)
unfolding options_of default_options bytes_eq nanomsgpp.Client.CommandLine.reads_all
    nanomsgpp.Client.CommandLine.valued_options
main-EndsWell_example =
    main-EndsWell pairing 3 [] closed refl (λ t named. pairing-Works _) refl (start-IsHeap [])
      (omega arith)

main-OneSession_example :
    OneSession pairing (read_options pairing []) closed (main pairing 3 [] closed)
main-OneSession_example = main-OneSession pairing 3 [] closed

main-Exits_example :
    (IsTyped pairing [] × Exits (main pairing 5 [] closed))
    ⊎ (IsUntyped pairing []
        × ((said : Bytes) × (main pairing 5 [] closed
              ≡ throws bad_any_cast (record closed { err = said }))))
main-Exits_example = main-Exits pairing 5 [] closed refl
