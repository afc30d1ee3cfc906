-- ===== src/Tests/Accepted.antt =====
-- The theorems on whole runs of the client, at one that pushes and one that pulls.
use nanomsgpp.Prelude.{
  ℕ, true, ◌≡◌, refl, some, List, [], ◌∷◌, ◌++◌, arith, if◌then◌else◌, ◌||◌, length,
}
use nanomsgpp.Prelude.Int.{ℤ, pos, minus_one}
use nanomsgpp.Prelude.Bytes.{Bytes, bytes_eq, codes, to_le}
use nanomsgpp.Memory.{Heap, by_nn, bytes_of, allocate}
use nanomsgpp.Platform.{Platform, VariablesMap, stored_all}
use nanomsgpp.SocketType.{push, pull}
use nanomsgpp.World.{World, ok}
use nanomsgpp.Client.Options.{default_options}
use nanomsgpp.Client.CommandLine.{options_of}
use nanomsgpp.Client.CommandLine.Reading.{read_options}
use nanomsgpp.Client.Main.{main}
use nanomsgpp.Client.Accepted.{Accepts}
use nanomsgpp.Client.Accepted.Whole.{Asks}
use nanomsgpp.Client.Accepted.Sends.{SendsOnce, main-SendsOnce}
use nanomsgpp.Client.Accepted.Inbox.{Inbox}
use nanomsgpp.Client.Accepted.Prints.{Shows, main-Shows}
use nanomsgpp.Client.Terminating.{AtClose, CastFails, main-AtClose}
use nanomsgpp.Tests.Toy.{toy, toy_frees, toy_malloc, start-IsHeap}
use nanomsgpp.Tests.Runs.{closed}

-- One type of socket, one address, and perhaps something to send.
abbrev map_of : Bytes → VariablesMap
map_of type = record {
  count = λ n.
      if bytes_eq n (codes "type") || (bytes_eq n (codes "connect") || bytes_eq n (codes "data"))
      then 1
      else 0;
  is_typed = λ n. true;
  as_int = λ n. pos 0;
  as_string = λ n. if bytes_eq n (codes "type") then type else codes "ping";
  as_strings = λ n. codes "inproc://a" ∷ [];
}

abbrev pub pushing : Platform (List Bytes)
pushing = record toy {
  parse_command_line = λ table positional args. (stored_all, map_of (codes "push"));
}

pub push_asked : Asks (read_options pushing []) push
unfolding options_of default_options bytes_eq nanomsgpp.Client.Options.Names.type_name
push_asked = record { named = refl; no_version = refl; no_help = refl; fits = refl }

pub pushing-Accepts : {V : Type 0} (view : List Bytes → V) → Accepts pushing (pos 3) view
pushing-Accepts view = record {
  takes = λ level opt val l. (refl, refl);
  binds = λ addr l. (refl, refl);
  connects = λ addr l. (refl, refl);
  closes = λ l. refl;
}

main-SendsOnce_example :
    (code : ℕ) × (x : World (List Bytes)) × (main pushing 1 [] closed ≡ ok code x)
    × SendsOnce pushing (λ (l : List Bytes). l) (read_options pushing []) push closed code x
unfolding options_of default_options bytes_eq nanomsgpp.Client.Options.Names.type_name
    nanomsgpp.Client.CommandLine.reads_all nanomsgpp.Client.CommandLine.valued_options
main-SendsOnce_example =
    main-SendsOnce pushing (λ (l : List Bytes). l) 0 [] push closed refl push_asked refl refl
      toy_malloc (start-IsHeap []) refl (pushing-Accepts λ l. l) λ iov flags h l. refl

abbrev next_message : Heap → List Bytes → (ℤ × List Bytes) × Heap × List Bytes
next_message h [] = ((minus_one, []), h, [])
next_message h (m ∷ ms) =
    ((pos (length (bytes_of m)), to_le 8 h.next ∷ []), allocate by_nn (bytes_of m) h, ms)

-- A client that pulls.
abbrev pub pulling : Platform (List Bytes)
pulling = record toy {
  parse_command_line = λ table positional args. (stored_all, map_of (codes "pull"));
  nn_recvmsg = λ fd lens flags h l. next_message h l;
  nn_errno = λ l. pos 11;
}

-- "hi" and "yo" wait, each with a NUL behind it.
abbrev waiting : List Bytes
waiting = (codes "hi" ++ 0 ∷ []) ∷ (codes "yo" ++ 0 ∷ 7 ∷ []) ∷ []

abbrev expecting : World (List Bytes)
expecting = record closed { lib = waiting }

pub pull_asked : Asks (read_options pulling []) pull
unfolding options_of default_options bytes_eq nanomsgpp.Client.Options.Names.type_name
pull_asked = record { named = refl; no_version = refl; no_help = refl; fits = refl }

pub pulling-Accepts : Accepts pulling (pos 3) (λ l. l)
pulling-Accepts = record {
  takes = λ level opt val l. (refl, refl);
  binds = λ addr l. (refl, refl);
  connects = λ addr l. (refl, refl);
  closes = λ l. refl;
}

pub pulling-Inbox : Inbox pulling (pos 3) (λ l. l)
pulling-Inbox = record {
  brings = λ h l m ms e. (ms, ground (arith, e), λ p g. refl);
  ends = λ h l e. ([], ground (arith, e), refl, refl);
}

main-Shows_example :
    Shows pulling
      (read_options pulling [])
      pull
      3
      expecting
      (some (codes "hi" ∷ codes "yo" ∷ []))
      (main pulling 3 [] expecting)
unfolding options_of default_options bytes_eq nanomsgpp.Client.Options.Names.type_name
    nanomsgpp.Client.CommandLine.reads_all nanomsgpp.Client.CommandLine.valued_options
    nanomsgpp.Client.Print.can_print nanomsgpp.Client.Options.get_format
main-Shows_example =
    main-Shows pulling 3 [] pull expecting (λ l. l) refl pull_asked refl toy_malloc toy_frees
      (start-IsHeap []) refl pulling-Accepts pulling-Inbox (omega arith) (omega arith)

-- nanomsg that does not close the socket of the client that pushes.
abbrev refusing : Platform (List Bytes)
refusing = record pushing { nn_close = λ fd l. (minus_one, l) }

main-AtClose_example : AtClose refusing (CastFails refusing [] closed) (main refusing 1 [] closed)
main-AtClose_example = main-AtClose refusing 1 [] closed
