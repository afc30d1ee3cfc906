-- ===== src/Tests/Messages.antt =====
-- The theorems on messages and on the client's printing, at small inputs.
use nanomsgpp.Prelude.{
  ℕ, suc, ◌<◌, ◌≡◌, ◌≢◌, refl, Bool, true, false, none, some, Option, List, [], ◌∷◌, ◌++◌, ◌==◌,
  if◌then◌else◌, arith, inl, inr, ◌⊎◌,
}
use nanomsgpp.Prelude.Bytes.{Bytes, codes}
use nanomsgpp.Memory.{null}
use nanomsgpp.World.{World, ok, throws}
use nanomsgpp.SocketType.{SocketType}
use nanomsgpp.Message.{Part, part_assign, message_destroy}
use nanomsgpp.Message.Ownership.{Destroyed, message_destroy-Owns}
use nanomsgpp.Message.Moves.{IsUnique, part_assign-IsUnique}
use nanomsgpp.Client.Options.{Options, EchoFormat, default_options, get_type}
use nanomsgpp.Client.Options.Names.{type_name, type_error, get_type-cases, wins}
use nanomsgpp.Client.Print.{print_message_part}
use nanomsgpp.Client.Print.Quoted.{unquote, unquote-print_message_part}
use nanomsgpp.Client.Print.Msgpack.{unpack, unpack-print_message_part}
use nanomsgpp.Tests.Toy.{toy, toy_frees, start, used, hi, hi-Owns}

message_destroy-Owns_example :
    (w' : World (List Bytes)) × (message_destroy toy hi used ≡ ok tt w')
    × Destroyed hi.d_parts used w'
message_destroy-Owns_example = message_destroy-Owns toy toy_frees hi used hi-Owns

-- Three objects, of which the last holds nothing.
abbrev three : ℕ → Part
three k = record {
  d_msg = if k == 0 then 5 else if k == 1 then 6 else null;
  d_size = 4;
  d_malloc = true;
}

three-IsUnique : IsUnique three
three-IsUnique k l ne live = ground arith

part_assign-IsUnique_example : IsUnique (part_assign three 0 1)
part_assign-IsUnique_example = part_assign-IsUnique three 0 1 three-IsUnique

abbrev sub_options : Options
sub_options = record default_options { type = codes "pub"; quoted = true }

get_type-cases_example :
    ((t : SocketType) × (sub_options.type ≡ type_name t)
      × (get_type sub_options (start []) ≡ ok t (start [])))
    ⊎ (((t : SocketType) → ¬ (sub_options.type ≡ type_name t))
        × (get_type sub_options (start []) ≡ throws type_error (start [])))
get_type-cases_example = get_type-cases sub_options (start [])

asks_quoted : wins sub_options EchoFormat.quoted ≡ true
unfolding nanomsgpp.Prelude.Bytes.bytes_eq default_options
asks_quoted = refl

unquote-print_message_part_example :
    unquote (print_message_part EchoFormat.quoted (34 ∷ 7 ∷ 10 ∷ []) ++ codes "more")
    ≡ some (34 ∷ 7 ∷ 10 ∷ [], codes "more")
unquote-print_message_part_example =
    unquote-print_message_part (34 ∷ 7 ∷ 10 ∷ []) (codes "more")
      (omega arith, (omega arith, (omega arith, tt)))

unpack-print_message_part_example :
    unpack (print_message_part EchoFormat.msgpack (codes "abc") ++ 1 ∷ [])
    ≡ some (codes "abc", 1 ∷ [])
unpack-print_message_part_example = unpack-print_message_part (codes "abc") (1 ∷ []) (omega arith)
