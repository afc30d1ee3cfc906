-- ===== src/Tests/Choices.antt =====
-- The theorems on the echo format, on a move of a socket and on the poller, at small inputs.
use nanomsgpp.Prelude.{◌≡◌, ◌≢◌, ◌≤◌, refl, true, [], ◌∷◌, arith}
use nanomsgpp.Prelude.Int.{pos, minus_one}
use nanomsgpp.World.{Ref}
use nanomsgpp.World.Ends.{Ends}
use nanomsgpp.Socket.{move_assign}
use nanomsgpp.Socket.Lifetime.{move_assign-moves}
use nanomsgpp.Poller.{Poller}
use nanomsgpp.Client.Options.{Options, EchoFormat, default_options, get_format}
use nanomsgpp.Client.Options.Names.{wins, rank, get_format-first}
use nanomsgpp.Tests.Toy.{used}

-- Two formats asked for by their flags.
abbrev two_flags : Options
two_flags = record default_options { ascii = true; quoted = true }

get_format-first_example :
    (wins two_flags (get_format two_flags) ≡ true)
    × (rank (get_format two_flags) ≤ rank EchoFormat.quoted)
unfolding nanomsgpp.Prelude.Bytes.bytes_eq default_options
get_format-first_example = get_format-first two_flags EchoFormat.quoted refl

move_assign-moves_example :
    Ends
      (λ _ w'.
        (w'.sockets 1 ≡ used.sockets 0)
        × (w'.sockets 0 ≡ record { d_socket = minus_one; d_endpoints = [] })
        × ((r : Ref) → r ≢ 1 → r ≢ 0 → w'.sockets r ≡ used.sockets r)
        × (w'.calls ≡ used.calls))
      (move_assign 1 0 used)
move_assign-moves_example = move_assign-moves 1 0 used (omega arith)

-- A poller that watches another descriptor.
abbrev other_watched : Poller
other_watched = record { d_pollfds = record { fd = pos 9; events = 1; revents = 0 } ∷ [] }
