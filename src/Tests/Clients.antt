-- ===== src/Tests/Clients.antt =====
-- The theorems on the client, at small inputs.
use nanomsgpp.Prelude.{inl, false, some, ℕ, ◌<◌, ◌≡◌, ◌-◌, ◌^◌, refl, true, List, [], ◌∷◌, arith}
use nanomsgpp.Prelude.Int.{pos, minus_one, is_nonneg, scale}
use nanomsgpp.Prelude.Bytes.{Bytes, codes}
use nanomsgpp.Memory.{by_nn, bytes_of, allocate}
use nanomsgpp.World.{World, ok, throws, internal_exception, recvmsg_call, setsockopt_call, and_then}
use nanomsgpp.World.Calls.{current_error, call_heap, throw_internal}
use nanomsgpp.World.Posts.{Unfinished, OneSend}
use nanomsgpp.Socket.Transfer.{
  flags_of, recvmsg, receive, make_buffers, buffer_size, finish_receive, store_all,
}
use nanomsgpp.Socket.Transfer.Receiving.{Delivers}
use nanomsgpp.Client.Options.{Options, default_options, get_data, is_empty, skip_space}
use nanomsgpp.Client.Options.Names.{type_name}
use nanomsgpp.SocketType.{pair, bus, reply, respondent, subscribe}
use nanomsgpp.Socket.Word.{int_bytes}
use nanomsgpp.World.Ends.{Ends, Always}
use nanomsgpp.Client.Usage.{ShowsUsage, main-ShowsUsage}
use nanomsgpp.Client.Input.{run_loop_piped}
use nanomsgpp.Client.Setup.{TakesOptions, subscriptions, configure_socket-subscriptions}
use nanomsgpp.Client.Loops.{
  receive_and_print, recv_loop, rw_loop, send_loop, try_send, rw_rounds, resp_rounds,
  configure_socket,
}
use nanomsgpp.Client.Main.{main, run_loop}
use nanomsgpp.Client.Rounds.{rw_loop-Unfinished, send_loop_once}
use nanomsgpp.Client.Draining.{Drains, ended, recv_loop_sound, recv_loop_complete}
use nanomsgpp.Tests.Toy.{toy, start}

-- A closed socket, and a client of a pair.
abbrev closed : World (List Bytes)
closed = record (start []) { sockets = λ s. record { d_socket = minus_one; d_endpoints = [] } }

abbrev pair_options : Options
pair_options = record default_options {
  type = codes "pair";
  payload = codes "ping";
  interval = pos 1;
  connect = codes "inproc://a" ∷ [];
}

rw_loop-Unfinished_example :
    Unfinished (OneSend (start [])) (rw_loop toy 5 0 pair_options (start []))
rw_loop-Unfinished_example = rw_loop-Unfinished toy 5 0 pair_options (start [])

abbrev drained : World (List Bytes)
drained = record (start []) { calls = recvmsg_call (pos 3) ((2 ^ 64 - 1) ∷ []) (pos 1) ∷ [] }

nothing_comes :
    receive_and_print toy 0 pair_options (start [])
    ≡ throws (internal_exception (current_error toy [])) drained
unfolding receive_and_print recvmsg receive call_heap make_buffers buffer_size throw_internal
    finish_receive flags_of store_all
nothing_comes = refl

timed_out : Drains toy 0 pair_options 0 (start []) drained
unfolding current_error
timed_out = ended (current_error toy []) nothing_comes refl refl

recv_loop_complete_example : recv_loop toy 3 0 pair_options (start []) ≡ ok tt drained
recv_loop_complete_example =
    recv_loop_complete toy 0 pair_options 3 (start []) drained (omega arith) timed_out

recv_loop_returns : recv_loop toy 1 0 pair_options (start []) ≡ ok tt drained
recv_loop_returns =
    recv_loop_complete toy 0 pair_options 1 (start []) drained (omega arith) timed_out

recv_loop_sound_example : (n : ℕ) × (n < 1) × Drains toy 0 pair_options n (start []) drained
recv_loop_sound_example = recv_loop_sound toy 0 pair_options 1 (start []) drained recv_loop_returns

-- A chunk at the first address, with a text and a NUL behind it, and the same without the NUL.
abbrev pub delivered : Bytes → World (List Bytes)
delivered bs = start (bs ∷ [])

pub delivered-Delivers :
    (bs : Bytes)
    → Delivers toy
        (pos 3)
        (flags_of toy true)
        (delivered bs)
        1
        (bytes_of bs)
        (allocate by_nn (bytes_of bs) (delivered bs).heap)
        []
unfolding allocate
delivered-Delivers bs = record {
  answer = refl;
  small = omega arith;
  is_heap = record { next_pos = omega arith; null_free = refl; above_free = λ p le. ground arith };
  has_chunk = refl;
}

abbrev push_options : Options
push_options = record default_options { type = codes "push"; payload = codes "ping" }

no_interval : is_nonneg push_options.interval ≡ false
unfolding default_options
no_interval = refl

send_loop_once_example :
    (send_loop toy 4 0 push_options (start [])
      ≡ and_then (get_data toy push_options (start [])) (try_send toy 0))
    × Always (OneSend (start [])) (send_loop toy 4 0 push_options (start []))
send_loop_once_example = send_loop_once toy 3 0 push_options (start []) no_interval

abbrev piped_options : Options
piped_options = record default_options { type = codes "pair"; payload = []; file = codes "-" }

something : is_empty (skip_space (start []).stdin) ≡ false
unfolding skip_space
something = refl

run_loop_piped_example :
    (run_loop toy 3 pair piped_options (start [])
      ≡ rw_rounds toy 3 0 piped_options [] (record (start []) { stdin = [] }))
    × (run_loop toy 3 bus piped_options (start [])
        ≡ rw_rounds toy 3 0 piped_options [] (record (start []) { stdin = [] }))
    × (run_loop toy 3 reply piped_options (start [])
        ≡ resp_rounds toy 3 0 piped_options [] (record (start []) { stdin = [] }))
    × (run_loop toy 3 respondent piped_options (start [])
        ≡ resp_rounds toy 3 0 piped_options [] (record (start []) { stdin = [] }))
run_loop_piped_example = run_loop_piped toy 3 piped_options (start []) refl refl something

toy_takes : TakesOptions toy
toy_takes fd level opt val l = refl

abbrev sub_options : Options
sub_options = record default_options {
  type = codes "sub";
  subscribe = codes "a" ∷ [];
  send_timeout = pos 2;
}

named : sub_options.type ≡ type_name subscribe
unfolding type_name
named = refl

configure_socket-subscriptions_example :
    Ends
      (λ r w'.
        (r ≡ some tt)
        × (w'.calls
            ≡ subscriptions toy (pos 3) (codes "a" ∷ []) (
                setsockopt_call (pos 3) (pos 0) (pos 5) (int_bytes sub_options.recv_timeout)
                ∷ setsockopt_call (pos 3) (pos 0) (pos 4) (int_bytes (scale (pos 2) 1000))
                ∷ []))
        × (w'.sockets ≡ (start []).sockets))
      (configure_socket toy 0 sub_options (start []))
configure_socket-subscriptions_example =
    configure_socket-subscriptions toy 0 sub_options subscribe (start []) toy_takes refl named

main-ShowsUsage_example : Ends (ShowsUsage toy (start [])) (main toy 3 [] (start []))
unfolding nanomsgpp.Client.CommandLine.reads_all nanomsgpp.Client.CommandLine.valued_options
main-ShowsUsage_example = main-ShowsUsage toy 3 [] (start []) refl (inl refl) refl
