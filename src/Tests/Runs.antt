-- ===== src/Tests/Runs.antt =====
-- The theorems on sequences of operations and on the loops that go on, at small inputs.
use nanomsgpp.Prelude.{
  ◌+◌, ◌≡◌, refl, Bool, true, false, List, [], ◌∷◌, ◌++◌, if◌then◌else◌, arith, length, ltb, inr,
}
use nanomsgpp.Prelude.Int.{ℤ, pos, negsuc, minus_one, eq_ℤ}
use nanomsgpp.Prelude.Bytes.{Bytes, codes}
use nanomsgpp.Memory.{Ptr, allocate, set_block}
use nanomsgpp.Platform.{Platform, PollFd}
use nanomsgpp.SocketType.{sp, pair}
use nanomsgpp.World.{World, Outcome, ok, throws, terminated, undefined, running}
use nanomsgpp.World.Calls.{call_lib, call_heap, malloc, free, check_result}
use nanomsgpp.World.Sends.{sends}
use nanomsgpp.Socket.{open_socket, move_assign, close}
use nanomsgpp.Socket.Descriptors.{
  Descriptors, Owned, Reach, create, move, shut, send_message, start, later,
}
use nanomsgpp.Socket.Descriptors.Invariant.{Reach-Owned}
use nanomsgpp.Socket.Transfer.{sendmsg}
use nanomsgpp.Message.{empty_message, gen_nn_msghdr, use_msghdr, msghdr_free}
use nanomsgpp.Poller.{PollEvent, Poller, event_bits, input, output, has_event}
use nanomsgpp.Poller.Spec.{
  Act, PollsInPlace, InPlace, TableReach, table, labels, run, fires, add, remove, wait, run-refines,
}
use nanomsgpp.World.{Ref}
use nanomsgpp.Client.Options.{Options, default_options}
use nanomsgpp.Client.Loops.{send_rounds}
use nanomsgpp.World.Ends.{Ends}
use nanomsgpp.Client.Growth.{TakesMessages, Kept, send_rounds-Kept}
use nanomsgpp.Tests.Toy
use nanomsgpp.Tests.Toy.{toy, toy_malloc, ready, start-IsHeap}

-- nanomsg where each call of `nn_socket` opens the next descriptor, and no
-- message comes.
abbrev counting : Platform (List Bytes)
counting = record toy {
  nn_socket = λ d t l. (pos (length l), [] ∷ l);
  nn_recvmsg = λ fd lens flags h l. ((minus_one, []), h, l);
}

abbrev opened : List Bytes → ℤ → Bool
opened l (pos n) = ltb n (length l)
opened l (negsuc n) = false

opens :
    (l : List Bytes) (g : ℤ)
    → opened ([] ∷ l) g ≡ (if eq_ℤ (pos (length l)) g then true else opened l g)
opens l (pos n) = ground arith
opens l (negsuc n) = refl

counting-Descriptors : Descriptors counting
counting-Descriptors = record {
  is_open = opened;
  socket_opens = λ d p l. inr (ground arith, opens l);
  close_keeps = λ fd g l ne. refl;
  set_keeps = λ fd level opt val l g. refl;
  get_keeps = λ fd level opt len l g. refl;
  bind_keeps = λ fd addr l g. refl;
  connect_keeps = λ fd addr l g. refl;
  send_keeps = λ fd buf len flags h l g. refl;
  recv_keeps = λ fd buf len flags h l g. refl;
  sendmsg_keeps = λ fd iov flags h l g. refl;
  recvmsg_keeps = λ fd lens flags h l g. refl;
  device_keeps = λ fd fd' l g. refl;
  freemsg_keeps = λ p h l g. refl;
  shutdown_keeps = λ fd id l g. refl;
}

abbrev pub closed : World (List Bytes)
closed = record (Toy.start []) { sockets = λ s. record { d_socket = minus_one; d_endpoints = [] } }

abbrev world_of : {A : Type 0} → Outcome (List Bytes) A → World (List Bytes) → World (List Bytes)
world_of (ok a u) w = u
world_of (throws e u) w = u
world_of (terminated u) w = u
world_of undefined w = w
world_of (running u) w = u

-- A socket is opened, moved into another object, sends a message, and is closed there.
abbrev made : World (List Bytes)
made = world_of (open_socket counting 0 sp pair closed) closed

abbrev moved : World (List Bytes)
moved = world_of (move_assign 1 0 made) made

abbrev used : World (List Bytes)
used = world_of (sendmsg counting 1 empty_message true moved) moved

abbrev shut_down : World (List Bytes)
shut_down = world_of (close counting 1 used) used

closed-Owned : Owned counting counting-Descriptors closed
closed-Owned = record { is_opened = λ r live. ground arith; unique = λ r q ne live. ground arith }

moved-Reach : Reach counting counting-Descriptors closed moved
unfolding open_socket move_assign call_lib
moved-Reach = later (later start (create 0 sp pair refl refl)) (move 1 0 refl)

used-Reach : Reach counting counting-Descriptors closed used
unfolding sendmsg gen_nn_msghdr use_msghdr msghdr_free malloc free check_result call_heap
    open_socket move_assign call_lib empty_message allocate set_block
used-Reach = later moved-Reach (send_message 1 empty_message true refl)

shut_down-Reach : Reach counting counting-Descriptors closed shut_down
unfolding close sendmsg open_socket move_assign call_lib gen_nn_msghdr malloc empty_message
    call_heap msghdr_free free allocate set_block
shut_down-Reach = later used-Reach (shut 1 refl)

Reach-Owned_example : Owned counting counting-Descriptors shut_down
Reach-Owned_example =
    Reach-Owned counting counting-Descriptors closed shut_down closed-Owned shut_down-Reach

ready-InPlace : (ps : List PollFd) → InPlace ps (ready ps)
ready-InPlace [] = tt
ready-InPlace (p ∷ ps) = (refl, refl, ready-InPlace ps)

toy-PollsInPlace : PollsInPlace toy
toy-PollsInPlace ps timeout l = ready-InPlace ps

abbrev empty_poller : Poller
empty_poller = record { d_pollfds = [] }

abbrev acts : List Act
acts = add 0 input ∷ add 0 output ∷ wait (pos 10) ∷ remove 0 ∷ []

abbrev pub at_start : World (List Bytes)
at_start = Toy.start []

run-refines_example :
    TableReach
      (labels toy acts (empty_poller, at_start))
      (table empty_poller)
      (table (run toy acts (empty_poller, at_start)).0)
    × ((s : Ref) (e : PollEvent)
        → has_event toy.header
            (run toy acts (empty_poller, at_start)).0
            s
            e
            (run toy acts (empty_poller, at_start)).1
          ≡ fires (event_bits toy.header e) (
              table
                (run toy acts (empty_poller, at_start)).0
                ((run toy acts (empty_poller, at_start)).1.sockets s).d_socket))
run-refines_example = run-refines toy acts empty_poller at_start toy-PollsInPlace

abbrev pub repeating : Options
repeating = record default_options { payload = codes "ping"; interval = pos 1 }

takes : TakesMessages toy (pos 3)
takes iov flags h l = (refl, refl)

send_rounds-Kept_example :
    (w' : World (List Bytes)) × (ps : List Ptr) × (send_rounds toy 2 0 repeating
        (codes "ping")
        at_start
      ≡ running w')
    × (sends w'.calls ≡ sends at_start.calls + 2)
    × (length ps ≡ 2)
    × Kept (codes "ping") ps at_start.heap w'.heap
send_rounds-Kept_example =
    send_rounds-Kept toy toy_malloc 2 0 repeating (codes "ping") at_start refl takes
      (start-IsHeap [])

-- A socket at work.
abbrev asked : World (List Bytes)
asked = Toy.start ((codes "hi" ++ 0 ∷ []) ∷ [])

abbrev two_addresses : Options
two_addresses = record default_options {
  bind = codes "inproc://a" ∷ [];
  connect = codes "inproc://b" ∷ [];
}
