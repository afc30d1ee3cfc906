-- ===== src/Tests/Peers.antt =====
-- Two clients, one of which sends to the other.
use nanomsgpp.Memory.Strings.{HasNoNul, Splits}
use nanomsgpp.Client.Print.{can_print, print_message_part}
use nanomsgpp.Prelude.{
  false, ◌⊎◌, none, ◌++◌, if◌then◌else◌, ◌==◌, ◌≡◌, ◌∙◌, refl, sym, ap, true, List, [], ◌∷◌,
}
use nanomsgpp.Prelude.Bytes.{Bytes}
use nanomsgpp.Memory.{Ptr, Cell, by_nn, bytes_of, allocate}
use nanomsgpp.Platform.{Iovec}
use nanomsgpp.World.{World, Call, Outcome, ok, throws, terminated, undefined, running, sendmsg_call}
use nanomsgpp.World.Ends.{Leads, Ends-Leads}
use nanomsgpp.Socket.Transfer.{flags_of}
use nanomsgpp.Client.Options.{default_options, get_format}
use nanomsgpp.Client.Loops.{send_data, receive_and_print}
use nanomsgpp.Client.Payload.{gathered, Hands, send_data-Hands}
use nanomsgpp.Client.Peers.{Carries, send_data-receive_and_print}
use nanomsgpp.Tests.Clients.{delivered, delivered-Delivers}
use nanomsgpp.Tests.Toy.{toy, toy_frees, toy_malloc, start, start-IsHeap}

abbrev sender : World (List Bytes)
sender = start []

abbrev iov_of : List Call → List Iovec
iov_of (sendmsg_call fd iov flags ∷ cs) = iov
iov_of _ = []

abbrev handed : World (List Bytes) → List Cell
handed u = gathered u.heap (iov_of u.calls)

Leads-unique : {S A : Type 0} (o : Outcome S A) (u v : World S) → Leads o u → Leads o v → u ≡ v
Leads-unique (ok a w) u v h k = sym h ∙ k
Leads-unique (throws e w) u v h k = sym h ∙ k
Leads-unique (terminated w) u v h k = elim h [ ]
Leads-unique undefined u v h k = elim h [ ]
Leads-unique (running w) u v h k = elim h [ ]

-- the data, with a NUL before the last letter
abbrev sent : Bytes
sent = 104 ∷ 105 ∷ 0 ∷ 33 ∷ []

carried :
    (iov : List Iovec) (u : World (List Bytes))
    → Leads (send_data toy 0 sent sender) u
    → u.calls ≡ sendmsg_call (sender.sockets 0).d_socket iov (flags_of toy true) ∷ sender.calls
    → gathered u.heap iov ≡ bytes_of sent
carried iov u leads called =
    let (r, v, leads', (iov', called', holds)) =
      Ends-Leads (Hands toy 0 sent sender) (send_data toy 0 sent sender)
        (send_data-Hands toy 0 sent sender toy_malloc (start-IsHeap []) λ iov h l. refl) in
    ap (λ vs. gathered u.heap vs) (sym (ap iov_of called))
    ∙ ap handed (Leads-unique (send_data toy 0 sent sender) u v leads leads')
    ∙ ap (λ vs. gathered v.heap vs) (ap iov_of called')
    ∙ holds

carries :
    Carries toy toy 0 sent sender 0
      (delivered sent)
      1
      (allocate by_nn (bytes_of sent) (delivered sent).heap)
      []
carries iov u leads called = rw (carried iov u leads called) (delivered-Delivers sent)

send_data-receive_and_print_example :
    ((HasNoNul sent
        ⊎ ((text more : Bytes) × Splits sent text more
            × (can_print (get_format default_options) text ≡ false)))
      × (receive_and_print toy 0 default_options (delivered sent) ≡ undefined))
    ⊎ ((text more : Bytes) × (v' : World (List Bytes)) × Splits sent text more
        × (receive_and_print toy 0 default_options (delivered sent) ≡ ok tt v')
        × (v'.out ≡ (delivered sent).out ++ print_message_part (get_format default_options) text)
        × ((a : Ptr)
            → v'.heap.block a ≡ (
                if a == 1
                then none
                else (allocate by_nn (bytes_of sent) (delivered sent).heap).block a)))
send_data-receive_and_print_example =
    send_data-receive_and_print toy toy 0 sent sender 0 default_options (delivered sent) 1
      (allocate by_nn (bytes_of sent) (delivered sent).heap) [] toy_malloc (start-IsHeap [])
      (λ iov h l. refl) toy_frees refl carries
