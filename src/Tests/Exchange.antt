-- ===== src/Tests/Exchange.antt =====
-- Two whole programs, where one sends "ping" to the other.
use nanomsgpp.Prelude.{◌≡◌, refl, sym, ap, ◌∙◌, some, List, [], ◌∷◌, arith}
use nanomsgpp.Prelude.Bytes.{Bytes, codes, bytes_eq}
use nanomsgpp.Memory.{bytes_of}
use nanomsgpp.Memory.Strings.{up_to_nul}
use nanomsgpp.Platform.{Iovec}
use nanomsgpp.SocketType.{push, pull}
use nanomsgpp.World.{World, Call, Outcome, ok, throws, terminated, undefined, running, sendmsg_call}
use nanomsgpp.Client.Options.{default_options, get_data, get_format}
use nanomsgpp.Client.CommandLine.{options_of}
use nanomsgpp.Client.CommandLine.Reading.{read_options}
use nanomsgpp.Client.Main.{exit_success, main}
use nanomsgpp.Client.Payload.{gathered}
use nanomsgpp.Client.Print.Messages.{shown, cons_text}
use nanomsgpp.Client.Accepted.Prints.{Shows}
use nanomsgpp.Client.Accepted.Sends.{main-SendsOnce}
use nanomsgpp.Client.Accepted.Exchange.{Sender, Receiver, CarriesOver, main-main}
use nanomsgpp.Tests.Toy.{toy_frees, toy_malloc, start-IsHeap}
use nanomsgpp.Tests.Runs.{closed}
use nanomsgpp.Tests.Accepted.{
  pushing, push_asked, pushing-Accepts, pulling, pull_asked, pulling-Accepts, pulling-Inbox,
}

bytes_of_injective : (as' bs : Bytes) → bytes_of as' ≡ bytes_of bs → as' ≡ bs
bytes_of_injective [] [] e = refl
bytes_of_injective [] (b ∷ bs) e = absurd (ground (arith, e))
bytes_of_injective (a ∷ as') [] e = absurd (ground (arith, e))
bytes_of_injective (a ∷ as') (b ∷ bs) e =
    let rest = bytes_of_injective as' bs (ground (arith, e)) in ground (arith, e, rest)

-- "ping" waits.
abbrev expecting : World (List Bytes)
expecting = record closed { lib = codes "ping" ∷ [] }

abbrev second_iov : List Call → List Iovec
second_iov (c ∷ sendmsg_call fd iov flags ∷ cs) = iov
second_iov _ = []

abbrev world_of : {A : Type 0} → Outcome (List Bytes) A → World (List Bytes)
world_of (ok a u) = u
world_of (throws e u) = u
world_of (terminated u) = u
world_of undefined = closed
world_of (running u) = u

abbrev value_of : Outcome (List Bytes) Bytes → Bytes
value_of (ok p u) = p
value_of _ = []

data_given : get_data pushing (read_options pushing []) closed ≡ ok (codes "ping") closed
unfolding options_of default_options bytes_eq get_data
data_given = refl

sender : Sender pushing [] push closed
unfolding options_of default_options bytes_eq nanomsgpp.Client.CommandLine.reads_all
    nanomsgpp.Client.CommandLine.valued_options
sender = record {
  typed = refl;
  asks = push_asked;
  sends = refl;
  once = refl;
  works = toy_malloc;
  is_heap = start-IsHeap [];
  live = refl;
  accepts = pushing-Accepts λ l. tt;
  takes = λ iov flags h l. (refl, refl);
}

receiver : Receiver pulling [] pull expecting (λ l. l)
unfolding nanomsgpp.Client.CommandLine.reads_all nanomsgpp.Client.CommandLine.valued_options
    bytes_eq
receiver = record {
  typed = refl;
  asks = pull_asked;
  receives = refl;
  works = toy_malloc;
  frees = toy_frees;
  is_heap = start-IsHeap [];
  room = omega arith;
  live = refl;
  accepts = pulling-Accepts;
  inbox = pulling-Inbox;
}

carries_over : CarriesOver pushing pulling 1 [] push closed pull expecting (λ l. l)
carries_over x iov m run calls holds =
    let (code, y, ran, sent) =
      main-SendsOnce pushing (λ (l : List Bytes). tt) 0 [] push closed sender.typed sender.asks
        sender.sends sender.once sender.works sender.is_heap sender.live sender.accepts
        (λ iov flags h l. refl) in
    let same : x ≡ y = ap world_of (sym run ∙ ran) in
    let one_iov : iov ≡ sent.iov =
      ap second_iov (sym calls ∙ ap (λ (u : World (List Bytes)). u.calls) same ∙ sent.calls) in
    let given : sent.payload ≡ codes "ping" = ap value_of (sym sent.data_read ∙ data_given) in
    let bytes : bytes_of m ≡ bytes_of sent.payload =
      sym holds
      ∙ ap (λ (u : World (List Bytes)). gathered u.heap iov) same
      ∙ ap (λ v. gathered y.heap v) one_iov
      ∙ sent.holds in
    ap (λ b. b ∷ []) (sym (bytes_of_injective m sent.payload bytes ∙ given))

main-main_example :
    (p : Bytes) × (y : World (List Bytes)) × (x : World (List Bytes)) × (get_data pushing
        (read_options pushing [])
        closed
      ≡ ok p y)
    × (main pushing 1 [] closed ≡ ok exit_success x)
    × Shows pulling
        (read_options pulling [])
        pull
        2
        expecting
        (cons_text (shown (get_format (read_options pulling [])) (up_to_nul p)) (some []))
        (main pulling 2 [] expecting)
main-main_example =
    main-main pushing pulling 0 0 [] [] closed expecting (λ l. l) sender receiver carries_over
