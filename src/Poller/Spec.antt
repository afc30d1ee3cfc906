-- ===== src/Poller/Spec.antt =====
-- What a poller promises: for each descriptor a queue of watches, of which the oldest counts.
use Prim.Native.Nat.{bit_and}
use nanomsgpp.Prelude.{
  ℕ, zero, suc, Option, none, some, true, ◌≡◌, refl, inl, inr, Bool, false, List, [], ◌∷◌, ◌++◌,
  ◌==◌, not, if◌then◌else◌, arith, Bool-cases, ap, ◌∙◌,
}
use nanomsgpp.Prelude.Int.{ℤ, pos, negsuc, eq_ℤ}
use nanomsgpp.Platform.{Platform, PollFd}
use nanomsgpp.World.{World, Ref, Outcome, ok, throws, terminated, undefined, running}
use nanomsgpp.Poller.{
  Poller, PollEvent, event_bits, add_socket, remove_socket, has_event, poll, poll_end,
}
use nanomsgpp.Poller.Laws.{entries, rest, first_fires, remove_socket-entries, has_event_fd-entries}

pub record Watch : Type 0 where
  pub wanted : ℕ
  pub seen : ℕ

abbrev pub Table : Type 0
Table = ℤ → List Watch

abbrev watches : List PollFd → List Watch
watches [] = []
watches (p ∷ ps) = record { wanted = p.events; seen = p.revents } ∷ watches ps

-- The table that a poller stands for: the order between different descriptors is forgotten.
abbrev pub table : Poller → Table
table p f = watches (entries f p.d_pollfds)

abbrev pub tail : List Watch → List Watch
tail [] = []
tail (v ∷ vs) = vs

abbrev pub fires : ℕ → List Watch → Bool
fires bits [] = false
fires bits (v ∷ vs) = not (bit_and v.seen bits == 0)

abbrev pub SameWanted : List Watch → List Watch → Type 0
SameWanted [] [] = Unit
SameWanted [] (u ∷ us) = ⊥
SameWanted (v ∷ vs) [] = ⊥
SameWanted (v ∷ vs) (u ∷ us) = (v.wanted ≡ u.wanted) × SameWanted vs us

-- What is asked of the table: a watch of a descriptor is added last in its queue, the oldest leaves
-- the queue, or the library reports on all, and the caller is told so.
pub data Label : Type 0 where
  watch : ℤ → ℕ → Label
  forget : ℤ → Label
  report : List PollFd → ℤ → Option Bool → Label

-- Whether something is ready, by the number that `nn_poll(3)` returns; -1 is an error.
abbrev pub readiness : ℤ → Option Bool
readiness (pos zero) = some false
readiness (pos (suc n)) = some true
readiness (negsuc zero) = none
readiness (negsuc (suc n)) = some false

-- One step of the table. A report asks for nothing else than before, shows for each descriptor just
-- the events that the library gave, and tells the caller whether something is ready.
abbrev pub TableStep : Label → Table → Table → Type 0
TableStep (watch f bits) t u =
    (g : ℤ) → u g ≡ (if eq_ℤ f g then t g ++ record { wanted = bits; seen = 0 } ∷ [] else t g)
TableStep (forget f) t u = (g : ℤ) → u g ≡ (if eq_ℤ f g then tail (t g) else t g)
TableStep (report qs rc told) t u =
    ((g : ℤ) → SameWanted (t g) (u g) × (u g ≡ watches (entries g qs))) × (told ≡ readiness rc)

pub data TableReach : List Label → Table → Table → Type 0 where
  here : {t : Table} → TableReach [] t t
  next :
      {l : Label} {ls : List Label} {t v : Table} (u : Table)
      → TableStep l t u
      → TableReach ls u v
      → TableReach (l ∷ ls) t v

-- A use of a poller.
pub data Act : Type 0 where
  add : Ref → PollEvent → Act
  remove : Ref → Act
  wait : ℤ → Act

abbrev pub InPlace : List PollFd → List PollFd → Type 0
InPlace [] [] = Unit
InPlace [] (q ∷ qs) = ⊥
InPlace (p ∷ ps) [] = ⊥
InPlace (p ∷ ps) (q ∷ qs) = (p.fd ≡ q.fd) × (p.events ≡ q.events) × InPlace ps qs

-- `nn_poll(3)`: `revents` is filled in, `fd` and `events` are left as they are.
abbrev pub PollsInPlace : {S : Type 0} → Platform S → Type 0
PollsInPlace {S} nn =
    (ps : List PollFd) (timeout : ℤ) (l : S) → InPlace ps (nn.nn_poll ps timeout l).1

watches-append :
    (ps : List PollFd) (q : PollFd)
    → watches (ps ++ q ∷ []) ≡ watches ps ++ record { wanted = q.events; seen = q.revents } ∷ []
watches-append [] q = refl
watches-append (p ∷ ps) q =
    ap (◌∷◌ (record { wanted = p.events; seen = p.revents })) (watches-append ps q)

entries-append :
    (g : ℤ) (ps : List PollFd) (q : PollFd)
    → entries g (ps ++ q ∷ []) ≡ (if eq_ℤ q.fd g then entries g ps ++ q ∷ [] else entries g ps)
entries-append g [] q = ground arith
entries-append g (p ∷ ps) q = ground (arith, entries-append g ps q)

watches-rest : (ps : List PollFd) → watches (rest ps) ≡ tail (watches ps)
watches-rest [] = refl
watches-rest (p ∷ ps) = refl

InPlace-SameWanted :
    (g : ℤ) (ps qs : List PollFd)
    → InPlace ps qs
    → SameWanted (watches (entries g ps)) (watches (entries g qs))
InPlace-SameWanted g [] [] h = tt
InPlace-SameWanted g [] (q ∷ qs) h = elim h [ ]
InPlace-SameWanted g (p ∷ ps) [] h = elim h [ ]
InPlace-SameWanted g (p ∷ ps) (q ∷ qs) h = elim (Bool-cases (eq_ℤ p.fd g)) [
  | inl e ↦ rw e (rw (rw h.0 at e) (h.1, InPlace-SameWanted g ps qs h.2))
  | inr e ↦ rw e (rw (rw h.0 at e) (InPlace-SameWanted g ps qs h.2))
]

pub added :
    (g : ℤ) (ps : List PollFd) (q : PollFd)
    → watches (entries g (ps ++ q ∷ [])) ≡ (
        if eq_ℤ q.fd g
        then watches (entries g ps) ++ record { wanted = q.events; seen = q.revents } ∷ []
        else watches (entries g ps))
added g ps q = elim (Bool-cases (eq_ℤ q.fd g)) [
  | inl e ↦ rw (entries-append g ps q) (rw e (watches-append (entries g ps) q))
  | inr e ↦ rw (entries-append g ps q) (rw e refl)
]

pub removed :
    {S : Type 0} (g : ℤ) (p : Poller) (s : Ref) (w : World S)
    → table (remove_socket p s w) g
      ≡ (if eq_ℤ (w.sockets s).d_socket g then tail (table p g) else table p g)
removed g p s w = elim (Bool-cases (eq_ℤ (w.sockets s).d_socket g)) [
  | inl e ↦ rw (remove_socket-entries p s w g) (rw e (watches-rest (entries g p.d_pollfds)))
  | inr e ↦ rw (remove_socket-entries p s w g) (rw e refl)
]

pub first_fires-fires :
    (bits : ℕ) (ps : List PollFd) → first_fires bits ps ≡ fires bits (watches ps)
first_fires-fires bits [] = refl
first_fires-fires bits (p ∷ ps) = refl

module _ {S : Type 0} (nn : Platform S) where
  abbrev after : {A : Type 0} → Outcome S A → World S → World S
  after (ok a u) w = u
  after (throws e u) w = u
  after (terminated u) w = w
  after undefined w = w
  after (running u) w = w

  abbrev act : Act → Poller × World S → Poller × World S
  act (add s e) (p, w) = (add_socket nn.header p s e w, w)
  act (remove s) (p, w) = (remove_socket p s w, w)
  act (wait timeout) (p, w) = ((poll nn p timeout w).0, after (poll nn p timeout w).1 w)

  abbrev pub run : List Act → Poller × World S → Poller × World S
  run [] c = c
  run (a ∷ as') c = run as' (act a c)

  abbrev told : {A : Type 0} → Outcome S A → Option A
  told (ok a u) = some a
  told (throws e u) = none
  told (terminated u) = none
  told undefined = none
  told (running u) = none

  abbrev label : Act → Poller × World S → Label
  label (add s e) (p, w) = watch (w.sockets s).d_socket (event_bits nn.header e)
  label (remove s) (p, w) = forget (w.sockets s).d_socket
  label (wait timeout) (p, w) =
      let r = nn.nn_poll p.d_pollfds timeout w.lib in report r.1 r.0 (told (poll nn p timeout w).1)

  poll_end-readiness : (rc : ℤ) (w : World S) → told (poll_end nn rc w) ≡ readiness rc
  unfolding poll_end
  poll_end-readiness (pos zero) w = refl
  poll_end-readiness (pos (suc n)) w = ground arith
  poll_end-readiness (negsuc zero) w = refl
  poll_end-readiness (negsuc (suc n)) w = ground arith

  abbrev pub labels : List Act → Poller × World S → List Label
  labels [] c = []
  labels (a ∷ as') c = label a c ∷ labels as' (act a c)

  act-TableStep :
      (a : Act) (p : Poller) (w : World S)
      → PollsInPlace nn
      → TableStep (label a (p, w)) (table p) (table (act a (p, w)).0)
  unfolding add_socket poll
  act-TableStep (add s e) p w polls = λ g.
      added g p.d_pollfds
        (record { fd = (w.sockets s).d_socket; events = event_bits nn.header e; revents = 0 })
  act-TableStep (remove s) p w polls = λ g. removed g p s w
  act-TableStep (wait timeout) p w polls =
      let r = nn.nn_poll p.d_pollfds timeout w.lib in
      (
        λ g. (InPlace-SameWanted g p.d_pollfds r.1 (polls p.d_pollfds timeout w.lib), refl),
        poll_end-readiness r.0 (record w { lib = r.2 }),
      )

  run-TableReach :
      (acts : List Act) (p : Poller) (w : World S)
      → PollsInPlace nn
      → TableReach (labels acts (p, w)) (table p) (table (run acts (p, w)).0)
  run-TableReach [] p w polls = here
  run-TableReach (a ∷ as') p w polls =
      next (table (act a (p, w)).0) (act-TableStep a p w polls)
        (run-TableReach as' (act a (p, w)).0 (act a (p, w)).1 polls)

  -- Where `nn_poll` changes `revents` only, any sequence of `add_socket`, `remove_socket` and
  -- `poll` takes the poller's table through just the steps of the specification that the calls ask
  -- for, in their order and whether `poll` throws or not: after a `poll` each watch shows the events
  -- that nanomsg gave for it, and `poll` throws where nanomsg answers -1 and else says whether the
  -- answer is above 0. `has_event` answers afterwards by the oldest watch of the socket's descriptor.
  pub run-refines :
      (acts : List Act) (p : Poller) (w : World S)
      → PollsInPlace nn
      → TableReach (labels acts (p, w)) (table p) (table (run acts (p, w)).0)
        × ((s : Ref) (e : PollEvent)
            → has_event nn.header (run acts (p, w)).0 s e (run acts (p, w)).1
              ≡ fires
                  (event_bits nn.header e)
                  (table (run acts (p, w)).0 ((run acts (p, w)).1.sockets s).d_socket))
  unfolding has_event
  run-refines acts p w polls = (
    run-TableReach acts p w polls,
    λ s e.
        let (p', w') = run acts (p, w) in
        has_event_fd-entries (w'.sockets s).d_socket (event_bits nn.header e) p'.d_pollfds
        ∙ first_fires-fires (event_bits nn.header e) (entries (w'.sockets s).d_socket p'.d_pollfds),
  )
