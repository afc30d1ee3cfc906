-- ===== src/Poller/Laws.antt =====
-- The poller as a table of descriptors, of which the first entry for a descriptor counts.
use Prim.Native.Nat.{bit_and}
use nanomsgpp.Prelude.{
  ℕ, ◌≡◌, refl, inl, inr, Bool, false, List, [], ◌∷◌, ◌==◌, not, if◌then◌else◌, arith, Bool-cases,
}
use nanomsgpp.Prelude.Int.{ℤ, eq_ℤ, eq_ℤ_iff}
use nanomsgpp.Platform.{Platform, PollFd}
use nanomsgpp.World.{World, Ref}
use nanomsgpp.Poller.{
  Poller, PollEvent, event_bits, remove_fd, has_event_fd, remove_socket, has_event, poll,
}

-- The entries of a descriptor, in order.
abbrev pub entries : ℤ → List PollFd → List PollFd
entries f [] = []
entries f (p ∷ ps) = if eq_ℤ p.fd f then p ∷ entries f ps else entries f ps

abbrev pub rest : List PollFd → List PollFd
rest [] = []
rest (p ∷ ps) = ps

entries-remove_fd_self :
    (f : ℤ) (ps : List PollFd) → entries f (remove_fd f ps) ≡ rest (entries f ps)
unfolding remove_fd
entries-remove_fd_self f [] = refl
entries-remove_fd_self f (p ∷ ps) = elim (Bool-cases (eq_ℤ p.fd f)) [
  | inl e ↦ rw e
  | inr e ↦ rw e (rw e (entries-remove_fd_self f ps))
]

entries-remove_fd_ne :
    (f g : ℤ) (ps : List PollFd) → eq_ℤ f g ≡ false → entries g (remove_fd f ps) ≡ entries g ps
unfolding remove_fd
entries-remove_fd_ne f g [] ne = refl
entries-remove_fd_ne f g (p ∷ ps) ne =
    ground (arith, entries-remove_fd_ne f g ps, eq_ℤ_iff p.fd f, eq_ℤ_iff p.fd g, eq_ℤ_iff f g)

abbrev pub first_fires : ℕ → List PollFd → Bool
first_fires bits [] = false
first_fires bits (p ∷ ps) = not (bit_and p.revents bits == 0)

pub has_event_fd-entries :
    (f : ℤ) (bits : ℕ) (ps : List PollFd) → has_event_fd f bits ps ≡ first_fires bits (entries f ps)
unfolding has_event_fd
has_event_fd-entries f bits [] = refl
has_event_fd-entries f bits (p ∷ ps) = ground (arith, has_event_fd-entries f bits ps)

module _ {S : Type 0} where
  -- `remove_socket` takes away the oldest entry of the socket's descriptor and no other: the later
  -- entries of that descriptor stay, and so do all entries of every other descriptor.
  pub remove_socket-entries :
      (p : Poller) (s : Ref) (w : World S) (g : ℤ)
      → entries g (remove_socket p s w).d_pollfds ≡ (
          if eq_ℤ (w.sockets s).d_socket g
          then rest (entries g p.d_pollfds)
          else entries g p.d_pollfds)
  unfolding remove_socket
  remove_socket-entries p s w g = elim (Bool-cases (eq_ℤ (w.sockets s).d_socket g)) [
    | inl e ↦ rw e (
        rw (← (eq_ℤ_iff (w.sockets s).d_socket g).0 e)
          (entries-remove_fd_self (w.sockets s).d_socket p.d_pollfds))
    | inr e ↦ rw e (entries-remove_fd_ne (w.sockets s).d_socket g p.d_pollfds e)
  ]

  -- `has_event` after `poll` reports the `revents` that nanomsg left in the first entry of the
  -- socket's descriptor, and false for a socket that has no entry.
  has_event-poll :
      (nn : Platform S) (p : Poller) (timeout : ℤ) (s : Ref) (e : PollEvent) (w : World S)
      → has_event nn.header (poll nn p timeout w).0 s e w
        ≡ first_fires
            (event_bits nn.header e)
            (entries (w.sockets s).d_socket (nn.nn_poll p.d_pollfds timeout w.lib).1)
  unfolding has_event poll
  has_event-poll nn p timeout s e w = has_event_fd-entries (w.sockets s).d_socket _ _
