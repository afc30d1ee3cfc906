-- ===== src/Poller.antt =====
-- poller.hpp and poller.cpp. A method returns the poller that it leaves, also when it throws.
pub mod Laws
pub mod Spec
use Prim.Native.Nat.{bit_and, bit_or}
use nanomsgpp.Prelude.{ℕ, Bool, false, List, [], ◌∷◌, ◌++◌, ◌==◌, if◌then◌else◌, not, length}
use nanomsgpp.Prelude.Int.{ℤ, pos, pos_part, minus_one, eq_ℤ}
use nanomsgpp.Platform.{Platform, Header, PollFd}
use nanomsgpp.World.{World, Ref, Outcome, ok, throws, internal_exception}
use nanomsgpp.World.Calls.{current_error}

pub data PollEvent : Type 0 where
  input output in_out : PollEvent

-- `(short)e`.
unfoldable pub event_bits : Header → PollEvent → ℕ
event_bits h input = h.nn_pollin
event_bits h output = h.nn_pollout
event_bits h in_out = bit_or h.nn_pollin h.nn_pollout

pub record Poller : Type 0 where
  pub d_pollfds : List PollFd

unfoldable pub empty_poller : Poller
empty_poller = record { d_pollfds = [] }

-- The search and `erase` of `remove_socket`: the first entry with the descriptor.
unfoldable pub remove_fd : ℤ → List PollFd → List PollFd
remove_fd f [] = []
remove_fd f (p ∷ ps) = if eq_ℤ p.fd f then ps else p ∷ remove_fd f ps

-- The loop of `has_event`.
unfoldable pub has_event_fd : ℤ → ℕ → List PollFd → Bool
has_event_fd f bits [] = false
has_event_fd f bits (p ∷ ps) =
    if eq_ℤ p.fd f then not (bit_and p.revents bits == 0) else has_event_fd f bits ps

module _ {S : Type 0} where
  unfoldable pub add_socket : Header → Poller → Ref → PollEvent → World S → Poller
  add_socket h p s e w = record {
    d_pollfds =
        p.d_pollfds
        ++ record { fd = (w.sockets s).d_socket; events = event_bits h e; revents = 0 } ∷ [];
  }

  unfoldable pub remove_socket : Poller → Ref → World S → Poller
  remove_socket p s w = record { d_pollfds = remove_fd (w.sockets s).d_socket p.d_pollfds }

  unfoldable pub has_event : Header → Poller → Ref → PollEvent → World S → Bool
  has_event h p s e w = has_event_fd (w.sockets s).d_socket (event_bits h e) p.d_pollfds

module _ {S : Type 0} (nn : Platform S) where
  -- How `poll` ends for a return code.
  unfoldable pub poll_end : ℤ → World S → Outcome S Bool
  unfolding current_error
  poll_end rc w =
      if eq_ℤ minus_one rc
      then throws (internal_exception (current_error nn w.lib)) w
      else ok (not (pos_part rc == 0)) w

  unfoldable pub poll : Poller → ℤ → World S → Poller × Outcome S Bool
  unfolding poll_end
  poll p timeout w = (
    record { d_pollfds = (nn.nn_poll p.d_pollfds timeout w.lib).1 },
    poll_end (nn.nn_poll p.d_pollfds timeout w.lib).0
        (record w { lib = (nn.nn_poll p.d_pollfds timeout w.lib).2 }),
  )
