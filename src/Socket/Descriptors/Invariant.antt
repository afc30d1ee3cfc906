-- ===== src/Socket/Descriptors/Invariant.antt =====
-- The descriptors that the live objects have stay open, and stay apart.
use nanomsgpp.Platform.{Platform}
use nanomsgpp.World.{World, Ref, Cmd, Outcome}
use nanomsgpp.World.Ends.{Always, Leads}
use nanomsgpp.Socket.Descriptors.{
  Descriptors, fd_of, Owned, Step, Reach, create, adopt, move, shut, bind_to, connect_to, leave,
  set_option, get_option, send, recv, send_message, recv_message, relay, start, later,
}
use nanomsgpp.Socket.Descriptors.Keeps.{same_open, Always-Leads, traced-SameFds}
use nanomsgpp.World.Traces.{IsTraced}
use nanomsgpp.Socket.Traced.{
  set_option_raw-IsTraced, get_option_raw-IsTraced, bind_address-IsTraced, connect-IsTraced,
  shutdown-IsTraced, send_raw-IsTraced, recv_raw-IsTraced, device-IsTraced,
}
use nanomsgpp.Socket.Transfer.Traced.{sendmsg-IsTraced, recvmsg-IsTraced}
use nanomsgpp.Socket.Descriptors.Owning.{
  SameFds-Owned, from_fd-Owned, open_socket-Owned, move_assign-Owned, close-Owned,
}

module _ {S : Type 0} (nn : Platform S) (ds : Descriptors nn) where
  leads :
      {A : Type 0} (o : Outcome S A) (w : World S)
      → Always (Owned nn ds) o
      → Leads o w
      → Owned nn ds w
  leads o w h l = Always-Leads (Owned nn ds) o w h l

  used :
      {A : Type 0} (s : Ref) (m : Cmd S A) (w w' : World S)
      → Owned nn ds w
      → IsTraced nn s (fd_of w s) (same_open nn ds) m
      → Leads (m w) w'
      → Owned nn ds w'
  used s m w w' owned h l = SameFds-Owned nn ds w w' (traced-SameFds nn ds s m w w' h l) owned

  Step-Owned : (w w' : World S) → Owned nn ds w → Step nn ds w w' → Owned nn ds w'
  Step-Owned w w' o (create s d t free l) = leads _ w' (open_socket-Owned nn ds s d t w o) l
  Step-Owned w w' o (adopt s fd free opened new l) =
      leads _ w' (from_fd-Owned nn ds s fd w o opened new) l
  Step-Owned w w' o (move s other l) = leads _ w' (move_assign-Owned nn ds s other w o) l
  Step-Owned w w' o (shut s l) = leads _ w' (close-Owned nn ds s w o) l
  Step-Owned w w' o (bind_to s addr l) =
      used s _ w w' o (bind_address-IsTraced nn s _ (same_open nn ds) addr tt) l
  Step-Owned w w' o (connect_to s addr l) =
      used s _ w w' o (connect-IsTraced nn s _ (same_open nn ds) addr tt) l
  Step-Owned w w' o (leave s addr l) =
      used s _ w w' o (shutdown-IsTraced nn s _ (same_open nn ds) addr λ id. tt) l
  Step-Owned w w' o (set_option s level opt val l) =
      used s _ w w' o (set_option_raw-IsTraced nn s _ (same_open nn ds) level opt val tt) l
  Step-Owned w w' o (get_option s level opt len l) =
      used s _ w w' o (get_option_raw-IsTraced nn s _ (same_open nn ds) level opt len tt) l
  Step-Owned w w' o (send s buf len flags l) =
      used s _ w w' o (send_raw-IsTraced nn s _ (same_open nn ds) buf len flags tt) l
  Step-Owned w w' o (recv s buf len flags l) =
      used s _ w w' o (recv_raw-IsTraced nn s _ (same_open nn ds) buf len flags tt) l
  Step-Owned w w' o (send_message s m dont_wait l) =
      used s _ w w' o (sendmsg-IsTraced nn s _ (same_open nn ds) m dont_wait λ iov flags. tt) l
  Step-Owned w w' o (recv_message s n dont_wait l) =
      used s _ w w' o (recvmsg-IsTraced nn s _ (same_open nn ds) n dont_wait λ lens flags. tt) l
  Step-Owned w w' o (relay s other l) =
      used s _ w w' o (device-IsTraced nn s _ (same_open nn ds) other λ fd'. tt) l

  -- Where nanomsg opens and closes descriptors as its manual says: whatever sequence of these
  -- operations on sockets is run, by values and exceptions alike, each descriptor that a live
  -- object has is open in nanomsg, and no other object has the same, where this was so at the
  -- start.
  pub Reach-Owned : (v w : World S) → Owned nn ds v → Reach nn ds v w → Owned nn ds w
  Reach-Owned v _ o start = o
  Reach-Owned v w o (later {w = u} r step) = Step-Owned u w (Reach-Owned v u o r) step
