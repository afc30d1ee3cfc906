-- ===== src/Socket/Descriptors/Keeps.antt =====
-- The operations that use a socket give no object a descriptor and take none.
use nanomsgpp.Prelude.{◌≡◌, refl, ◌∙◌}
use nanomsgpp.Prelude.Int.{ℤ}
use nanomsgpp.Platform.{Platform}
use nanomsgpp.World.{World, Ref, Cmd, Outcome, ok, throws, terminated, undefined, running}
use nanomsgpp.World.Policy.{Policy}
use nanomsgpp.World.Ends.{Always, Leads}
use nanomsgpp.World.Traces.{Trace, IsTraced}
use nanomsgpp.Socket.Descriptors.{Descriptors, fd_of}

pub Always-Leads :
    {S A : Type 0} (P : World S → Type 0) (o : Outcome S A) (w : World S)
    → Always P o
    → Leads o w
    → P w
Always-Leads P (ok a u) w h e = rw (← e) h
Always-Leads P (throws x u) w h e = rw (← e) h
Always-Leads P (terminated u) w h e = elim e [ ]
Always-Leads P undefined w h e = elim e [ ]
Always-Leads P (running u) w h e = elim e [ ]

module _ {S : Type 0} (nn : Platform S) (ds : Descriptors nn) where
  open ds use {is_open}

  -- Any call, and the same descriptors open.
  abbrev pub same_open : Policy nn
  same_open = record {
    Allowed = λ c. Unit;
    Step = λ l m. (g : ℤ) → is_open m g ≡ is_open l g;
    stay = λ l g. refl;
    follow = λ l m n a b g. b g ∙ a g;
    freemsg = ds.freemsg_keeps;
    setsockopt = ds.set_keeps;
    getsockopt = ds.get_keeps;
    bind = ds.bind_keeps;
    connect = ds.connect_keeps;
    shutdown = ds.shutdown_keeps;
    send = ds.send_keeps;
    recv = ds.recv_keeps;
    sendmsg = ds.sendmsg_keeps;
    device = ds.device_keeps;
    recvmsg = ds.recvmsg_keeps;
  }

  -- A world with the same descriptors.
  abbrev pub SameFds : World S → World S → Type 0
  SameFds w w' =
      ((r : Ref) → fd_of w' r ≡ fd_of w r) × ((g : ℤ) → is_open w'.lib g ≡ is_open w.lib g)

  pub traced-SameFds :
      {A : Type 0} (s : Ref) (m : Cmd S A) (w w' : World S)
      → IsTraced nn s (fd_of w s) same_open m
      → Leads (m w) w'
      → SameFds w w'
  traced-SameFds s m w w' traced l =
      let t = Always-Leads (Trace nn s (fd_of w s) same_open w) (m w) w' (traced.at w refl) l in
      (t.same_fds, t.step)
