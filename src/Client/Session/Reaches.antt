-- ===== src/Client/Session/Reaches.antt =====
-- The client's commands take the session from stage to stage.
use nanomsgpp.Prelude.{ℕ, ◌≡◌, ◌∙◌, refl, false, List, [], ◌∷◌, ◌++◌, if◌then◌else◌, All}
use nanomsgpp.Prelude.Int.{ℤ, minus_one, eq_ℤ}
use nanomsgpp.Platform.{Platform}
use nanomsgpp.World.{
  World, Call, Outcome, Cmd, ok, throws, terminated, undefined, running, pure, ◌>>◌, ◌>>=◌,
  and_then,
}
use nanomsgpp.World.Ends.{Always}
use nanomsgpp.World.Policy.{calls_only}
use nanomsgpp.World.Traces.{Trace, IsTraced}
use nanomsgpp.Client.Options.{Options, get_type}
use nanomsgpp.Client.Loops.{configure_socket, connect_socket, bind_all}
use nanomsgpp.Client.Main.{this_socket, run_loop, run_socket}
use nanomsgpp.Client.Traced.Opening.{
  configure_socket-IsTraced, bind_all-IsTraced, connect_all-IsTraced, get_type-IsTraced,
}
use nanomsgpp.Client.Traced.Talking.{TalkAllowed, sleep_for-IsTraced, run_loop-IsTraced}
use nanomsgpp.Client.Session.{
  Stage, setting, binding, connecting, talking, after, is_closed, AllowedIn, Session, makes,
  goes_on,
}
use nanomsgpp.World.Traces.{bind-IsTraced, pure-IsTraced, if-IsTraced}
use nanomsgpp.World.{sleep_for}

Session-append :
    (fd : ℤ) (before : List Call) (st : Stage) (new cs : List Call)
    → All (AllowedIn fd st) new
    → Session fd before st cs
    → Session fd before st (new ++ cs)
Session-append fd before st [] cs h session = session
Session-append fd before st (c ∷ new) cs h session =
    makes c h.0 (Session-append fd before st new cs h.1 session)

talk_allowed :
    {S : Type 0} (nn : Platform S) (fd : ℤ)
    → TalkAllowed nn fd (calls_only nn (AllowedIn fd talking))
talk_allowed nn fd = record { recvs = λ l f. refl; sends = λ i f. refl; sleeps = λ n. tt }

module _ {S : Type 0} (nn : Platform S) (fd : ℤ) (before : List Call) where
  -- At a stage, with the descriptor still there.
  pub record At (st : Stage) (w : World S) : Type 0 where
    pub session : Session fd before st w.calls
    pub has_fd : (w.sockets this_socket).d_socket ≡ fd

  -- At some stage before the socket is closed.
  abbrev pub Open : World S → Type 0
  Open w = (st : Stage) × (is_closed st ≡ false) × At st w

  At-goes_on : (st : Stage) (w : World S) → At st w → At (after st) w
  At-goes_on st w h = record { session = goes_on h.session; has_fd = h.has_fd }

  -- By a value at this stage, otherwise at some stage before the socket is closed.
  abbrev pub Reaches : {A : Type 0} → Stage → Outcome S A → Type 0
  Reaches st (ok a u) = At st u
  Reaches st (throws e u) = Open u
  Reaches st (terminated u) = Open u
  Reaches st undefined = Unit
  Reaches st (running u) = Open u

  Trace-At :
      (st : Stage) (w u : World S)
      → At st w
      → Trace nn this_socket fd (calls_only nn (AllowedIn fd st)) w u
      → At st u
  Trace-At st w u h t = record {
    session = rw t.added (Session-append fd before st t.new w.calls t.allowed h.session);
    has_fd = t.same_fds this_socket ∙ h.has_fd;
  }

  -- A command that makes only the calls of the stage, and then goes on to the next.
  Trace-Reaches :
      {A : Type 0} (st : Stage) (w : World S) (o : Outcome S A)
      → is_closed st ≡ false
      → At st w
      → Always (Trace nn this_socket fd (calls_only nn (AllowedIn fd st)) w) o
      → Reaches (after st) o
  Trace-Reaches st w (ok a u) still h t = At-goes_on st u (Trace-At st w u h t)
  Trace-Reaches st w (throws e u) still h t = (st, still, Trace-At st w u h t)
  Trace-Reaches st w (terminated u) still h t = (st, still, Trace-At st w u h t)
  Trace-Reaches st w undefined still h t = tt
  Trace-Reaches st w (running u) still h t = (st, still, Trace-At st w u h t)

  traced-Reaches :
      {A : Type 0} (st : Stage) (m : Cmd S A) (w : World S)
      → is_closed st ≡ false
      → IsTraced nn this_socket fd (calls_only nn (AllowedIn fd st)) m
      → At st w
      → Reaches (after st) (m w)
  traced-Reaches st m w still traced h = Trace-Reaches st w (m w) still h (traced.at w h.has_fd)

  and_then-Reaches :
      {A B : Type 0} (st st' : Stage) (o : Outcome S A) (k : A → Cmd S B)
      → Reaches st o
      → ((a : A) (u : World S) → At st u → Reaches st' (k a u))
      → Reaches st' (and_then o k)
  and_then-Reaches st st' (ok a u) k h next = next a u h
  and_then-Reaches st st' (throws e u) k h next = h
  and_then-Reaches st st' (terminated u) k h next = h
  and_then-Reaches st st' undefined k h next = tt
  and_then-Reaches st st' (running u) k h next = h

  pub run_socket-Reaches :
      (k : ℕ) (ops : Options) (w : World S) → At setting w → Reaches talking (run_socket nn k ops w)
  unfolding run_socket connect_socket
  run_socket-Reaches k ops w h =
      let A = calls_only nn (AllowedIn fd talking) in
      and_then-Reaches binding talking (configure_socket nn this_socket ops w) _
        (traced-Reaches setting _ w refl
          (configure_socket-IsTraced nn this_socket fd (calls_only nn (AllowedIn fd setting)) ops
            λ l o v. refl)
          h)
        λ _ w1 h1.
          and_then-Reaches talking talking _ _
            (and_then-Reaches connecting talking (bind_all nn this_socket ops.bind w1) _
              (traced-Reaches binding _ w1 refl
                (bind_all-IsTraced nn this_socket fd (calls_only nn (AllowedIn fd binding)) ops.bind
                  λ a. refl)
                h1)
              λ _ w2 h2.
                traced-Reaches connecting _ w2 refl
                  (connect_all-IsTraced nn this_socket fd (calls_only nn (AllowedIn fd connecting))
                    ops.connect λ a. refl)
                  h2)
            λ _ w3 h3.
              traced-Reaches talking
                ((if eq_ℤ ops.delay minus_one then pure tt else sleep_for ops.delay)
                  >> (get_type ops >>= λ type. run_loop nn k type ops))
                w3 refl
                (bind-IsTraced nn this_socket fd A _ _
                  (if-IsTraced nn this_socket fd A (eq_ℤ ops.delay minus_one) _ _
                    (pure-IsTraced nn this_socket fd A tt)
                    (sleep_for-IsTraced nn this_socket fd A (talk_allowed nn fd) ops.delay))
                  λ _.
                    bind-IsTraced nn this_socket fd A (get_type ops) _
                      (get_type-IsTraced nn this_socket fd A ops)
                      λ type. run_loop-IsTraced nn fd A (talk_allowed nn fd) k type ops)
                h3
