-- ===== src/Client/Safety/Setup.antt =====
-- The set-up of the client's socket leaves the heap, standard input and the descriptors alone.
use nanomsgpp.Prelude.{
  ◌≡◌, ◌∙◌, refl, Bool, true, false, List, [], ◌∷◌, if◌then◌else◌, Bool-cases, inl, inr, ◌==◌,
  arith,
}
use nanomsgpp.Prelude.Int.{ℤ, pos, minus_one, eq_ℤ, fits_int, scale}
use nanomsgpp.Prelude.Bytes.{Bytes}
use nanomsgpp.Platform.{Platform}
use nanomsgpp.World.{World, Ref, Call, Cmd, Exception, pure, throw, ◌>>=◌, sleep_for}
use nanomsgpp.World.Sends.{sends}
use nanomsgpp.World.Calls.{call_lib, throw_internal}
use nanomsgpp.World.Ends.{Ends, Ends-mono, and_then-Ends}
use nanomsgpp.Socket.{
  c_str, set_option_raw, set_option_int, set_option_string, add_endpoint, bind, connect,
}
use nanomsgpp.Client.Options.{Options, get_type, choose_type}
use nanomsgpp.Client.Loops.{
  is_subscribe, subscribe_all, configure_socket, bind_all, connect_all, connect_socket,
}

module _ {S : Type 0} where
  -- The heap, standard input and the descriptors are those from before.
  pub record Kept (w u : World S) : Type 0 where
    pub heap : u.heap ≡ w.heap
    pub stdin : u.stdin ≡ w.stdin
    pub same_sends : sends u.calls ≡ sends w.calls
    pub same_fds : (r : Ref) → (u.sockets r).d_socket ≡ (w.sockets r).d_socket

  -- Returns or throws, and leaves them so.
  pub record IsKept {A : Type 0} (m : Cmd S A) : Type 0 where
    pub at : (w : World S) → Ends (λ _ u. Kept w u) (m w)

  Kept-refl : (w : World S) → Kept w w
  Kept-refl w = record { heap = refl; stdin = refl; same_sends = refl; same_fds = λ r. refl }

  Kept-trans : (w u v : World S) → Kept w u → Kept u v → Kept w v
  Kept-trans w u v a b = record {
    heap = b.heap ∙ a.heap;
    stdin = b.stdin ∙ a.stdin;
    same_sends = b.same_sends ∙ a.same_sends;
    same_fds = λ r. b.same_fds r ∙ a.same_fds r;
  }

  bind-IsKept :
      {A B : Type 0} (m : Cmd S A) (k : A → Cmd S B)
      → IsKept m
      → ((a : A) → IsKept (k a))
      → IsKept (m >>= k)
  bind-IsKept m k h next = record {
    at = λ w.
        and_then-Ends (λ _ u. Kept w u) (λ _ u. Kept w u) (m w) k (h.at w) (λ u kept. kept)
          λ a u kept.
            Ends-mono (λ _ v. Kept u v) (λ _ v. Kept w v) (k a u) ((next a).at u)
              λ r v later. Kept-trans w u v kept later;
  }

  pub pure-IsKept : {A : Type 0} (a : A) → IsKept (pure {S = S} a)
  pure-IsKept a = record { at = Kept-refl }

  throw-IsKept : {A : Type 0} (x : Exception) → IsKept {A = A} (throw {S = S} x)
  throw-IsKept x = record { at = Kept-refl }

  pub if-IsKept :
      {A : Type 0} (b : Bool) (m n : Cmd S A) → IsKept m → IsKept n → IsKept (if b then m else n)
  if-IsKept true m n h k = h
  if-IsKept false m n h k = k

  -- A call of another function than `nn_sendmsg`.
  call_lib-IsKept :
      {A : Type 0} (c : Call) (f : S → A × S)
      → ((cs : List Call) → sends (c ∷ cs) ≡ sends cs)
      → IsKept (call_lib c f)
  unfolding call_lib
  call_lib-IsKept c f other = record {
    at =
        λ w. record { heap = refl; stdin = refl; same_sends = other w.calls; same_fds = λ r. refl };
  }

  pub get_type-IsKept : (ops : Options) → IsKept (get_type {S = S} ops)
  unfolding get_type choose_type
  get_type-IsKept ops = search (if-IsKept, pure-IsKept, throw-IsKept) depth 16

  pub sleep_for-IsKept : (n : ℤ) → IsKept (sleep_for n)
  sleep_for-IsKept n = record {
    at = λ w. record { heap = refl; stdin = refl; same_sends = refl; same_fds = λ r. refl };
  }

module _ {S : Type 0} (nn : Platform S) where
  throw_internal-IsKept : (A : Type 0) → IsKept {A = A} (throw_internal nn)
  unfolding throw_internal
  throw_internal-IsKept A = record { at = Kept-refl }

  module _ (s : Ref) where
    set_option_raw-IsKept :
        (level opt : ℤ) (val : Bytes) → IsKept (set_option_raw nn s level opt val)
    unfolding set_option_raw
    set_option_raw-IsKept level opt val = record {
      at = λ w.
          (bind-IsKept (call_lib _ (nn.nn_setsockopt (w.sockets s).d_socket level opt val)) _
              (call_lib-IsKept _ _ λ cs. refl)
              λ result.
                if-IsKept (eq_ℤ result (pos 0)) _ _ (pure-IsKept tt) (throw_internal-IsKept _)).at
            w;
    }

    subscribe_all-IsKept : (topics : List Bytes) → IsKept (subscribe_all nn s topics)
    unfolding subscribe_all set_option_string
    subscribe_all-IsKept [] = pure-IsKept tt
    subscribe_all-IsKept (topic ∷ topics) =
        bind-IsKept _ _ (set_option_raw-IsKept _ _ topic) λ _. subscribe_all-IsKept topics

    -- Where the send timeout is an `int` in milliseconds.
    pub configure_socket-IsKept :
        (ops : Options)
        → fits_int (scale ops.send_timeout 1000) ≡ true
        → IsKept (configure_socket nn s ops)
    unfolding configure_socket set_option_int
    configure_socket-IsKept ops fits = record {
      at = λ w. rw fits (
          (bind-IsKept _ _ (set_option_raw-IsKept _ _ _) λ _.
              bind-IsKept _ _ (set_option_raw-IsKept _ _ _) λ _.
                bind-IsKept (get_type ops) _ (get_type-IsKept ops) λ type.
                  if-IsKept (is_subscribe type) _ _ (subscribe_all-IsKept ops.subscribe)
                    (pure-IsKept tt)).at
            w);
    }

    add_endpoint-IsKept : (addr : Bytes) (id : ℤ) → IsKept (add_endpoint nn s addr id)
    unfolding add_endpoint
    add_endpoint-IsKept addr id =
        if-IsKept (eq_ℤ minus_one id) _ _ (throw_internal-IsKept _) (record {
          at = λ w. record {
            heap = refl;
            stdin = refl;
            same_sends = refl;
            same_fds = λ r. elim (Bool-cases (r == s)) [
              | inl here ↦ ground arith
              | inr away ↦ ground arith
            ];
          };
        })

    bind_address-IsKept : (addr : Bytes) → IsKept (bind nn s addr)
    unfolding bind
    bind_address-IsKept addr = record {
      at = λ w.
          (bind-IsKept (call_lib _ (nn.nn_bind (w.sockets s).d_socket (c_str addr))) _
              (call_lib-IsKept _ _ λ cs. refl) λ id. add_endpoint-IsKept addr id).at
            w;
    }

    connect-IsKept : (addr : Bytes) → IsKept (connect nn s addr)
    unfolding connect
    connect-IsKept addr = record {
      at = λ w.
          (bind-IsKept (call_lib _ (nn.nn_connect (w.sockets s).d_socket (c_str addr))) _
              (call_lib-IsKept _ _ λ cs. refl) λ id. add_endpoint-IsKept addr id).at
            w;
    }

    bind_all-IsKept : (addrs : List Bytes) → IsKept (bind_all nn s addrs)
    unfolding bind_all
    bind_all-IsKept [] = pure-IsKept tt
    bind_all-IsKept (addr ∷ addrs) =
        bind-IsKept (bind nn s addr) _ (bind_address-IsKept addr) λ _. bind_all-IsKept addrs

    connect_all-IsKept : (addrs : List Bytes) → IsKept (connect_all nn s addrs)
    unfolding connect_all
    connect_all-IsKept [] = pure-IsKept tt
    connect_all-IsKept (addr ∷ addrs) =
        bind-IsKept (connect nn s addr) _ (connect-IsKept addr) λ _. connect_all-IsKept addrs

    pub connect_socket-IsKept : (ops : Options) → IsKept (connect_socket nn s ops)
    unfolding connect_socket
    connect_socket-IsKept ops =
        bind-IsKept (bind_all nn s ops.bind) _ (bind_all-IsKept ops.bind)
          λ _. connect_all-IsKept ops.connect
