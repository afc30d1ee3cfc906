-- ===== src/Socket/Registry.antt =====
-- The endpoints that a socket remembers, and the options that it sets and gets.
use nanomsgpp.Prelude.{
  ℕ, ◌≡◌, ◌≢◌, refl, none, some, Option, List, ◌∷◌, if◌then◌else◌, arith, Bool-cases, inl, inr, ◌∙◌,
  ap,
}
use nanomsgpp.Prelude.Int.{ℤ, pos, minus_one, eq_ℤ, IsInt}
use nanomsgpp.Prelude.Bytes.{Bytes, bytes_eq}
use nanomsgpp.Platform.{Platform}
use nanomsgpp.SocketType.{SocketOption, option_value}
use nanomsgpp.World.{World, Ref, Socket, Call, ◌>>◌, bind_call, connect_call, shutdown_call}
use nanomsgpp.World.Calls.{call_lib, throw_internal}
use nanomsgpp.World.Ends.{Ends, Ends-mono}
use nanomsgpp.Socket.{
  c_str, add_endpoint, bind, connect, shutdown, endpoint_id, set_option_int, get_option_int,
}
use nanomsgpp.Socket.Endpoints.{find, find-insert_or_assign, insert_or_assign}
use nanomsgpp.Socket.Word.{int_bytes, length-int_bytes, bytes_int-int_bytes}

module _ {S : Type 0} (nn : Platform S) where
  -- The identifier under an address after an endpoint is stored.
  pub endpoint_id-insert_or_assign :
      (addr other : Bytes) (id : ℤ) (m : List (Bytes × ℤ))
      → endpoint_id nn other (insert_or_assign addr id m)
        ≡ (if bytes_eq addr other then id else endpoint_id nn other m)
  unfolding endpoint_id
  endpoint_id-insert_or_assign addr other id m =
      ground (arith, find-insert_or_assign addr other id m)

  -- What a `bind` or `connect` that got the identifier `id` leaves in the world `w'`.
  abbrev pub Added : Ref → Bytes → ℤ → World S → World S → Type 0
  Added s addr id w w' =
      ((other : Bytes)
        → endpoint_id nn other (w'.sockets s).d_endpoints ≡ (
            if eq_ℤ minus_one id
            then endpoint_id nn other (w.sockets s).d_endpoints
            else (if bytes_eq addr other
                then id
                else endpoint_id nn other (w.sockets s).d_endpoints)))
      × ((w'.sockets s).d_socket ≡ (w.sockets s).d_socket)
      × ((r : Ref) → r ≢ s → w'.sockets r ≡ w.sockets r)

  add_endpoint-Added :
      (s : Ref) (addr : Bytes) (id : ℤ) (w : World S)
      → Ends
          (λ r w'. (r ≡ (if eq_ℤ minus_one id then none else some tt)) × Added s addr id w w')
          (add_endpoint nn s addr id w)
  unfolding add_endpoint throw_internal
  add_endpoint-Added s addr id w = elim (Bool-cases (eq_ℤ minus_one id)) [
    | inl refused ↦ rw refused (refl, ((λ other. refl), refl, λ r ne. refl))
    | inr given ↦ rw given (
      refl,
      (
        (λ other.
            ground (arith, endpoint_id-insert_or_assign addr other id (w.sockets s).d_endpoints)),
        ground arith,
        λ r ne. ground arith,
      ),
    )
  ]

  -- `bind` remembers the identifier that nanomsg gives under the address; where nanomsg gives -1,
  -- it throws and remembers nothing. Under every other address, and in every other socket, what is
  -- remembered stays the same.
  bind-Added :
      (s : Ref) (addr : Bytes) (w : World S)
      → let id = (nn.nn_bind (w.sockets s).d_socket (c_str addr) w.lib).0 in
        Ends
          (λ r w'. (r ≡ (if eq_ℤ minus_one id then none else some tt)) × Added s addr id w w')
          (bind nn s addr w)
  unfolding bind call_lib
  bind-Added s addr w =
      let r = nn.nn_bind (w.sockets s).d_socket (c_str addr) w.lib in
      add_endpoint-Added s addr r.0
        (record w { lib = r.1; calls = bind_call (w.sockets s).d_socket (c_str addr) ∷ w.calls })

  -- `connect` remembers the identifier that nanomsg gives under the address; where nanomsg gives
  -- -1, it throws and remembers nothing. Under every other address, and in every other socket, what
  -- is remembered stays the same.
  connect-Added :
      (s : Ref) (addr : Bytes) (w : World S)
      → let id = (nn.nn_connect (w.sockets s).d_socket (c_str addr) w.lib).0 in
        Ends
          (λ r w'. (r ≡ (if eq_ℤ minus_one id then none else some tt)) × Added s addr id w w')
          (connect nn s addr w)
  unfolding connect call_lib
  connect-Added s addr w =
      let r = nn.nn_connect (w.sockets s).d_socket (c_str addr) w.lib in
      add_endpoint-Added s addr r.0
        (record w { lib = r.1; calls = connect_call (w.sockets s).d_socket (c_str addr) ∷ w.calls })

  -- What stands in the map, and -1 for what does not.
  abbrev known_id : Option ℤ → ℤ
  known_id none = minus_one
  known_id (some id) = id

  endpoint_id-known_id :
      (addr : Bytes) (m : List (Bytes × ℤ)) → endpoint_id nn addr m ≡ known_id (find addr m)
  unfolding endpoint_id
  endpoint_id-known_id addr m = found (find addr m)
    where
      found : (o : Option ℤ) → (elim o [ none ↦ minus_one | some id ↦ id ]) ≡ known_id o
      found none = refl
      found (some id) = refl

  -- The call that `shutdown` is to make for an address.
  abbrev shutdown_of : Ref → Bytes → World S → Call
  shutdown_of s addr w =
      shutdown_call (w.sockets s).d_socket (known_id (find addr (w.sockets s).d_endpoints))

  abbrev Shut : Ref → Bytes → World S → Option (Unit {0}) → World S → Type 0
  Shut s addr w r w' = (w'.calls ≡ shutdown_of s addr w ∷ w.calls) × (w'.sockets ≡ w.sockets)

  shutdown_once :
      (s : Ref) (addr : Bytes) (w : World S) → Ends (Shut s addr w) (shutdown nn s addr w)
  unfolding shutdown call_lib throw_internal
  shutdown_once s addr w =
      rw (← endpoint_id-known_id addr (w.sockets s).d_endpoints)
        (elim (Bool-cases (
          eq_ℤ minus_one
            (nn.nn_shutdown (w.sockets s).d_socket (endpoint_id nn addr (w.sockets s).d_endpoints)
              w.lib).0)) [
                | inl refused ↦ rw refused (refl, refl)
                | inr given ↦ rw given (refl, refl)
              ])

  -- The call made and the sockets kept, and the same call made once more by a second `shutdown`.
  abbrev pub ShutTwice : Ref → Bytes → World S → Option (Unit {0}) → World S → Type 0
  ShutTwice s addr w r w' =
      (w'.calls ≡ shutdown_of s addr w ∷ w.calls)
      × (w'.sockets ≡ w.sockets)
      × Ends (λ _ w2. w2.calls ≡ shutdown_of s addr w ∷ w'.calls) (shutdown nn s addr w')

  -- `shutdown` names the identifier that the socket remembers for the address, -1 for an address
  -- that it does not know, and forgets nothing: a second `shutdown` of the address names the same
  -- identifier again.
  pub shutdown-shutdown :
      (s : Ref) (addr : Bytes) (w : World S) → Ends (ShutTwice s addr w) (shutdown nn s addr w)
  shutdown-shutdown s addr w =
      Ends-mono (Shut s addr w) (ShutTwice s addr w) (shutdown nn s addr w) (shutdown_once s addr w)
        λ r w' (made, same). (
          made,
          same,
          Ends-mono (Shut s addr w') (λ _ w2. w2.calls ≡ shutdown_of s addr w ∷ w'.calls)
              (shutdown nn s addr w') (shutdown_once s addr w')
              λ r2 w2 again.
                again.0
                ∙ ap
                    (λ (f : Ref → Socket).
                      shutdown_call (f s).d_socket (known_id (find addr (f s).d_endpoints))
                      ∷ w'.calls)
                    same,
        )

  -- nanomsg takes the option on a descriptor, whatever the value, and returns `stored` of the value
  -- that was given last.
  pub record Remembers (fd level : ℤ) (opt : SocketOption) (len : ℕ) (stored : Bytes → Bytes)
      : Type 0 where
    pub takes :
        (val : Bytes) (l : S)
        → (nn.nn_setsockopt fd level (option_value nn.header opt) val l).0 ≡ pos 0
    pub returns :
        (val : Bytes) (l : S)
        → (l' : S) × (nn.nn_getsockopt fd level
              (option_value nn.header opt)
              len
              (nn.nn_setsockopt fd level (option_value nn.header opt) val l).1
            ≡ ((pos 0, stored val), l'))

  -- `get_option` gives the `int` that `set_option` set just before, where nanomsg takes the option
  -- and returns the bytes that it was given last.
  pub get_option_int-set_option_int :
      (s : Ref) (level : ℤ) (opt : SocketOption) (val : ℤ) (w : World S)
      → IsInt val
      → Remembers (w.sockets s).d_socket level opt 4 (λ v. v)
      → Ends
          (λ v _. v ≡ some val)
          ((set_option_int nn s level opt val >> get_option_int nn s level opt) w)
  unfolding set_option_int get_option_int call_lib
  get_option_int-set_option_int s level opt val w range keeps =
      rw (keeps.takes (int_bytes val) w.lib) (
        rw (keeps.returns (int_bytes val) w.lib).1
          (rw (length-int_bytes val) (ap some (bytes_int-int_bytes val range))))
