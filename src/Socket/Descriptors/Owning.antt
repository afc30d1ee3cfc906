-- ===== src/Socket/Descriptors/Owning.antt =====
-- The operations that make, move and close sockets keep the descriptors open and apart.
use nanomsgpp.Prelude.{
  ◌≡◌, refl, Bool-cases, inl, inr, false, true, ◌==◌, if◌then◌else◌, ◌∷◌, [], arith,
}
use nanomsgpp.Prelude.Int.{
  ℤ, minus_one, eq_ℤ, is_nonneg, eq_ℤ_iff, eq_ℤ_refl, eq_ℤ_comm, eq_ℤ-is_nonneg,
}
use nanomsgpp.Platform.{Platform}
use nanomsgpp.SocketType.{SocketDomain, SocketType, domain_value, type_value}
use nanomsgpp.World.{World, Ref, socket_call, close_call}
use nanomsgpp.World.Calls.{call_lib, throw_internal}
use nanomsgpp.World.Ends.{Always}
use nanomsgpp.Socket.{from_fd, move_assign, open_socket, close}
use nanomsgpp.Socket.Descriptors.{Descriptors, fd_of, is_live, Owned}
use nanomsgpp.Socket.Descriptors.Keeps.{SameFds}

module _ {S : Type 0} (nn : Platform S) (ds : Descriptors nn) where
  open ds use {is_open}

  pub SameFds-Owned : (w w' : World S) → SameFds nn ds w w' → Owned nn ds w → Owned nn ds w'
  SameFds-Owned w w' same o = record {
    is_opened = λ r live. ground (arith, same.0 r, same.1 (fd_of w r), o.is_opened r);
    unique = λ r q ne live. ground (arith, same.0 r, same.0 q, o.unique r q);
  }

  -- The object `s` has a new descriptor or none, and those of the other objects are still open.
  given-Owned :
      (w w' : World S) (s : Ref) (fd : ℤ)
      → Owned nn ds w
      → ((r : Ref) → fd_of w' r ≡ (if r == s then fd else fd_of w r))
      → (is_nonneg fd ≡ true → is_open w'.lib fd ≡ true)
      → ((r : Ref)
          → (r == s) ≡ false
          → is_live w r ≡ true
          → is_nonneg fd ≡ true
          → eq_ℤ (fd_of w r) fd ≡ false)
      → ((r : Ref) → (r == s) ≡ false → is_live w r ≡ true → is_open w'.lib (fd_of w r) ≡ true)
      → Owned nn ds w'
  given-Owned w w' s fd o fds opened new kept = record {
    is_opened = λ r live. elim (Bool-cases (r == s)) [
      | inl at ↦ ground (arith, fds r)
      | inr away ↦ ground (arith, fds r, kept r)
    ];
    unique = λ r q ne live. elim (Bool-cases (r == s)) [
      | inl at ↦ elim (Bool-cases (q == s)) [
        | inl too ↦ ground arith
        | inr away ↦ elim (Bool-cases (is_live w q)) [
          | inl alive ↦ ground (arith, fds r, fds q, new q, eq_ℤ_comm fd (fd_of w q))
          | inr dead ↦ ground (arith, fds r, fds q, eq_ℤ-is_nonneg fd (fd_of w q))
        ]
      ]
      | inr away ↦ elim (Bool-cases (q == s)) [
        | inl at ↦ elim (Bool-cases (is_nonneg fd)) [
          | inl alive ↦ ground (arith, fds r, fds q, new r)
          | inr dead ↦ ground (arith, fds r, fds q, eq_ℤ-is_nonneg (fd_of w r) fd)
        ]
        | inr too ↦ ground (arith, fds r, fds q, o.unique r q)
      ]
    ];
  }

  pub from_fd-Owned :
      (s : Ref) (fd : ℤ) (w : World S)
      → Owned nn ds w
      → is_open w.lib fd ≡ true
      → ((r : Ref) → eq_ℤ (fd_of w r) fd ≡ false)
      → Always (Owned nn ds) (from_fd s fd w)
  unfolding from_fd
  from_fd-Owned s fd w o opened new =
      given-Owned w
        (record w {
          sockets = λ q. if q == s then record { d_socket = fd; d_endpoints = [] } else w.sockets q;
        })
        s fd o (λ r. ground arith) (λ live. opened) (λ r ne alive live. new r)
        (λ r ne alive. o.is_opened r alive)

  pub open_socket-Owned :
      (s : Ref) (d : SocketDomain) (t : SocketType) (w : World S)
      → Owned nn ds w
      → Always (Owned nn ds) (open_socket nn s d t w)
  unfolding open_socket domain_value type_value call_lib
  open_socket-Owned s d t w o =
      let domain = domain_value nn.header d in
      let type = type_value nn.header t in
      let r = nn.nn_socket domain type w.lib in
      let w' = record w {
        lib = r.1;
        sockets = λ q. if q == s then record { d_socket = r.0; d_endpoints = [] } else w.sockets q;
        calls = socket_call domain type ∷ w.calls;
      } in
      elim (ds.socket_opens domain type w.lib) [
        | inl (failed, keeps) ↦
            given-Owned w w' s r.0 o (λ q. ground arith) (λ live. ground arith)
              (λ q ne alive live. ground arith)
              (λ q ne alive. ground (arith, keeps (fd_of w q), o.is_opened q))
        | inr (fresh, opens) ↦
            given-Owned w w' s r.0 o (λ q. ground arith)
              (λ live. ground (arith, opens r.0, eq_ℤ_refl r.0))
              (λ q ne alive live. elim (Bool-cases (eq_ℤ (fd_of w q) r.0)) [
                | inl same ↦ ground (arith, o.is_opened q alive, (eq_ℤ_iff (fd_of w q) r.0).0 same)
                | inr other ↦ other
              ])
              (λ q ne alive. ground (arith, opens (fd_of w q), o.is_opened q))
      ]

  -- The object `s` has the descriptor that `other` had, and `other` has none.
  moved-Owned :
      (w w' : World S) (s other : Ref)
      → Owned nn ds w
      → ((r : Ref)
          → fd_of w' r
            ≡ (if r == other then minus_one else if r == s then fd_of w other else fd_of w r))
      → ((g : ℤ) → is_open w'.lib g ≡ is_open w.lib g)
      → Owned nn ds w'
  moved-Owned w w' s other o fds same =
      let left = record w {
        sockets = λ q.
            if q == other then record { d_socket = minus_one; d_endpoints = [] } else w.sockets q;
      } in
      let emptied =
        given-Owned w left other minus_one o (λ r. ground arith) (λ live. ground arith)
          (λ r ne alive live. ground arith) (λ r ne alive. o.is_opened r alive) in
      elim (Bool-cases (s == other)) [
        | inl self ↦
            given-Owned w w' other minus_one o (λ r. ground (arith, fds r)) (λ live. ground arith)
              (λ r ne alive live. ground arith)
              (λ r ne alive. ground (arith, same (fd_of w r), o.is_opened r))
        | inr two ↦
            given-Owned left w' s (fd_of w other) emptied (λ r. ground (arith, fds r))
              (λ live. ground (arith, same (fd_of w other), o.is_opened other))
              (λ r ne alive live. ground (arith, o.unique r other))
              (λ r ne alive. ground (arith, same (fd_of w r), o.is_opened r))
      ]

  pub move_assign-Owned :
      (s other : Ref) (w : World S) → Owned nn ds w → Always (Owned nn ds) (move_assign s other w)
  unfolding move_assign
  move_assign-Owned s other w o = moved-Owned w _ s other o (λ r. ground arith) (λ g. refl)

  pub close-Owned : (s : Ref) (w : World S) → Owned nn ds w → Always (Owned nn ds) (close nn s w)
  unfolding close call_lib throw_internal
  close-Owned s w o = elim (Bool-cases (is_live w s)) [
    | inl live ↦
        let fd = fd_of w s in
        let w' = record w {
          lib = (nn.nn_close fd w.lib).1;
          sockets =
              λ q. if q == s then record (w.sockets s) { d_socket = minus_one } else w.sockets q;
          calls = close_call fd ∷ w.calls;
        } in
        let closed : Owned nn ds w' =
          given-Owned w w' s minus_one o (λ r. ground arith) (λ l. ground arith)
            (λ r ne alive l. ground arith)
            (λ r ne alive.
              ground (arith, ds.close_keeps fd (fd_of w r) w.lib, o.is_opened r, o.unique s r)) in
        elim (Bool-cases (eq_ℤ minus_one (nn.nn_close fd w.lib).0)) [
          | inl refused ↦ rw (live, refused) closed
          | inr done ↦ rw (live, done) closed
        ]
    | inr dead ↦ rw dead o
  ]
