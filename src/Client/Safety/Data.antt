-- ===== src/Client/Safety/Data.antt =====
-- The data that the client sends, and the memory of its loop for each type of socket.
use nanomsgpp.Prelude.{
  ℕ, ◌+◌, ◌*◌, ◌≤◌, ap, ◌≡◌, ◌⊎◌, refl, true, false, Bool, [], arith, Bool-cases, inl, inr,
}
use nanomsgpp.Prelude.Int.{ℤ}
use nanomsgpp.Prelude.Bytes.{Bytes, codes, bytes_eq}
use nanomsgpp.Memory.{Block}
use nanomsgpp.Platform.{Platform}
use nanomsgpp.SocketType.{
  SocketType, publish, push, subscribe, pull, bus, pair, surveyor, request, reply, respondent,
}
use nanomsgpp.World.{World, Ref, Socket, Cmd, ok}
use nanomsgpp.Client.Options.{Options, get_data, is_empty, skip_space}
use nanomsgpp.Client.Loops.{recv_loop, rw_loop, send_loop, resp_loop}
use nanomsgpp.Client.Main.{this_socket, if_data, run_loop}
use nanomsgpp.World.Sends.{sends}
use nanomsgpp.Client.Growth.{copy_of}
use nanomsgpp.Client.Safety.{Sound-less, Sound-same}
use nanomsgpp.Client.Safety.Loops.{
  Works, Has, Leaves, receives, send_rounds-Safe, rw_rounds-Safe, resp_rounds-Safe,
}

-- What `get_data` answers, or the empty string, which it answers where standard input has been read
-- already.
abbrev pub IsData : {S : Type 0} → Platform S → Options → World S → Bytes → Type 0
IsData {S} nn ops w p = (p ≡ []) ⊎ ((u : World S) × (get_data nn ops w ≡ ok p u))

-- A client of this type sends.
abbrev pub may_send : SocketType → Bool
may_send subscribe = false
may_send pull = false
may_send _ = true

module _ {S : Type 0} (nn : Platform S) (ops : Options) where
  -- What a read leaves.
  pub record Read (w : World S) : Type 0 where
    pub data_read : Bytes
    pub after : World S
    pub run : get_data nn ops w ≡ ok data_read after
    pub heap : after.heap ≡ w.heap
    pub sockets : after.sockets ≡ w.sockets
    pub calls : after.calls ≡ w.calls
    pub lib : after.lib ≡ w.lib
    pub again : (p : Bytes) → IsData nn ops after p → IsData nn ops w p

  pub get_data-Read : (w : World S) → Read w
  unfolding get_data skip_space
  get_data-Read w = elim (Bool-cases (is_empty ops.payload)) [
    | inl unset ↦ elim (Bool-cases (is_empty ops.file)) [
      | inl nothing ↦ record {
        data_read = [];
        after = w;
        run = rw (unset, nothing) refl;
        heap = refl;
        sockets = refl;
        calls = refl;
        lib = refl;
        again = λ p same. same;
      }
      | inr named ↦ elim (Bool-cases (bytes_eq ops.file (codes "-"))) [
        | inl piped ↦ record {
          data_read = skip_space w.stdin;
          after = record w { stdin = [] };
          run = rw (unset, named, piped) refl;
          heap = refl;
          sockets = refl;
          calls = refl;
          lib = refl;
          again = λ p d. elim d [
            | inl nothing ↦ inl nothing
            | inr (u, answer) ↦ inl (ground (arith, unset, named, piped, answer))
          ];
        }
        | inr path ↦ record {
          data_read = nn.read_file ops.file;
          after = w;
          run = rw (unset, named, path) refl;
          heap = refl;
          sockets = refl;
          calls = refl;
          lib = refl;
          again = λ p same. same;
        }
      ]
    ]
    | inr given ↦ record {
      data_read = ops.payload;
      after = w;
      run = rw given refl;
      heap = refl;
      sockets = refl;
      calls = refl;
      lib = refl;
      again = λ p same. same;
    }
  ]

  -- The data depends on standard input only.
  pub get_data-stdin :
      (w u x : World S) (p : Bytes)
      → u.stdin ≡ w.stdin
      → get_data nn ops u ≡ ok p x
      → (y : World S) × (get_data nn ops w ≡ ok p y)
  unfolding get_data
  get_data-stdin w u x p same answer = elim (Bool-cases (is_empty ops.payload)) [
    | inl unset ↦ elim (Bool-cases (is_empty ops.file)) [
      | inl nothing ↦
          let e : p ≡ [] = ground (arith, unset, nothing, answer) in
          (w, rw (unset, nothing, e) refl)
      | inr named ↦ elim (Bool-cases (bytes_eq ops.file (codes "-"))) [
        | inl piped ↦
            let e : p ≡ skip_space w.stdin = ground (arith, unset, named, piped, answer, same) in
            (record w { stdin = [] }, rw (unset, named, piped, e) refl)
        | inr path ↦
            let e : p ≡ nn.read_file ops.file = ground (arith, unset, named, path, answer) in
            (w, rw (unset, named, path, e) refl)
      ]
    ]
    | inr given ↦ let e : p ≡ ops.payload = ground (arith, given, answer) in (w, rw (given, e) refl)
  ]

  pub IsData-stdin :
      (w u : World S) (p : Bytes) → u.stdin ≡ w.stdin → IsData nn ops u p → IsData nn ops w p
  IsData-stdin w u p same (inl nothing) = inl nothing
  IsData-stdin w u p same (inr (x, answer)) = inr (get_data-stdin w u x p same answer)

module _ {S : Type 0} (nn : Platform S) (fd : ℤ) (works : Works nn fd) (Kind : Block → Type 0)
    (start : World S) (k : ℕ) (ops : Options) where
  abbrev Start : World S → Type 0
  Start w = Has nn fd works Kind start (5 * k) w

  -- The copies of the data are of the kind.
  abbrev Copied : World S → Type 0
  Copied w = (p : Bytes) → IsData nn ops w p → Kind (copy_of p)

  fewer : (n : ℕ) (w : World S) → n ≤ 5 * k → Start w → Has nn fd works Kind start n w
  fewer n w le i = Sound-less this_socket fd Kind start n (5 * k) w le i

  after_read :
      (w : World S) (r : Read nn ops w) (n : ℕ)
      → Has nn fd works Kind start n w
      → Has nn fd works Kind start n r.after
  after_read w r n i =
      Sound-same this_socket fd Kind start n w r.after r.heap
        (ap (λ (f : Ref → Socket). (f this_socket).d_socket) r.sockets) (ap sends r.calls) i

  receiving :
      (w : World S) → Start w → Leaves nn fd works Kind start 0 (recv_loop nn k this_socket ops w)
  receiving w i = receives nn fd works Kind start k 0 ops w (fewer (2 * k + 0) w (omega arith) i)

  send_loop-Safe :
      (w : World S)
      → Copied w
      → Start w
      → Leaves nn fd works Kind start 0 (send_loop nn k this_socket ops w)
  unfolding send_loop
  send_loop-Safe w copied i =
      let r = get_data-Read nn ops w in
      rw r.run (
        send_rounds-Safe nn fd works Kind start k ops r.data_read r.after
          (copied r.data_read (inr (r.after, r.run)))
          (after_read w r (3 * k) (fewer (3 * k) w (omega arith) i)))

  rw_loop-Safe :
      (w : World S)
      → Copied w
      → Start w
      → Leaves nn fd works Kind start 0 (rw_loop nn k this_socket ops w)
  unfolding rw_loop
  rw_loop-Safe w copied i =
      let r = get_data-Read nn ops w in
      rw r.run (
        rw_rounds-Safe nn fd works Kind start k ops r.data_read r.after
          (copied r.data_read (inr (r.after, r.run)))
          (after_read w r (4 * k) (fewer (4 * k) w (omega arith) i)))

  resp_loop-Safe :
      (w : World S)
      → Copied w
      → Start w
      → Leaves nn fd works Kind start 0 (resp_loop nn k this_socket ops w)
  unfolding resp_loop
  resp_loop-Safe w copied i =
      let r = get_data-Read nn ops w in
      rw r.run (
        resp_rounds-Safe nn fd works Kind start k ops r.data_read r.after
          (copied r.data_read (inr (r.after, r.run))) (after_read w r (5 * k) i))

  if_data-Safe :
      (loop : Cmd S (Unit {0}))
      → ((w : World S) → Copied w → Start w → Leaves nn fd works Kind start 0 (loop w))
      → (w : World S) → Copied w
      → Start w
      → Leaves nn fd works Kind start 0 (if_data nn k ops loop w)
  unfolding if_data
  if_data-Safe loop safe w copied i =
      let r = get_data-Read nn ops w in
      let i' = after_read w r (5 * k) i in
      elim (Bool-cases (is_empty r.data_read)) [
        | inl nothing ↦ rw (r.run, nothing) (receiving r.after i')
        | inr something ↦ rw (r.run, something) (safe r.after (λ p d. copied p (r.again p d)) i')
      ]

  -- The loop for a type, where copies of the data are of the kind if the type is one that sends.
  pub run_loop-Safe :
      (t : SocketType) (w : World S)
      → (may_send t ≡ true → Copied w)
      → Start w
      → Leaves nn fd works Kind start 0 (run_loop nn k t ops w)
  unfolding run_loop
  run_loop-Safe publish w copied i = send_loop-Safe w (copied refl) i
  run_loop-Safe push w copied i = send_loop-Safe w (copied refl) i
  run_loop-Safe subscribe w copied i = receiving w i
  run_loop-Safe pull w copied i = receiving w i
  run_loop-Safe bus w copied i = if_data-Safe _ rw_loop-Safe w (copied refl) i
  run_loop-Safe pair w copied i = if_data-Safe _ rw_loop-Safe w (copied refl) i
  run_loop-Safe surveyor w copied i = rw_loop-Safe w (copied refl) i
  run_loop-Safe request w copied i = rw_loop-Safe w (copied refl) i
  run_loop-Safe reply w copied i = if_data-Safe _ resp_loop-Safe w (copied refl) i
  run_loop-Safe respondent w copied i = if_data-Safe _ resp_loop-Safe w (copied refl) i
