-- ===== src/Client/Safety/Loops.antt =====
-- The memory of the client's four loops, by the type of the socket.
use nanomsgpp.Prelude.{
  ℕ, zero, suc, ◌+◌, ◌*◌, ◌≡◌, ◌||◌, refl, true, false, Bool, List, arith, Bool-cases, inl, inr,
  if◌then◌else◌,
}
use nanomsgpp.Prelude.Int.{ℤ, minus_one, eq_ℤ, is_nonneg}
use nanomsgpp.Prelude.Bytes.{Bytes}
use nanomsgpp.Memory.{Block}
use nanomsgpp.Platform.{Platform, Iovec}
use nanomsgpp.World.{World, Outcome, pure, ◌>>◌, InternalException}
use nanomsgpp.Message.Ownership.{FreesChunks}
use nanomsgpp.Message.Header.{MallocWorks}
use nanomsgpp.Socket.Transfer.Sending.{GathersOnly}
use nanomsgpp.Client.Options.{Options}
use nanomsgpp.Client.Loops.{
  receive_and_print, recv_loop, pause, read_rounds, rw_rounds, try_send, send_rounds, resp_again,
  resp_rounds,
}
use nanomsgpp.Client.Main.{this_socket}
use nanomsgpp.Client.Growth.{copy_of}
use nanomsgpp.Client.Safety.{Safe, and_then-Safe, recover-Safe, Sound, Sound-less, Sound-same}
use nanomsgpp.Client.Safety.Receiving.{DeliversText, receive_and_print-Safe, recv_loop-Safe}
use nanomsgpp.Client.Safety.Sending.{try_send-Safe}

-- What the client needs of nanomsg and of `malloc` while it runs on a descriptor: only strings that
-- end in a NUL are delivered, a chunk is freed when asked, a send leaves the heap alone, and the
-- descriptor can be closed.
pub record Works {S : Type 0} (nn : Platform S) (fd : ℤ) : Type 0 where
  pub mallocs : MallocWorks nn
  pub frees : FreesChunks nn
  pub delivers : DeliversText nn fd
  pub gathers : (iov : List Iovec) (flags : ℤ) → GathersOnly nn fd iov flags
  pub closes : (l : S) → eq_ℤ minus_one (nn.nn_close fd l).0 ≡ false

module _ {S : Type 0} (nn : Platform S) (fd : ℤ) (works : Works nn fd) (Kind : Block → Type 0)
    (start : World S) where
  -- There are addresses for `n` blocks more, and the socket has the descriptor.
  abbrev pub Has : ℕ → World S → Type 0
  Has n w = Sound this_socket fd Kind start n w

  -- Ends so, by a value or not.
  abbrev pub Leaves : {A : Type 0} → ℕ → Outcome S A → Type 0
  Leaves n o = Safe (λ _. Has n) (Has n) o

  less : (m n : ℕ) (w : World S) → Has (m + n) w → Has n w
  less m n w i = Sound-less this_socket fd Kind start n (m + n) w (omega arith) i

  none_left : (n : ℕ) (w : World S) → Has n w → Has 0 w
  none_left n w i = Sound-less this_socket fd Kind start 0 n w (omega arith) i

  receive :
      (n : ℕ) (ops : Options) (w : World S)
      → Has (2 + n) w
      → Leaves n (receive_and_print nn this_socket ops w)
  receive n ops w i =
      receive_and_print-Safe nn works.frees works.mallocs this_socket fd Kind start works.delivers n
        ops w i

  try :
      (n : ℕ) (payload : Bytes) (w : World S)
      → Kind (copy_of payload)
      → Has (3 + n) w
      → Leaves n (try_send nn this_socket payload w)
  try n payload w kind i =
      try_send-Safe nn works.mallocs this_socket fd Kind start works.gathers n payload w kind i

  pub receives :
      (k n : ℕ) (ops : Options) (w : World S)
      → Has (2 * k + n) w
      → Leaves n (recv_loop nn k this_socket ops w)
  receives k n ops w i =
      recv_loop-Safe nn works.frees works.mallocs this_socket fd Kind start works.delivers k n ops w
        i

  pub send_rounds-Safe :
      (k : ℕ) (ops : Options) (payload : Bytes) (w : World S)
      → Kind (copy_of payload)
      → Has (3 * k) w
      → Leaves 0 (send_rounds nn k this_socket ops payload w)
  unfolding send_rounds
  send_rounds-Safe zero ops payload w kind i = none_left (3 * 0) w i
  send_rounds-Safe (suc k) ops payload w kind i =
      and_then-Safe (λ _. Has (3 * k)) (λ _. Has 0) (Has (3 * k)) (Has 0)
        (try_send nn this_socket payload w) _
        (try (3 * k) payload w kind
          (Sound-less this_socket fd Kind start (3 + 3 * k) (3 * suc k) w (omega arith) i))
        (none_left (3 * k))
        λ _ u j. elim (Bool-cases (is_nonneg ops.interval)) [
          | inl repeats ↦ rw repeats (
              send_rounds-Safe k ops payload _ kind
                (Sound-same this_socket fd Kind start (3 * k) u _ refl refl refl j))
          | inr once ↦ rw once (none_left (3 * k) u j)
        ]

  pause-Safe :
      (n : ℕ) (ops : Options) (e : InternalException) (w : World S)
      → Has n w
      → Leaves n (pause nn ops e w)
  unfolding pause
  pause-Safe n ops e w i = elim (Bool-cases (eq_ℤ e.d_error nn.eagain)) [
    | inl again ↦ rw again i
    | inr other ↦ elim (Bool-cases (eq_ℤ e.d_error nn.etimedout || eq_ℤ e.d_error nn.efsm)) [
      | inl late ↦ rw (other, late) (Sound-same this_socket fd Kind start n w _ refl refl refl i)
      | inr ignored ↦ rw (other, ignored) i
    ]
  ]

  -- The inner loop does not return.
  read_rounds-Safe :
      (k : ℕ) (ops : Options) (w : World S)
      → Has (2 * k) w
      → Safe (λ _ _. ⊥) (Has 0) (read_rounds nn k this_socket ops w)
  unfolding read_rounds
  read_rounds-Safe zero ops w i = none_left (2 * 0) w i
  read_rounds-Safe (suc k) ops w i =
      let m = 2 * k in
      and_then-Safe (λ _. Has m) (λ _ _. ⊥) (Has m) (Has 0) _ _
        (recover-Safe (λ _. Has m) (Has m) (Has m) (receive_and_print nn this_socket ops w)
          (pause nn ops)
          (receive m ops w
            (Sound-less this_socket fd Kind start (2 + m) (2 * suc k) w (omega arith) i))
          (λ u j. j) λ e u j. pause-Safe m ops e u j)
        (none_left m) λ _ u j. read_rounds-Safe k ops u j

  -- The reads before the inner loop.
  reads-Safe :
      (k n : ℕ) (ops : Options) (w : World S)
      → Has (2 * k + n) w
      → Leaves n ((if is_nonneg ops.interval then pure tt else recv_loop nn k this_socket ops) w)
  reads-Safe k n ops w i = elim (Bool-cases (is_nonneg ops.interval)) [
    | inl repeats ↦ rw repeats (less (2 * k) n w i)
    | inr once ↦ rw once (receives k n ops w i)
  ]

  pub rw_rounds-Safe :
      (k : ℕ) (ops : Options) (payload : Bytes) (w : World S)
      → Kind (copy_of payload)
      → Has (4 * k) w
      → Leaves 0 (rw_rounds nn k this_socket ops payload w)
  unfolding rw_rounds
  rw_rounds-Safe zero ops payload w kind i = none_left (4 * 0) w i
  rw_rounds-Safe (suc k) ops payload w kind i =
      let m = 2 * k in
      and_then-Safe (λ _. Has (m + m)) (λ _. Has 0) (Has (m + m)) (Has 0)
        (try_send nn this_socket payload w) _
        (try (m + m) payload w kind
          (Sound-less this_socket fd Kind start (3 + (m + m)) (4 * suc k) w (omega arith) i))
        (none_left (m + m))
        λ _ u j.
          and_then-Safe (λ _. Has m) (λ _. Has 0) (Has m) (Has 0) _ _ (reads-Safe k m ops u j)
            (none_left m)
            λ _ v j'.
              and_then-Safe (λ _ _. ⊥) (λ _. Has 0) (Has 0) (Has 0)
                (read_rounds nn k this_socket ops v) _ (read_rounds-Safe k ops v j') (λ x g. g)
                λ _ x never. absurd never

  -- The second half of a round of `resp_loop`.
  answer-Safe :
      (came : Bool) (n : ℕ) (payload : Bytes) (w : World S)
      → Kind (copy_of payload)
      → Has (3 + n) w
      → Leaves n ((if came then try_send nn this_socket payload else pure tt) w)
  answer-Safe true n payload w kind i = try n payload w kind i
  answer-Safe false n payload w kind i = less 3 n w i

  pub resp_rounds-Safe :
      (k : ℕ) (ops : Options) (payload : Bytes) (w : World S)
      → Kind (copy_of payload)
      → Has (5 * k) w
      → Leaves 0 (resp_rounds nn k this_socket ops payload w)
  unfolding resp_rounds resp_again
  resp_rounds-Safe zero ops payload w kind i = none_left (5 * 0) w i
  resp_rounds-Safe (suc k) ops payload w kind i =
      let m = 5 * k in
      and_then-Safe (λ _. Has (3 + m)) (λ _. Has 0) (Has (3 + m)) (Has 0) _ _
        (recover-Safe (λ _. Has (3 + m)) (Has (3 + m)) (Has (3 + m))
          ((receive_and_print nn this_socket ops >> pure true) w) (resp_again nn)
          (and_then-Safe (λ _. Has (3 + m)) (λ _. Has (3 + m)) (Has (3 + m)) (Has (3 + m))
            (receive_and_print nn this_socket ops w) _
            (receive (3 + m) ops w
              (Sound-less this_socket fd Kind start (2 + (3 + m)) (5 * suc k) w (omega arith) i))
            (λ u j. j) λ _ u j. j)
          (λ u j. j)
          λ e u j. elim (Bool-cases (eq_ℤ e.d_error nn.eagain)) [
            | inl again ↦ rw again j
            | inr other ↦ rw other j
          ])
        (none_left (3 + m))
        λ came u j.
          and_then-Safe (λ _. Has m) (λ _. Has 0) (Has m) (Has 0) _ _
            (answer-Safe came m payload u kind j) (none_left m)
            λ _ v j'. resp_rounds-Safe k ops payload v kind j'
