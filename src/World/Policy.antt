-- ===== src/World/Policy.antt =====
-- What a set of commands may do: the calls that it may make, and what its steps may change of
-- nanomsg's own state.
use nanomsgpp.Prelude.{ℕ, List}
use nanomsgpp.Prelude.Int.{ℤ}
use nanomsgpp.Prelude.Bytes.{Bytes}
use nanomsgpp.Memory.{Ptr, Heap}
use nanomsgpp.Platform.{Platform, Iovec}
use nanomsgpp.World.{Call}

-- `Step` is a preorder on nanomsg's states, and each function that uses a socket or frees a chunk
-- makes a step.
pub record Policy {S : Type 0} (nn : Platform S) : Type 1 where
  pub Allowed : Call → Type 0
  pub Step : S → S → Type 0
  pub stay : (l : S) → Step l l
  pub follow : (l m n : S) → Step l m → Step m n → Step l n
  pub freemsg : (p : Ptr) (h : Heap) (l : S) → Step l (nn.nn_freemsg p h l).2
  pub setsockopt :
      (fd level opt : ℤ) (val : Bytes) (l : S) → Step l (nn.nn_setsockopt fd level opt val l).1
  pub getsockopt :
      (fd level opt : ℤ) (len : ℕ) (l : S) → Step l (nn.nn_getsockopt fd level opt len l).1
  pub bind : (fd : ℤ) (addr : Bytes) (l : S) → Step l (nn.nn_bind fd addr l).1
  pub connect : (fd : ℤ) (addr : Bytes) (l : S) → Step l (nn.nn_connect fd addr l).1
  pub shutdown : (fd id : ℤ) (l : S) → Step l (nn.nn_shutdown fd id l).1
  pub send :
      (fd : ℤ) (buf : Ptr) (len : ℕ) (flags : ℤ) (h : Heap) (l : S)
      → Step l (nn.nn_send fd buf len flags h l).2
  pub recv :
      (fd : ℤ) (buf : Ptr) (len : ℕ) (flags : ℤ) (h : Heap) (l : S)
      → Step l (nn.nn_recv fd buf len flags h l).2
  pub sendmsg :
      (fd : ℤ) (iov : List Iovec) (flags : ℤ) (h : Heap) (l : S)
      → Step l (nn.nn_sendmsg fd iov flags h l).2
  pub device : (fd fd' : ℤ) (l : S) → Step l (nn.nn_device fd fd' l).1
  pub recvmsg :
      (fd : ℤ) (lens : List ℕ) (flags : ℤ) (h : Heap) (l : S)
      → Step l (nn.nn_recvmsg fd lens flags h l).2

-- Only the calls are restricted.
abbrev pub calls_only : {S : Type 0} (nn : Platform S) → (Call → Type 0) → Policy nn
calls_only nn Kind = record {
  Allowed = Kind;
  Step = λ l m. Unit;
  stay = λ l. tt;
  follow = λ l m n a b. tt;
  freemsg = λ p h l. tt;
  setsockopt = λ fd level opt val l. tt;
  getsockopt = λ fd level opt len l. tt;
  bind = λ fd addr l. tt;
  connect = λ fd addr l. tt;
  shutdown = λ fd id l. tt;
  send = λ fd buf len flags h l. tt;
  recv = λ fd buf len flags h l. tt;
  device = λ fd fd' l. tt;
  sendmsg = λ fd iov flags h l. tt;
  recvmsg = λ fd lens flags h l. tt;
}
