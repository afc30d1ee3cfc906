-- ===== src/Platform.antt =====
-- What the code calls and the repository does not hold: the constants of nanomsg's headers, the
-- functions of nanomsg over a state of their own, `malloc`'s choice to fail, boost's parser and
-- printer of options, the files that the client reads, and where a string keeps its bytes.
use nanomsgpp.Prelude.{ℕ, Bool, List}
use nanomsgpp.Prelude.Int.{ℤ}
use nanomsgpp.Prelude.Bytes.{Bytes}
use nanomsgpp.Memory.{Ptr, Heap}

-- Constants of nn.h, its protocol headers and errno.h, and two struct sizes.
pub record Header : Type 0 where
  pub nn_msg : ℕ
  pub nn_dontwait : ℤ
  pub nn_pollin : ℕ
  pub nn_pollout : ℕ
  pub nn_sol_socket : ℤ
  pub af_sp : ℤ
  pub af_sp_raw : ℤ
  pub nn_pair : ℤ
  pub nn_req : ℤ
  pub nn_rep : ℤ
  pub nn_pub : ℤ
  pub nn_sub : ℤ
  pub nn_surveyor : ℤ
  pub nn_respondent : ℤ
  pub nn_push : ℤ
  pub nn_pull : ℤ
  pub nn_bus : ℤ
  pub nn_linger : ℤ
  pub nn_sndbuf : ℤ
  pub nn_rcvbuf : ℤ
  pub nn_sndtimeo : ℤ
  pub nn_rcvtimeo : ℤ
  pub nn_reconnect_ivl : ℤ
  pub nn_reconnect_ivl_max : ℤ
  pub nn_sndprio : ℤ
  pub nn_ipv4only : ℤ
  pub nn_socket_name : ℤ
  pub nn_tcp_nodelay : ℤ
  pub nn_req_resend_ivl : ℤ
  pub nn_sub_subscribe : ℤ
  pub nn_sub_unsubscribe : ℤ
  pub nn_surveyor_deadline : ℤ
  pub eagain : ℤ
  pub etimedout : ℤ
  pub efsm : ℤ
  pub sizeof_msghdr : ℕ
  pub sizeof_iovec : ℕ

-- One `nn_iovec` of an outgoing message.
pub record Iovec : Type 0 where
  pub iov_base : Ptr
  pub iov_len : ℕ

-- One `nn_pollfd`.
pub record PollFd : Type 0 where
  pub fd : ℤ
  pub events : ℕ
  pub revents : ℕ

-- An entry of a boost `options_description`: its names and the type of its value.
pub data ValueKind : Type 0 where
  flag int_value string_value strings_value : ValueKind

pub record OptionDescription : Type 0 where
  pub names : Bytes
  pub kind : ValueKind
  pub help : Bytes

-- How boost's parser ended: it stored what it read, or threw one of the errors that are caught.
pub data ParseEnd : Type 0 where
  stored_all : ParseEnd
  too_many_positional : ParseEnd
  unknown_option : Bytes → ParseEnd
  parse_error : Bytes → ParseEnd

-- A boost `variables_map`: the number of values under a name, whether what is stored under it is a
-- value of the type that the option was declared with, and that value. Where it is not, `as<T>()`
-- throws bad_any_cast.
pub record VariablesMap : Type 0 where
  pub count : Bytes → ℕ
  pub is_typed : Bytes → Bool
  pub as_int : Bytes → ℤ
  pub as_string : Bytes → Bytes
  pub as_strings : Bytes → List Bytes

-- The functions that the code calls. Each of nanomsg's takes and returns the library's state `S`;
-- those that allocate or free memory take and return the heap too. `nn_recvmsg` returns the count
-- and the bytes that it stored at each `iov_base`.
pub record Platform (S : Type 0) : Type 0 where
  pub header : Header
  pub open header use *
  pub malloc_fails : Heap → ℕ → Bool
  pub nn_errno : S → ℤ
  pub nn_strerror : ℤ → Bytes
  pub nn_socket : ℤ → ℤ → S → ℤ × S
  pub nn_close : ℤ → S → ℤ × S
  pub nn_setsockopt : ℤ → ℤ → ℤ → Bytes → S → ℤ × S
  pub nn_getsockopt : ℤ → ℤ → ℤ → ℕ → S → (ℤ × Bytes) × S
  pub nn_bind : ℤ → Bytes → S → ℤ × S
  pub nn_connect : ℤ → Bytes → S → ℤ × S
  pub nn_shutdown : ℤ → ℤ → S → ℤ × S
  pub nn_send : ℤ → Ptr → ℕ → ℤ → Heap → S → ℤ × Heap × S
  pub nn_recv : ℤ → Ptr → ℕ → ℤ → Heap → S → ℤ × Heap × S
  pub nn_sendmsg : ℤ → List Iovec → ℤ → Heap → S → ℤ × Heap × S
  pub nn_recvmsg : ℤ → List ℕ → ℤ → Heap → S → (ℤ × List Bytes) × Heap × S
  pub nn_allocmsg : ℕ → ℤ → Heap → S → Ptr × Heap × S
  pub nn_freemsg : Ptr → Heap → S → ℤ × Heap × S
  pub nn_poll : List PollFd → ℤ → S → ℤ × List PollFd × S
  pub nn_device : ℤ → ℤ → S → ℤ × S
  pub parse_command_line :
      List OptionDescription → List (Bytes × ℕ) → List Bytes → ParseEnd × VariablesMap
  pub format_options : Bytes → List OptionDescription → Bytes
  pub read_file : Bytes → Bytes
  pub string_address : Bytes → Ptr
