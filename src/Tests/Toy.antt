-- ===== src/Tests/Toy.antt =====
-- A library that accepts every call. Its state is the messages still to be received; when there
-- are none, receiving fails with ETIMEDOUT.
use nanomsgpp.Prelude.{
  ℕ, ◌+◌, ◌-◌, ◌^◌, ◌==◌, if◌then◌else◌, refl, false, true, some, none, List, [], ◌∷◌, arith,
  length,
}
use nanomsgpp.Prelude.Int.{ℤ, pos, minus_one}
use nanomsgpp.Prelude.Bytes.{Bytes, codes, to_le}
use nanomsgpp.Memory.{Heap, IsHeap, Block, by_nn, by_malloc, bytes_of, allocate, set_block}
use nanomsgpp.Platform.{Platform, Header, Iovec, PollFd, stored_all}
use nanomsgpp.Socket.Word.{int_bytes}
use nanomsgpp.World.{World}
use nanomsgpp.Message.{Message}
use nanomsgpp.Message.Ownership.{Owns, nil, cons, FreesChunks}
use nanomsgpp.Message.Header.{MallocWorks}

abbrev toy_header : Header
toy_header = record {
  nn_msg = 2 ^ 64 - 1;
  nn_dontwait = pos 1;
  nn_pollin = 1;
  nn_pollout = 2;
  nn_sol_socket = pos 0;
  af_sp = pos 1;
  af_sp_raw = pos 2;
  nn_pair = pos 16;
  nn_req = pos 48;
  nn_rep = pos 49;
  nn_pub = pos 32;
  nn_sub = pos 33;
  nn_surveyor = pos 96;
  nn_respondent = pos 97;
  nn_push = pos 80;
  nn_pull = pos 81;
  nn_bus = pos 112;
  nn_linger = pos 1;
  nn_sndbuf = pos 2;
  nn_rcvbuf = pos 3;
  nn_sndtimeo = pos 4;
  nn_rcvtimeo = pos 5;
  nn_reconnect_ivl = pos 6;
  nn_reconnect_ivl_max = pos 7;
  nn_sndprio = pos 8;
  nn_ipv4only = pos 14;
  nn_socket_name = pos 15;
  nn_tcp_nodelay = pos 1;
  nn_req_resend_ivl = pos 1;
  nn_sub_subscribe = pos 1;
  nn_sub_unsubscribe = pos 2;
  nn_surveyor_deadline = pos 1;
  eagain = pos 11;
  etimedout = pos 110;
  efsm = pos 156384766;
  sizeof_msghdr = 48;
  sizeof_iovec = 16;
}

abbrev total : List Iovec → ℕ
total [] = 0
total (v ∷ vs) = v.iov_len + total vs

abbrev deliver : List ℕ → Heap → List Bytes → (ℤ × List Bytes) × Heap × List Bytes
deliver lens h [] = ((minus_one, []), h, [])
deliver [] h (m ∷ ms) = ((pos 0, []), h, ms)
deliver (n ∷ []) h (m ∷ ms) =
    ((pos (length (bytes_of m)), to_le 8 h.next ∷ []), allocate by_nn (bytes_of m) h, ms)
deliver (n ∷ k ∷ ns) h (m ∷ ms) = ((pos (length m), m ∷ []), h, ms)

abbrev pub ready : List PollFd → List PollFd
ready [] = []
ready (p ∷ ps) = record p { revents = p.events } ∷ ready ps

abbrev pub toy : Platform (List Bytes)
toy = record {
  header = toy_header;
  malloc_fails = λ h n. false;
  nn_errno = λ l. pos 110;
  nn_strerror = λ e. codes "Timed out";
  nn_socket = λ d t l. (pos 3, l);
  nn_close = λ fd l. (pos 0, l);
  nn_setsockopt = λ fd level opt val l. (pos 0, l);
  nn_getsockopt = λ fd level opt len l. ((pos 0, int_bytes (pos 5)), l);
  nn_bind = λ fd addr l. (pos 7, l);
  nn_connect = λ fd addr l. (pos 8, l);
  nn_shutdown = λ fd id l. (pos 0, l);
  nn_send = λ fd p n flags h l. (pos n, h, l);
  nn_recv = λ fd p n flags h l. (pos 0, h, l);
  nn_sendmsg = λ fd iov flags h l. (pos (total iov), h, l);
  nn_recvmsg = λ fd lens flags h l. deliver lens h l;
  nn_allocmsg = λ n type h l. (h.next, allocate by_nn [] h, l);
  nn_freemsg = λ p h l. (pos 0, set_block p none h, l);
  nn_poll = λ fds timeout l. (pos 1, ready fds, l);
  nn_device = λ a b l. (minus_one, l);
  parse_command_line = λ table positional args. (
    stored_all,
    record {
      count = λ n. 0;
      is_typed = λ n. true;
      as_int = λ n. pos 0;
      as_string = λ n. [];
      as_strings = λ n. [];
    },
  );
  format_options = λ title table. title;
  read_file = λ name. [];
  string_address = λ s. 9;
}

pub toy_frees : FreesChunks toy
toy_frees a h l b e k = (refl, refl)

pub toy_malloc : MallocWorks toy
toy_malloc h n = refl

-- Nothing allocated, a socket with descriptor 3, and some messages to receive.
abbrev pub start : List Bytes → World (List Bytes)
start inbox = record {
  heap = record { next = 1; block = λ a. none };
  lib = inbox;
  sockets = λ s. record { d_socket = pos 3; d_endpoints = [] };
  calls = [];
  stdin = codes "from stdin";
  out = [];
  err = [];
}

pub start-IsHeap : (inbox : List Bytes) → IsHeap (start inbox).heap
start-IsHeap inbox = record { next_pos = omega arith; null_free = refl; above_free = λ p le. refl }

-- One buffer in use, and the message that owns it.
abbrev pub buffer : Block
buffer = record { owner = by_malloc; cells = bytes_of (codes "hi") }

abbrev one_block : Heap
one_block = record { next = 2; block = λ a. if a == 1 then some buffer else none }

abbrev pub used : World (List Bytes)
used = record (start []) { heap = one_block }

abbrev pub hi : Message
hi = record { d_parts = record { d_msg = 1; d_size = 2; d_malloc = true } ∷ [] }

pub used-IsHeap : IsHeap one_block
used-IsHeap = record { next_pos = omega arith; null_free = refl; above_free = λ p le. ground arith }

pub hi-Owns : Owns one_block hi.d_parts
hi-Owns = cons buffer (omega arith) refl refl refl nil
