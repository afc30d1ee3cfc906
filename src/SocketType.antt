-- ===== src/SocketType.antt =====
-- socket_type.hpp and socket_option.hpp: the enumerations, with the constants that they stand for.
use nanomsgpp.Prelude.Int.{ℤ}
use nanomsgpp.Platform.{Header}

pub data SocketDomain : Type 0 where
  sp sp_raw : SocketDomain

pub data SocketType : Type 0 where
  pair request reply publish subscribe surveyor respondent push pull bus : SocketType

pub data SocketOption : Type 0 where
  linger send_buffer receive_buffer send_timeout receive_timeout : SocketOption
  reconnect_interval reconnect_interval_max send_priority ipv4_only socket_name : SocketOption
  tcp_nodelay request_resend_interval sub_subscribe sub_unsubscribe : SocketOption
  surveyor_deadline : SocketOption

-- `static_cast<int>` of each.
unfoldable pub domain_value : Header → SocketDomain → ℤ
domain_value h sp = h.af_sp
domain_value h sp_raw = h.af_sp_raw

unfoldable pub type_value : Header → SocketType → ℤ
type_value h pair = h.nn_pair
type_value h request = h.nn_req
type_value h reply = h.nn_rep
type_value h publish = h.nn_pub
type_value h subscribe = h.nn_sub
type_value h surveyor = h.nn_surveyor
type_value h respondent = h.nn_respondent
type_value h push = h.nn_push
type_value h pull = h.nn_pull
type_value h bus = h.nn_bus

unfoldable pub option_value : Header → SocketOption → ℤ
option_value h linger = h.nn_linger
option_value h send_buffer = h.nn_sndbuf
option_value h receive_buffer = h.nn_rcvbuf
option_value h send_timeout = h.nn_sndtimeo
option_value h receive_timeout = h.nn_rcvtimeo
option_value h reconnect_interval = h.nn_reconnect_ivl
option_value h reconnect_interval_max = h.nn_reconnect_ivl_max
option_value h send_priority = h.nn_sndprio
option_value h ipv4_only = h.nn_ipv4only
option_value h socket_name = h.nn_socket_name
option_value h tcp_nodelay = h.nn_tcp_nodelay
option_value h request_resend_interval = h.nn_req_resend_ivl
option_value h sub_subscribe = h.nn_sub_subscribe
option_value h sub_unsubscribe = h.nn_sub_unsubscribe
option_value h surveyor_deadline = h.nn_surveyor_deadline
