-- ===== src/Client/Options.antt =====
-- options.hpp and the methods of `options` in options.cpp.
pub mod Names
use nanomsgpp.Prelude.{ℕ, Bool, true, false, List, [], ◌∷◌, ◌==◌, leb, if◌then◌else◌, ◌||◌, ◌&&◌}
use nanomsgpp.Prelude.Int.{ℤ, minus_one}
use nanomsgpp.Prelude.Bytes.{Bytes, bytes_eq, codes}
use nanomsgpp.Platform.{Platform}
use nanomsgpp.SocketType.{
  SocketType, request, reply, push, pull, publish, subscribe, surveyor, respondent, bus, pair,
}
use nanomsgpp.World.{Cmd, pure, throw, ok, invalid_argument}

pub data EchoFormat : Type 0 where
  none raw ascii quoted msgpack : EchoFormat

pub record Options : Type 0 where
  pub show_usage : Bool
  pub show_help : Bool
  pub show_version : Bool
  pub verbose : Bool
  pub type : Bytes
  pub bind : List Bytes
  pub connect : List Bytes
  pub send_timeout : ℤ
  pub recv_timeout : ℤ
  pub subscribe : List Bytes
  pub format : Bytes
  pub raw : Bool
  pub ascii : Bool
  pub quoted : Bool
  pub interval : ℤ
  pub delay : ℤ
  pub payload : Bytes
  pub file : Bytes

-- `options()`.
unfoldable pub default_options : Options
default_options = record {
  show_usage = false;
  show_help = false;
  show_version = false;
  verbose = false;
  type = [];
  bind = [];
  connect = [];
  send_timeout = minus_one;
  recv_timeout = minus_one;
  subscribe = [];
  format = [];
  raw = false;
  ascii = false;
  quoted = false;
  interval = minus_one;
  delay = minus_one;
  payload = [];
  file = [];
}

-- The ladder of `get_type`, over any way to end it.
unfoldable pub choose_type {ℓ} : {A : Type ℓ} → Bytes → (SocketType → A) → A → A
choose_type type found other =
    if bytes_eq type (codes "req")
    then found request
    else if bytes_eq type (codes "rep")
    then found reply
    else if bytes_eq type (codes "push")
    then found push
    else if bytes_eq type (codes "pull")
    then found pull
    else if bytes_eq type (codes "pub")
    then found publish
    else if bytes_eq type (codes "sub")
    then found subscribe
    else if bytes_eq type (codes "surveyor")
    then found surveyor
    else if bytes_eq type (codes "respondent")
    then found respondent
    else if bytes_eq type (codes "bus")
    then found bus
    else if bytes_eq type (codes "pair")
    then found pair
    else other

unfoldable pub get_type : {S : Type 0} → Options → Cmd S SocketType
unfolding choose_type
get_type ops =
    choose_type ops.type pure (throw (invalid_argument (codes "Invalid argument \"type\"")))

unfoldable pub get_format : Options → EchoFormat
get_format ops =
    if bytes_eq ops.format (codes "raw") || ops.raw
    then raw
    else if bytes_eq ops.format (codes "ascii") || ops.ascii
    then ascii
    else if bytes_eq ops.format (codes "quoted") || ops.quoted
    then quoted
    else if bytes_eq ops.format (codes "msgpack")
    then msgpack
    else none

abbrev pub is_empty : Bytes → Bool
is_empty [] = true
is_empty (b ∷ bs) = false

-- `isspace` in the C locale.
abbrev pub is_space : ℕ → Bool
is_space b = (b == 32) || (leb 9 b && leb b 13)

-- `istream_iterator<char>` reads with `>>`, which skips white space.
unfoldable pub skip_space : Bytes → Bytes
skip_space [] = []
skip_space (b ∷ bs) = if is_space b then skip_space bs else b ∷ skip_space bs

-- Standard input is read to its end, so that a second read finds nothing.
read_stdin : {S : Type 0} → Cmd S Bytes
read_stdin w = ok (skip_space w.stdin) (record w { stdin = [] })

unfoldable pub get_data : {S : Type 0} → Platform S → Options → Cmd S Bytes
unfolding read_stdin
get_data nn ops =
    if is_empty ops.payload
    then (if is_empty ops.file
        then pure []
        else (if bytes_eq ops.file (codes "-") then read_stdin else pure (nn.read_file ops.file)))
    else pure ops.payload
