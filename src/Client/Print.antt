-- ===== src/Client/Print.antt =====
-- `print_message_part` and `print_message` of client/nanomsgpp.cpp.
pub mod Ascii
pub mod Quoted
pub mod Msgpack
pub mod Messages
pub mod Bounds
use nanomsgpp.Prelude.{
  ℕ, true, ◌+◌, ◌-◌, ◌/◌, ◌%◌, ◌^◌, Bool, Option, none, some, List, [], ◌∷◌, ◌++◌, ◌==◌, ltb, leb,
  if◌then◌else◌, ◌&&◌, ◌||◌, length,
}
use nanomsgpp.Prelude.Bytes.{Bytes, codes}
use nanomsgpp.Memory.{c_string, cells_at}
use nanomsgpp.World.{Cmd, pure, ◌>>=◌, ◌>>◌, undefined_behaviour, put_out}
use nanomsgpp.Message.{Part, Message}
use nanomsgpp.Client.Options.{Options, EchoFormat, get_format}

-- `isprint` in the C locale, of a byte; `can_print` says for which it is defined where `char` is
-- signed.
unfoldable pub is_print : ℕ → Bool
is_print b = leb 32 b && leb b 126

-- The loop of `ascii`.
unfoldable pub ascii_bytes : Bytes → Bytes
unfolding is_print
ascii_bytes [] = []
ascii_bytes (b ∷ bs) = (if is_print b then b else b'.') ∷ ascii_bytes bs

-- A digit of `%02x`.
unfoldable pub hex_digit : ℕ → ℕ
hex_digit d = if ltb d 10 then b'0' + d else b'a' + d - 10

-- The `switch` of `quoted`.
unfoldable pub quote_byte : ℕ → Bytes
unfolding is_print hex_digit
quote_byte b =
    if b == 10
    then b'\\' ∷ b'n' ∷ []
    else if b == 13
    then b'\\' ∷ b'r' ∷ []
    else if (b == b'\\') || (b == b'"')
    then b'\\' ∷ b ∷ []
    else if is_print b
    then b ∷ []
    else b'\\' ∷ b'x' ∷ hex_digit (b / 16) ∷ hex_digit (b % 16) ∷ []

unfoldable pub quoted_bytes : Bytes → Bytes
unfolding quote_byte
quoted_bytes [] = []
quoted_bytes (b ∷ bs) = quote_byte b ++ quoted_bytes bs

-- The header of `msgpack` for a length below 2 ^ 31, an `int`; `fputc` writes an `unsigned char`.
unfoldable pub msgpack_header : ℕ → Bytes
msgpack_header n =
    if ltb n 256
    then 0xc4 ∷ n ∷ []
    else if ltb n 65536
    then 0xc5 ∷ (n / 2 ^ 8) ∷ (n % 2 ^ 8) ∷ []
    else 0xc6 ∷ (n / 2 ^ 24 % 2 ^ 8) ∷ (n / 2 ^ 16 % 2 ^ 8) ∷ (n / 2 ^ 8 % 2 ^ 8) ∷ (n % 2 ^ 8) ∷ []

-- What `print_message_part` writes for the `buflen` bytes at `buf`.
unfoldable pub print_message_part : EchoFormat → Bytes → Bytes
unfolding ascii_bytes quoted_bytes msgpack_header
print_message_part EchoFormat.none buf = []
print_message_part EchoFormat.raw buf = buf
print_message_part EchoFormat.ascii buf = ascii_bytes buf ++ 10 ∷ []
print_message_part EchoFormat.quoted buf = b'"' ∷ (quoted_bytes buf ++ b'"' ∷ 10 ∷ [])
print_message_part EchoFormat.msgpack buf = msgpack_header (length buf) ++ buf

-- A byte below 128, which is a `char` that is not negative.
unfoldable pub is_ascii : Bytes → Bool
is_ascii [] = true
is_ascii (b ∷ bs) = ltb b 128 && is_ascii bs

-- Where the code is defined: `buflen` is an `int`, and `isprint` takes no negative `char`.
unfoldable pub can_print : EchoFormat → Bytes → Bool
unfolding is_ascii
can_print EchoFormat.ascii buf = ltb (length buf) (2 ^ 31) && is_ascii buf
can_print EchoFormat.quoted buf = ltb (length buf) (2 ^ 31) && is_ascii buf
can_print _ buf = ltb (length buf) (2 ^ 31)

-- One part: `strlen` reads past a buffer that holds no NUL.
unfoldable pub print_text : {S : Type 0} → EchoFormat → Option Bytes → Cmd S (Unit {0})
unfolding print_message_part can_print
print_text f none = undefined_behaviour
print_text f (some buf) =
    if can_print f buf then put_out (print_message_part f buf) else undefined_behaviour

-- The loop of `print_message`.
unfoldable pub print_parts : {S : Type 0} → EchoFormat → List Part → Cmd S (Unit {0})
unfolding print_text
print_parts f [] w = pure tt w
print_parts f (p ∷ ps) w = (print_text f (c_string (cells_at w.heap p.d_msg)) >> print_parts f ps) w

unfoldable pub print_message : {S : Type 0} → Message → Options → Cmd S (Unit {0})
unfolding print_parts get_format
print_message m ops = print_parts (get_format ops) m.d_parts
