-- ===== src/Client/CommandLine.antt =====
-- `process_command_line` and the option tables of options.cpp.
pub mod Reading
use nanomsgpp.Prelude.{Bool, true, false, List, [], ◌∷◌, ◌++◌, ◌==◌, ltb, if◌then◌else◌, ◌||◌, ◌&&◌}
use nanomsgpp.Prelude.Bytes.{Bytes, codes}
use nanomsgpp.Platform.{
  Platform, OptionDescription, ValueKind, flag, int_value, string_value, strings_value, ParseEnd,
  stored_all, too_many_positional, unknown_option, parse_error, VariablesMap,
}
use nanomsgpp.World.{Cmd, pure, throw, bad_any_cast, ◌>>=◌, ◌>>◌, put_err}
use nanomsgpp.Client.Options.{Options, default_options}
use Prim.Native.String.{String}

abbrev entry : String → ValueKind → String → OptionDescription
entry n k h = record { names = codes n; kind = k; help = codes h }

unfoldable pub socket_options : List OptionDescription
socket_options =
    entry "bind,b" strings_value "bind to specified endpoint"
    ∷ entry "connect,c" strings_value "connect to specified endpoint"
    ∷ entry "recv-timeout" int_value "timeout for receiving a message"
    ∷ entry "send-timeout" int_value "timeout for sending a message"
    ∷ []

unfoldable pub sub_socket_options : List OptionDescription
sub_socket_options =
    entry "subscribe" strings_value
      "subscribe to a topic. note: socket will be subscribed to everything if no topics are specified"
    ∷ []

unfoldable pub input_options : List OptionDescription
input_options =
    entry "format" string_value "use echo format"
    ∷ entry "raw" flag "dump message as is"
    ∷ entry "ascii,A" flag "print ascii part of message delimeted by newline"
    ∷ entry "quoted,Q" flag
        "print each message on separate line in double quotes with C-like character escaping"
    ∷ []

unfoldable pub output_options : List OptionDescription
output_options =
    entry "interval,i" int_value "send message (or request) every number of seconds"
    ∷ entry "delay,d" int_value "wait for number of seconds before sending message"
    ∷ entry "data,D" string_value "send data to the socket and quit"
    ∷ entry "file,F" string_value "same as --data but get data from file"
    ∷ []

unfoldable pub miscellaneous_options : List OptionDescription
miscellaneous_options =
    entry "verbose,v" flag "increase verbosity"
    ∷ entry "version" flag "display version"
    ∷ entry "help,?" flag "show this help page"
    ∷ []

unfoldable pub all_options : List OptionDescription
unfolding miscellaneous_options socket_options sub_socket_options input_options output_options
all_options =
    entry "type" flag "nanomsg socket type"
    ∷ (miscellaneous_options
        ++ (socket_options ++ (sub_socket_options ++ (input_options ++ output_options))))

abbrev pub has : VariablesMap → String → Bool
has vm name = ltb 0 (vm.count (codes name))

-- What the handlers of the parser's errors print, and whether one of them ran.
unfoldable pub report : {S : Type 0} → ParseEnd → Cmd S Bool
report stored_all = pure false
report too_many_positional = put_err (codes "Too many arguments provided.\n") >> pure true
report (unknown_option name) =
    put_err (codes "Unknown option '" ++ (name ++ codes "'.\n")) >> pure true
report (parse_error what) =
    put_err (codes "command line parse error: " ++ (what ++ codes "'.\n")) >> pure true

-- The options that the map holds.
unfoldable pub options_of : Bool → VariablesMap → Options
unfolding default_options
options_of failed vm = record {
  show_usage =
      failed || (not_has "type" || (has vm "help" || (not_has "connect" && not_has "bind")));
  show_help = has vm "help";
  show_version = has vm "version";
  verbose = has vm "verbose";
  type = if has vm "type" then vm.as_string (codes "type") else default_options.type;
  bind = if has vm "bind" then vm.as_strings (codes "bind") else default_options.bind;
  connect = if has vm "connect" then vm.as_strings (codes "connect") else default_options.connect;
  send_timeout =
      if has vm "send-timeout"
      then vm.as_int (codes "send-timeout")
      else default_options.send_timeout;
  recv_timeout =
      if has vm "recv-timeout"
      then vm.as_int (codes "recv-timeout")
      else default_options.recv_timeout;
  subscribe =
      if has vm "subscribe" then vm.as_strings (codes "subscribe") else default_options.subscribe;
  format = if has vm "format" then vm.as_string (codes "format") else default_options.format;
  raw = has vm "raw";
  ascii = has vm "ascii";
  quoted = has vm "quoted";
  interval = if has vm "interval" then vm.as_int (codes "interval") else default_options.interval;
  delay = if has vm "delay" then vm.as_int (codes "delay") else default_options.delay;
  payload = if has vm "data" then vm.as_string (codes "data") else default_options.payload;
  file = if has vm "file" then vm.as_string (codes "file") else default_options.file;
}
  where
    not_has : String → Bool
    not_has name = vm.count (codes name) == 0

-- Whether no `as<T>()` throws.
unfoldable pub reads_all : List String → VariablesMap → Bool
reads_all [] vm = true
reads_all (name ∷ names) vm =
    (if has vm name then vm.is_typed (codes name) else true) && reads_all names vm

-- The options whose values are read by `as<T>()`.
unfoldable pub valued_options : List String
valued_options =
    "type" ∷ "bind" ∷ "connect" ∷ "recv-timeout" ∷ "send-timeout" ∷ "subscribe" ∷ "format"
    ∷ "interval" ∷ "delay" ∷ "data" ∷ "file" ∷ []

unfoldable pub process_command_line : {S : Type 0} → Platform S → List Bytes → Cmd S Options
unfolding report options_of all_options reads_all valued_options
process_command_line nn args = do
  let parsed = nn.parse_command_line all_options ((codes "type", 1) ∷ []) args
  failed ← report parsed.0
  if reads_all valued_options parsed.1
      then pure (options_of failed parsed.1)
      else throw bad_any_cast
