-- ===== src/Client/Main.antt =====
-- `main` of client/nanomsgpp.cpp, and what it prints of options.cpp.
use nanomsgpp.Prelude.{ℕ, List, ◌++◌, if◌then◌else◌, ◌||◌}
use nanomsgpp.Prelude.Int.{minus_one, eq_ℤ}
use nanomsgpp.Prelude.Bytes.{Bytes, codes}
use nanomsgpp.Platform.{Platform}
use nanomsgpp.SocketType.{
  SocketType, sp, pair, request, reply, publish, subscribe, surveyor, respondent, push, pull, bus,
}
use nanomsgpp.World.{
  Ref, Cmd, Outcome, pure, ◌>>=◌, ◌>>◌, finally, put_out, put_err, sleep_for, ok, throws,
  terminated, undefined, running, Exception, internal_exception, invalid_argument, out_of_range,
  bad_any_cast,
}
use nanomsgpp.Socket.{open_socket, destroy}
use nanomsgpp.Client.Options.{Options, get_type, get_data, is_empty}
use nanomsgpp.Client.CommandLine.{
  process_command_line, miscellaneous_options, socket_options, sub_socket_options, input_options,
  output_options,
}
use nanomsgpp.Client.Loops.{
  configure_socket, connect_socket, send_loop, recv_loop, rw_loop, resp_loop,
}

-- `show_usage`.
unfoldable pub usage : Bytes
usage =
    codes "nanomsgpp command line tool usage:\n"
    ++ (codes
          "  nanomsgpp req {--connect=ADDR|--bind=ADDR} {--data=DATA|--file=PATH} [-i SEC] [-AQ]\n"
        ++ (codes "  nanomsgpp rep {--connect=ADDR|--bind=ADDR} {--data=DATA|--file=PATH} [-AQ]\n"
            ++ (codes
                  "  nanomsgpp push {--connect=ADDR|--bind=ADDR} {--data=DATA|--file=PATH} [-i SEC]\n"
                ++ (codes "  nanomsgpp pull {--connect=ADDR|--bind=ADDR} [-AQ]\n"
                    ++ (codes
                          "  nanomsgpp pub {--connect=ADDR|--bind=ADDR} {--data=DATA|--file=PATH} [-i SEC]\n"
                        ++ (codes
                              "  nanomsgpp sub {--connect=ADDR|--bind=ADDR} [--subscribe=TOPIC ...] [-AQ]\n"
                            ++ (codes
                                  "  nanomsgpp surveyor {--connect=ADDR|--bind=ADDR} {--data=DATA|--file=PATH} [-i SEC] [-AQ]\n"
                                ++ (codes
                                      "  nanomsgpp respondent {--connect=ADDR|--bind=ADDR} {--data=DATA|--file=PATH} [-AQ]\n"
                                    ++ (codes
                                          "  nanomsgpp bus {--connect=ADDR|--bind=ADDR} {--data=DATA|--file=PATH} [-i SEC] [-AQ]\n"
                                        ++ (codes
                                            "  nanomsgpp pair {--connect=ADDR|--bind=ADDR} {--data=DATA|--file=PATH} [-i SEC] [-AQ]\n"))))))))))

-- The local `socket` of `main`.
abbrev pub this_socket : Ref
this_socket = 0

-- `EXIT_SUCCESS` and `EXIT_FAILURE`.
abbrev pub exit_success : ℕ
exit_success = 0

abbrev pub exit_failure : ℕ
exit_failure = 1

module _ {S : Type 0} (nn : Platform S) where
  -- `show_help`; boost prints each table.
  unfoldable pub help : Bytes
  help =
      nn.format_options (codes "Miscellaneous Options") miscellaneous_options
      ++ (codes "\n"
          ++ (nn.format_options (codes "Socket Options") socket_options
              ++ (codes "\n"
                  ++ (nn.format_options (codes "SUB Socket Options") sub_socket_options
                      ++ (codes "\n"
                          ++ (nn.format_options (codes "Input Options") input_options
                              ++ (codes "\n"
                                  ++ (nn.format_options (codes "Output Options") output_options
                                      ++ codes "\n"))))))))

  -- The three handlers of `main`.
  unfoldable pub report_exception : Exception → Cmd S ℕ
  report_exception (invalid_argument what) = put_err (what ++ codes "\n") >> pure exit_failure
  report_exception (internal_exception e) = put_err (e.d_reason ++ codes "\n") >> pure exit_failure
  report_exception out_of_range = put_err (codes "Unknown exception\n") >> pure exit_failure
  report_exception bad_any_cast = put_err (codes "Unknown exception\n") >> pure exit_failure

  abbrev pub handle : Outcome S ℕ → Outcome S ℕ
  handle (ok code w) = ok code w
  handle (throws e w) = report_exception e w
  handle (terminated w) = terminated w
  handle undefined = undefined
  handle (running w) = running w

  -- A loop, or `recv_loop` if there is nothing to send.
  unfoldable pub if_data : ℕ → Options → Cmd S (Unit {0}) → Cmd S (Unit {0})
  if_data k ops loop = do
    payload ← get_data nn ops
    if is_empty payload then recv_loop nn k this_socket ops else loop

  -- The `switch` of `main`.
  unfoldable pub run_loop : ℕ → SocketType → Options → Cmd S (Unit {0})
  unfolding if_data
  run_loop k publish ops = send_loop nn k this_socket ops
  run_loop k push ops = send_loop nn k this_socket ops
  run_loop k subscribe ops = recv_loop nn k this_socket ops
  run_loop k pull ops = recv_loop nn k this_socket ops
  run_loop k bus ops = if_data k ops (rw_loop nn k this_socket ops)
  run_loop k pair ops = if_data k ops (rw_loop nn k this_socket ops)
  run_loop k surveyor ops = rw_loop nn k this_socket ops
  run_loop k request ops = rw_loop nn k this_socket ops
  run_loop k reply ops = if_data k ops (resp_loop nn k this_socket ops)
  run_loop k respondent ops = if_data k ops (resp_loop nn k this_socket ops)

  -- The life of `socket` in `main`, its destructor included.
  unfoldable pub run_socket : ℕ → Options → Cmd S (Unit {0})
  unfolding run_loop
  run_socket k ops = do
    configure_socket nn this_socket ops
    connect_socket nn this_socket ops
    if eq_ℤ ops.delay minus_one then pure tt else sleep_for ops.delay
    type ← get_type ops
    run_loop k type ops

  -- The `try` block of `main`.
  unfoldable pub run_client : ℕ → Options → Cmd S ℕ
  unfolding run_socket
  run_client k ops = do
    type ← get_type ops
    open_socket nn this_socket sp type
    finally (run_socket k ops) (destroy nn this_socket)
    pure exit_success

  -- `main` after the command line is read.
  unfoldable pub main_with : ℕ → Options → Cmd S ℕ
  unfolding report_exception run_client usage help
  main_with k ops =
      if ops.show_version
      then (do put_out (codes "nanomsgpp version 0.1.0\n"); pure exit_failure)
      else if ops.show_usage || ops.show_help
      then (do
        put_out usage
        (if ops.show_help then (do put_out (codes "\n"); put_out help) else pure tt)
        pure exit_failure)
      else (λ w. handle (run_client k ops w))

  -- `main`; the exit code.
  unfoldable pub main : ℕ → List Bytes → Cmd S ℕ
  unfolding main_with
  main k args = do ops ← process_command_line nn args; main_with k ops
