-- ===== src/Client/Input.antt =====
-- What the client sends when it reads its data from standard input.
use nanomsgpp.Prelude.{ℕ, ◌≡◌, refl, false, []}
use nanomsgpp.Prelude.Bytes.{codes, bytes_eq_refl}
use nanomsgpp.Platform.{Platform}
use nanomsgpp.SocketType.{pair, bus, reply, respondent}
use nanomsgpp.World.{World}
use nanomsgpp.Client.Options.{Options, is_empty, skip_space, get_data}
use nanomsgpp.Client.Loops.{rw_rounds, rw_loop, resp_rounds, resp_loop}
use nanomsgpp.Client.Main.{this_socket, run_loop}

module _ {S : Type 0} (nn : Platform S) where
  -- With `--file=-`, no `--data` and something but white space on standard input, a client of type
  -- pair or bus, and one of type reply or respondent, does not send what stood there: `main` has
  -- read it to see whether there is any, and the loop reads again, finds nothing, and sends the
  -- empty string.
  pub run_loop_piped :
      (k : ℕ) (ops : Options) (w : World S)
      → ops.payload ≡ []
      → ops.file ≡ codes "-"
      → is_empty (skip_space w.stdin) ≡ false
      → (run_loop nn k pair ops w ≡ rw_rounds nn k this_socket ops [] (record w { stdin = [] }))
        × (run_loop nn k bus ops w ≡ rw_rounds nn k this_socket ops [] (record w { stdin = [] }))
        × (run_loop nn k reply ops w
            ≡ resp_rounds nn k this_socket ops [] (record w { stdin = [] }))
        × (run_loop nn k respondent ops w
            ≡ resp_rounds nn k this_socket ops [] (record w { stdin = [] }))
  unfolding run_loop rw_loop resp_loop get_data nanomsgpp.Prelude.Bytes.bytes_eq skip_space
  run_loop_piped k ops w no_data piped something =
      rw (no_data, piped, something) (refl, refl, refl, refl)
