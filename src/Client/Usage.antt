-- ===== src/Client/Usage.antt =====
-- When `main` of client/nanomsgpp.cpp only shows how it is used.
use nanomsgpp.Prelude.{
  ℕ, ◌≡◌, ◌⊎◌, inl, inr, refl, Bool, true, false, some, Option, List, [], ◌++◌, if◌then◌else◌, ◌∙◌,
  sym, ap, arith,
}
use mathlib.Core.List.{append_assoc, append-nil}
use nanomsgpp.Prelude.Bytes.{Bytes, codes}
use nanomsgpp.Platform.{Platform, VariablesMap}
use nanomsgpp.World.{World, pure, put_out, ◌>>◌}
use nanomsgpp.World.Ends.{Ends}
use nanomsgpp.Client.Options.{Options}
use nanomsgpp.Client.CommandLine.{options_of}
use nanomsgpp.Client.CommandLine.Reading.{
  is_reported, IsTyped, parsed, read_options, process_command_line-read_options,
}
use nanomsgpp.Client.Main.{usage, help, exit_failure, main_with, main}

module _ {S : Type 0} (nn : Platform S) where
  -- The usage is printed, whatever else, and nanomsg is not called.
  abbrev pub ShowsUsage : World S → Option ℕ → World S → Type 0
  ShowsUsage w r w' =
      (r ≡ some exit_failure)
      × ((more : Bytes) × (w'.out ≡ w.out ++ (usage ++ more)))
      × (w'.calls ≡ w.calls)
      × (w'.sockets ≡ w.sockets)

  after_usage :
      (b : Bool) (w : World S)
      → Ends (ShowsUsage w) (
          ((put_out usage)
              >> ((if b then (put_out (codes "\n") >> put_out (help nn)) else pure tt)
                  >> pure exit_failure))
            w)
  after_usage true w = (
    refl,
    (
      codes "\n" ++ help nn,
      append_assoc (w.out ++ usage) (codes "\n") (help nn)
          ∙ append_assoc w.out usage (codes "\n" ++ help nn),
    ),
    refl,
    refl,
  )
  after_usage false w =
      (refl, ([], ap (λ (u : Bytes). w.out ++ u) (sym (append-nil usage))), refl, refl)

  main_with-ShowsUsage :
      (k : ℕ) (ops : Options) (w : World S)
      → ops.show_version ≡ false
      → ops.show_usage ≡ true
      → Ends (ShowsUsage w) (main_with nn k ops w)
  unfolding main_with
  main_with-ShowsUsage k ops w version shown = rw version (rw shown (after_usage ops.show_help w))

  -- What boost's parser stored.
  abbrev pub stored : List Bytes → VariablesMap
  stored args = (parsed nn args).1

  -- Where each option stored has a value of its type: if the command line names no socket type, or neither an address to connect to nor one to bind,
  -- and does not ask for the version, then `main` prints the usage and exits with a failure, and
  -- neither calls nanomsg nor touches a socket, whichever caught error ended the parsing.
  pub main-ShowsUsage :
      (k : ℕ) (args : List Bytes) (w : World S)
      → IsTyped nn args
      → ((stored args).count (codes "type") ≡ 0)
        ⊎ (((stored args).count (codes "connect") ≡ 0) × ((stored args).count (codes "bind") ≡ 0))
      → (stored args).count (codes "version") ≡ 0
      → Ends (ShowsUsage w) (main nn k args w)
  unfolding main options_of
  main-ShowsUsage k args w typed missing no_version =
      let (said, run) = process_command_line-read_options nn args w typed in
      rw run (
        main_with-ShowsUsage k (read_options nn args) (record w { err = said }) (rw no_version refl)
          (shown (is_reported (parsed nn args).0) missing))
    where
      shown :
          (b : Bool)
          → ((stored args).count (codes "type") ≡ 0)
            ⊎ (((stored args).count (codes "connect") ≡ 0)
                × ((stored args).count (codes "bind") ≡ 0))
          → (options_of b (stored args)).show_usage ≡ true
      shown b (inl no_type) = ground (arith, no_type)
      shown b (inr (no_connect, no_bind)) = ground (arith, no_connect, no_bind)
