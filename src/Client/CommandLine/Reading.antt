-- ===== src/Client/CommandLine/Reading.antt =====
-- What `process_command_line` answers and says.
use nanomsgpp.Prelude.{◌≡◌, refl, Bool, true, false, List, [], ◌∷◌, ◌⊎◌, inl, inr, Bool-cases}
use nanomsgpp.Prelude.Bytes.{Bytes, codes}
use nanomsgpp.Platform.{
  Platform, ParseEnd, VariablesMap, stored_all, too_many_positional, unknown_option, parse_error,
}
use nanomsgpp.World.{World, ok, throws, bad_any_cast}
use nanomsgpp.Client.Options.{Options}
use nanomsgpp.Client.CommandLine.{
  all_options, report, options_of, reads_all, valued_options, process_command_line,
}

abbrev pub is_reported : ParseEnd → Bool
is_reported stored_all = false
is_reported _ = true

reported :
    {S : Type 0} (e : ParseEnd) (w : World S)
    → (said : Bytes) × (report e w ≡ ok (is_reported e) (record w { err = said }))
unfolding report
reported stored_all w = (w.err, refl)
reported too_many_positional w = (_, refl)
reported (unknown_option name) w = (_, refl)
reported (parse_error what) w = (_, refl)

module _ {S : Type 0} (nn : Platform S) (args : List Bytes) where
  -- What boost's parser made of the arguments.
  abbrev pub parsed : ParseEnd × VariablesMap
  parsed = nn.parse_command_line all_options ((codes "type", 1) ∷ []) args

  abbrev pub read_options : Options
  read_options = options_of (is_reported parsed.0) parsed.1

  -- Each option that is stored has a value of its type.
  abbrev pub IsTyped : Type 0
  IsTyped = reads_all valued_options parsed.1 ≡ true

  -- Some option that is stored has not.
  abbrev pub IsUntyped : Type 0
  IsUntyped = reads_all valued_options parsed.1 ≡ false

  -- Where each option stored has a value of its type, the options are those that the map holds, and
  -- only the error stream has changed.
  pub process_command_line-read_options :
      (w : World S)
      → IsTyped
      → (said : Bytes) × (process_command_line nn args w
          ≡ ok read_options (record w { err = said }))
  unfolding process_command_line
  process_command_line-read_options w typed =
      let (said, run) = reported parsed.0 w in (said, rw run (rw typed refl))

  -- Either so, or bad_any_cast is thrown.
  pub process_command_line-cases :
      (w : World S)
      → (said : Bytes) × ((IsTyped
            × (process_command_line nn args w ≡ ok read_options (record w { err = said })))
          ⊎ (IsUntyped
              × (process_command_line nn args w ≡ throws bad_any_cast (record w { err = said }))))
  unfolding process_command_line
  process_command_line-cases w =
      let (said, run) = reported parsed.0 w in
      elim (Bool-cases (reads_all valued_options parsed.1)) [
        | inl typed ↦ (said, inl (typed, rw run (rw typed refl)))
        | inr untyped ↦ (said, inr (untyped, rw run (rw untyped refl)))
      ]
