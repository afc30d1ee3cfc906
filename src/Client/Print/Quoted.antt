-- ===== src/Client/Print/Quoted.antt =====
-- The `quoted` format, against a reader of quoted lines.
use nanomsgpp.Prelude.{
  ℕ, ◌+◌, ◌-◌, ◌*◌, ◌≡◌, refl, Bool, false, Option, none, some, [], ◌∷◌, ◌++◌, ◌==◌, ltb,
  if◌then◌else◌, arith, All,
}
use mathlib.Core.List.{append_assoc}
use nanomsgpp.Prelude.Bytes.{Bytes, IsByte}
use nanomsgpp.Client.Options.{EchoFormat}
use nanomsgpp.Client.Print.{quote_byte, quoted_bytes, print_message_part}

-- Where a reader of a quoted line stands: in plain text, behind a backslash, or within `\xhh`.
data Mode : Type 0 where
  plain escape high : Mode
  low : ℕ → Mode

hex_value : ℕ → ℕ
hex_value c = if ltb c b'a' then c - b'0' else c - b'a' + 10

ends : Mode → ℕ → Bool
ends plain b = b == b'"'
ends escape b = false
ends high b = false
ends (low h) b = false

next : Mode → ℕ → Mode
unfolding hex_value
next plain b = if b == b'\\' then escape else plain
next escape b = if b == b'x' then high else plain
next high b = low (hex_value b)
next (low h) b = plain

emit : Mode → ℕ → Bytes
unfolding hex_value
emit plain b = if b == b'\\' then [] else b ∷ []
emit escape b =
    if b == b'x' then [] else if b == b'n' then 10 ∷ [] else if b == b'r' then 13 ∷ [] else b ∷ []
emit high b = []
emit (low h) b = (16 * h + hex_value b) ∷ []

prepend : Bytes → Option (Bytes × Bytes) → Option (Bytes × Bytes)
prepend bs none = none
prepend bs (some (text, rest)) = some (bs ++ text, rest)

-- The text up to the closing quote, and what follows that.
scan : Mode → Bytes → Option (Bytes × Bytes)
unfolding ends next emit prepend
scan m [] = none
scan m (b ∷ bs) = if ends m b then some ([], bs) else prepend (emit m b) (scan (next m b) bs)

end_line : Option (Bytes × Bytes) → Option (Bytes × Bytes)
end_line none = none
end_line (some (text, [])) = none
end_line (some (text, b ∷ rest)) = if b == 10 then some (text, rest) else none

-- A line in double quotes: its text, and the lines that follow.
pub unquote : Bytes → Option (Bytes × Bytes)
unfolding scan end_line
unquote [] = none
unquote (b ∷ bs) = if b == b'"' then end_line (scan plain bs) else none

scan-quote_byte :
    (b : ℕ) (tail : Bytes)
    → IsByte b
    → scan plain (quote_byte b ++ tail) ≡ prepend (b ∷ []) (scan plain tail)
unfolding scan quote_byte
scan-quote_byte b tail h = ground arith

scan-quoted_bytes :
    (bs rest : Bytes)
    → All IsByte bs
    → scan plain (quoted_bytes bs ++ b'"' ∷ rest) ≡ some (bs, rest)
unfolding quoted_bytes
scan-quoted_bytes [] rest h = unfold scan in refl
scan-quoted_bytes (b ∷ bs) rest h =
    rw
      (
        append_assoc,
        scan-quote_byte b (quoted_bytes bs ++ b'"' ∷ rest) h.0,
        scan-quoted_bytes bs rest h.1,
      )
      (unfold prepend in refl)

-- Reading back a line of the `quoted` format gives the message and the lines that follow, for every
-- message of bytes.
pub unquote-print_message_part :
    (bs rest : Bytes)
    → All IsByte bs
    → unquote (print_message_part EchoFormat.quoted bs ++ rest) ≡ some (bs, rest)
unfolding unquote print_message_part
unquote-print_message_part bs rest h = rw (append_assoc, scan-quoted_bytes bs (10 ∷ rest) h) refl
