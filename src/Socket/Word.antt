-- ===== src/Socket/Word.antt =====
-- The four bytes of an `int` in memory, in the two's complement little-endian form of the platform.
use nanomsgpp.Prelude.{ℕ, ◌-◌, ◌^◌, ◌<◌, ◌≡◌, arith, ltb, if◌then◌else◌, ◌∙◌, ap, length}
use nanomsgpp.Prelude.Int.{ℤ, pos, negsuc, IsInt}
use nanomsgpp.Prelude.Bytes.{Bytes, to_le, of_le, of_le-to_le, length-to_le}

abbrev int_pattern : ℤ → ℕ
int_pattern (pos n) = n
int_pattern (negsuc n) = 2 ^ 32 - 1 - n

abbrev pattern_int : ℕ → ℤ
pattern_int u = if ltb u (2 ^ 31) then pos u else negsuc (2 ^ 32 - 1 - u)

unfoldable pub int_bytes : ℤ → Bytes
int_bytes a = to_le 4 (int_pattern a)

unfoldable pub bytes_int : Bytes → ℤ
bytes_int bs = pattern_int (of_le bs)

pub length-int_bytes : (a : ℤ) → length (int_bytes a) ≡ 4
unfolding int_bytes
length-int_bytes a = length-to_le 4 (int_pattern a)

pattern_bound : (a : ℤ) → IsInt a → int_pattern a < 256 ^ 4
pattern_bound (pos n) h = omega arith
pattern_bound (negsuc n) h = omega arith

pattern_int-int_pattern : (a : ℤ) → IsInt a → pattern_int (int_pattern a) ≡ a
pattern_int-int_pattern (pos n) h = ground arith
pattern_int-int_pattern (negsuc n) h = ground arith

-- Reading back the bytes of an `int` gives that `int`, over its whole range.
pub bytes_int-int_bytes : (a : ℤ) → IsInt a → bytes_int (int_bytes a) ≡ a
unfolding int_bytes bytes_int
bytes_int-int_bytes a h =
    ap pattern_int (of_le-to_le 4 (int_pattern a) (pattern_bound a h)) ∙ pattern_int-int_pattern a h
