-- ===== src/Client/Print/Bounds.antt =====
-- What `print_message_part` can write at most.
use nanomsgpp.Prelude.{ℕ, ◌≤◌, length, All}
use nanomsgpp.Prelude.Bytes.{Bytes, IsByte}

-- A byte string of bounded length, each element of which is a byte.
abbrev Fits : Bytes → ℕ → Type 0
Fits bs n = All IsByte bs × (length bs ≤ n)
