-- ===== src/Message/Moves.antt =====
-- Moving parts among objects in memory by assignment.
use nanomsgpp.Prelude.{ℕ, ◌≡◌, ◌≢◌, ◌==◌, if◌then◌else◌, arith}
use nanomsgpp.Memory.{null}
use nanomsgpp.Message.{Part, part_assign}

-- No two objects hold one pointer, so that no buffer is freed twice.
abbrev pub IsUnique : (ℕ → Part) → Type 0
IsUnique mem = (k l : ℕ) → k ≢ l → (mem k).d_msg ≢ null → (mem k).d_msg ≢ (mem l).d_msg

-- The pointers after an assignment, in all cases of aliasing.
assigned :
    (mem : ℕ → Part) (i j k : ℕ)
    → (part_assign mem i j k).d_msg
      ≡ (if k == i then (mem j).d_msg else if k == j then null else (mem k).d_msg)
unfolding part_assign
assigned mem i j k = ground arith

-- Move assignment keeps the pointers of all parts distinct, also where a part is assigned to
-- itself.
pub part_assign-IsUnique :
    (mem : ℕ → Part) (i j : ℕ) → IsUnique mem → IsUnique (part_assign mem i j)
part_assign-IsUnique mem i j u k l ne live =
    ground (arith, assigned mem i j k, assigned mem i j l, u j l, u k j, u k l)

-- Assigned to itself, a part stays what it is.
part_assign_self : (mem : ℕ → Part) (i k : ℕ) → part_assign mem i i k ≡ mem k
unfolding part_assign
part_assign_self mem i k = ground arith

-- The buffer that the target of a move assignment had is lost: afterwards no part points to it,
-- and assignment, which touches no heap, has not freed it.
part_assign-leaks :
    (mem : ℕ → Part) (i j : ℕ)
    → IsUnique mem
    → i ≢ j
    → (mem i).d_msg ≢ null
    → (k : ℕ) → (part_assign mem i j k).d_msg ≢ (mem i).d_msg
part_assign-leaks mem i j u ne live k = ground (arith, assigned mem i j k, u i j, u i k)
