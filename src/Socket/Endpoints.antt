-- ===== src/Socket/Endpoints.antt =====
-- `std::map<std::string, int>` as socket.cpp uses it for `d_endpoints`.
use nanomsgpp.Prelude.{◌≡◌, refl, none, some, Option, List, [], ◌∷◌, if◌then◌else◌, arith}
use nanomsgpp.Prelude.Int.{ℤ}
use nanomsgpp.Prelude.Bytes.{Bytes, bytes_eq, bytes_eq_iff}

-- `find`.
unfoldable pub find : Bytes → List (Bytes × ℤ) → Option ℤ
find k [] = none
find k ((j, v) ∷ m) = if bytes_eq j k then some v else find k m

-- `m[k] = v`.
unfoldable pub insert_or_assign : Bytes → ℤ → List (Bytes × ℤ) → List (Bytes × ℤ)
insert_or_assign k v [] = (k, v) ∷ []
insert_or_assign k v ((j, u) ∷ m) =
    if bytes_eq j k then (j, v) ∷ m else (j, u) ∷ insert_or_assign k v m

pub find-insert_or_assign :
    (k j : Bytes) (v : ℤ) (m : List (Bytes × ℤ))
    → find j (insert_or_assign k v m) ≡ (if bytes_eq k j then some v else find j m)
unfolding find insert_or_assign
find-insert_or_assign k j v [] = refl
find-insert_or_assign k j v ((i, u) ∷ m) =
    ground
      (arith, bytes_eq_iff k j, bytes_eq_iff i k, bytes_eq_iff i j, find-insert_or_assign k j v m)
