-- ===== src/Client/Print/Msgpack.antt =====
-- The `msgpack` format, against a reader of msgpack's binary objects.
use nanomsgpp.Prelude.{
  ℕ, zero, suc, ◌+◌, ◌*◌, ◌^◌, ◌<◌, ◌≡◌, refl, Option, none, some, [], ◌∷◌, ◌++◌, ◌==◌, ltb, ◌∙◌,
  if◌then◌else◌, arith, ap, length, length-append, take, drop, inl, inr, Bool-cases,
}
use mathlib.Core.List.{append_assoc}
use nanomsgpp.Prelude.Bytes.{Bytes}
use nanomsgpp.Client.Options.{EchoFormat}
use nanomsgpp.Client.Print.{msgpack_header, print_message_part}

-- The first `n` bytes and the rest, if there are so many.
split : ℕ → Bytes → Option (Bytes × Bytes)
split n bs = if ltb (length bs) n then none else some (take n bs, drop n bs)

-- A length of `k` bytes, most significant first, after the part `n` read so far; then the body.
unpack_body : ℕ → ℕ → Bytes → Option (Bytes × Bytes)
unpack_body zero n bs = split n bs
unpack_body (suc k) n [] = none
unpack_body (suc k) n (b ∷ bs) = unpack_body k (256 * n + b) bs

-- The first binary object of a stream, in the formats bin 8, bin 16 and bin 32, and the rest.
pub unpack : Bytes → Option (Bytes × Bytes)
unfolding unpack_body
unpack [] = none
unpack (b ∷ bs) =
    if b == 0xc4
    then unpack_body 1 0 bs
    else if b == 0xc5
    then unpack_body 2 0 bs
    else if b == 0xc6
    then unpack_body 4 0 bs
    else none

take-append : (bs rest : Bytes) → take (length bs) (bs ++ rest) ≡ bs
take-append [] rest = refl
take-append (b ∷ bs) rest = ap (◌∷◌ b) (take-append bs rest)

drop-append : (bs rest : Bytes) → drop (length bs) (bs ++ rest) ≡ rest
drop-append [] rest = refl
drop-append (b ∷ bs) rest = drop-append bs rest

split-append : (n : ℕ) (bs rest : Bytes) → n ≡ length bs → split n (bs ++ rest) ≡ some (bs, rest)
unfolding split
split-append n bs rest e =
    rw e (ground (arith, length-append bs rest, take-append bs rest, drop-append bs rest))

header-body : (n : ℕ) (tail : Bytes) → n < 2 ^ 32 → unpack (msgpack_header n ++ tail) ≡ split n tail
unfolding unpack msgpack_header
header-body n tail h = elim (Bool-cases (ltb n 256)) [
  | inl small ↦ rw small (ap (λ (k : ℕ). split k tail) (omega arith))
  | inr more ↦ rw more (elim (Bool-cases (ltb n 65536)) [
    | inl middle ↦ rw middle (ap (λ (k : ℕ). split k tail) (omega arith))
    | inr large ↦ rw large (ap (λ (k : ℕ). split k tail) (omega arith))
  ])
]

-- Reading back what the `msgpack` format prints gives the message and what follows it, for every
-- message shorter than 2 ^ 31 bytes.
pub unpack-print_message_part :
    (bs rest : Bytes)
    → length bs < 2 ^ 31
    → unpack (print_message_part EchoFormat.msgpack bs ++ rest) ≡ some (bs, rest)
unfolding print_message_part
unpack-print_message_part bs rest small =
    let h : length bs < 2 ^ 32 = omega (arith, small) in
    ap unpack (append_assoc (msgpack_header (length bs)) bs rest)
    ∙ header-body (length bs) (bs ++ rest) h
    ∙ split-append (length bs) bs rest refl
