-- ===== src/Memory/Strings.antt =====
-- What `strlen` finds in a block.
use nanomsgpp.Prelude.{
  zero, suc, ◌≡◌, ◌≢◌, refl, none, some, Option, [], ◌∷◌, ◌++◌, All, ◌⊎◌, inl, inr, ap, arith,
}
use nanomsgpp.Prelude.Bytes.{Bytes}
use nanomsgpp.Memory.{bytes_of, c_string}

abbrev pub HasNoNul : Bytes → Type 0
HasNoNul bs = All (λ b. b ≢ 0) bs

pub c_string-none : (bs : Bytes) → HasNoNul bs → c_string (bytes_of bs) ≡ none
unfolding c_string
c_string-none [] h = refl
c_string-none (zero ∷ bs) h = absurd (h.0 refl)
c_string-none (suc b ∷ bs) h = rw (c_string-none bs h.1)

pub c_string-some : (bs more : Bytes) → HasNoNul bs → c_string (bytes_of (bs ++ 0 ∷ more)) ≡ some bs
unfolding c_string
c_string-some [] more h = refl
c_string-some (zero ∷ bs) more h = absurd (h.0 refl)
c_string-some (suc b ∷ bs) more h = rw (c_string-some bs more h.1)

-- The bytes before the first NUL, and those behind it.
abbrev pub Splits : Bytes → Bytes → Bytes → Type 0
Splits bs text more = (bs ≡ text ++ 0 ∷ more) × HasNoNul text

pub find_nul : (bs : Bytes) → HasNoNul bs ⊎ ((text more : Bytes) × Splits bs text more)
find_nul [] = inl tt
find_nul (zero ∷ bs) = inr ([], bs, (refl, tt))
find_nul (suc b ∷ bs) = elim (find_nul bs) [
  | inl h ↦ inl (λ z. omega arith, h)
  | inr (text, more, (e, h)) ↦
      inr (suc b ∷ text, more, (ap (λ t. suc b ∷ t) e, (λ z. omega arith, h)))
]

-- The bytes before the first NUL, if there is one.
abbrev pub up_to_nul : Bytes → Option Bytes
up_to_nul [] = none
up_to_nul (zero ∷ bs) = some []
up_to_nul (suc b ∷ bs) = elim (up_to_nul bs) [ none ↦ none | some t ↦ some (suc b ∷ t) ]

pub up_to_nul-none : (bs : Bytes) → HasNoNul bs → up_to_nul bs ≡ none
up_to_nul-none [] h = refl
up_to_nul-none (zero ∷ bs) h = absurd (h.0 refl)
up_to_nul-none (suc b ∷ bs) h = rw (up_to_nul-none bs h.1)

pub up_to_nul-some : (text more : Bytes) → HasNoNul text → up_to_nul (text ++ 0 ∷ more) ≡ some text
up_to_nul-some [] more h = refl
up_to_nul-some (zero ∷ text) more h = absurd (h.0 refl)
up_to_nul-some (suc b ∷ text) more h = rw (up_to_nul-some text more h.1)
