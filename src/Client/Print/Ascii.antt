-- ===== src/Client/Print/Ascii.antt =====
-- The `ascii` format.
use nanomsgpp.Prelude.{ℕ, suc, ◌≤◌, ◌≡◌, refl, [], ◌∷◌, ◌++◌, arith, ap, length, All}
use nanomsgpp.Prelude.Bytes.{Bytes}
use nanomsgpp.Client.Options.{EchoFormat}
use nanomsgpp.Client.Print.{ascii_bytes, print_message_part}

abbrev pub IsPrint : ℕ → Type 0
IsPrint b = (32 ≤ b) × (b ≤ 126)

length-ascii_bytes : (bs : Bytes) → length (ascii_bytes bs) ≡ length bs
unfolding ascii_bytes
length-ascii_bytes [] = refl
length-ascii_bytes (b ∷ bs) = ap suc (length-ascii_bytes bs)

ascii_bytes-IsPrint : (bs : Bytes) → All IsPrint (ascii_bytes bs)
unfolding ascii_bytes
ascii_bytes-IsPrint [] = tt
ascii_bytes-IsPrint (b ∷ bs) = (ground arith, ascii_bytes-IsPrint bs)

ascii_bytes-eq : (bs : Bytes) → All IsPrint bs → ascii_bytes bs ≡ bs
unfolding ascii_bytes
ascii_bytes-eq [] h = refl
ascii_bytes-eq (b ∷ bs) h = ground (arith, ascii_bytes-eq bs h.1)

-- The `ascii` format prints one line: as many bytes as the message has, all of them printable, and
-- a newline.
print_message_part-ascii :
    (bs : Bytes)
    → (line : Bytes) × (print_message_part EchoFormat.ascii bs ≡ line ++ 10 ∷ [])
      × (length line ≡ length bs)
      × All IsPrint line
unfolding print_message_part
print_message_part-ascii bs = (ascii_bytes bs, refl, length-ascii_bytes bs, ascii_bytes-IsPrint bs)

-- A message of printable bytes is shown in the `ascii` format as it is, with a newline behind it.
print_message_part-printable :
    (bs : Bytes) → All IsPrint bs → print_message_part EchoFormat.ascii bs ≡ bs ++ 10 ∷ []
unfolding print_message_part
print_message_part-printable bs h = ap (λ (line : Bytes). line ++ 10 ∷ []) (ascii_bytes-eq bs h)
