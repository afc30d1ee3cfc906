-- ===== src/Client/Print/Messages.antt =====
-- `print_message` over all parts of a message.
use nanomsgpp.Prelude.{
  ◌≡◌, refl, sym, none, some, Option, List, [], ◌∷◌, ◌++◌, ap, ◌∙◌, inl, inr, Bool-cases,
  if◌then◌else◌,
}
use mathlib.Core.List.{append_assoc, append-nil}
use nanomsgpp.Prelude.Bytes.{Bytes}
use nanomsgpp.Memory.{Heap, c_string, cells_at}
use nanomsgpp.World.{World, Outcome, ok, undefined, and_then}
use nanomsgpp.Message.{Part, Message}
use nanomsgpp.Client.Options.{Options, EchoFormat, get_format}
use nanomsgpp.Client.Print.{can_print, print_message_part, print_text, print_parts, print_message}

-- The texts of the parts, each up to its first NUL; `none` if one of them has no NUL to stop at.
abbrev pub cons_text : Option Bytes → Option (List Bytes) → Option (List Bytes)
cons_text none ts = none
cons_text (some t) none = none
cons_text (some t) (some ts) = some (t ∷ ts)

-- A text where the code that prints it is defined.
abbrev pub shown : EchoFormat → Option Bytes → Option Bytes
shown f none = none
shown f (some t) = if can_print f t then some t else none

abbrev pub texts : EchoFormat → Heap → List Part → Option (List Bytes)
texts f h [] = some []
texts f h (p ∷ ps) = cons_text (shown f (c_string (cells_at h p.d_msg))) (texts f h ps)

abbrev pub printed : EchoFormat → List Bytes → Bytes
printed f [] = []
printed f (t ∷ ts) = print_message_part f t ++ printed f ts

abbrev pub print_end :
    {S : Type 0} → EchoFormat → Option (List Bytes) → World S → Outcome S (Unit {0})
print_end f none w = undefined
print_end f (some ts) w = ok tt (record w { out = w.out ++ printed f ts })

add_text :
    {S : Type 0} (f : EchoFormat) (t : Bytes) (ts : Option (List Bytes)) (w : World S)
    → print_end f ts (record w { out = w.out ++ print_message_part f t })
      ≡ print_end f (cons_text (some t) ts) w
add_text f t none w = refl
add_text f t (some ts) w =
    ap (λ (o : Bytes). ok tt (record w { out = o }))
      (append_assoc w.out (print_message_part f t) (printed f ts))

print_parts-texts :
    {S : Type 0} (f : EchoFormat) (ps : List Part) (w : World S)
    → print_parts f ps w ≡ print_end f (texts f w.heap ps) w
unfolding print_parts
print_parts-texts f [] w = ap (λ (o : Bytes). ok tt (record w { out = o })) (sym (append-nil w.out))
print_parts-texts {S} f (p ∷ ps) w =
    first (c_string (cells_at w.heap p.d_msg)) (print_parts-texts f ps)
  where
    first :
        (o : Option Bytes)
        → ((v : World S) → print_parts f ps v ≡ print_end f (texts f v.heap ps) v)
        → and_then (print_text f o w) (λ _. print_parts f ps)
          ≡ print_end f (cons_text (shown f o) (texts f w.heap ps)) w
    first none rest = refl
    first (some t) rest = elim (Bool-cases (can_print f t)) [
      | inl defined ↦ rw defined (rest _ ∙ add_text f t (texts f w.heap ps) w)
      | inr bad ↦ rw bad refl
    ]

-- `print_message` is undefined just where some part has no NUL among its bytes, since `strlen` then
-- reads past the buffer, or a text for which the printing is not defined. Otherwise it prints, in order and in the format asked for, what each part
-- holds before its first NUL, and changes nothing but the output.
pub print_message-texts :
    {S : Type 0} (m : Message) (ops : Options) (w : World S)
    → print_message m ops w ≡ print_end (get_format ops) (texts (get_format ops) w.heap m.d_parts) w
unfolding print_message
print_message-texts m ops w = print_parts-texts (get_format ops) m.d_parts w
