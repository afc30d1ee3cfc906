-- ===== src/Client/Options/Names.antt =====
-- The names of socket types and echo formats on the command line.
use nanomsgpp.Prelude.{
  ℕ, ◌≤◌, ◌≡◌, refl, ap, ◌∙◌, ◌⊎◌, inl, inr, Bool, true, Option, none, some, arith, Option-cases,
  ◌||◌,
}
use nanomsgpp.Prelude.Bytes.{Bytes, codes, bytes_eq, bytes_eq_iff}
use nanomsgpp.SocketType.{
  SocketType, request, reply, push, pull, publish, subscribe, surveyor, respondent, bus, pair,
}
use nanomsgpp.World.{World, Exception, invalid_argument, Outcome, ok, throws}
use nanomsgpp.Client.Options.{Options, EchoFormat, choose_type, get_type, get_format}

-- The synopsis of docs/Client.md.
unfoldable pub type_name : SocketType → Bytes
type_name request = codes "req"
type_name reply = codes "rep"
type_name push = codes "push"
type_name pull = codes "pull"
type_name publish = codes "pub"
type_name subscribe = codes "sub"
type_name surveyor = codes "surveyor"
type_name respondent = codes "respondent"
type_name bus = codes "bus"
type_name pair = codes "pair"

choose_type-type_name {ℓ} :
    {A : Type ℓ} (t : SocketType) (found : SocketType → A) (other : A)
    → choose_type (type_name t) found other ≡ found t
unfolding choose_type type_name bytes_eq
choose_type-type_name request found other = refl
choose_type-type_name reply found other = refl
choose_type-type_name push found other = refl
choose_type-type_name pull found other = refl
choose_type-type_name publish found other = refl
choose_type-type_name subscribe found other = refl
choose_type-type_name surveyor found other = refl
choose_type-type_name respondent found other = refl
choose_type-type_name bus found other = refl
choose_type-type_name pair found other = refl

-- The type that a name stands for.
type_of_name : Bytes → Option SocketType
unfolding choose_type
type_of_name n = choose_type n some none

type_of_name-type_name : (t : SocketType) → type_of_name (type_name t) ≡ some t
unfolding type_of_name
type_of_name-type_name t = choose_type-type_name t some none

type_of_name-some : (n : Bytes) (t : SocketType) → type_of_name n ≡ some t → n ≡ type_name t
unfolding type_of_name type_name
type_of_name-some n t h = ground (
  arith,
  bytes_eq_iff n (codes "req"),
  bytes_eq_iff n (codes "rep"),
  bytes_eq_iff n (codes "push"),
  bytes_eq_iff n (codes "pull"),
  bytes_eq_iff n (codes "pub"),
  bytes_eq_iff n (codes "sub"),
  bytes_eq_iff n (codes "surveyor"),
  bytes_eq_iff n (codes "respondent"),
  bytes_eq_iff n (codes "bus"),
  bytes_eq_iff n (codes "pair"),
)

abbrev pub type_error : Exception
type_error = invalid_argument (codes "Invalid argument \"type\"")

abbrev result : {S : Type 0} → Option SocketType → World S → Outcome S SocketType
result none w = throws type_error w
result (some t) w = ok t w

get_type-result :
    {S : Type 0} (ops : Options) (w : World S) → get_type ops w ≡ result (type_of_name ops.type) w
unfolding get_type type_of_name
get_type-result ops w = ground arith

pub get_type-type_name :
    {S : Type 0} (ops : Options) (t : SocketType) (w : World S)
    → ops.type ≡ type_name t
    → get_type ops w ≡ ok t w
get_type-type_name ops t w named =
    get_type-result ops w
    ∙ ap (λ (o : Option SocketType). result o w) (ap type_of_name named ∙ type_of_name-type_name t)

-- `get_type` returns, without effect, the one type whose name on the command line `type` is; where
-- it is the name of no type, it throws `invalid_argument`.
pub get_type-cases :
    {S : Type 0} (ops : Options) (w : World S)
    → ((t : SocketType) × (ops.type ≡ type_name t) × (get_type ops w ≡ ok t w))
      ⊎ (((t : SocketType) → ¬ (ops.type ≡ type_name t)) × (get_type ops w ≡ throws type_error w))
get_type-cases {S} ops w = elim (Option-cases (type_of_name ops.type)) [
  | inl e ↦ inr (not_named e, get_type-result ops w ∙ ap (λ (o : Option SocketType). result o w) e)
  | inr (t, e) ↦ inl (
    t,
    type_of_name-some ops.type t e,
    get_type-result ops w ∙ ap (λ (o : Option SocketType). result o w) e,
  )
]
  where
    not_named : type_of_name ops.type ≡ none → (t : SocketType) → ¬ (ops.type ≡ type_name t)
    not_named e t named = ground (arith, type_of_name-type_name t, ap type_of_name named)

abbrev pub wins : Options → EchoFormat → Bool
wins ops EchoFormat.raw = bytes_eq ops.format (codes "raw") || ops.raw
wins ops EchoFormat.ascii = bytes_eq ops.format (codes "ascii") || ops.ascii
wins ops EchoFormat.quoted = bytes_eq ops.format (codes "quoted") || ops.quoted
wins ops EchoFormat.msgpack = bytes_eq ops.format (codes "msgpack")
wins ops EchoFormat.none = true

-- How strongly a format is preferred.
abbrev pub rank : EchoFormat → ℕ
rank EchoFormat.raw = 0
rank EchoFormat.ascii = 1
rank EchoFormat.quoted = 2
rank EchoFormat.msgpack = 3
rank EchoFormat.none = 4

-- Where the options ask for a format, by name or by flag, `get_format` gives one that they ask for
-- and that comes no later in the order raw, ascii, quoted, msgpack; no echo, the last, is always
-- asked for.
pub get_format-first :
    (ops : Options) (f : EchoFormat)
    → wins ops f ≡ true
    → (wins ops (get_format ops) ≡ true) × (rank (get_format ops) ≤ rank f)
unfolding get_format
get_format-first ops EchoFormat.raw h = (ground arith, ground arith)
get_format-first ops EchoFormat.ascii h = (ground arith, ground arith)
get_format-first ops EchoFormat.quoted h = (ground arith, ground arith)
get_format-first ops EchoFormat.msgpack h = (ground arith, ground arith)
get_format-first ops EchoFormat.none h = (ground arith, ground arith)
