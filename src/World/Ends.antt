-- ===== src/World/Ends.antt =====
-- How a command ends: postconditions for the proofs.
use nanomsgpp.Prelude.{◌≡◌, refl, Bool, true, false, Option, none, some}
use nanomsgpp.World.{World, Cmd, and_then, Outcome, ok, throws, terminated, undefined, running}

-- The command returns a value or throws, and the postcondition holds there.
abbrev pub Ends : {S A : Type 0} → (Option A → World S → Type 0) → Outcome S A → Type 0
Ends P (ok a w) = P (some a) w
Ends P (throws e w) = P none w
Ends P (terminated w) = ⊥
Ends P undefined = ⊥
Ends P (running w) = ⊥

-- Whatever the end, and also while a loop runs on, the world is in the set.
abbrev pub Always : {S A : Type 0} → (World S → Type 0) → Outcome S A → Type 0
Always P (ok a w) = P w
Always P (throws e w) = P w
Always P (terminated w) = P w
Always P undefined = Unit
Always P (running w) = P w

-- The command returns or throws in this world.
abbrev pub Leads : {S A : Type 0} → Outcome S A → World S → Type 0
Leads (ok a u) v = u ≡ v
Leads (throws e u) v = u ≡ v
Leads (terminated u) v = ⊥
Leads undefined v = ⊥
Leads (running u) v = ⊥

abbrev pub is_terminated : {S A : Type 0} → Outcome S A → Bool
is_terminated (terminated w) = true
is_terminated (ok a w) = false
is_terminated (throws e w) = false
is_terminated undefined = false
is_terminated (running w) = false

pub Ends-mono :
    {S A : Type 0} (P Q : Option A → World S → Type 0) (o : Outcome S A)
    → Ends P o
    → ((a : Option A) (w : World S) → P a w → Q a w)
    → Ends Q o
Ends-mono P Q (ok a w) h weaken = weaken (some a) w h
Ends-mono P Q (throws e w) h weaken = weaken none w h
Ends-mono P Q (terminated w) h weaken = h
Ends-mono P Q undefined h weaken = h
Ends-mono P Q (running w) h weaken = h

pub and_then-Ends :
    {S A B : Type 0} (P : Option A → World S → Type 0) (Q : Option B → World S → Type 0)
    (o : Outcome S A) (k : A → Cmd S B)
    → Ends P o
    → ((w : World S) → P none w → Q none w)
    → ((a : A) (w : World S) → P (some a) w → Ends Q (k a w))
    → Ends Q (and_then o k)
and_then-Ends P Q (ok a w) k h stop next = next a w h
and_then-Ends P Q (throws e w) k h stop next = stop w h
and_then-Ends P Q (terminated w) k h stop next = h
and_then-Ends P Q undefined k h stop next = h
and_then-Ends P Q (running w) k h stop next = h

-- A command that ends and does not throw returns.
pub Ends-ok :
    {S A : Type 0} (P : Option A → World S → Type 0) (o : Outcome S A)
    → Ends P o
    → ((w : World S) → ¬ P none w)
    → (a : A) × (w : World S) × (o ≡ ok a w) × P (some a) w
Ends-ok P (ok a w) h returns = (a, w, refl, h)
Ends-ok P (throws e w) h returns = absurd (returns w h)
Ends-ok P (terminated w) h returns = elim h [ ]
Ends-ok P undefined h returns = elim h [ ]
Ends-ok P (running w) h returns = elim h [ ]

-- A command that ends leads somewhere, and the postcondition holds there.
pub Ends-Leads :
    {S A : Type 0} (P : Option A → World S → Type 0) (o : Outcome S A)
    → Ends P o
    → (r : Option A) × (w : World S) × Leads o w × P r w
Ends-Leads P (ok a w) h = (some a, w, refl, h)
Ends-Leads P (throws e w) h = (none, w, refl, h)
Ends-Leads P (terminated w) h = elim h [ ]
Ends-Leads P undefined h = elim h [ ]
Ends-Leads P (running w) h = elim h [ ]
