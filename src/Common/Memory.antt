-- ===== src/Common/Memory.antt =====
-- The result of code that reads memory by index and that loops.
use Prim.Native.Nat.{ℕ, ◌<◌}
use mathlib.Core.Path.{◌≡◌, ap, refl}
use mathlib.Core.Logic.{◌⊎◌, inl, inr}
use mathlib.Core.List.{List}
use mathlib.Core.Option.{Option, none, some}
use webcm.Common.Lists.{length, get_elem?, get_elem?_lt}

-- `fault` is an access out of bounds; `stuck` means that a loop ran out of fuel. Neither is a value
-- of the program.
pub data Outcome {ℓ} (A : Type ℓ) : Type ℓ where
  ok : A → Outcome A
  fault : Outcome A
  stuck : Outcome A

infixl 5 ◌>>=◌
abbrev pub ◌>>=◌ {ℓ κ} : {A : Type ℓ} {B : Type κ} → Outcome A → (A → Outcome B) → Outcome B
ok a >>= f = f a
fault >>= f = fault
stuck >>= f = stuck

abbrev pub or_fault {ℓ} : {A : Type ℓ} → Option A → Outcome A
or_fault none = fault
or_fault (some a) = ok a

-- `p[i]`, for a pointer to the elements of the list.
unfoldable pub read {ℓ} : {A : Type ℓ} → List A → ℕ → Outcome A
read xs i = or_fault (get_elem? xs i)

pub read_lt {ℓ} : {A : Type ℓ} (xs : List A) (i : ℕ) → i < length xs → (a : A) × (read xs i ≡ ok a)
unfolding read
read_lt xs i h = let (a, e) = get_elem?_lt xs i h in (a, ap or_fault e)

-- What follows a part that may leave the function early: `none` is passed on.
abbrev pub and_then {ℓ κ} :
    {A : Type ℓ} {B : Type κ} → Outcome (Option A) → (A → Outcome (Option B)) → Outcome (Option B)
and_then (ok none) f = ok none
and_then (ok (some a)) f = f a
and_then fault f = fault
and_then stuck f = stuck

-- The code returns, and a value that it does not leave early with satisfies `P`.
abbrev pub Ends {ℓ} : {A : Type ℓ} → (A → Type 0) → Outcome (Option A) → Type 0
Ends P (ok none) = Unit
Ends P (ok (some a)) = P a
Ends P fault = ⊥
Ends P stuck = ⊥

pub Ends-and_then {ℓ κ} :
    {A : Type ℓ} {B : Type κ} (P : A → Type 0) (Q : B → Type 0) (m : Outcome (Option A))
    (f : A → Outcome (Option B))
    → Ends P m
    → ((a : A) → P a → Ends Q (f a))
    → Ends Q (and_then m f)
Ends-and_then P Q (ok none) f h k = tt
Ends-and_then P Q (ok (some a)) f h k = k a h
Ends-and_then P Q fault f h k = absurd h
Ends-and_then P Q stuck f h k = absurd h

pub Ends-mono {ℓ} :
    {A : Type ℓ} (P Q : A → Type 0) (m : Outcome (Option A))
    → ((a : A) → P a → Q a)
    → Ends P m
    → Ends Q m
Ends-mono P Q (ok none) f h = tt
Ends-mono P Q (ok (some a)) f h = f a h
Ends-mono P Q fault f h = absurd h
Ends-mono P Q stuck f h = absurd h

-- So it is one of the two values.
pub Ends-cases {ℓ} :
    {A : Type ℓ} (P : A → Type 0) (m : Outcome (Option A))
    → Ends P m
    → (m ≡ ok none) ⊎ ((a : A) × (m ≡ ok (some a)) × P a)
Ends-cases P (ok none) h = inl refl
Ends-cases P (ok (some a)) h = inr (a, refl, h)
Ends-cases P fault h = absurd h
Ends-cases P stuck h = absurd h

pub ok-injective {ℓ} : {A : Type ℓ} {a b : A} → ok a ≡ ok b → a ≡ b
ok-injective e = cc

pub read-some {ℓ} :
    {A : Type ℓ} (xs : List A) (i : ℕ) (a : A) → get_elem? xs i ≡ some a → read xs i ≡ ok a
unfolding read
read-some xs i a e = ap or_fault e

-- What the code returns, if it returns, satisfies `P`.
abbrev pub Returned {ℓ} : {A : Type ℓ} → (A → Type 0) → Outcome A → Type 0
Returned P (ok a) = P a
Returned P fault = Unit
Returned P stuck = Unit

pub Returned-bind {ℓ κ} :
    {A : Type ℓ} {B : Type κ} (P : A → Type 0) (Q : B → Type 0) (m : Outcome A) (f : A → Outcome B)
    → Returned P m
    → ((a : A) → P a → Returned Q (f a))
    → Returned Q (m >>= f)
Returned-bind P Q (ok a) f h k = k a h
Returned-bind P Q fault f h k = tt
Returned-bind P Q stuck f h k = tt

pub Returned-mono {ℓ} :
    {A : Type ℓ} (P Q : A → Type 0) (m : Outcome A)
    → ((a : A) → P a → Q a)
    → Returned P m
    → Returned Q m
Returned-mono P Q (ok a) f h = f a h
Returned-mono P Q fault f h = tt
Returned-mono P Q stuck f h = tt

pub read-none {ℓ} : {A : Type ℓ} (xs : List A) (i : ℕ) → get_elem? xs i ≡ none → read xs i ≡ fault
unfolding read
read-none xs i e = ap or_fault e
