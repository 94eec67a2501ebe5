-- ===== src/Common/Tests.antt =====
-- Boolean tests on the native numbers, the conditional, and chains of steps that may fail.
use Prim.Native.Nat.{ℕ, compare, Ordering}
use mathlib.Core.Path.{◌≡◌, refl, subst}
use mathlib.Core.Logic.{◌↔◌, ◌⊎◌, inl, inr}
use mathlib.Core.Bool.{Bool, true, false}
use mathlib.Core.Option.{Option, none, some}
use native.Mathlib.Omega.{arith}

abbrev pub ltb : ℕ → ℕ → Bool
ltb a b = elim (compare a b) [ Ordering.lt ↦ true | _ ↦ false ]

abbrev pub leb : ℕ → ℕ → Bool
leb a b = elim (compare a b) [ Ordering.gt ↦ false | _ ↦ true ]

infix 50 ◌==◌
abbrev pub ◌==◌ : ℕ → ℕ → Bool
a == b = elim (compare a b) [ Ordering.eq ↦ true | _ ↦ false ]

infix 1 if◌then◌else◌
abbrev pub if◌then◌else◌ {ℓ} : {A : Type ℓ} → Bool → A → A → A
if true then x else y = x
if false then x else y = y

pub ==_iff : (a b : ℕ) → ((a == b) ≡ true) ↔ (a ≡ b)
==_iff a b = ground arith

pub Bool-cases : (b : Bool) → (b ≡ true) ⊎ (b ≡ false)
Bool-cases true = inl refl
Bool-cases false = inr refl

pub Option-cases {ℓ} : {A : Type ℓ} (o : Option A) → (o ≡ none) ⊎ ((a : A) × (o ≡ some a))
Option-cases none = inl refl
Option-cases (some a) = inr (a, refl)

-- A step whose failure, `none`, ends the whole computation.
infixl 5 ◌>>=◌ ◌>>◌
abbrev pub ◌>>=◌ {ℓ κ} : {A : Type ℓ} {B : Type κ} → Option A → (A → Option B) → Option B
none >>= f = none
some a >>= f = f a

abbrev pub ◌>>◌ {ℓ} : {B : Type ℓ} → Option (Unit {0}) → Option B → Option B
m >> k = m >>= λ _. k

abbrev pub guard : Bool → Option (Unit {0})
guard true = some tt
guard false = none

-- Inversion of a chain that does not fail.
pub >>=-eq-some {ℓ κ} :
    {A : Type ℓ} {B : Type κ} (m : Option A) (f : A → Option B) {b : B}
    → (m >>= f) ≡ some b
    → (a : A) × (m ≡ some a) × (f a ≡ some b)
>>=-eq-some none f h = cc
>>=-eq-some (some a) f h = (a, refl, h)

pub guard-eq-some {ℓ} :
    {A : Type ℓ} (b : Bool) (k : Option A) {x : A}
    → (guard b >> k) ≡ some x
    → (b ≡ true) × (k ≡ some x)
guard-eq-some true k h = (refl, h)
guard-eq-some false k h = cc

-- The computation succeeds, with a result that has the property.
abbrev pub Succeeds {ℓ} : {A : Type ℓ} → (A → Type 0) → Option A → Type 0
Succeeds P none = ⊥
Succeeds P (some a) = P a

pub Succeeds-bind {ℓ κ} :
    {A : Type ℓ} {B : Type κ} (P : A → Type 0) (Q : B → Type 0) (m : Option A) (f : A → Option B)
    → ((a : A) → P a → Succeeds Q (f a))
    → Succeeds P m
    → Succeeds Q (m >>= f)
Succeeds-bind P Q none f k h = h
Succeeds-bind P Q (some a) f k h = k a h

pub Succeeds-mono {ℓ} :
    {A : Type ℓ} (P Q : A → Type 0) (m : Option A)
    → ((a : A) → P a → Q a)
    → Succeeds P m
    → Succeeds Q m
Succeeds-mono P Q none f h = h
Succeeds-mono P Q (some a) f h = f a h

-- If the computation succeeds, its result has the property.
abbrev pub Ensures {ℓ} : {A : Type ℓ} → (A → Type 0) → Option A → Type 0
Ensures P none = Unit
Ensures P (some a) = P a

pub Ensures-bind {ℓ κ} :
    {A : Type ℓ} {B : Type κ} (P : A → Type 0) (Q : B → Type 0) (m : Option A) (f : A → Option B)
    → ((a : A) → P a → Ensures Q (f a))
    → Ensures P m
    → Ensures Q (m >>= f)
Ensures-bind P Q none f k h = tt
Ensures-bind P Q (some a) f k h = k a h

pub Ensures-mono {ℓ} :
    {A : Type ℓ} (P Q : A → Type 0) (m : Option A)
    → ((a : A) → P a → Q a)
    → Ensures P m
    → Ensures Q m
Ensures-mono P Q none f h = tt
Ensures-mono P Q (some a) f h = f a h

pub Ensures-any {ℓ} : {A : Type ℓ} (m : Option A) → Ensures (λ _. Unit) m
Ensures-any none = tt
Ensures-any (some a) = tt

pub Succeeds-Ensures {ℓ} :
    {A : Type ℓ} (P Q : A → Type 0) (m : Option A)
    → Succeeds P m
    → Ensures Q m
    → Succeeds (λ a. P a × Q a) m
Succeeds-Ensures P Q (some a) h k = (h, k)
Succeeds-Ensures P Q none h k = h

pub Ensures-some {ℓ} :
    {A : Type ℓ} (P : A → Type 0) (m : Option A) {a : A} → m ≡ some a → Ensures P m → P a
Ensures-some P m e h = subst (Ensures P) e h
