-- ===== src/Base/Tests.antt =====
-- Boolean tests on the native numbers, and the conditional.
use Prim.Native.Nat.{ℕ, compare, Ordering}
use mathlib.Core.Path.{◌≡◌, refl, subst}
use mathlib.Core.Logic.{◌↔◌, ◌⊎◌, inl, inr}
use mathlib.Core.Bool.{Bool, true, false}
use mathlib.Core.Option.{Option, none, some}
use mathlib.Core.List.{List, [], ◌∷◌}
use native.Mathlib.Omega.{arith}

abbrev pub ltb : ℕ → ℕ → Bool
ltb a b = elim (compare a b) [ Ordering.lt ↦ true | _ ↦ false ]

abbrev pub leb : ℕ → ℕ → Bool
leb a b = elim (compare a b) [ Ordering.gt ↦ false | _ ↦ true ]

infix 50 ◌==◌
abbrev pub ◌==◌ : ℕ → ℕ → Bool
a == b = elim (compare a b) [ Ordering.eq ↦ true | _ ↦ false ]

infix 1 if◌then◌else◌
abbrev pub if◌then◌else◌ {ℓ} : {A : Type ℓ} → Bool → A → A → A
if true then x else y = x
if false then x else y = y

pub ==_iff : (a b : ℕ) → ((a == b) ≡ true) ↔ (a ≡ b)
==_iff a b = ground arith

pub Bool-cases : (b : Bool) → (b ≡ true) ⊎ (b ≡ false)
Bool-cases true = inl refl
Bool-cases false = inr refl

pub Option-cases {ℓ} : {A : Type ℓ} (o : Option A) → (o ≡ none) ⊎ ((a : A) × (o ≡ some a))
Option-cases none = inl refl
Option-cases (some a) = inr (a, refl)

-- `none` is a fault of the C program: a null pointer followed, a read or a write out of range.
infixl 5 ◌>>=◌
abbrev pub ◌>>=◌ {ℓ κ} : {A : Type ℓ} {B : Type κ} → Option A → (A → Option B) → Option B
none >>= f = none
some a >>= f = f a

pub >>=-eq-some {ℓ κ} :
    {A : Type ℓ} {B : Type κ} (m : Option A) (f : A → Option B) {b : B}
    → (m >>= f) ≡ some b
    → (a : A) × (m ≡ some a) × (f a ≡ some b)
>>=-eq-some none f h = cc
>>=-eq-some (some a) f h = (a, refl, h)

-- What a result satisfies, where there is one.
abbrev pub Cumple {ℓ} : {A : Type ℓ} → (A → Type 0) → Option A → Type 0
Cumple P none = Unit {0}
Cumple P (some a) = P a

pub Cumple->>= {ℓ κ} :
    {A : Type ℓ} {B : Type κ} (P : A → Type 0) (Q : B → Type 0) (m : Option A) (f : A → Option B)
    → Cumple P m
    → ((a : A) → P a → Cumple Q (f a))
    → Cumple Q (m >>= f)
Cumple->>= P Q none f h g = tt
Cumple->>= P Q (some a) f h g = g a h

-- The same, of a step of which nothing is known.
pub Cumple->>=_any {ℓ κ} :
    {A : Type ℓ} {B : Type κ} (Q : B → Type 0) (m : Option A) (f : A → Option B)
    → ((a : A) → m ≡ some a → Cumple Q (f a))
    → Cumple Q (m >>= f)
Cumple->>=_any Q none f g = tt
Cumple->>=_any Q (some a) f g = g a refl

pub Cumple-if {ℓ} :
    {A : Type ℓ} (Q : A → Type 0) (b : Bool) (x y : Option A)
    → Cumple Q x
    → Cumple Q y
    → Cumple Q (if b then x else y)
Cumple-if Q true x y h g = h
Cumple-if Q false x y h g = g

pub Cumple-imp {ℓ} :
    {A : Type ℓ} (P Q : A → Type 0) (m : Option A) → ((a : A) → P a → Q a) → Cumple P m → Cumple Q m
Cumple-imp P Q none f h = tt
Cumple-imp P Q (some a) f h = f a h

pub Cumple-y {ℓ} :
    {A : Type ℓ} (P Q : A → Type 0) (m : Option A)
    → Cumple P m
    → Cumple Q m
    → Cumple (λ a. P a × Q a) m
Cumple-y P Q none h g = tt
Cumple-y P Q (some a) h g = (h, g)

pub Cumple-some {ℓ} :
    {A : Type ℓ} (Q : A → Type 0) (m : Option A) {a : A} → Cumple Q m → m ≡ some a → Q a
Cumple-some Q none h e = cc
Cumple-some Q (some b) {a} h e = let v : b ≡ a = cc in subst Q v h

-- `strcmp` against 0
abbrev pub iguales : List ℕ → List ℕ → Bool
iguales [] [] = true
iguales [] (y ∷ ys) = false
iguales (x ∷ xs) [] = false
iguales (x ∷ xs) (y ∷ ys) = let resto = iguales xs ys in if x == y then resto else false
