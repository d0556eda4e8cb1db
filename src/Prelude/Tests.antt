-- ===== src/Prelude/Tests.antt =====
-- Boolean tests on the native numbers, the conditional, and splits that keep the equation.
use Prim.Native.Nat.{ℕ, compare, Ordering}
use mathlib.Core.Bool.{Bool, true, false}
use mathlib.Core.Logic.{◌⊎◌, inl, inr, ite}
use mathlib.Core.Option.{Option, none, some}
use mathlib.Core.Path.{◌≡◌, refl}

abbrev pub ltb : ℕ → ℕ → Bool
ltb a b = elim (compare a b) [ Ordering.lt ↦ true | _ ↦ false ]

abbrev pub leb : ℕ → ℕ → Bool
leb a b = elim (compare a b) [ Ordering.gt ↦ false | _ ↦ true ]

infix 50 ◌==◌
abbrev pub ◌==◌ : ℕ → ℕ → Bool
a == b = elim (compare a b) [ Ordering.eq ↦ true | _ ↦ false ]

infix 1 if◌then◌else◌
abbrev pub if◌then◌else◌ {ℓ} : {A : Type ℓ} → Bool → A → A → A
if true then x else y = x
if false then x else y = y

-- Whether a decision is positive.
abbrev pub holds {ℓ} : {A : Type ℓ} → Dec A → Bool
holds (yes p) = true
holds (no p) = false

pub holds_sound {ℓ} : {A : Type ℓ} (d : Dec A) → holds d ≡ true → A
holds_sound (yes p) e = p
holds_sound (no p) e = cc

pub holds_complete {ℓ} : {A : Type ℓ} (d : Dec A) → A → holds d ≡ true
holds_complete (yes p) a = refl
holds_complete (no p) a = absurd (p a)

pub Bool-cases : (b : Bool) → (b ≡ true) ⊎ (b ≡ false)
Bool-cases true = inl refl
Bool-cases false = inr refl

pub Option-cases {ℓ} : {A : Type ℓ} (o : Option A) → (o ≡ none) ⊎ ((a : A) × (o ≡ some a))
Option-cases none = inl refl
Option-cases (some a) = inr (a, refl)

-- `if v, ok := o; ok { … }` as an expression: a value for `none`, and a function of what is there.
abbrev pub maybe {ℓ κ} : {A : Type ℓ} {B : Type κ} → B → (A → B) → Option A → B
maybe b f none = b
maybe b f (some a) = f a

-- Two such expressions over one value are related if their branches are; so for conditionals.
pub maybe_related {ℓ κ μ ν} :
    {A : Type ℓ} {B : Type κ} {C : Type μ} (R : B → C → Type ν) {b : B} {c : C} {f : A → B}
    {g : A → C} (o : Option A)
    → R b c
    → ((a : A) → R (f a) (g a))
    → R (maybe b f o) (maybe c g o)
maybe_related R none p q = p
maybe_related R (some a) p q = q a

pub if_related {κ μ ν} :
    {B : Type κ} {C : Type μ} (R : B → C → Type ν) {b b' : B} {c c' : C} (t : Bool)
    → R b c
    → R b' c'
    → R (if t then b else b') (if t then c else c')
if_related R true p q = p
if_related R false p q = q

-- As `maybe_related`, where the branch may use which value is there.
pub maybe_related_at {ℓ κ μ ν} :
    {A : Type ℓ} {B : Type κ} {C : Type μ} (R : B → C → Type ν) {b : B} {c : C} {f : A → B}
    {g : A → C} (o : Option A)
    → R b c
    → ((a : A) → o ≡ some a → R (f a) (g a))
    → R (maybe b f o) (maybe c g o)
maybe_related_at R none p q = p
maybe_related_at R (some a) p q = q a refl

pub maybe_case {ℓ κ μ} :
    {A : Type ℓ} {B : Type κ} (P : B → Type μ) {b : B} {f : A → B} (o : Option A)
    → (o ≡ none → P b)
    → ((a : A) → o ≡ some a → P (f a))
    → P (maybe b f o)
maybe_case P none p q = p refl
maybe_case P (some a) p q = q a refl

pub ite_case {ℓ κ μ} :
    {A : Type ℓ} {B : Type κ} (P : B → Type μ) {b c : B} (d : Dec A)
    → (A → P b)
    → (¬ A → P c)
    → P (ite d b c)
ite_case P (yes a) p q = p a
ite_case P (no a) p q = q a

pub ite_related {ℓ κ μ ν} :
    {A : Type ℓ} {B : Type κ} {C : Type μ} (R : B → C → Type ν) {b b' : B} {c c' : C} (d : Dec A)
    → (A → R b c)
    → (¬ A → R b' c')
    → R (ite d b b') (ite d c c')
ite_related R (yes a) p q = p a
ite_related R (no a) p q = q a

pub maybe-eq-some {ℓ κ} :
    {A : Type ℓ} {B : Type κ} (f : A → Option B) (o : Option A) {b : B}
    → maybe none f o ≡ some b
    → (a : A) × (o ≡ some a) × (f a ≡ some b)
maybe-eq-some f none e = cc
maybe-eq-some f (some a) e = (a, refl, e)

pub if_case {κ μ} :
    {B : Type κ} (P : B → Type μ) {b c : B} (t : Bool) → P b → P c → P (if t then b else c)
if_case P true p q = p
if_case P false p q = q
