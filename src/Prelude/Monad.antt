-- ===== src/Prelude/Monad.antt =====
-- `do` blocks over `Option`, where `none` is a fault: an exception, or a read that the source may
-- not make.
use mathlib.Core.Option.{Option, none, some}
use mathlib.Core.Path.{◌≡◌, refl, subst}
use mathlib.Core.Bool.{Bool, true, false}
use hyperion_ng_beta.Prelude.Tests.{if◌then◌else◌}

infixl 5 ◌>>=◌
abbrev pub ◌>>=◌ {ℓ κ} : {A : Type ℓ} {B : Type κ} → Option A → (A → Option B) → Option B
none >>= f = none
some a >>= f = f a

pub >>=-eq-some {ℓ κ} :
    {A : Type ℓ} {B : Type κ} (m : Option A) (f : A → Option B) {b : B}
    → (m >>= f) ≡ some b
    → (a : A) × (m ≡ some a) × (f a ≡ some b)
>>=-eq-some (some a) f h = (a, refl, h)
>>=-eq-some none f h = cc

-- The value has the property, if there is one.
abbrev pub OnSome {ℓ κ} : {A : Type ℓ} → (A → Type κ) → Option A → Type κ
OnSome P none = Unit
OnSome P (some a) = P a

pub OnSome-bind {ℓ κ μ ν} :
    {A : Type ℓ} {B : Type κ} (P : A → Type μ) (Q : B → Type ν) (m : Option A) (f : A → Option B)
    → OnSome P m
    → ((a : A) → P a → OnSome Q (f a))
    → OnSome Q (m >>= f)
OnSome-bind P Q (some a) f h k = k a h
OnSome-bind P Q none f h k = tt

pub OnSome-eq {ℓ κ} :
    {A : Type ℓ} (P : A → Type κ) (m : Option A) {a : A} → OnSome P m → m ≡ some a → P a
OnSome-eq P (some b) {a} h e = let same : b ≡ a = cc in subst P same h
OnSome-eq P none h e = cc

pub OnSome-if {ℓ κ} :
    {A : Type ℓ} (P : A → Type κ) (b : Bool) (x y : Option A)
    → OnSome P x
    → OnSome P y
    → OnSome P (if b then x else y)
OnSome-if P true x y h k = h
OnSome-if P false x y h k = k

pub OnSome-any {ℓ} : {A : Type ℓ} (o : Option A) → OnSome (λ _. Unit {0}) o
OnSome-any none = tt
OnSome-any (some b) = tt

-- There is a value, and it has the property.
abbrev pub Gives {ℓ κ} : {A : Type ℓ} → (A → Type κ) → Option A → Type (ℓ ⊔ κ)
Gives {A} P o = (a : A) × (o ≡ some a) × P a

pub Gives-bind {ℓ κ μ ν} :
    {A : Type ℓ} {B : Type κ} (P : A → Type μ) (Q : B → Type ν) (m : Option A) (f : A → Option B)
    → Gives P m
    → ((a : A) → P a → Gives Q (f a))
    → Gives Q (m >>= f)
Gives-bind P Q m f (a, e, h) k = rw e (k a h)

pub Gives-some {ℓ κ} : {A : Type ℓ} (P : A → Type κ) {a : A} → Gives P (some a) → P a
Gives-some P {a} (b, e, h) = let same : b ≡ a = cc in subst P same h

pub Gives-if {ℓ κ} :
    {A : Type ℓ} (P : A → Type κ) (b : Bool) (x y : Option A)
    → (b ≡ true → Gives P x)
    → (b ≡ false → Gives P y)
    → Gives P (if b then x else y)
Gives-if P true x y h k = h refl
Gives-if P false x y h k = k refl
