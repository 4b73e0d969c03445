-- ===== src/Prelude/Outcome.antt =====
-- How a call ends. `exit` is the macro error() of dsm_util.h (a message, then exit(EXIT_FAILURE)),
-- `fault` an access that C leaves undefined (NULL, freed memory, a page without the right),
-- `blocked` a thread that waits for a mutex, and `out_of_fuel` a loop cut off by its fuel.
use mathlib.Core.Path.{◌≡◌, refl, sym, ap}
use mathlib.Core.Bool.{Bool, true, false}
use mathlib.Core.Option.{Option, none, some}
use psar_dsm.Prelude.Tests.{if◌then◌else◌}

pub data Run {ℓ} (A : Type ℓ) : Type ℓ where
  ok : A → Run A
  exit fault blocked out_of_fuel : Run A

infixl 5 ◌>>=◌
abbrev pub ◌>>=◌ {ℓ κ} : {A : Type ℓ} {B : Type κ} → Run A → (A → Run B) → Run B
ok a >>= f = f a
exit >>= f = exit
fault >>= f = fault
blocked >>= f = blocked
out_of_fuel >>= f = out_of_fuel

pub ok-injective {ℓ} : {A : Type ℓ} {a b : A} → ok a ≡ ok b → a ≡ b
ok-injective {a = a} e = ap (λ r. elim r [ ok x ↦ x | _ ↦ a ]) e

-- The call returns, and its result satisfies `P`.
abbrev pub Ends {ℓ} : {A : Type ℓ} → (A → Type 0) → Run A → Type 0
Ends P (ok a) = P a
Ends P _ = ⊥

pub Ends-mono {ℓ} :
    {A : Type ℓ} (P Q : A → Type 0) (r : Run A) → ((a : A) → P a → Q a) → Ends P r → Ends Q r
Ends-mono P Q (ok a) f h = f a h
Ends-mono P Q exit f h = absurd h
Ends-mono P Q _ f h = absurd h

-- If the call returns, its result satisfies `P`.
abbrev pub IfOk {ℓ} : {A : Type ℓ} → (A → Type 0) → Run A → Type 0
IfOk P (ok a) = P a
IfOk P _ = Unit {0}

pub IfOk-bind {ℓ κ} :
    {A : Type ℓ} {B : Type κ} (P : B → Type 0) (r : Run A) (f : A → Run B)
    → ((a : A) → IfOk P (f a))
    → IfOk P (r >>= f)
IfOk-bind P (ok a) f h = h a
IfOk-bind P exit f h = tt
IfOk-bind P _ f h = tt

pub IfOk-chain {ℓ κ} :
    {A : Type ℓ} {B : Type κ} (Q : A → Type 0) (P : B → Type 0) (r : Run A) (f : A → Run B)
    → IfOk Q r
    → ((a : A) → Q a → IfOk P (f a))
    → IfOk P (r >>= f)
IfOk-chain Q P (ok a) f q h = h a q
IfOk-chain Q P exit f q h = tt
IfOk-chain Q P _ f q h = tt

pub IfOk-mono {ℓ} :
    {A : Type ℓ} (Q P : A → Type 0) (r : Run A) → IfOk Q r → ((a : A) → Q a → P a) → IfOk P r
IfOk-mono Q P (ok a) q h = h a q
IfOk-mono Q P exit q h = tt
IfOk-mono Q P _ q h = tt

pub >>=_assoc {ℓ κ μ} :
    {A : Type ℓ} {B : Type κ} {C : Type μ} (r : Run A) (f : A → Run B) (g : B → Run C)
    → (r >>= f >>= g) ≡ (r >>= λ a. f a >>= g)
>>=_assoc (ok a) f g = refl
>>=_assoc exit f g = refl
>>=_assoc fault f g = refl
>>=_assoc blocked f g = refl
>>=_assoc out_of_fuel f g = refl

pub IfOk-ok {ℓ} : {A : Type ℓ} (P : A → Type 0) (r : Run A) → ((a : A) → r ≡ ok a → P a) → IfOk P r
IfOk-ok P (ok a) h = h a refl
IfOk-ok P exit h = tt
IfOk-ok P _ h = tt

pub bind_cong {ℓ} :
    {A : Type ℓ} {B : Type 0} (r : Run A) (f g : A → Run B)
    → IfOk (λ a. f a ≡ g a) r
    → (r >>= f) ≡ (r >>= g)
bind_cong (ok a) f g h = h
bind_cong exit f g h = refl
bind_cong fault f g h = refl
bind_cong blocked f g h = refl
bind_cong out_of_fuel f g h = refl

pub if-IfOk {ℓ} :
    {A : Type ℓ} (P : A → Type 0) (b : Bool) (r r' : Run A)
    → IfOk P r
    → IfOk P r'
    → IfOk P (if b then r else r')
if-IfOk P true r r' h h' = h
if-IfOk P false r r' h h' = h'

-- Each branch may use its test.
pub cases-IfOk {ℓ} :
    {A : Type ℓ} (P : A → Type 0) (b : Bool) (r r' : Run A)
    → (b ≡ true → IfOk P r)
    → (b ≡ false → IfOk P r')
    → IfOk P (if b then r else r')
cases-IfOk P true r r' h h' = h refl
cases-IfOk P false r r' h h' = h' refl

pub option-IfOk {ℓ κ} :
    {A : Type ℓ} {B : Type κ} (P : B → Type 0) (o : Option A) (f : A → Run B)
    → ((a : A) → IfOk P (f a))
    → IfOk P (elim o [ none ↦ exit | some a ↦ f a ])
option-IfOk P none f h = tt
option-IfOk P (some a) f h = h a

pub if-exit {ℓ} :
    {A : Type ℓ} (b : Bool) (r r' : Run A) → r ≡ exit → r' ≡ exit → (if b then r else r') ≡ exit
if-exit true r r' h h' = h
if-exit false r r' h h' = h'

pub option-exit {ℓ κ} :
    {A : Type ℓ} {B : Type κ} (o : Option A) (f : A → Run B)
    → ((a : A) → f a ≡ exit)
    → elim o [ none ↦ exit | some a ↦ f a ] ≡ exit
option-exit none f h = refl
option-exit (some a) f h = h a

-- A test that the call makes again.
pub if_exit_again {ℓ} :
    {A : Type ℓ} (b : Bool) (r r' : Run A)
    → r ≡ r'
    → (b ≡ false → r' ≡ exit)
    → (if b then r else exit) ≡ r'
if_exit_again true r r' same e = same
if_exit_again false r r' same e = sym (e refl)

-- What a function does to the result may be done before or after the next call.
pub bind_through {ℓ κ} :
    {A : Type ℓ} {B : Type κ} (r : Run A) (g : A → A) (f : A → Run B) (h : B → Run B)
    → ((a : A) → f (g a) ≡ (f a >>= h))
    → (r >>= (λ a. ok (g a)) >>= f) ≡ (r >>= f >>= h)
bind_through (ok a) g f h same = same a
bind_through exit g f h same = refl
bind_through fault g f h same = refl
bind_through blocked g f h same = refl
bind_through out_of_fuel g f h same = refl

pub if_bind {ℓ} :
    {A : Type ℓ} (b : Bool) (r r' s s' : Run A) (h : A → Run A)
    → r ≡ (s >>= h)
    → r' ≡ (s' >>= h)
    → (if b then r else r') ≡ ((if b then s else s') >>= h)
if_bind true r r' s s' h e e' = e
if_bind false r r' s s' h e e' = e'

pub option_fault-IfOk {ℓ κ} :
    {A : Type ℓ} {B : Type κ} (P : B → Type 0) (o : Option A) (f : A → Run B)
    → ((a : A) → IfOk P (f a))
    → IfOk P (elim o [ none ↦ fault | some a ↦ f a ])
option_fault-IfOk P none f h = tt
option_fault-IfOk P (some a) f h = h a

pub if_true {ℓ} : {A : Type ℓ} (b : Bool) (x y : A) → b ≡ true → (if b then x else y) ≡ x
if_true true x y e = refl
if_true false x y e = cc

-- The call is not stopped by a mutex, and faults only where `may_fault` allows that; if it returns, its
-- result satisfies `P`.
abbrev pub Safe {ℓ} : {A : Type ℓ} → (may_fault : Bool) → (A → Type 0) → Run A → Type 0
Safe b P (ok a) = P a
Safe b P exit = Unit {0}
Safe b P fault = b ≡ true
Safe b P blocked = ⊥
Safe b P out_of_fuel = Unit {0}

pub Safe-chain {ℓ κ} :
    {A : Type ℓ} {B : Type κ} (b : Bool) (Q : A → Type 0) (P : B → Type 0) (r : Run A)
    (f : A → Run B)
    → Safe b Q r
    → ((a : A) → Q a → Safe b P (f a))
    → Safe b P (r >>= f)
Safe-chain b Q P (ok a) f q h = h a q
Safe-chain b Q P exit f q h = tt
Safe-chain b Q P fault f q h = q
Safe-chain b Q P blocked f q h = q
Safe-chain b Q P out_of_fuel f q h = tt

pub cases-Safe {ℓ} :
    {A : Type ℓ} (f : Bool) (P : A → Type 0) (b : Bool) (r r' : Run A)
    → (b ≡ true → Safe f P r)
    → (b ≡ false → Safe f P r')
    → Safe f P (if b then r else r')
cases-Safe f P true r r' h h' = h refl
cases-Safe f P false r r' h h' = h' refl

pub Safe-weaken {ℓ} :
    {A : Type ℓ} (b : Bool) (Q P : A → Type 0) (r : Run A)
    → Safe b Q r
    → ((a : A) → Q a → P a)
    → Safe b P r
Safe-weaken b Q P (ok a) q h = h a q
Safe-weaken b Q P exit q h = tt
Safe-weaken b Q P fault q h = q
Safe-weaken b Q P blocked q h = q
Safe-weaken b Q P out_of_fuel q h = tt
