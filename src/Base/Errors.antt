-- ===== src/Base/Errors.antt =====
-- Python's exceptions as values, and actions that change a state and may raise. What was written
-- before a raise stays written, so the state comes back beside the exception too.
use Prim.Native.String.{String}
use mathlib.Core.Path.{◌≡◌, refl, subst}
use mathlib.Core.Option.{Option, none, some}
use mathlib.Core.Bool.{Bool, true, false}
use mathlib.Core.List.{List, [], ◌∷◌}
use agentic_sdd_governance.Base.Tests.{if◌then◌else◌}
use agentic_sdd_governance.Base.Lists.{All}

-- The exceptions that the program raises or catches; a `ValueError` carries its message.
pub data Exn : Type 0 where
  value_error : String → Exn
  os_error : String → Exn
  type_error key_error attribute_error file_not_found : Exn

pub data Result {ℓ} (A : Type ℓ) : Type ℓ where
  err : Exn → Result A
  ok : A → Result A

-- A statement, and what follows it if it did not raise.
infixl 5 ◌>>=◌ ◌>>◌
abbrev pub ◌>>=◌ {ℓ κ} :
    {A : Type ℓ} {B : Type κ} (first : Result A) (next : A → Result B) → Result B
err exception >>= next = err exception
ok value >>= next = next value

abbrev pub ◌>>◌ {ℓ} : {B : Type ℓ} (check : Result (Unit {0})) (next : Result B) → Result B
check >> next = check >>= λ passed. next

-- `if bad: raise ValueError(message)`
abbrev pub refuse : Bool → String → Result (Unit {0})
refuse true message = err (value_error message)
refuse false message = ok tt

pub refuse-eq-ok : (b : Bool) (m : String) {u : Unit {0}} → refuse b m ≡ ok u → b ≡ false
refuse-eq-ok true m h = cc
refuse-eq-ok false m h = refl

-- What follows a test gives the value only where the test has not refused.
pub >>-eq-ok {ℓ} :
    {B : Type ℓ} (bad : Bool) (message : String) (next : Result B) {value : B}
    → (refuse bad message >> next) ≡ ok value
    → (bad ≡ false) × (next ≡ ok value)
>>-eq-ok true message next h = cc
>>-eq-ok false message next h = (refl, h)

-- Where both statements return, so did the first, and the second gives the value.
pub >>=-eq-ok {ℓ κ} :
    {A : Type ℓ} {B : Type κ} (m : Result A) (next : A → Result B) {value : B}
    → (m >>= next) ≡ ok value
    → (first : A) × (m ≡ ok first) × (next first ≡ ok value)
>>=-eq-ok (err exception) next returned = cc
>>=-eq-ok (ok first) next returned = (first, refl, returned)

-- An action over a state.
abbrev pub Exec {ℓ κ} : Type ℓ → Type κ → Type (ℓ ⊔ κ)
Exec S A = S → Result A × S

-- The continuation of an action: it runs only if nothing was raised.
abbrev pub after {ℓ κ} : {S : Type ℓ} {A B : Type κ} → Result A × S → (A → Exec S B) → Result B × S
after (ok a, s) f = f a s
after (err e, s) f = (err e, s)

-- What a raise leaves, and what the continuation keeps, is kept by the whole.
pub after-keeps {ℓ κ μ} :
    {S : Type ℓ} {A B : Type κ} (P : S → Type μ) (x : Result A) (s : S) (f : A → Exec S B)
    → P s
    → ((a : A) → x ≡ ok a → P (f a s).1)
    → P (after (x, s) f).1
after-keeps P (ok a) s f h k = k a refl
after-keeps P (err e) s f h k = h

pub ok-injective {ℓ} : {A : Type ℓ} {a b : A} → ok a ≡ ok b → a ≡ b
ok-injective h = cc

pub if-keeps {ℓ κ} :
    {A : Type ℓ} (P : A → Type κ) (b : Bool) (x y : A)
    → (b ≡ true → P x)
    → (b ≡ false → P y)
    → P (if b then x else y)
if-keeps P true x y hx hy = hx refl
if-keeps P false x y hx hy = hy refl

-- A test that is seen through: the other branch is not the outcome.
pub if-then {ℓ} :
    {A : Type ℓ} (b : Bool) (x y : A) {z : A}
    → ¬ (y ≡ z)
    → (if b then x else y) ≡ z
    → (b ≡ true) × (x ≡ z)
if-then true x y h e = (refl, e)
if-then false x y h e = absurd (h e)

pub if-else {ℓ} :
    {A : Type ℓ} (b : Bool) (x y : A) {z : A}
    → ¬ (x ≡ z)
    → (if b then x else y) ≡ z
    → (b ≡ false) × (y ≡ z)
if-else true x y h e = absurd (h e)
if-else false x y h e = (refl, e)

-- An action that returns has run its continuation.
pub after-eq-ok {ℓ κ} :
    {S : Type ℓ} {A B : Type κ} (x : Result A) (s : S) (f : A → Exec S B) {b : B}
    → (after (x, s) f).0 ≡ ok b
    → (a : A) × (x ≡ ok a) × (after (x, s) f ≡ f a s)
after-eq-ok (ok a) s f h = (a, refl, refl)
after-eq-ok (err e) s f h = cc

-- A property of what is returned, if anything is.
abbrev pub Every {ℓ κ} : {A : Type ℓ} → (A → Type κ) → Option A → Type κ
Every P none = Unit
Every P (some a) = P a

pub Every-eq-some {ℓ κ} :
    {A : Type ℓ} (P : A → Type κ) (o : Option A) {a : A} → Every P o → o ≡ some a → P a
Every-eq-some P o h e = subst (Every P) e h

-- A ladder of guards: `if test: return answer`, one after another.
unfoldable pub first {ℓ} : {A : Type ℓ} → List (Bool × A) → Option A
first [] = none
first ((test, answer) ∷ guards) = if test then some answer else first guards

pub first-Every {ℓ κ} :
    {A : Type ℓ} (P : A → Type κ) (guards : List (Bool × A))
    → All (λ g. P g.1) guards
    → Every P (first guards)
unfolding first
first-Every P [] h = tt
first-Every P ((true, answer) ∷ guards) h = h.0
first-Every P ((false, answer) ∷ guards) h = first-Every P guards h.1

-- Where no guard returns, no test holds.
pub first-eq-none {ℓ} :
    {A : Type ℓ} (guards : List (Bool × A)) → first guards ≡ none → All (λ g. g.0 ≡ false) guards
unfolding first
first-eq-none [] h = tt
first-eq-none ((true, answer) ∷ guards) h = cc
first-eq-none ((false, answer) ∷ guards) h = (refl, first-eq-none guards h)

-- The first of two early returns.
abbrev pub either {ℓ} : {A : Type ℓ} → Option A → Option A → Option A
either none o = o
either (some a) o = some a

pub either-Every {ℓ κ} :
    {A : Type ℓ} (P : A → Type κ) (o o' : Option A) → Every P o → Every P o' → Every P (either o o')
either-Every P none o' h h' = h'
either-Every P (some a) o' h h' = h

-- A property of what is returned, if nothing is raised.
abbrev pub Ensures {ℓ κ} : {A : Type ℓ} → (A → Type κ) → Result A → Type κ
Ensures P (ok a) = P a
Ensures P (err e) = Unit

pub Ensures-eq-ok {ℓ κ} :
    {A : Type ℓ} (P : A → Type κ) (r : Result A) {a : A} → Ensures P r → r ≡ ok a → P a
Ensures-eq-ok P r h e = subst (Ensures P) e h

pub Ensures-bind {ℓ κ μ} :
    {A : Type ℓ} {B : Type κ} (P : B → Type μ) (m : Result A) (f : A → Result B)
    → ((a : A) → m ≡ ok a → Ensures P (f a))
    → Ensures P (m >>= f)
Ensures-bind P (ok a) f h = h a refl
Ensures-bind P (err e) f h = tt

pub Ensures-after {ℓ κ μ} :
    {S : Type ℓ} {A B : Type κ} (P : B → Type μ) (x : Result A) (s : S) (f : A → Exec S B)
    → ((a : A) → x ≡ ok a → Ensures P (f a s).0)
    → Ensures P (after (x, s) f).0
Ensures-after P (ok a) s f h = h a refl
Ensures-after P (err e) s f h = tt
