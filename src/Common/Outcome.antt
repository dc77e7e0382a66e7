-- ===== src/Common/Outcome.antt =====
-- `Result<T, E>`, with `?` as `>>=`, and the small combinators of `Option` and `Result` that the
-- code uses.
use mathlib.Core.Path.{◌≡◌, refl, ap}
use mathlib.Core.Bool.{Bool, true, false}
use mathlib.Core.Option.{Option, none, some}

pub data Result (E A : Type 0) : Type 0 where
  ok : A → Result E A
  err : E → Result E A

infixl 5 ◌>>=◌ ◌>>◌
abbrev pub ◌>>=◌ : {E A B : Type 0} → Result E A → (A → Result E B) → Result E B
ok value >>= next = next value
err failure >>= next = err failure

abbrev pub ◌>>◌ : {E B : Type 0} → Result E (Unit {0}) → Result E B → Result E B
check >> next = check >>= λ (_ : Unit {0}). next

-- `if test { return Err(e); }`
abbrev pub fail_if : {E : Type 0} → Bool → E → Result E (Unit {0})
fail_if true e = err e
fail_if false e = ok tt

abbrev pub ok_or : {E A : Type 0} → Option A → E → Result E A
ok_or none e = err e
ok_or (some a) e = ok a

-- `map_err(|()| e)`
abbrev pub or_err : {E F A : Type 0} → Result F A → E → Result E A
or_err (ok a) e = ok a
or_err (err _) e = err e

abbrev pub and_then : {A B : Type 0} → Option A → (A → Option B) → Option B
and_then none f = none
and_then (some a) f = f a

abbrev unwrap_or : {E A : Type 0} → A → Result E A → A
unwrap_or d (ok a) = a
unwrap_or d (err e) = d

-- The code after a successful `?` ran on the value of the part before it.
pub >>=-eq-ok :
    {E A B : Type 0} (first : Result E A) (next : A → Result E B) {result : B}
    → (first >>= next) ≡ ok result
    → (value : A) × (first ≡ ok value) × (next value ≡ ok result)
>>=-eq-ok (err failure) next h = cc
>>=-eq-ok (ok value) next h = (value, refl, h)

pub ok_or-eq-ok : {E A : Type 0} (o : Option A) (e : E) {a : A} → ok_or o e ≡ ok a → o ≡ some a
ok_or-eq-ok none e h = cc
ok_or-eq-ok (some a) e h = ap some (ap (unwrap_or a) h)

-- The same for the two commonest parts: a test that did not fail, and an option that was there.
pub fail_if-passed :
    {E A : Type 0} (b : Bool) (e : E) (f : Unit {0} → Result E A) {a : A}
    → (fail_if b e >>= f) ≡ ok a
    → (b ≡ false) × (f tt ≡ ok a)
fail_if-passed true e f h = cc
fail_if-passed false e f h = (refl, h)

pub ok_or-passed :
    {E A B : Type 0} (o : Option A) (e : E) (f : A → Result E B) {b : B}
    → (ok_or o e >>= f) ≡ ok b
    → (a : A) × (o ≡ some a) × (f a ≡ ok b)
ok_or-passed none e f h = cc
ok_or-passed (some a) e f h = (a, refl, h)

pub or_err-passed :
    {E F A B : Type 0} (m : Result F A) (e : E) (f : A → Result E B) {b : B}
    → (or_err m e >>= f) ≡ ok b
    → (a : A) × (m ≡ ok a) × (f a ≡ ok b)
or_err-passed (ok a) e f h = (a, refl, h)
or_err-passed (err _) e f h = cc

pub ok-injective : {E A : Type 0} {a b : A} → ◌≡◌ {A = Result E A} (ok a) (ok b) → a ≡ b
ok-injective {a} h = ap (unwrap_or a) h

-- A run on fuel: `none` means that the fuel ran out. `run_then` is `?` on such runs.
abbrev pub Run : Type 0 → Type 0 → Type 0
Run E A = Option (Result E A)

abbrev pub run_then : {E A B : Type 0} → Run E A → (A → Run E B) → Run E B
run_then none next = none
run_then (some (err failure)) next = some (err failure)
run_then (some (ok value)) next = next value

pub run_then-passed :
    {E A B : Type 0} (first : Run E A) (next : A → Run E B) {result : B}
    → run_then first next ≡ some (ok result)
    → (value : A) × (first ≡ some (ok value)) × (next value ≡ some (ok result))
run_then-passed none next h = cc
run_then-passed (some (err failure)) next h = cc
run_then-passed (some (ok value)) next h = (value, refl, h)

-- A run ends if its parts do.
pub run_then-some :
    {E A B : Type 0} (first : Run E A) (next : A → Run E B) (r : Result E A)
    → first ≡ some r
    → ((value : A) → first ≡ some (ok value) → (q : Result E B) × (next value ≡ some q))
    → (q : Result E B) × (run_then first next ≡ some q)
run_then-some none next r h k = cc
run_then-some (some (err failure)) next r h k = (err failure, refl)
run_then-some (some (ok value)) next r h k = k value refl

abbrev value_or : {B : Type 0} → B → Option B → B
value_or d none = d
value_or d (some b) = b

pub run-injective : {E A : Type 0} {x y : A} → ◌≡◌ {A = Run E A} (some (ok x)) (some (ok y)) → x ≡ y
run-injective {x} h = ok-injective (ap (value_or (ok x)) h)

-- The same where the first part is not on fuel.
pub run_some-passed :
    {E A B : Type 0} (first : Result E A) (next : A → Run E B) {result : B}
    → run_then (some first) next ≡ some (ok result)
    → (value : A) × (first ≡ ok value) × (next value ≡ some (ok result))
run_some-passed (err failure) next h = cc
run_some-passed (ok value) next h = (value, refl, h)

pub some-run-injective :
    {E A : Type 0} {x y : Result E A} → ◌≡◌ {A = Run E A} (some x) (some y) → x ≡ y
some-run-injective {x} h = ap (value_or x) h
