-- ===== src/Effect/Check.antt =====
-- Functions that return or throw and change no state.
use tilda_mcp.Prelude.{Bool, true, false, ◌≡◌, refl, List, [], ◌∷◌, Option, none, some}
use tilda_mcp.Effect.Codes.{Code, Failure, tilda, foreign}

pub data Result (A : Type 0) : Type 0 where
  ok : A → Result A
  err : Failure → Result A

infixl 5 ◌>>=◌ ◌>>◌
abbrev pub ◌>>=◌ : {A B : Type 0} → Result A → (A → Result B) → Result B
ok value >>= next = next value
err failure >>= next = err failure

abbrev pub ◌>>◌ : {A B : Type 0} → Result A → Result B → Result B
m >> k = m >>= λ _. k

-- `if (!test) throw`.
abbrev pub require : Bool → Code → Result (Unit {0})
require true c = ok tt
require false c = err (tilda c)

-- `if (test) throw`.
abbrev pub reject_if : Bool → Code → Result (Unit {0})
reject_if true c = err (tilda c)
reject_if false c = ok tt

-- A new file takes no name that is there: `link` fails with an error of the file system.
abbrev pub no_clobber : {A : Type 0} → Option A → Result (Unit {0})
no_clobber none = ok tt
no_clobber (some a) = err foreign

-- A check of each element, in order.
abbrev pub for_each {ℓ} : {A : Type ℓ} → (A → Result (Unit {0})) → List A → Result (Unit {0})
for_each f [] = ok tt
for_each f (x ∷ xs) = f x >>= λ _. for_each f xs

-- A check of an optional field, where it is there.
abbrev pub if_present {ℓ} : {A : Type ℓ} → (A → Result (Unit {0})) → Option A → Result (Unit {0})
if_present f none = ok tt
if_present f (some x) = f x

pub >>=-eq-ok :
    {A B : Type 0} (r : Result A) (next : A → Result B) {value : B}
    → (r >>= next) ≡ ok value
    → (passed : A) × (r ≡ ok passed) × (next passed ≡ ok value)
>>=-eq-ok (ok x) next e = (x, refl, e)
>>=-eq-ok (err failure) next e = cc

-- The inversion of a sequence of two checks.
pub >>-eq-ok :
    {B : Type 0} (m : Result (Unit {0})) (k : Result B) {b : B}
    → (m >> k) ≡ ok b
    → (m ≡ ok tt) × (k ≡ ok b)
>>-eq-ok (ok tt) k h = (refl, h)
>>-eq-ok (err e) k h = cc

pub require-eq-ok : (b : Bool) (c : Code) → require b c ≡ ok tt → b ≡ true
require-eq-ok true c h = refl
require-eq-ok false c h = cc

pub reject_if-eq-ok : (b : Bool) (c : Code) → reject_if b c ≡ ok tt → b ≡ false
reject_if-eq-ok true c h = cc
reject_if-eq-ok false c h = refl
