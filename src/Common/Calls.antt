-- ===== src/Common/Calls.antt =====
-- How a call of a C function can end, and the sequencing of such calls.
use mathlib.Core.Path.{◌≡◌, refl}
use mathlib.Core.Option.{Option, none, some}

-- `crash`: undefined behaviour (an access out of bounds, a division by zero) or `abort`.
-- `blocked`: a wait for a lock that its holder never gives back.
-- `running`: still in its loop when the fuel given was used up.
pub data Outcome {ℓ} (A : Type ℓ) : Type ℓ where
  ok : A → Outcome A
  crash : Outcome A
  blocked : Outcome A
  running : Outcome A

infixl 5 ◌>>=◌
abbrev pub ◌>>=◌ {ℓ κ} : {A : Type ℓ} {B : Type κ} → Outcome A → (A → Outcome B) → Outcome B
ok a >>= f = f a
crash >>= f = crash
blocked >>= f = blocked
running >>= f = running

-- A read of memory: `none` is a read out of bounds.
abbrev pub or_crash {ℓ} : {A : Type ℓ} → Option A → Outcome A
or_crash none = crash
or_crash (some a) = ok a

pub >>=-eq-ok {ℓ κ} :
    {A : Type ℓ} {B : Type κ} {out : B} (call : Outcome A) (next : A → Outcome B)
    → (call >>= next) ≡ ok out
    → (mid : A) × (call ≡ ok mid) × (next mid ≡ ok out)
>>=-eq-ok (ok mid) next e = (mid, refl, e)
>>=-eq-ok crash next e = cc
>>=-eq-ok blocked next e = cc
>>=-eq-ok running next e = cc
