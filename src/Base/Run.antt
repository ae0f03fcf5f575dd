-- ===== src/Base/Run.antt =====
-- What a run of C code comes to: a result, a crash (a failed `g_assert` or an access outside of
-- live memory), or fuel that ran out while a loop was still going.
use mathlib.Core.Bool.{Bool, true, false}

pub data Outcome {ℓ} (A : Type ℓ) : Type ℓ where
  ok : A → Outcome A
  crash : Outcome A
  running : Outcome A

infixl 5 ◌>>=◌ ◌>>◌
abbrev pub ◌>>=◌ {ℓ κ} : {A : Type ℓ} {B : Type κ} → Outcome A → (A → Outcome B) → Outcome B
ok a >>= f = f a
crash >>= f = crash
running >>= f = running

abbrev pub ◌>>◌ {ℓ} : {B : Type ℓ} → Outcome (Unit {0}) → Outcome B → Outcome B
m >> k = m >>= λ _. k

-- `g_assert`.
abbrev pub assert : Bool → Outcome (Unit {0})
assert true = ok tt
assert false = crash
