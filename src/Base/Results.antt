-- ===== src/Base/Results.antt =====
-- What holds of the result of a computation, if it has one.
use mathlib.Core.Path.{◌≡◌, subst}
use mathlib.Core.Bool.{Bool, true, false}
use mathlib.Core.Option.{Option, none, some}
use libhy_utils_bak.Base.Tests.{if◌then◌else◌}
use libhy_utils_bak.Base.Memory.{◌>>=◌}

abbrev pub Ensures {ℓ} : {A : Type ℓ} → (A → Type 0) → Option A → Type 0
Ensures P none = Unit
Ensures P (some a) = P a

module _ {ℓ κ} {A : Type ℓ} {B : Type κ} where
  pub Ensures-bind :
      (Q : A → Type 0) (P : B → Type 0) (o : Option A) (k : A → Option B)
      → Ensures Q o
      → ((a : A) → Q a → Ensures P (k a))
      → Ensures P (o >>= k)
  Ensures-bind Q P none k h f = h
  Ensures-bind Q P (some a) k h f = f a h

  pub Ensures-after :
      (P : B → Type 0) (o : Option A) (k : A → Option B)
      → ((a : A) → Ensures P (k a))
      → Ensures P (o >>= k)
  Ensures-after P none k f = tt
  Ensures-after P (some a) k f = f a

module _ {ℓ} {A : Type ℓ} (P : A → Type 0) where
  pub Ensures-if :
      (b : Bool) (x y : Option A) → Ensures P x → Ensures P y → Ensures P (if b then x else y)
  Ensures-if true x y h k = h
  Ensures-if false x y h k = k

  pub Ensures-always : (o : Option A) → ((a : A) → P a) → Ensures P o
  Ensures-always none h = tt
  Ensures-always (some a) h = h a

  pub Ensures-result : (o : Option A) {a : A} → Ensures P o → o ≡ some a → P a
  Ensures-result o h e = subst (Ensures P) e h
