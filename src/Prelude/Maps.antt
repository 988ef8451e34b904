-- ===== src/Prelude/Maps.antt =====
-- Maps from numbers as functions.
use Prim.Native.Nat.{ℕ}
use mathlib.Core.Path.{◌≡◌, refl}
use mathlib.Core.Bool.{true, false}
use native.Mathlib.Omega.{arith}
use hwnet.Prelude.Tests.{◌==◌, if◌then◌else◌}

abbrev pub put {ℓ} : {A : Type ℓ} → ℕ → A → (ℕ → A) → ℕ → A
put k x f j = if k == j then x else f j

pub ==-≡ : {k j : ℕ} → (k == j) ≡ true → k ≡ j
==-≡ e = ground arith

pub ==_refl : (n : ℕ) → (n == n) ≡ true
==_refl n = ground arith

pub put-at {ℓ} : {A : Type ℓ} (k j : ℕ) (x : A) (f : ℕ → A) → (k == j) ≡ true → put k x f j ≡ x
put-at k j x f e = rw e refl

pub put-past {ℓ} : {A : Type ℓ} (k j : ℕ) (x : A) (f : ℕ → A) → (k == j) ≡ false → put k x f j ≡ f j
put-past k j x f e = rw e refl
