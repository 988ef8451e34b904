-- ===== src/Any/Vars.antt =====
-- How many objects of src/net/any.h share a holder.
use mathlib.Core.Option.{some-injective}
use hwnet.Prelude.{
  ℕ, zero, suc, ◌+◌, ◌≤◌, ◌≡◌, sym, false, List, [], ◌∷◌, Option, none, some, arith, ◌==◌,
  if◌then◌else◌,
}
use hwnet.Any.{Any, at, set, without}

-- 1 if the pointer leads to `a`, else 0.
abbrev pub one_if : ℕ → Option ℕ → ℕ
one_if a none = 0
one_if a (some p) = if a == p then 1 else 0

abbrev pub refers : ℕ → Any → ℕ
refers a v = one_if a v.content

unfoldable pub users : ℕ → List Any → ℕ
users a [] = 0
users a (v ∷ vs) = refers a v + users a vs

pub users-set :
    (a i : ℕ) (x v : Any) (vs : List Any)
    → at i vs ≡ some v
    → users a (set i x vs) + refers a v ≡ users a vs + refers a x
unfolding users
users-set a zero x v (w ∷ vs) e =
    let same : w ≡ v = some-injective w v e in rw (sym same) (omega arith)
users-set a (suc i) x v (w ∷ vs) e = omega (arith, users-set a i x v vs e)
users-set a i x v [] e = absurd (ground (arith, e))

pub users-without :
    (a i : ℕ) (v : Any) (vs : List Any)
    → at i vs ≡ some v
    → users a (without i vs) + refers a v ≡ users a vs
unfolding users
users-without a zero v (w ∷ vs) e =
    let same : w ≡ v = some-injective w v e in rw (sym same) (omega arith)
users-without a (suc i) v (w ∷ vs) e = omega (arith, users-without a i v vs e)
users-without a i v [] e = absurd (ground (arith, e))

pub refers-users : (a i : ℕ) (v : Any) (vs : List Any) → at i vs ≡ some v → refers a v ≤ users a vs
refers-users a i v vs e = omega (arith, users-without a i v vs e)

-- Two objects.
pub refers_twice :
    (a i j : ℕ) (v w : Any) (vs : List Any)
    → at i vs ≡ some v
    → at j vs ≡ some w
    → (i == j) ≡ false
    → refers a v + refers a w ≤ users a vs
unfolding users
refers_twice a zero zero v w (x ∷ vs) e e' apart = absurd (ground (arith, apart))
refers_twice a zero (suc j) v w (x ∷ vs) e e' apart =
    let same : x ≡ v = some-injective x v e in
    rw (sym same) (omega (arith, refers-users a j w vs e'))
refers_twice a (suc i) zero v w (x ∷ vs) e e' apart =
    let same : x ≡ w = some-injective x w e' in
    rw (sym same) (omega (arith, refers-users a i v vs e))
refers_twice a (suc i) (suc j) v w (x ∷ vs) e e' apart =
    omega (arith, refers_twice a i j v w vs e e' (ground (arith, apart)))
refers_twice a i j v w [] e e' apart = absurd (ground (arith, e))
