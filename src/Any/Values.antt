-- ===== src/Any/Values.antt =====
-- That the objects of src/net/any.h, which share holders, behave as values of their own.
use mathlib.Core.Option.{some-injective}
use hwnet.Prelude.{
  ◌>>=◌, ℕ, zero, suc, ◌<◌, ◌≡◌, refl, ap, subst, Bool, true, not, List, [], ◌∷◌, Option, none,
  some, ==_refl, arith,
}
use hwnet.Any.{
  Any, Heap, World, Call, declares, makes, copies, moves, drops, assigns, empty_any, cast, cast_at,
  at, set, without,
}
use hwnet.Any.Vars.{one_if, refers, users}
use hwnet.Any.Counts.{Fits, IsPaired, Keeps, is_held}

-- The values that the objects have; `none` is an empty one.
abbrev pub Vals : Type 0
Vals = List (Option ℕ)

-- What a call makes of the values; `none` is a call with an object that there is not.
unfoldable pub replay : Call → Vals → Option Vals
replay declares xs = some (none ∷ xs)
replay (makes value a) xs = some (some value ∷ xs)
replay (copies i) xs = do x ← at i xs; some (x ∷ xs)
replay (moves i) xs = do x ← at i xs; some (x ∷ set i none xs)
replay (assigns i j) xs = do x ← at i xs; y ← at j xs; some (set i y xs)
replay (drops i) xs = do x ← at i xs; some (without i xs)

-- `new` gives memory that is free.
unfoldable pub may : Call → World → Bool
may (makes value a) w = not (is_held (w.heap.contents a))
may c w = true

unfoldable pub casts : Heap → List Any → Vals
casts h [] = []
casts h (v ∷ vs) = cast h v ∷ casts h vs

abbrev AllPaired : List Any → Type 0
AllPaired [] = Unit
AllPaired (v ∷ vs) = IsPaired v × AllPaired vs

-- The counters are right, and the objects have the values.
pub record IsWorld (w : World) (xs : Vals) : Type 0 where
  pub fits : Fits w.heap (λ a. users a w.vars)
  pub paired : AllPaired w.vars
  pub values : casts w.heap w.vars ≡ xs

pub empty-IsPaired : IsPaired empty_any
empty-IsPaired p e = absurd (ground (arith, e))

pub at-IsPaired : (i : ℕ) (v : Any) (vs : List Any) → at i vs ≡ some v → AllPaired vs → IsPaired v
at-IsPaired i v [] e all = absurd (ground (arith, e))
at-IsPaired zero v (w ∷ vs) e (h, all) = subst IsPaired (some-injective w v e) h
at-IsPaired (suc i) v (w ∷ vs) e (h, all) = at-IsPaired i v vs e all

pub set-AllPaired :
    (i : ℕ) (v : Any) (vs : List Any) → IsPaired v → AllPaired vs → AllPaired (set i v vs)
set-AllPaired i v [] h all = tt
set-AllPaired zero v (w ∷ vs) h (old, all) = (h, all)
set-AllPaired (suc i) v (w ∷ vs) h (old, all) = (old, set-AllPaired i v vs h all)

pub without-AllPaired : (i : ℕ) (vs : List Any) → AllPaired vs → AllPaired (without i vs)
without-AllPaired i [] all = tt
without-AllPaired zero (w ∷ vs) (h, all) = all
without-AllPaired (suc i) (w ∷ vs) (h, all) = (h, without-AllPaired i vs all)

pub casts-set :
    (h : Heap) (i : ℕ) (v : Any) (vs : List Any)
    → casts h (set i v vs) ≡ set i (cast h v) (casts h vs)
unfolding casts
casts-set h i v [] = refl
casts-set h zero v (w ∷ vs) = refl
casts-set h (suc i) v (w ∷ vs) = ap (◌∷◌ (cast h w)) (casts-set h i v vs)

pub casts-without :
    (h : Heap) (i : ℕ) (vs : List Any) → casts h (without i vs) ≡ without i (casts h vs)
unfolding casts
casts-without h i [] = refl
casts-without h zero (w ∷ vs) = refl
casts-without h (suc i) (w ∷ vs) = ap (◌∷◌ (cast h w)) (casts-without h i vs)

-- An object that has a value is there.
pub found :
    (h : Heap) (i : ℕ) (x : Option ℕ) (vs : List Any)
    → at i (casts h vs) ≡ some x
    → (v : Any) × (at i vs ≡ some v) × (cast h v ≡ x)
unfolding casts
found h i x [] e = absurd (ground (arith, e))
found h zero x (v ∷ vs) e = (v, refl, some-injective (cast h v) x e)
found h (suc i) x (v ∷ vs) e = found h i x vs e

pub cast_at-frame :
    (p : Option ℕ) (h h' : Heap)
    → ((a : ℕ) → 0 < one_if a p → h'.contents a ≡ h.contents a)
    → cast_at p h' ≡ cast_at p h
unfolding cast_at
cast_at-frame none h h' same = refl
cast_at-frame (some p) h h' same = same p (ground (arith, ==_refl p))

cast-frame :
    (v : Any) (h h' : Heap)
    → ((a : ℕ) → 0 < refers a v → h'.contents a ≡ h.contents a)
    → cast h' v ≡ cast h v
unfolding cast
cast-frame v h h' same = cast_at-frame v.content h h' same

pub casts-frame :
    (vs : List Any) (h h' : Heap) → Keeps (λ a. users a vs) h h' → casts h' vs ≡ casts h vs
unfolding casts users
casts-frame [] h h' same = refl
casts-frame (v ∷ vs) h h' same =
    rw
      (
        cast-frame v h h' (λ a pos. same a (omega (arith, pos))),
        casts-frame vs h h' (λ a pos. same a (omega (arith, pos))),
      )
      refl

pub casts-set-frame :
    (i : ℕ) (x : Option ℕ) (vs : List Any) (h h' : Heap)
    → Keeps (λ a. users a (without i vs)) h h'
    → set i x (casts h' vs) ≡ set i x (casts h vs)
unfolding casts users
casts-set-frame i x [] h h' same = refl
casts-set-frame zero x (v ∷ vs) h h' same = ap (◌∷◌ x) (casts-frame vs h h' same)
casts-set-frame (suc i) x (v ∷ vs) h h' same =
    let here = cast-frame v h h' (λ a pos. same a (omega (arith, pos))) in
    let rest = casts-set-frame i x vs h h' (λ a pos. same a (omega (arith, pos))) in
    rw (here, rest) refl
