-- ===== src/Any/Shared.antt =====
-- What one more object makes of the counters of src/net/any.h.
use mathlib.Core.Option.{some-injective}
use hwnet.Prelude.{
  ◌>>=◌, ℕ, ◌+◌, ◌-◌, ◌≤◌, ◌<◌, ◌≡◌, refl, sym, ap, ◌∙◌, List, Option, none, some, ==_refl, arith,
  ◌==◌, ltb, if◌then◌else◌,
}
use hwnet.Any.{Any, Heap, empty_any, share_at, retain_at, assign_at, at}
use hwnet.Any.Vars.{one_if, refers, users, refers-users}
use hwnet.Any.Counts.{Fits, IsPaired, Keeps, count_of, retain_at-Fits}

pub Fits-same : (h : Heap) (u u' : ℕ → ℕ) → Fits h u → ((a : ℕ) → u' a ≡ u a) → Fits h u'
Fits-same h u u' fits same = record {
  counted = λ a. fits.counted a ∙ ap count_of (sym (same a));
  held = λ a. fits.held a ∙ ap (ltb 0) (sym (same a));
}

-- One more object for the pointers of another one: what it gives, if it has no holder that is free.
abbrev IsShared : Option (Any × Heap) → Option ℕ → Heap → (ℕ → ℕ) → (ℕ → ℕ) → Type 0
IsShared r content h u u' =
    (v : Any) × (h' : Heap) × (r ≡ some (v, h'))
    × (v.content ≡ content)
    × IsPaired v
    × Fits h' u'
    × Keeps u h h'

held_again : ℕ → ℕ → Heap → Option (Any × Heap)
held_again p c h = do
  h' ← retain_at (h.counts c) c h
  some (record { content = some p; counter = some c }, h')

module _ (h : Heap) (u u' : ℕ → ℕ) (fits : Fits h u) where
  none-IsShared :
      (v : Any) → v.content ≡ none → ((a : ℕ) → u' a ≡ u a + 0) → IsShared (some (v, h)) none h u u'
  none-IsShared v e more = (
    v,
    h,
    refl,
    e,
    λ p e'. absurd (ground (arith, e, e')),
    Fits-same h u u' fits (λ a. omega (arith, more a)),
    λ a pos. refl,
  )

  -- The pointers are those of an object with its holder.
  some-IsShared :
      (p c : ℕ)
      → c ≡ p
      → 0 < u p
      → ((a : ℕ) → u' a ≡ u a + (if a == p then 1 else 0))
      → IsShared (held_again p c h) (some p) h u u'
  unfolding held_again
  some-IsShared p c e used more =
      let (h', done, fits', keeps) =
        retain_at-Fits p (u p - 1) h u u' fits (omega (arith, used)) more in
      (
        record { content = some p; counter = some p },
        h',
        rw (e, done) refl,
        refl,
        λ q e'. e',
        fits',
        λ a pos. keeps a (omega (arith, pos, more a)),
      )

  -- The pointers of an object.
  pub share_at-IsShared :
      (content counter : Option ℕ)
      → ((p : ℕ) → content ≡ some p → counter ≡ some p)
      → ((p : ℕ) → content ≡ some p → 0 < u p)
      → ((a : ℕ) → u' a ≡ u a + one_if a content)
      → IsShared (share_at content counter h) content h u u'
  unfolding share_at held_again
  share_at-IsShared none c paired used more = none-IsShared empty_any refl more
  share_at-IsShared (some p) none paired used more = absurd (ground (arith, paired p refl))
  share_at-IsShared (some p) (some c) paired used more =
      some-IsShared p c (some-injective c p (paired p refl)) (used p refl) more

  pub assign_at-IsShared :
      (content counter : Option ℕ) (v : Any)
      → ((p : ℕ) → content ≡ some p → counter ≡ some p)
      → ((p : ℕ) → content ≡ some p → 0 < u p)
      → ((a : ℕ) → u' a ≡ u a + one_if a content)
      → IsShared (assign_at content counter v h) content h u u'
  unfolding assign_at held_again
  assign_at-IsShared none c v paired used more =
      none-IsShared (record v { content = none }) refl more
  assign_at-IsShared (some p) none v paired used more = absurd (ground (arith, paired p refl))
  assign_at-IsShared (some p) (some c) v paired used more =
      some-IsShared p c (some-injective c p (paired p refl)) (used p refl) more

pub used_by : (p : ℕ) (v : Any) (u : ℕ → ℕ) → v.content ≡ some p → refers p v ≤ u p → 0 < u p
used_by p v u e le =
    let one : refers p v ≡ 1 = ap (one_if p) e ∙ rw (==_refl p) refl in omega (arith, one, le)

-- The holder of an object is in use.
pub is_used :
    (p i : ℕ) (v : Any) (vs : List Any) → at i vs ≡ some v → v.content ≡ some p → 0 < users p vs
is_used p i v vs e e' = used_by p v (λ a. users a vs) e' (refers-users p i v vs e)

-- The first of two calls in a do block has a result.
pub bind-some :
    {A B : Type 0} (o : Option A) (f : A → Option B) (y : B)
    → o >>= f ≡ some y
    → (x : A) × (o ≡ some x) × (f x ≡ some y)
bind-some none f y e = absurd (ground (arith, e))
bind-some (some x) f y e = (x, refl, e)
