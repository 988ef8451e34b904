-- ===== src/Any/Refines.antt =====
-- That each operation of src/net/any.h does to the objects what it means for their values.
use mathlib.Core.Option.{some-injective}
use hwnet.Prelude.{
  ◌>>=◌, ℕ, zero, suc, ◌+◌, ◌≤◌, ◌≡◌, refl, sym, ap, ◌∙◌, subst, true, false, List, [], ◌∷◌, Option,
  none, some, ==_refl, ==-≡, Bool-cases, inl, inr, arith, ◌==◌,
}
use hwnet.Any.{
  World, Call, declares, makes, copies, moves, drops, assigns, empty_any, new_any, assign, cast,
  cast_at, at, set, without, run_call,
}
use hwnet.Any.Vars.{one_if, refers, users, users-set, users-without, refers-users, refers_twice}
use hwnet.Any.Counts.{Keeps, destroy-Fits, new_any-Fits}
use hwnet.Any.Values.{
  Vals, replay, may, casts, IsWorld, empty-IsPaired, at-IsPaired, set-AllPaired, without-AllPaired,
  casts-set, casts-without, found, casts-frame, casts-set-frame, cast_at-frame,
}
use hwnet.Any.Shared.{share_at-IsShared, assign_at-IsShared, used_by, Fits-same, is_used, bind-some}

-- The call has a result, with the values `xs`.
abbrev Refines : Call → World → Vals → Type 0
Refines c w xs = (w' : World) × (run_call c w ≡ some w') × IsWorld w' xs

declares-Refines : (w : World) (xs : Vals) → IsWorld w xs → Refines declares w (none ∷ xs)
unfolding run_call casts cast cast_at users
declares-Refines w xs i = (
  record w { vars = empty_any ∷ w.vars },
  refl,
  record {
    fits = Fits-same w.heap _ _ i.fits (λ a. omega arith);
    paired = (empty-IsPaired, i.paired);
    values = ap (◌∷◌ none) i.values;
  },
)

makes-Refines :
    (value a : ℕ) (w : World) (xs : Vals)
    → may (makes value a) w ≡ true
    → IsWorld w xs
    → Refines (makes value a) w (some value ∷ xs)
unfolding run_call may casts cast cast_at users new_any
makes-Refines value a w xs free i =
    let unused : users a w.vars ≡ 0 = ground (arith, free, i.fits.held a) in
    let (fits, keeps) =
      new_any-Fits value a w.heap (λ b. users b w.vars) (λ b. users b w.vars + one_if b (some a))
        i.fits unused (λ b. refl) in
    let (v, h) = new_any value a w.heap in
    (
      record { vars = v ∷ w.vars; heap = h },
      refl,
      record {
        fits = Fits-same h _ _ fits (λ b. omega arith);
        paired = ((λ p e. e), i.paired);
        values = rw (==_refl a, casts-frame w.vars w.heap h keeps, i.values) refl;
      },
    )

copies-Refines :
    (k : ℕ) (x : Option ℕ) (w : World) (xs : Vals)
    → at k xs ≡ some x
    → IsWorld w xs
    → Refines (copies k) w (x ∷ xs)
unfolding run_call casts cast users
copies-Refines k x w xs e i =
    let (v, here, is) = found w.heap k x w.vars (ap (at k) i.values ∙ e) in
    let paired = at-IsPaired k v w.vars here i.paired in
    let (v', h, done, same, paired', fits, keeps) =
      share_at-IsShared w.heap (λ a. users a w.vars) (λ a. users a w.vars + refers a v) i.fits
        v.content v.counter paired (λ p e'. is_used p k v w.vars here e') (λ a. refl) in
    let read : cast h v' ≡ x =
      ap (λ p. cast_at p h) same
      ∙ cast_at-frame v.content w.heap h
          (λ a pos. keeps a (omega (arith, pos, refers-users a k v w.vars here)))
      ∙ is in
    (
      record { vars = v' ∷ w.vars; heap = h },
      rw (here, done) refl,
      record {
        fits = Fits-same h _ _ fits (λ a. omega (arith, ap (one_if a) same));
        paired = (paired', i.paired);
        values =
            ap (λ y. y ∷ casts h w.vars) read
            ∙ ap (◌∷◌ x) (casts-frame w.vars w.heap h keeps ∙ i.values);
      },
    )

moves-Refines :
    (k : ℕ) (x : Option ℕ) (w : World) (xs : Vals)
    → at k xs ≡ some x
    → IsWorld w xs
    → Refines (moves k) w (x ∷ set k none xs)
unfolding run_call casts cast_at cast users
moves-Refines k x w xs e i =
    let (v, here, is) = found w.heap k x w.vars (ap (at k) i.values ∙ e) in
    (
      record w { vars = v ∷ set k empty_any w.vars },
      rw here refl,
      record {
        fits =
            Fits-same w.heap _ _ i.fits (λ a. omega (arith, users-set a k empty_any v w.vars here));
        paired = (
          at-IsPaired k v w.vars here i.paired,
          set-AllPaired k empty_any w.vars empty-IsPaired i.paired,
        );
        values =
            ap (λ y. y ∷ casts w.heap (set k empty_any w.vars)) is
            ∙ ap (◌∷◌ x) (casts-set w.heap k empty_any w.vars ∙ ap (set k none) i.values);
      },
    )

drops-Refines :
    (k : ℕ) (x : Option ℕ) (w : World) (xs : Vals)
    → at k xs ≡ some x
    → IsWorld w xs
    → Refines (drops k) w (without k xs)
unfolding run_call
drops-Refines k x w xs e i =
    let (v, here, is) = found w.heap k x w.vars (ap (at k) i.values ∙ e) in
    let (h, done, fits, keeps) =
      destroy-Fits v w.heap (λ a. users a w.vars) (λ a. users a (without k w.vars)) i.fits
        (at-IsPaired k v w.vars here i.paired) (λ a. users-without a k v w.vars here) in
    (
      record { vars = without k w.vars; heap = h },
      rw (here, done) refl,
      record {
        fits = fits;
        paired = without-AllPaired k w.vars i.paired;
        values =
            casts-frame (without k w.vars) w.heap h keeps
            ∙ casts-without w.heap k w.vars
            ∙ ap (without k) i.values;
      },
    )

set_same : {A : Type 0} (k : ℕ) (x : A) (xs : List A) → at k xs ≡ some x → set k x xs ≡ xs
set_same k x [] e = refl
set_same zero x (y ∷ ys) e = ap (λ z. z ∷ ys) (sym (some-injective y x e))
set_same (suc k) x (y ∷ ys) e = ap (◌∷◌ y) (set_same k x ys e)

-- An assignment from another object.
apart-Refines :
    (k j : ℕ) (x y : Option ℕ) (w : World) (xs : Vals)
    → (k == j) ≡ false
    → at k xs ≡ some x
    → at j xs ≡ some y
    → IsWorld w xs
    → Refines (assigns k j) w (set k y xs)
unfolding run_call assign cast
apart-Refines k j x y w xs apart e e' i =
    let (v, here, is) = found w.heap k x w.vars (ap (at k) i.values ∙ e) in
    let (rhs, there, is') = found w.heap j y w.vars (ap (at j) i.values ∙ e') in
    let u : ℕ → ℕ = λ a. users a (without k w.vars) in
    let (h, done, fits, keeps) =
      destroy-Fits v w.heap (λ a. users a w.vars) u i.fits (at-IsPaired k v w.vars here i.paired)
        (λ a. users-without a k v w.vars here) in
    let stays : (a : ℕ) → refers a rhs ≤ u a = λ a.
      omega (
        arith,
        refers_twice a k j v rhs w.vars here there apart,
        users-without a k v w.vars here,
      ) in
    let (v', h', done', same, paired', fits', keeps') =
      assign_at-IsShared h u (λ a. u a + refers a rhs) fits rhs.content rhs.counter v
        (at-IsPaired j rhs w.vars there i.paired) (λ p e. used_by p rhs u e (stays p))
        (λ a. refl) in
    let kept : Keeps u w.heap h' = λ a pos. keeps' a pos ∙ keeps a pos in
    let read : cast h' v' ≡ y =
      ap (λ p. cast_at p h') same
      ∙ cast_at-frame rhs.content w.heap h' (λ a pos. kept a (omega (arith, pos, stays a)))
      ∙ is' in
    (
      record { vars = set k v' w.vars; heap = h' },
      rw (here, there, done, done', apart) refl,
      record {
        fits = Fits-same h' _ _ fits' (λ a. omega (
          arith,
          users-set a k v' v w.vars here,
          users-without a k v w.vars here,
          ap (one_if a) same,
        ));
        paired = set-AllPaired k v' w.vars paired' i.paired;
        values =
            casts-set h' k v' w.vars
            ∙ ap (λ z. set k z (casts h' w.vars)) read
            ∙ casts-set-frame k y w.vars w.heap h' kept
            ∙ ap (set k y) i.values;
      },
    )

assigns-Refines :
    (k j : ℕ) (x y : Option ℕ) (w : World) (xs : Vals)
    → at k xs ≡ some x
    → at j xs ≡ some y
    → IsWorld w xs
    → Refines (assigns k j) w (set k y xs)
unfolding run_call
assigns-Refines k j x y w xs e e' i = elim (Bool-cases (k == j)) [
  | inl one ↦
      let (v, here, is) = found w.heap k x w.vars (ap (at k) i.values ∙ e) in
      let there = ap (λ n. at n w.vars) (sym (==-≡ one)) ∙ here in
      let same : set k y xs ≡ xs = set_same k y xs (ap (λ n. at n xs) (==-≡ one) ∙ e') in
      (w, rw (here, there, one) refl, subst (IsWorld w) (sym same) i)
  | inr apart ↦ apart-Refines k j x y w xs apart e e' i
]

pub run_call-Refines :
    (c : Call) (w : World) (xs xs' : Vals)
    → IsWorld w xs
    → may c w ≡ true
    → replay c xs ≡ some xs'
    → Refines c w xs'
unfolding replay may
run_call-Refines declares w xs xs' i ok e =
    subst (Refines declares w) (some-injective _ _ e) (declares-Refines w xs i)
run_call-Refines (makes value a) w xs xs' i ok e =
    subst (Refines (makes value a) w) (some-injective _ _ e) (makes-Refines value a w xs ok i)
run_call-Refines (copies k) w xs xs' i ok e =
    let (x, here, r) = bind-some (at k xs) (λ x. some (x ∷ xs)) xs' e in
    subst (Refines (copies k) w) (some-injective _ _ r) (copies-Refines k x w xs here i)
run_call-Refines (moves k) w xs xs' i ok e =
    let (x, here, r) = bind-some (at k xs) (λ x. some (x ∷ set k none xs)) xs' e in
    subst (Refines (moves k) w) (some-injective _ _ r) (moves-Refines k x w xs here i)
run_call-Refines (drops k) w xs xs' i ok e =
    let (x, here, r) = bind-some (at k xs) (λ x. some (without k xs)) xs' e in
    subst (Refines (drops k) w) (some-injective _ _ r) (drops-Refines k x w xs here i)
run_call-Refines (assigns k j) w xs xs' i ok e =
    let (x, here, r) = bind-some (at k xs) (λ x. at j xs >>= λ y. some (set k y xs)) xs' e in
    let (y, there, r') = bind-some (at j xs) (λ y. some (set k y xs)) xs' r in
    subst (Refines (assigns k j) w) (some-injective _ _ r')
      (assigns-Refines k j x y w xs here there i)
