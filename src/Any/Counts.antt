-- ===== src/Any/Counts.antt =====
-- The counters of src/net/any.h, and what each step of the code does to them.
use mathlib.Core.Option.{some-injective}
use hwnet.Prelude.{
  ℕ, zero, suc, ◌+◌, ◌-◌, ◌<◌, ◌≡◌, refl, sym, ap, ◌∙◌, Bool, true, false, Option, none, some, put,
  put-at, put-past, ==_refl, ==-≡, Bool-cases, inl, inr, arith, ◌==◌, leb, ltb, if◌then◌else◌,
}
use hwnet.Any.{Any, Heap, new_any, retain_at, delete_at, count_down, destroy_at, destroy}
use hwnet.Any.Vars.{one_if, refers}

abbrev pub count_of : ℕ → Option ℕ
count_of zero = none
count_of (suc k) = some (suc k)

abbrev pub is_held : Option ℕ → Bool
is_held none = false
is_held (some value) = true

-- `u` says how many objects share each holder: the counter says so too, and the holder is there if
-- any does.
pub record Fits (h : Heap) (u : ℕ → ℕ) : Type 0 where
  pub counted : (a : ℕ) → h.counts a ≡ count_of (u a)
  pub held : (a : ℕ) → is_held (h.contents a) ≡ ltb 0 (u a)

-- An object with a holder has the counter of this holder.
abbrev pub IsPaired : Any → Type 0
IsPaired v = (p : ℕ) → v.content ≡ some p → v.counter ≡ some p

-- The holders that are in use are the same.
abbrev pub Keeps : (ℕ → ℕ) → Heap → Heap → Type 0
Keeps u h h' = (a : ℕ) → 0 < u a → h'.contents a ≡ h.contents a

held_value : (a : ℕ) (o : Option ℕ) → is_held o ≡ true → (x : ℕ) × (o ≡ some x)
held_value a none e = absurd (ground (arith, e))
held_value a (some x) e = (x, refl)

-- An entry of a map after a change, by whether it is the one that changed.
put_cases {ℓ} :
    {A : Type ℓ} (k j : ℕ) (x y : A) (f : ℕ → A)
    → ((k == j) ≡ true → x ≡ y)
    → ((k == j) ≡ false → f j ≡ y)
    → put k x f j ≡ y
put_cases k j x y f here past = elim (Bool-cases (k == j)) [
  | inl e ↦ put-at k j x f e ∙ here e
  | inr e ↦ put-past k j x f e ∙ past e
]

counted_at : (n k : ℕ) → n ≡ suc k → count_of n ≡ some n
counted_at n k e = rw e refl

pub retain_at-Fits :
    (c n : ℕ) (h : Heap) (u u' : ℕ → ℕ)
    → Fits h u
    → u c ≡ suc n
    → ((a : ℕ) → u' a ≡ u a + (if a == c then 1 else 0))
    → (h' : Heap) × (retain_at (h.counts c) c h ≡ some h') × Fits h' u' × Keeps u' h h'
unfolding retain_at
retain_at-Fits c n h u u' fits used more =
    let counted : h.counts c ≡ some (suc n) = fits.counted c ∙ ap count_of used in
    (
      record h { counts = put c (some (suc n + 1)) h.counts },
      rw counted refl,
      record {
        counted = λ a.
            put_cases c a (some (suc n + 1)) (count_of (u' a)) h.counts
              (λ e.
                let now : u' a ≡ suc n + 1 = ground (arith, more a, used, ap u (==-≡ e), e) in
                sym (counted_at (u' a) (suc n) (omega (arith, now)) ∙ ap some now))
              (λ e. let now : u' a ≡ u a = ground (arith, more a, e) in rw now (fits.counted a));
        held = λ a. elim (Bool-cases (c == a)) [
          | inl e ↦ fits.held a ∙ ground (arith, more a, used, ap u (==-≡ e))
          | inr e ↦ fits.held a ∙ ground (arith, more a, e)
        ];
      },
      λ a pos. refl,
    )

-- The last object with a holder goes.
delete_at-Fits :
    (p : ℕ) (h : Heap) (u u' : ℕ → ℕ)
    → Fits h u
    → u p ≡ 1
    → ((a : ℕ) → u' a + (if a == p then 1 else 0) ≡ u a)
    → (h' : Heap) × (delete_at (h.contents p) p p h ≡ some h') × Fits h' u' × Keeps u' h h'
unfolding delete_at
delete_at-Fits p h u u' fits used less =
    let (value, there) = held_value p (h.contents p) (fits.held p ∙ ground (arith, used)) in
    let gone : u' p ≡ 0 = ground (arith, less p, used, ==_refl p) in
    (
      record { contents = put p none h.contents; counts = put p none h.counts },
      rw there refl,
      record {
        counted = λ a.
            put_cases p a none (count_of (u' a)) h.counts (λ e. rw (sym (==-≡ e), gone) refl)
              (λ e. let now : u' a ≡ u a = ground (arith, less a, e) in rw now (fits.counted a));
        held = λ a. elim (Bool-cases (p == a)) [
          | inl e ↦ ap is_held (put-at p a none h.contents e) ∙ ground (arith, gone, ap u' (==-≡ e))
          | inr e ↦
              ap is_held (put-past p a none h.contents e) ∙ fits.held a ∙ ground (arith, less a, e)
        ];
      },
      λ a pos. elim (Bool-cases (p == a)) [
        | inl e ↦ absurd (omega (arith, pos, gone, ap u' (==-≡ e)))
        | inr e ↦ put-past p a none h.contents e
      ],
    )

-- Another object goes.
count_less-Fits :
    (p n : ℕ) (h : Heap) (u u' : ℕ → ℕ)
    → Fits h u
    → u p ≡ suc (suc n)
    → ((a : ℕ) → u' a + (if a == p then 1 else 0) ≡ u a)
    → Fits (record h { counts = put p (some (suc (suc n) - 1)) h.counts }) u'
count_less-Fits p n h u u' fits used less = record {
  counted = λ a.
      put_cases p a (some (suc (suc n) - 1)) (count_of (u' a)) h.counts
        (λ e.
          let now : u' a ≡ suc (suc n) - 1 = ground (arith, less a, used, ap u (==-≡ e), e) in
          sym (counted_at (u' a) n (omega (arith, now)) ∙ ap some now))
        (λ e. let now : u' a ≡ u a = ground (arith, less a, e) in rw now (fits.counted a));
  held = λ a. elim (Bool-cases (p == a)) [
    | inl e ↦ fits.held a ∙ ground (arith, less a, used, ap u (==-≡ e))
    | inr e ↦ fits.held a ∙ ground (arith, less a, e)
  ];
}

count_down-Fits :
    (p n : ℕ) (h : Heap) (u u' : ℕ → ℕ)
    → Fits h u
    → u p ≡ suc n
    → ((a : ℕ) → u' a + (if a == p then 1 else 0) ≡ u a)
    → (h' : Heap) × (count_down (h.counts p) p p h ≡ some h') × Fits h' u' × Keeps u' h h'
unfolding count_down
count_down-Fits p zero h u u' fits used less =
    let counted : h.counts p ≡ some 1 = fits.counted p ∙ ap count_of used in
    rw counted (delete_at-Fits p h u u' fits used less)
count_down-Fits p (suc n) h u u' fits used less =
    let counted : h.counts p ≡ some (suc (suc n)) = fits.counted p ∙ ap count_of used in
    let others : leb (suc (suc n)) 1 ≡ false = ground arith in
    (
      record h { counts = put p (some (suc (suc n) - 1)) h.counts },
      rw (counted, others) refl,
      count_less-Fits p n h u u' fits used less,
      λ a pos. refl,
    )

destroy_at-Fits :
    (content counter : Option ℕ) (h : Heap) (u u' : ℕ → ℕ)
    → Fits h u
    → ((p : ℕ) → content ≡ some p → counter ≡ some p)
    → ((a : ℕ) → u' a + one_if a content ≡ u a)
    → (h' : Heap) × (destroy_at content counter h ≡ some h') × Fits h' u' × Keeps u' h h'
unfolding destroy_at
destroy_at-Fits none counter h u u' fits paired less = (
  h,
  refl,
  record {
    counted = λ a. fits.counted a ∙ ap count_of (omega (arith, less a));
    held = λ a. fits.held a ∙ ap (ltb 0) (omega (arith, less a));
  },
  λ a pos. refl,
)
destroy_at-Fits (some p) none h u u' fits paired less = absurd (ground (arith, paired p refl))
destroy_at-Fits (some p) (some c) h u u' fits paired less =
    let same : c ≡ p = some-injective c p (paired p refl) in
    let used : u p ≡ suc (u' p) = ground (arith, less p, ==_refl p) in
    rw same (count_down-Fits p (u' p) h u u' fits used less)

-- Where one object goes, the code goes through, and the holders of the others stay.
pub destroy-Fits :
    (v : Any) (h : Heap) (u u' : ℕ → ℕ)
    → Fits h u
    → IsPaired v
    → ((a : ℕ) → u' a + refers a v ≡ u a)
    → (h' : Heap) × (destroy v h ≡ some h') × Fits h' u' × Keeps u' h h'
unfolding destroy
destroy-Fits v h u u' fits paired less = destroy_at-Fits v.content v.counter h u u' fits paired less

-- A holder of its own for a new object.
pub new_any-Fits :
    (value a : ℕ) (h : Heap) (u u' : ℕ → ℕ)
    → Fits h u
    → u a ≡ 0
    → ((b : ℕ) → u' b ≡ u b + refers b (new_any value a h).0)
    → Fits (new_any value a h).1 u' × Keeps u h (new_any value a h).1
unfolding new_any
new_any-Fits value a h u u' fits free more = (
  record {
    counted = λ b.
        put_cases a b (some 1) (count_of (u' b)) h.counts
          (λ e. let now : u' b ≡ 1 = ground (arith, more b, free, ap u (==-≡ e), e) in rw now refl)
          (λ e. let now : u' b ≡ u b = ground (arith, more b, e) in rw now (fits.counted b));
    held = λ b. elim (Bool-cases (a == b)) [
      | inl e ↦
          ap is_held (put-at a b (some value) h.contents e)
          ∙ ground (arith, more b, free, ap u (==-≡ e), e)
      | inr e ↦
          ap is_held (put-past a b (some value) h.contents e)
          ∙ fits.held b
          ∙ ground (arith, more b, e)
    ];
  },
  λ b pos. elim (Bool-cases (a == b)) [
    | inl e ↦ absurd (omega (arith, pos, free, ap u (==-≡ e)))
    | inr e ↦ put-past a b (some value) h.contents e
  ],
)
