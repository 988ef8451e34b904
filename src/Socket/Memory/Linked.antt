-- ===== src/Socket/Memory/Linked.antt =====
-- The chains that the contexts of src/net/TCPSocket.h form in memory.
use mathlib.Core.Option.{some-injective}
use hwnet.Prelude.{
  ℕ, suc, ◌+◌, ◌≤◌, ◌<◌, ◌≡◌, refl, sym, ap, subst, false, List, [], ◌∷◌, ◌++◌, Option, none, some,
  put, put-past, ==_refl, ==-≡, Bool-cases, inl, inr, arith, ◌==◌, if◌then◌else◌,
}
use hwnet.Socket.SendList.{SendContext}
use hwnet.Socket.Memory.{Node, LinkList}

-- How often an address stands in a list.
unfoldable pub copies : ℕ → List ℕ → ℕ
copies a [] = 0
copies a (x ∷ xs) = (if a == x then 1 else 0) + copies a xs

pub copies-append : (a : ℕ) (xs ys : List ℕ) → copies a (xs ++ ys) ≡ copies a xs + copies a ys
unfolding copies
copies-append a [] ys = omega arith
copies-append a (x ∷ xs) ys = omega (arith, copies-append a xs ys)

pub copies-head : (a : ℕ) (xs : List ℕ) → copies a (a ∷ xs) ≡ suc (copies a xs)
unfolding copies
copies-head a xs = rw (==_refl a) (omega arith)

-- From `p` the pointers `next` lead through `xs` and then to null.
abbrev pub Linked : (ℕ → Node) → Option ℕ → List ℕ → Type 0
Linked h p [] = p ≡ none
Linked h p (x ∷ xs) = (p ≡ some x) × Linked h (h x).next xs

abbrev pub last : List ℕ → Option ℕ
last [] = none
last (x ∷ []) = some x
last (x ∷ y ∷ ys) = last (y ∷ ys)

-- A list runs through `xs`.
pub record IsList (h : ℕ → Node) (l : LinkList) (xs : List ℕ) : Type 0 where
  pub chain : Linked h l.head xs
  pub end : l.tail ≡ last xs

unfoldable pub contents : (ℕ → Node) → List ℕ → List SendContext
contents h [] = []
contents h (x ∷ xs) = (h x).content ∷ contents h xs

-- `g` is `h` on the addresses of a list.
abbrev pub Same : List ℕ → (ℕ → Node) → (ℕ → Node) → Type 0
Same xs h g = (a : ℕ) → 0 < copies a xs → g a ≡ h a

same-head : (x : ℕ) (xs : List ℕ) (h g : ℕ → Node) → Same (x ∷ xs) h g → g x ≡ h x
same-head x xs h g same = same x (omega (arith, copies-head x xs))

same-rest : (x : ℕ) (xs : List ℕ) (h g : ℕ → Node) → Same (x ∷ xs) h g → Same xs h g
unfolding copies
same-rest x xs h g same a pos = same a (omega (arith, pos))

pub Linked-frame :
    (xs : List ℕ) (p : Option ℕ) (h g : ℕ → Node) → Same xs h g → Linked h p xs → Linked g p xs
Linked-frame [] p h g same e = e
Linked-frame (x ∷ xs) p h g same (e, rest) =
    let here = same-head x xs h g same in
    (e, rw here (Linked-frame xs (h x).next h g (same-rest x xs h g same) rest))

pub contents-frame : (xs : List ℕ) (h g : ℕ → Node) → Same xs h g → contents g xs ≡ contents h xs
unfolding contents
contents-frame [] h g same = refl
contents-frame (x ∷ xs) h g same =
    let here = same-head x xs h g same in
    let rest = contents-frame xs h g (same-rest x xs h g same) in rw (here, rest) refl

pub IsList-frame :
    (xs : List ℕ) (l : LinkList) (h g : ℕ → Node) → Same xs h g → IsList h l xs → IsList g l xs
IsList-frame xs l h g same is = record {
  chain = Linked-frame xs l.head h g same is.chain;
  end = is.end;
}

-- A write elsewhere.
pub put-Same :
    (xs : List ℕ) (a : ℕ) (n : Node) (h : ℕ → Node) → copies a xs ≡ 0 → Same xs h (put a n h)
unfolding copies
put-Same xs a n h out b pos = elim (Bool-cases (a == b)) [
  | inl e ↦ absurd (omega (arith, out, pos, ap (λ c. copies c xs) (==-≡ e)))
  | inr e ↦ put-past a b n h e
]

pub last-found : (x : ℕ) (xs : List ℕ) → (t : ℕ) × (last (x ∷ xs) ≡ some t)
last-found x [] = (x, refl)
last-found x (y ∷ ys) = last-found y ys

pub last-copies : (t x : ℕ) (xs : List ℕ) → last (x ∷ xs) ≡ some t → 0 < copies t (x ∷ xs)
unfolding copies
last-copies t x [] e =
    let same : x ≡ t = some-injective x t e in rw (sym same, ==_refl x) (omega arith)
last-copies t x (y ∷ ys) e = omega (arith, last-copies t y ys e)

pub last-append :
    (x : ℕ) (xs : List ℕ) (y : ℕ) (ys : List ℕ) → last ((x ∷ xs) ++ y ∷ ys) ≡ last (y ∷ ys)
last-append x [] y ys = refl
last-append x (z ∷ zs) y ys = last-append z zs y ys

-- The context at `t` gets the successor `q`.
abbrev pub with_next : ℕ → Option ℕ → (ℕ → Node) → ℕ → Node
with_next t q h = put t (record (h t) { next = q }) h

pub contents-with_next :
    (xs : List ℕ) (t : ℕ) (q : Option ℕ) (h : ℕ → Node)
    → contents (with_next t q h) xs ≡ contents h xs
unfolding contents
contents-with_next [] t q h = refl
contents-with_next (x ∷ xs) t q h =
    let rest = contents-with_next xs t q h in
    elim (Bool-cases (t == x)) [ inl e ↦ rw (e, rest, ==-≡ e) refl | inr e ↦ rw (e, rest) refl ]

-- The last context of a chain is linked to another chain.
pub Linked-splice :
    (x : ℕ) (xs ys : List ℕ) (p q : Option ℕ) (t : ℕ) (h : ℕ → Node)
    → Linked h p (x ∷ xs)
    → last (x ∷ xs) ≡ some t
    → ((a : ℕ) → copies a (x ∷ xs) + copies a ys ≤ 1)
    → Linked h q ys
    → Linked (with_next t q h) p ((x ∷ xs) ++ ys)
unfolding copies
Linked-splice x [] ys p q t h (e, rest) end own other =
    let same : x ≡ t = some-injective x t end in
    let out : copies t ys ≡ 0 = omega (arith, own t, last-copies t x [] end) in
    let frame = Linked-frame ys q h _ (put-Same ys t (record (h t) { next = q }) h out) other in
    (e, rw (same, ==_refl t) frame)
Linked-splice x (y ∷ r) ys p q t h (e, rest) end own other =
    let there = last-copies t y r end in
    let past : (t == x) ≡ false = ground (arith, own t, there) in
    let ih = Linked-splice y r ys (h x).next q t h rest end (λ a. omega (arith, own a)) other in
    (e, rw past ih)

-- The context at `a` changes, and stays where it is.
abbrev pub with_content : ℕ → SendContext → (ℕ → Node) → ℕ → Node
with_content a c h = put a (record (h a) { content = c }) h

next-with_content :
    (a : ℕ) (c : SendContext) (h : ℕ → Node) (b : ℕ) → (with_content a c h b).next ≡ (h b).next
next-with_content a c h b = elim (Bool-cases (a == b)) [
  | inl e ↦ rw (e, ==-≡ e) refl
  | inr e ↦ rw e refl
]

pub Linked-with_content :
    (xs : List ℕ) (p : Option ℕ) (a : ℕ) (c : SendContext) (h : ℕ → Node)
    → Linked h p xs
    → Linked (with_content a c h) p xs
Linked-with_content [] p a c h e = e
Linked-with_content (x ∷ xs) p a c h (e, rest) = (
  e,
  subst (λ q. Linked (with_content a c h) q xs) (sym (next-with_content a c h x))
      (Linked-with_content xs (h x).next a c h rest),
)

pub IsList-with_content :
    (xs : List ℕ) (l : LinkList) (a : ℕ) (c : SendContext) (h : ℕ → Node)
    → IsList h l xs
    → IsList (with_content a c h) l xs
IsList-with_content xs l a c h is = record {
  chain = Linked-with_content xs l.head a c h is.chain;
  end = is.end;
}
