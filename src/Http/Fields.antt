-- ===== src/Http/Fields.antt =====
-- The map of headers of src/net/http/Http.h: what Field reads is what SetField wrote.
use hwnet.Prelude.{
  ◌≡◌, refl, sym, ◌∙◌, Bool, true, false, ◌&&◌, [], ◌∷◌, Option, some, arith, if◌then◌else◌,
  ==_refl,
}
use hwnet.Http.{Bytes, Fields, same, less, put_field, find}

pub same-≡ : (a b : Bytes) → same a b ≡ true → a ≡ b
unfolding same
same-≡ [] [] e = refl
same-≡ [] (y ∷ ys) e = absurd (ground (arith, e))
same-≡ (x ∷ xs) [] e = absurd (ground (arith, e))
same-≡ (x ∷ xs) (y ∷ ys) e =
    let first : x ≡ y = ground (arith, e) in
    let others : same xs ys ≡ true = ground (arith, e) in rw (first, same-≡ xs ys others) refl

pub same_refl : (a : Bytes) → same a a ≡ true
unfolding same
same_refl [] = refl
same_refl (x ∷ xs) = let e = same_refl xs in rw (==_refl x, e) refl

if_again :
    (a : Bool) (x y z : Option Bytes) → (if a then x else z) ≡ (if a then x else if a then y else z)
if_again true x y z = refl
if_again false x y z = refl

if_swap :
    (a b : Bool) (x y z : Option Bytes)
    → (a && b) ≡ false
    → (if b then y else if a then x else z) ≡ (if a then x else if b then y else z)
if_swap true true x y z e = absurd (ground (arith, e))
if_swap true false x y z e = refl
if_swap false b x y z e = refl

same-apart :
    (k l l' : Bytes) (a b : Bool)
    → same k l ≡ a
    → same k l' ≡ b
    → same l l' ≡ false
    → (a && b) ≡ false
same-apart k l l' true true e e' differ =
    let both : l ≡ l' = sym (same-≡ k l e) ∙ same-≡ k l' e' in
    let meet : same l l' ≡ true = rw both (same_refl l') in absurd (ground (arith, meet, differ))
same-apart k l l' true false e e' differ = refl
same-apart k l l' false b e e' differ = refl

put_field-cons :
    (k l v l' v' : Bytes) (rest : Fields) (at before : Bool)
    → same l l' ≡ at
    → less l l' ≡ before
    → find k (put_field l v rest) ≡ (if same k l then some v else find k rest)
    → find k (put_field l v ((l', v') ∷ rest))
      ≡ (if same k l then some v else find k ((l', v') ∷ rest))
unfolding find put_field
put_field-cons k l v l' v' rest true before e e' ih =
    rw (e, sym (same-≡ l l' e)) (if_again (same k l) (some v) (some v') (find k rest))
put_field-cons k l v l' v' rest false true e e' ih = rw (e, e') refl
put_field-cons k l v l' v' rest false false e e' ih =
    rw (e, e', ih)
      (if_swap (same k l) (same k l') (some v) (some v') (find k rest)
        (same-apart k l l' (same k l) (same k l') refl refl e))

-- A header that was set is found, and all others are as they were.
pub find-put_field :
    (k l v : Bytes) (hs : Fields)
    → find k (put_field l v hs) ≡ (if same k l then some v else find k hs)
unfolding find put_field
find-put_field k l v [] = refl
find-put_field k l v ((l', v') ∷ rest) =
    put_field-cons k l v l' v' rest (same l l') (less l l') refl refl (find-put_field k l v rest)
