-- ===== src/Buffer/Overwrite.antt =====
-- The bytes of a block of src/net/Buffer.h around those that memcpy writes.
use hwnet.Prelude.{
  ℕ, zero, suc, ◌+◌, ◌-◌, ◌≤◌, ◌≡◌, refl, sym, ap, ◌∙◌, List, [], ◌∷◌, ◌++◌, length, take, drop,
  arith, length-append, length-take, length-drop, take-length, take-append_le, drop-append_le,
  drop-take, append_assoc,
}
use hwnet.Buffer.{overwrite}

pub take-take : (n m : ℕ) (xs : List ℕ) → n ≤ m → take n (take m xs) ≡ take n xs
take-take zero m xs le = refl
take-take (suc n) zero xs le = absurd (omega (arith, le))
take-take (suc n) (suc m) [] le = refl
take-take (suc n) (suc m) (x ∷ xs) le = ap (◌∷◌ x) (take-take n m xs (omega (arith, le)))

pub length-overwrite :
    (off : ℕ) (bs xs : List ℕ)
    → off + length bs ≤ length xs
    → length (overwrite off bs xs) ≡ length xs
unfolding overwrite
length-overwrite off bs xs le = ground (
  arith,
  length-append (take off xs ++ bs) (drop (off + length bs) xs),
  length-append (take off xs) bs,
  length-take off xs,
  length-drop (off + length bs) xs,
)

-- A part of a list, taken in two ways.
window : (b len : ℕ) (xs : List ℕ) → take len (drop b xs) ≡ drop b (take (b + len) xs)
window b len xs =
    let e : b + len - b ≡ len = omega arith in
    sym (drop-take b (b + len) xs ∙ ap (λ n. take n (drop b xs)) e)

-- Bytes that end before the offset are not touched.
pub overwrite-before :
    (off b len : ℕ) (bs xs : List ℕ)
    → b + len ≤ off
    → off ≤ length xs
    → take len (drop b (overwrite off bs xs)) ≡ take len (drop b xs)
unfolding overwrite
overwrite-before off b len bs xs le fits =
    window b len (overwrite off bs xs)
    ∙ ap (drop b) (
        ap (take (b + len)) (append_assoc (take off xs) bs (drop (off + length bs) xs))
        ∙ take-append_le (b + len) (take off xs) _ (ground (arith, length-take off xs))
        ∙ take-take (b + len) off xs le)
    ∙ sym (window b len xs)

-- Bytes that end at the offset are followed by the new ones.
pub overwrite-after :
    (b len : ℕ) (bs xs : List ℕ)
    → b + len ≤ length xs
    → take (len + length bs) (drop b (overwrite (len + b) bs xs)) ≡ take len (drop b xs) ++ bs
unfolding overwrite
overwrite-after b len bs xs le =
    let start = take (len + b) xs in
    let same : length start ≡ len + b = ground (arith, length-take (len + b) xs) in
    let all : b + (len + length bs) ≡ length (start ++ bs) =
      omega (arith, length-append start bs, same) in
    window b (len + length bs) (overwrite (len + b) bs xs)
    ∙ ap (drop b) (
        ap (λ n. take n (overwrite (len + b) bs xs)) all
        ∙ take-append_le _ (start ++ bs) _ (omega arith)
        ∙ take-length (start ++ bs))
    ∙ drop-append_le b start bs (omega (arith, same))
    ∙ ap (λ n. drop b (take n xs) ++ bs) (let e : len + b ≡ b + len = omega arith in e)
    ∙ ap (λ l. l ++ bs) (sym (window b len xs))

pub overwrite-start : (bs xs : List ℕ) → take (length bs) (overwrite 0 bs xs) ≡ bs
unfolding overwrite
overwrite-start bs xs = take-append_le (length bs) bs _ (omega arith) ∙ take-length bs
