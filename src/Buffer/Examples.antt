-- ===== src/Buffer/Examples.antt =====
-- Runs of the model of src/net/Buffer.h.
use hwnet.Prelude.{ℕ, zero, suc, ◌≡◌, refl, List, [], ◌∷◌, some, length, arith, inr}
use hwnet.Buffer.{Heap, Buffer, to_string, slice, append, copy}
use hwnet.Buffer.Contents.{IsValid, IsHolding, append-IsHolding, slice-IsHolding}
use hwnet.Buffer.Others.{append-IsClear, copy-IsHolding}

zeros : ℕ → List ℕ
zeros zero = []
zeros (suc n) = 0 ∷ zeros n

length-zeros : (n : ℕ) → length (zeros n) ≡ n
unfolding zeros
length-zeros zero = refl
length-zeros (suc n) = let e = length-zeros n in omega (arith, e)

-- One block of four bytes, a buffer of three, its slice [1:3], and the slice [1:2] of that.
abbrev heap : Heap
heap = record { blocks = λ k. 1 ∷ 2 ∷ 3 ∷ 9 ∷ []; next = 1 }

abbrev whole : Buffer
whole = record { buff = 0; b = 0; len = 3; cap = 4 }

abbrev part : Buffer
part = record { buff = 0; b = 1; len = 2; cap = 3 }

abbrev part_of_part : Buffer
part_of_part = record { buff = 0; b = 1; len = 1; cap = 2 }

whole-IsValid : IsValid heap whole
whole-IsValid = record { allocated = omega arith; inside = omega arith; room = omega arith }

part-IsValid : IsValid heap part
part-IsValid = record { allocated = omega arith; inside = omega arith; room = omega arith }

part_is_slice : slice whole 1 3 ≡ some part
unfolding slice
part_is_slice = refl

part_of_part_is_slice : slice part 1 2 ≡ some part_of_part
unfolding slice
part_of_part_is_slice = refl

append-IsHolding_example : IsHolding (1 ∷ 2 ∷ 3 ∷ 7 ∷ 8 ∷ []) (append zeros (7 ∷ 8 ∷ []) whole heap)
unfolding to_string
append-IsHolding_example =
    append-IsHolding zeros (7 ∷ 8 ∷ []) whole heap length-zeros whole-IsValid (omega arith)

append-IsClear_example : IsHolding (2 ∷ 3 ∷ []) (part, (append zeros (7 ∷ []) whole heap).1)
unfolding to_string
append-IsClear_example =
    append-IsClear zeros (7 ∷ []) whole part heap length-zeros whole-IsValid part-IsValid
      (omega arith) (inr (omega arith))

-- The buffer that was cut holds 2 and 3, and its slice [1:2] holds 2.
slice-IsHolding_example : IsHolding (2 ∷ []) (part_of_part, heap)
slice-IsHolding_example =
    slice-IsHolding part part_of_part heap 1 2 part-IsValid part_of_part_is_slice

copy-IsHolding_example : IsHolding (1 ∷ 7 ∷ 8 ∷ []) (copy zeros 1 (7 ∷ 8 ∷ []) whole heap)
unfolding to_string
copy-IsHolding_example =
    copy-IsHolding zeros 1 (7 ∷ 8 ∷ []) whole heap length-zeros whole-IsValid (omega arith)
      (omega arith) (omega arith) (omega arith)
