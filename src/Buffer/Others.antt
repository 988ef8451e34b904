-- ===== src/Buffer/Others.antt =====
-- What an Append of src/net/Buffer.h does to the other buffers, and what Copy leaves.
use hwnet.Prelude.{
  put, ==_refl, [], ℕ, ◌+◌, ◌≤◌, ◌<◌, ◌≡◌, ◌≢◌, ◌⊎◌, inl, inr, refl, sym, ap, ◌∙◌, subst, false,
  List, ◌++◌, length, take, drop, arith, ltb, ◌==◌, if◌then◌else◌, size_mod, add_size_lem,
  Bool-cases,
}
use hwnet.Buffer.{
  at_least_16, new_buffer, new_from, Heap, Buffer, overwrite, to_string, append_here, move_to,
  append, copy_here, copy,
}
use hwnet.Buffer.Overwrite.{take-take, length-overwrite, overwrite-before}
use hwnet.Buffer.Contents.{
  append-IsHolding, IsValid, IsHolding, append-cases, append_here-IsHolding, move_to-to_string,
  cap-move_to,
}

put-elsewhere : (k j : ℕ) (xs : List ℕ) (f : ℕ → List ℕ) → k ≢ j → put k xs f j ≡ f j
put-elsewhere k j xs f differ = elim (Bool-cases (k == j)) [
  | inl same ↦ absurd (differ (ground arith))
  | inr e ↦ rw e refl
]

-- A heap with the same bytes and blocks for this buffer.
other-IsHolding :
    (y : Buffer) (h k : Heap)
    → IsValid h y
    → h.next ≤ k.next
    → k.blocks y.buff ≡ h.blocks y.buff
    → IsHolding (to_string h y) (y, k)
unfolding to_string
other-IsHolding y h k v le e = (
  record { allocated = omega (arith, v.allocated, le); inside = rw e v.inside; room = v.room },
  ap (λ xs. take y.len (drop y.b xs)) e,
)

-- A buffer in another block, or one that ends where the first ends or before.
abbrev pub IsClear : Buffer → Buffer → Type 0
IsClear x y = (x.buff ≢ y.buff) ⊎ (y.b + y.len ≤ x.b + x.len)

append_here-IsClear :
    (bs : List ℕ) (x y : Buffer) (h : Heap)
    → IsValid h x
    → IsValid h y
    → x.len + length bs ≤ x.cap
    → IsClear x y
    → IsHolding (to_string h y) (y, (append_here bs x h).1)
unfolding append_here to_string
append_here-IsClear bs x y h v w fits (inl differ) =
    other-IsHolding y h _ w (omega arith) (put-elsewhere x.buff y.buff _ h.blocks differ)
append_here-IsClear bs x y h v w fits (inr before) = elim (Bool-cases (x.buff == y.buff)) [
  | inr e ↦ other-IsHolding y h _ w (omega arith) (rw e refl)
  | inl e ↦
      let same : x.buff ≡ y.buff = ground arith in
      let block = h.blocks x.buff in
      let stored : put x.buff (overwrite (x.len + x.b) bs block) h.blocks y.buff
          ≡ overwrite (x.len + x.b) bs block =
        rw e refl in
      let old : block ≡ h.blocks y.buff = ap h.blocks same in
      let long = length-overwrite (x.len + x.b) bs block (omega (arith, v.inside, fits)) in
      (
        record {
          allocated = w.allocated;
          inside = omega (arith, ap length stored, ap length old, long, w.inside);
          room = w.room;
        },
        ap (λ xs. take y.len (drop y.b xs)) stored
            ∙ overwrite-before (x.len + x.b) y.b y.len bs block (omega (arith, before))
                (omega (arith, v.inside, v.room))
            ∙ ap (λ xs. take y.len (drop y.b xs)) old,
      )
]

move_to-IsClear :
    (junk : ℕ → List ℕ) (room : ℕ) (x y : Buffer) (h : Heap)
    → IsValid h y
    → IsHolding (to_string h y) (y, (move_to junk room x.len x h).1)
      × ((move_to junk room x.len x h).0.buff ≢ y.buff)
unfolding move_to
move_to-IsClear junk room x y h w =
    let differ : h.next ≢ y.buff = λ e. omega (arith, e, w.allocated) in
    (other-IsHolding y h _ w (omega arith) (put-elsewhere h.next y.buff _ h.blocks differ), differ)

-- Where the length does not overflow, an Append leaves another buffer as it was, if that is in another
-- block or ends where the first ends or before.
pub append-IsClear :
    (junk : ℕ → List ℕ) (bs : List ℕ) (x y : Buffer) (h : Heap)
    → ((n : ℕ) → length (junk n) ≡ n)
    → IsValid h x
    → IsValid h y
    → x.len + length bs < size_mod
    → IsClear x y
    → IsHolding (to_string h y) (y, (append junk bs x h).1)
append-IsClear junk bs x y h filled v w fits clear =
    subst (λ r. IsHolding (to_string h y) (y, r.1)) (sym (append-cases junk bs x h fits))
      (elim (Bool-cases (length bs == 0)) [
        | inl empty ↦ rw empty (w, refl)
        | inr bytes ↦ elim (Bool-cases (ltb x.cap (x.len + length bs))) [
          | inl full ↦
              let room = x.len + length bs in
              let (cap_is, len_is) = cap-move_to junk room x.len x h in
              let (valid, held) = move_to-to_string junk room x h (filled room) v (omega arith) in
              let ((kept, holds), differ) = move_to-IsClear junk room x y h w in
              let (still, holds_on) =
                append_here-IsClear bs (move_to junk room x.len x h).0 y
                  (move_to junk room x.len x h).1 valid kept (omega (arith, cap_is, len_is))
                  (inl differ) in
              rw (bytes, full) (still, holds_on ∙ holds)
          | inr fits_in ↦
              rw (bytes, fits_in) (append_here-IsClear bs x y h v w (ground arith) clear)
        ]
      ])

copy-cases :
    (junk : ℕ → List ℕ) (s : ℕ) (bs : List ℕ) (x : Buffer) (h : Heap)
    → 0 < length bs
    → s ≤ x.len
    → x.len ≤ s + length bs
    → s + length bs < size_mod
    → copy junk s bs x h ≡ (
        if s + length bs == x.cap
        then copy_here s bs x h
        else copy_here s bs
            (move_to junk (s + length bs) s x h).0
            (move_to junk (s + length bs) s x h).1)
unfolding copy
copy-cases junk s bs x h pos within covers fits =
    let e : (length bs == 0) ≡ false = ground arith in
    let e' : ltb x.len s ≡ false = ground arith in
    let e'' : ltb (s + length bs) x.len ≡ false = ground arith in
    rw (add_size_lem s (length bs) fits, e, e', e'') refl

-- Copy to a place in the buffer or at its end, where the bytes reach its end: it then holds what it
-- held before that place, and the bytes.
pub copy-IsHolding :
    (junk : ℕ → List ℕ) (s : ℕ) (bs : List ℕ) (x : Buffer) (h : Heap)
    → ((n : ℕ) → length (junk n) ≡ n)
    → IsValid h x
    → 0 < length bs
    → s ≤ x.len
    → x.len ≤ s + length bs
    → s + length bs < size_mod
    → IsHolding (take s (to_string h x) ++ bs) (copy junk s bs x h)
unfolding copy_here append_here move_to to_string
copy-IsHolding junk s bs x h filled v pos within covers fits =
    let room = s + length bs in
    let cut : Buffer = record x { len = s } in
    let cut_v : IsValid h cut = record {
      allocated = v.allocated;
      inside = v.inside;
      room = omega (arith, within, v.room);
    } in
    let first : to_string h cut ≡ take s (to_string h x) =
      sym (take-take s x.len (drop x.b (h.blocks x.buff)) within) in
    subst (IsHolding (take s (to_string h x) ++ bs))
      (sym (copy-cases junk s bs x h pos within covers fits))
      (elim (Bool-cases (room == x.cap)) [
        | inl exact ↦
            rw exact (
              append_here-IsHolding bs (take s (to_string h x)) cut h (cut_v, first) (ground arith))
        | inr other ↦
            let (valid, held) =
              move_to-to_string junk room cut h (filled room) cut_v (omega arith) in
            rw other (
              append_here-IsHolding bs (take s (to_string h x)) (move_to junk room s cut h).0
                (move_to junk room s cut h).1 (valid, held ∙ first) (omega arith))
      ])

new_buffer-IsHolding :
    (junk : ℕ → List ℕ) (cap_ : ℕ) (h : Heap)
    → ((n : ℕ) → length (junk n) ≡ n)
    → IsHolding [] (new_buffer junk cap_ 0 h) × ((new_buffer junk cap_ 0 h).0.len ≡ 0)
unfolding new_buffer to_string
new_buffer-IsHolding junk cap_ h filled =
    let room = at_least_16 cap_ in
    let none_yet : (if ltb room 0 then room else 0) ≡ 0 = ground arith in
    let stored : put h.next (junk room) h.blocks h.next ≡ junk room = rw (==_refl h.next) refl in
    (
      (
        record {
          allocated = omega arith;
          inside = omega (arith, ap length stored, filled room);
          room = omega (arith, none_yet);
        },
        ap (λ n. take n (put h.next (junk room) h.blocks h.next)) none_yet,
      ),
      none_yet,
    )

-- New of a string holds the string.
new_from-IsHolding :
    (junk : ℕ → List ℕ) (bs : List ℕ) (h : Heap)
    → ((n : ℕ) → length (junk n) ≡ n)
    → length bs < size_mod
    → IsHolding bs (new_from junk bs h)
unfolding new_from
new_from-IsHolding junk bs h filled fits =
    let ((valid, empty), no_bytes) = new_buffer-IsHolding junk (length bs) h filled in
    let x = (new_buffer junk (length bs) 0 h).0 in
    let k = (new_buffer junk (length bs) 0 h).1 in
    let (valid', held) =
      append-IsHolding junk bs x k filled valid (omega (arith, no_bytes, fits)) in
    (valid', held ∙ ap (λ l. l ++ bs) empty)
