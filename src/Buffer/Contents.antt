-- ===== src/Buffer/Contents.antt =====
-- What the buffers of src/net/Buffer.h hold after their operations, and what the others still hold.
use hwnet.Prelude.{
  put, ==_refl, ℕ, ◌+◌, ◌-◌, ◌≤◌, ◌<◌, ◌≡◌, inl, inr, refl, sym, ap, ◌∙◌, subst, false, List, [],
  ◌∷◌, ◌++◌, some, length, take, drop, arith, ltb, ◌==◌, if◌then◌else◌, size_mod, add_size_lem,
  length-take, length-drop, drop-take, append-nil, append-nil, Bool-cases,
}
use hwnet.Buffer.Overwrite.{take-take, length-overwrite, overwrite-after, overwrite-start}
use hwnet.Buffer.{Heap, Buffer, overwrite, to_string, slice, append_here, move_to, append}

-- The buffer lies in a block that there is.
pub record IsValid (h : Heap) (x : Buffer) : Type 0 where
  pub allocated : x.buff < h.next
  pub inside : x.b + x.cap ≤ length (h.blocks x.buff)
  pub room : x.len ≤ x.cap

append_here-to_string :
    (bs : List ℕ) (x : Buffer) (h : Heap)
    → IsValid h x
    → x.len + length bs ≤ x.cap
    → IsValid (append_here bs x h).1 (append_here bs x h).0
      × (to_string (append_here bs x h).1 (append_here bs x h).0 ≡ to_string h x ++ bs)
unfolding append_here to_string
append_here-to_string bs x h v fits =
    let stored : put x.buff (overwrite (x.len + x.b) bs (h.blocks x.buff)) h.blocks x.buff
        ≡ overwrite (x.len + x.b) bs (h.blocks x.buff) =
      rw (==_refl x.buff) refl in
    let same =
      length-overwrite (x.len + x.b) bs (h.blocks x.buff) (omega (arith, v.inside, fits)) in
    (
      record {
        allocated = v.allocated;
        inside = omega (arith, ap length stored, same, v.inside);
        room = fits;
      },
      ap (λ l. take (x.len + length bs) (drop x.b l)) stored
          ∙ overwrite-after x.b x.len bs (h.blocks x.buff) (omega (arith, v.inside, v.room)),
    )

pub move_to-to_string :
    (junk : ℕ → List ℕ) (room : ℕ) (x : Buffer) (h : Heap)
    → length (junk room) ≡ room
    → IsValid h x
    → x.len ≤ room
    → IsValid (move_to junk room x.len x h).1 (move_to junk room x.len x h).0
      × (to_string (move_to junk room x.len x h).1 (move_to junk room x.len x h).0 ≡ to_string h x)
unfolding move_to to_string
move_to-to_string junk room x h filled v fits =
    let kept = take x.len (drop x.b (h.blocks x.buff)) in
    let long : length kept ≡ x.len = ground (
      arith,
      length-take x.len (drop x.b (h.blocks x.buff)),
      length-drop x.b (h.blocks x.buff),
      v.inside,
      v.room,
    ) in
    let stored : put h.next (overwrite 0 kept (junk room)) h.blocks h.next
        ≡ overwrite 0 kept (junk room) =
      rw (==_refl h.next) refl in
    let same = length-overwrite 0 kept (junk room) (omega (arith, long, filled, fits)) in
    (
      record {
        allocated = omega arith;
        inside = omega (arith, ap length stored, same, filled);
        room = fits;
      },
      ap (take x.len) stored
          ∙ ap (λ n. take n (overwrite 0 kept (junk room))) (sym long)
          ∙ overwrite-start kept (junk room),
    )

length-nil : (xs : List ℕ) → length xs ≡ 0 → xs ≡ []
length-nil [] e = refl
length-nil (x ∷ xs) e = ground arith

-- The buffer lies in its block and holds these bytes.
abbrev pub IsHolding : List ℕ → Buffer × Heap → Type 0
IsHolding bs (x, h) = IsValid h x × (to_string h x ≡ bs)

pub append_here-IsHolding :
    (bs held : List ℕ) (x : Buffer) (h : Heap)
    → IsHolding held (x, h)
    → x.len + length bs ≤ x.cap
    → IsHolding (held ++ bs) (append_here bs x h)
append_here-IsHolding bs held x h (v, e) fits =
    let (valid, appended) = append_here-to_string bs x h v fits in
    (valid, appended ∙ ap (λ l. l ++ bs) e)

pub cap-move_to :
    (junk : ℕ → List ℕ) (room kept : ℕ) (x : Buffer) (h : Heap)
    → ((move_to junk room kept x h).0.cap ≡ room) × ((move_to junk room kept x h).0.len ≡ x.len)
unfolding move_to
cap-move_to junk room kept x h = (refl, refl)

-- Append once the sum of the lengths is known not to overflow.
pub append-cases :
    (junk : ℕ → List ℕ) (bs : List ℕ) (x : Buffer) (h : Heap)
    → x.len + length bs < size_mod
    → append junk bs x h ≡ (
        if length bs == 0
        then (x, h)
        else if ltb x.cap (x.len + length bs)
        then append_here bs
            (move_to junk (x.len + length bs) x.len x h).0
            (move_to junk (x.len + length bs) x.len x h).1
        else append_here bs x h)
unfolding append
append-cases junk bs x h fits =
    let e : ltb (x.len + length bs) x.len ≡ false = ground arith in
    rw (add_size_lem x.len (length bs) fits, e)
      (elim (Bool-cases (length bs == 0)) [ inl t ↦ rw t refl | inr t ↦ rw t refl ])

-- Where the length does not overflow, Append leaves a buffer that lies in its block and holds what it
-- held, followed by the bytes given.
pub append-IsHolding :
    (junk : ℕ → List ℕ) (bs : List ℕ) (x : Buffer) (h : Heap)
    → ((n : ℕ) → length (junk n) ≡ n)
    → IsValid h x
    → x.len + length bs < size_mod
    → IsHolding (to_string h x ++ bs) (append junk bs x h)
append-IsHolding junk bs x h filled v fits =
    subst (IsHolding (to_string h x ++ bs)) (sym (append-cases junk bs x h fits))
      (elim (Bool-cases (length bs == 0)) [
        | inl empty ↦
            rw empty
              (v, sym (ap (◌++◌ (to_string h x)) (length-nil bs (ground arith)) ∙ append-nil _))
        | inr bytes ↦ elim (Bool-cases (ltb x.cap (x.len + length bs))) [
          | inl full ↦
              let room = x.len + length bs in
              let (cap_is, len_is) = cap-move_to junk room x.len x h in
              rw (bytes, full)
                (append_here-IsHolding bs (to_string h x) (move_to junk room x.len x h).0 _
                  (move_to-to_string junk room x h (filled room) v (omega arith))
                  (omega (arith, cap_is, len_is)))
          | inr fits_in ↦
              rw (bytes, fits_in)
                (append_here-IsHolding bs (to_string h x) x h (v, refl) (ground arith))
        ]
      ])

-- What New(o,s,e) tests, and the fields of what it gives.
record IsSlice (o y : Buffer) (s e : ℕ) : Type 0 where
  first : s < e
  last : e ≤ o.len
  buff : y.buff ≡ o.buff
  b : y.b ≡ s
  len : y.len ≡ e - s
  cap : y.cap ≡ o.cap - s

slice-IsSlice : (o y : Buffer) (s e : ℕ) → slice o s e ≡ some y → IsSlice o y s e
unfolding slice
slice-IsSlice o y s e made = ground arith

-- What New(o,s,e) gives lies in the block of `o`, and holds the bytes of that block from `s` to `e`,
-- counted from the start of the block and not from where `o` begins.
pub slice-IsHolding :
    (o y : Buffer) (h : Heap) (s e : ℕ)
    → IsValid h o
    → slice o s e ≡ some y
    → IsHolding (take (e - s) (drop s (h.blocks o.buff))) (y, h)
unfolding to_string
slice-IsHolding o y h s e v made =
    let g = slice-IsSlice o y s e made in
    (
      record {
        allocated = omega (arith, g.buff, v.allocated);
        inside = omega (
          arith,
          g.b,
          g.cap,
          g.first,
          g.last,
          ap (λ k. length (h.blocks k)) g.buff,
          v.inside,
          v.room,
        );
        room = omega (arith, g.len, g.cap, g.first, g.last, v.room);
      },
      rw (g.len, g.b, g.buff) refl,
    )

-- A slice of a buffer that begins at the start of its block, as one does that is no slice, holds the
-- part from `s` to `e` of what that buffer holds.
slice-to_string :
    (o y : Buffer) (h : Heap) (s e : ℕ)
    → IsValid h o
    → o.b ≡ 0
    → slice o s e ≡ some y
    → to_string h y ≡ take (e - s) (drop s (to_string h o))
unfolding to_string
slice-to_string o y h s e v start made =
    let g = slice-IsSlice o y s e made in
    let block = h.blocks o.buff in
    (slice-IsHolding o y h s e v made).1
    ∙ sym (
        rw start refl
        ∙ ap (take (e - s)) (drop-take s o.len block)
        ∙ take-take (e - s) (o.len - s) (drop s block) (omega (arith, g.last)))
