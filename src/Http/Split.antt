-- ===== src/Http/Split.antt =====
-- What src/net/http/Http.cpp makes of a header's name that http_parser gives it in two pieces, as it
-- does when the name stands across the end of what was received.
use hwnet.Prelude.{
  ℕ, ◌≡◌, refl, ap, ◌∙◌, Bool, true, false, [], ◌∷◌, ◌++◌, some, arith, if◌then◌else◌, length,
  length-append,
}
use hwnet.Http.{
  Bytes, HttpPacket, HttpSession, with_packet, field_piece, value_piece, commit, put_field, find,
  same, execute,
}
use hwnet.Http.Fields.{same-≡, same_refl, find-put_field}

differs :
    (a b : Bytes) (x : Bool) → same a b ≡ x → (length a ≡ length b → x ≡ false) → same a b ≡ false
differs a b true e h = e ∙ h (ap length (same-≡ a b e))
differs a b false e h = e

-- Where no header is pending, a name comes in two pieces, neither empty, and then its value: after
-- them and the end of the headers, the whole name has the header that it had before, if any; the
-- second piece has the value, and the first, unless it is the same, an empty value.
pub field_pieces-torn :
    (user : HttpPacket → HttpPacket) (x y : ℕ) (xs ys v : Bytes) (c : HttpPacket) (s : HttpSession)
    → (p : HttpPacket) × (execute user
          (field_piece (x ∷ xs) ∷ field_piece (y ∷ ys) ∷ value_piece v ∷ [])
          (with_packet (record c { field = []; value = [] }) s)
        ≡ some (with_packet p s))
      × (find ((x ∷ xs) ++ y ∷ ys) (commit p).headers ≡ find ((x ∷ xs) ++ y ∷ ys) c.headers)
      × (find (x ∷ xs) (commit p).headers ≡ (if same (x ∷ xs) (y ∷ ys) then some v else some []))
      × (find (y ∷ ys) (commit p).headers ≡ some v)
unfolding execute commit
field_pieces-torn user x y xs ys v c s =
    let k : Bytes = x ∷ xs in
    let l : Bytes = y ∷ ys in
    let hs = put_field k [] c.headers in
    let longer = length-append k l in
    let not_second =
      differs (k ++ l) l (same (k ++ l) l) refl (λ e. absurd (omega (arith, e, longer))) in
    let not_first =
      differs (k ++ l) k (same (k ++ l) k) refl (λ e. absurd (omega (arith, e, longer))) in
    (
      record c { headers = hs; field = l; value = v },
      refl,
      find-put_field (k ++ l) l v hs
          ∙ rw not_second (find-put_field (k ++ l) k [] c.headers ∙ rw not_first refl),
      find-put_field k l v hs
          ∙ ap (λ o. if same k l then some v else o)
              (find-put_field k k [] c.headers ∙ rw (same_refl k) refl),
      find-put_field l l v hs ∙ rw (same_refl l) refl,
    )
