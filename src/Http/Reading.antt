-- ===== src/Http/Reading.antt =====
-- What a reader of HTTP makes of the text that MakeHeader of src/net/http/Http.cpp writes.
use hwnet.Prelude.{
  ◌>>=◌, ℕ, zero, suc, ◌<◌, ◌≡◌, refl, ap, ◌∙◌, Bool, true, false, not, ◌&&◌, [], ◌∷◌, ◌++◌, Option,
  none, some, ==_refl, arith, length, length-append, append_assoc, ◌==◌, if◌then◌else◌,
}
use hwnet.Http.{Bytes, Fields, HttpPacket}
use hwnet.Http.Writing.{
  Kind, of_request, of_response, space, line_end, field_lines, version, first_line, make_header,
}

-- The bytes before the first `c`, and those after it.
unfoldable pub cut_at : ℕ → Bytes → Option (Bytes × Bytes)
cut_at c [] = none
cut_at c (b ∷ bs) =
    let more : Option (Bytes × Bytes) = do (xs, ys) ← cut_at c bs; some (b ∷ xs, ys)
    in if b == c then some ([], bs) else more

unfoldable pub skip : ℕ → Bytes → Option Bytes
skip c [] = none
skip c (b ∷ bs) = if b == c then some bs else none

-- The empty line, where a CR was found, or else a header.
last_or : Option (Fields × Bytes) → Option Bytes → Option (Fields × Bytes)
unfolding skip
last_or more none = more
last_or more (some r) = do body ← skip 10 r; some ([], body)

-- The headers up to an empty line, on fuel, and what follows it.
unfoldable pub read_fields : ℕ → Bytes → Option (Fields × Bytes)
unfolding cut_at skip last_or
read_fields zero bs = none
read_fields (suc n) bs =
    let more : Option (Fields × Bytes) = do
      (k, r) ← cut_at 58 bs
      (v, r') ← cut_at 13 r
      next ← skip 10 r'
      (hs, body) ← read_fields n next
      some ((k, v) ∷ hs, body)
    in last_or more (skip 13 bs)

-- A message: the three words of its first line, the headers and what follows.
unfoldable pub read_message : Bytes → Option ((Bytes × Bytes × Bytes) × Fields × Bytes)
unfolding cut_at skip read_fields
read_message bs = do
  (a, r1) ← cut_at 32 bs
  (b, r2) ← cut_at 32 r1
  (c, r3) ← cut_at 13 r2
  r4 ← skip 10 r3
  (hs, body) ← read_fields (length r4) r4
  some ((a, b, c), hs, body)

unfoldable pub lacks : ℕ → Bytes → Bool
lacks c [] = true
lacks c (b ∷ bs) = not (b == c) && lacks c bs

-- A name without a colon or a CR, and a value without a CR.
unfoldable pub are_plain : Fields → Bool
unfolding lacks
are_plain [] = true
are_plain ((k, v) ∷ hs) = lacks 58 k && lacks 13 k && lacks 13 v && are_plain hs

both : (a b : Bool) → (a && b) ≡ true → (a ≡ true) × (b ≡ true)
both true true e = (refl, refl)
both true false e = absurd (ground (arith, e))
both false b e = absurd (ground (arith, e))

plain_first :
    (k v : Bytes) (hs : Fields)
    → are_plain ((k, v) ∷ hs) ≡ true
    → (lacks 58 k ≡ true) × (lacks 13 k ≡ true) × (lacks 13 v ≡ true) × (are_plain hs ≡ true)
unfolding are_plain
plain_first k v hs e =
    let (rest, more) = both (lacks 58 k && lacks 13 k && lacks 13 v) (are_plain hs) e in
    let (names, value) = both (lacks 58 k && lacks 13 k) (lacks 13 v) rest in
    let (colon, name) = both (lacks 58 k) (lacks 13 k) names in (colon, name, value, more)

cut_at-append :
    (c : ℕ) (xs ys : Bytes) → lacks c xs ≡ true → cut_at c (xs ++ c ∷ ys) ≡ some (xs, ys)
unfolding cut_at lacks
cut_at-append c [] ys e = rw (==_refl c) refl
cut_at-append c (x ∷ xs) ys e =
    let (here, rest) = both (not (x == c)) (lacks c xs) e in
    let past : (x == c) ≡ false = ground (arith, here) in rw (past, cut_at-append c xs ys rest) refl

-- A header does not begin with a CR.
skip-name : (k rest : Bytes) → lacks 13 k ≡ true → skip 13 (k ++ 58 ∷ rest) ≡ none
unfolding skip lacks
skip-name [] rest e = refl
skip-name (x ∷ xs) rest e =
    let (here, more) = both (not (x == 13)) (lacks 13 xs) e in
    let past : (x == 13) ≡ false = ground (arith, here) in rw past refl

read_no_fields :
    (n : ℕ) (body : Bytes) → read_fields (suc n) (field_lines [] ++ body) ≡ some ([], body)
unfolding read_fields field_lines skip last_or
read_no_fields n body = refl

read_one :
    (k v : Bytes) (hs : Fields) (body next : Bytes) (n : ℕ)
    → lacks 58 k ≡ true
    → lacks 13 k ≡ true
    → lacks 13 v ≡ true
    → read_fields n next ≡ some (hs, body)
    → read_fields (suc n) (k ++ 58 ∷ (v ++ 13 ∷ 10 ∷ next)) ≡ some ((k, v) ∷ hs, body)
unfolding read_fields skip last_or
read_one k v hs body next n colon name value e =
    rw
      (
        skip-name k (v ++ 13 ∷ 10 ∷ next) name,
        cut_at-append 58 k (v ++ 13 ∷ 10 ∷ next) colon,
        cut_at-append 13 v (10 ∷ next) value,
        e,
      )
      refl

field_lines-append :
    (k v : Bytes) (hs : Fields) (body : Bytes)
    → field_lines ((k, v) ∷ hs) ++ body ≡ k ++ 58 ∷ (v ++ 13 ∷ 10 ∷ (field_lines hs ++ body))
unfolding field_lines
field_lines-append k v hs body = simp append_assoc

read_fields-field_lines :
    (n : ℕ) (hs : Fields) (body : Bytes)
    → are_plain hs ≡ true
    → length hs < n
    → read_fields n (field_lines hs ++ body) ≡ some (hs, body)
read_fields-field_lines zero hs body plain enough = absurd (omega (arith, enough))
read_fields-field_lines (suc n) [] body plain enough = read_no_fields n body
read_fields-field_lines (suc n) ((k, v) ∷ hs) body plain enough =
    let (colon, name, value, more) = plain_first k v hs plain in
    ap (read_fields (suc n)) (field_lines-append k v hs body)
    ∙ read_one k v hs body (field_lines hs ++ body) n colon name value
        (read_fields-field_lines n hs body more (omega (arith, enough)))

fewer_fields : (hs : Fields) → length hs < length (field_lines hs)
unfolding field_lines
fewer_fields [] = omega arith
fewer_fields ((k, v) ∷ hs) =
    let lines = k ++ (58 ∷ []) ++ v ++ 13 ∷ 10 ∷ [] in
    omega (
      arith,
      fewer_fields hs,
      length-append lines (field_lines hs),
      length-append (k ++ (58 ∷ []) ++ v) (13 ∷ 10 ∷ []),
    )

-- A first line of three words, and headers.
abbrev message : Bytes → Bytes → Bytes → Fields → Bytes
message a b c hs = a ++ space ++ b ++ space ++ c ++ line_end ++ field_lines hs

message-append :
    (a b c : Bytes) (hs : Fields) (body : Bytes)
    → message a b c hs ++ body ≡ a ++ 32 ∷ (b ++ 32 ∷ (c ++ 13 ∷ 10 ∷ (field_lines hs ++ body)))
message-append a b c hs body = simp append_assoc

read_message-message :
    (a b c : Bytes) (hs : Fields) (body : Bytes)
    → lacks 32 a ≡ true
    → lacks 32 b ≡ true
    → lacks 13 c ≡ true
    → are_plain hs ≡ true
    → read_message (message a b c hs ++ body) ≡ some ((a, b, c), hs, body)
unfolding read_message skip
read_message-message a b c hs body in_a in_b in_c plain =
    let text = field_lines hs ++ body in
    let enough : length hs < length text =
      omega (arith, fewer_fields hs, length-append (field_lines hs) body) in
    rw
      (
        message-append a b c hs body,
        cut_at-append 32 a (b ++ 32 ∷ (c ++ 13 ∷ 10 ∷ text)) in_a,
        cut_at-append 32 b (c ++ 13 ∷ 10 ∷ text) in_b,
        cut_at-append 13 c (10 ∷ text) in_c,
        read_fields-field_lines (length text) hs body plain enough,
      )
      refl

bind_same :
    {A B C D : Type 0} (o : Option A) (f : A → B) (g : A → C) (l : B → Option D) (r : C → Option D)
    → ((x : A) → l (f x) ≡ r (g x))
    → (o >>= λ x. some (f x)) >>= l ≡ (o >>= λ x. some (g x)) >>= r
bind_same none f g l r e = refl
bind_same (some x) f g l r e = e x

module _ (print : ℕ → Bytes) (method_string : ℕ → Bytes) where
  -- The three words of the first line; `none` is a number that was never set.
  unfoldable pub words : Kind → HttpPacket → Option (Bytes × Bytes × Bytes)
  words of_request p = do
    method ← p.method
    some (method_string method, p.url, version print method_string p)
  words of_response p = do
    code ← p.status_code
    some (version print method_string p, print code, p.status)

  make_header_lem :
      (kind : Kind) (p : HttpPacket)
      → make_header print method_string kind p
        ≡ words kind p >>= λ (a, b, c). some (message a b c p.headers)
  unfolding words make_header first_line
  make_header_lem of_request p = bind_same p.method _ _ _ _ (λ m. refl)
  make_header_lem of_response p = bind_same p.status_code _ _ _ _ (λ n. refl)

  -- Where the first two words have no space, the third one no CR, and the headers are names without
  -- a colon or a CR and values without a CR: MakeHeader writes a text, and who reads it, with any body
  -- behind it, finds the three words, all headers in their order, and the body.
  pub read_message-make_header :
      (kind : Kind) (p : HttpPacket) (a b c body : Bytes)
      → words kind p ≡ some (a, b, c)
      → lacks 32 a ≡ true
      → lacks 32 b ≡ true
      → lacks 13 c ≡ true
      → are_plain p.headers ≡ true
      → (text : Bytes) × (make_header print method_string kind p ≡ some text)
        × (read_message (text ++ body) ≡ some ((a, b, c), p.headers, body))
  read_message-make_header kind p a b c body e in_a in_b in_c plain = (
    message a b c p.headers,
    make_header_lem kind p ∙ rw e refl,
    read_message-message a b c p.headers body in_a in_b in_c plain,
  )
