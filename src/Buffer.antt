-- ===== src/Buffer.antt =====
-- src/net/Buffer.h: buffers that share blocks of bytes. The memory is explicit; what new char[n]
-- holds before it is written is an argument.
mod Overwrite
mod Contents
mod Others
mod Examples
use hwnet.Prelude.{
  put, ℕ, ◌+◌, ◌-◌, Bool, true, false, ◌||◌, List, [], ◌∷◌, ◌++◌, Option, none, some, length, take,
  drop, ltb, leb, ◌==◌, if◌then◌else◌, add_size,
}

-- The blocks by their address, and the first address that is free.
pub record Heap : Type 0 where
  pub blocks : ℕ → List ℕ
  pub next : ℕ

pub record Buffer : Type 0 where
  pub buff : ℕ
  pub b : ℕ
  pub len : ℕ
  pub cap : ℕ

-- make_shared<bytes>, with what the new block holds.
abbrev pub allocate : List ℕ → Heap → Heap
allocate xs h = record { blocks = put h.next xs h.blocks; next = h.next + 1 }

-- memcpy of `bs` into a block, from the offset on.
unfoldable pub overwrite : ℕ → List ℕ → List ℕ → List ℕ
overwrite off bs xs = take off xs ++ bs ++ drop (off + length bs) xs

-- ToString
unfoldable pub to_string : Heap → Buffer → List ℕ
to_string h x = take x.len (drop x.b (h.blocks x.buff))

abbrev at_least_16 : ℕ → ℕ
at_least_16 n = if ltb n 16 then 16 else n

-- Buffer(cap_,l) and New(cap,len); `junk n` is what new char[n] holds.
unfoldable pub new_buffer : (ℕ → List ℕ) → ℕ → ℕ → Heap → Buffer × Heap
new_buffer junk cap l h =
    let c = at_least_16 cap in
    (record { buff = h.next; b = 0; len = if ltb c l then c else l; cap = c }, allocate (junk c) h)

-- New(o,s,e)
unfoldable pub slice : Buffer → ℕ → ℕ → Option Buffer
slice o s e =
    if leb o.len s
    then none
    else if leb e s
    then none
    else if ltb o.len e
    then none
    else some (record { buff = o.buff; b = s; len = e - s; cap = o.cap - s })

-- Append(ptr,l), where `bs` are the bytes at `ptr`: in place, or in a new block.
unfoldable pub append_here : List ℕ → Buffer → Heap → Buffer × Heap
append_here bs x h = (
  record x { len = x.len + length bs },
  record h { blocks = put x.buff (overwrite (x.len + x.b) bs (h.blocks x.buff)) h.blocks },
)

unfoldable pub move_to : (ℕ → List ℕ) → ℕ → ℕ → Buffer → Heap → Buffer × Heap
move_to junk cap kept x h = (
  record x { buff = h.next; b = 0; cap = cap },
  allocate (overwrite 0 (take kept (drop x.b (h.blocks x.buff))) (junk cap)) h,
)

unfoldable pub append : (ℕ → List ℕ) → List ℕ → Buffer → Heap → Buffer × Heap
append junk bs x h =
    let need = add_size x.len (length bs) in
    let (y, k) = move_to junk need x.len x h in
    if length bs == 0 || ltb need x.len
    then (x, h)
    else if ltb x.cap need
    then append_here bs y k
    else append_here bs x h

-- Copy(s,ptr,l)
unfoldable pub copy_here : ℕ → List ℕ → Buffer → Heap → Buffer × Heap
copy_here s bs x h = (
  record x { len = s + length bs },
  record h { blocks = put x.buff (overwrite (s + x.b) bs (h.blocks x.buff)) h.blocks },
)

unfoldable pub copy : (ℕ → List ℕ) → ℕ → List ℕ → Buffer → Heap → Buffer × Heap
copy junk s bs x h =
    let new_cap = add_size s (length bs) in
    let (y, k) = move_to junk new_cap s x h in
    if length bs == 0 || ltb x.len s || ltb new_cap x.len
    then (x, h)
    else if new_cap == x.cap
    then copy_here s bs x h
    else copy_here s bs y k

-- New(str,len), where `bs` are the bytes at `str`.
unfoldable pub new_from : (ℕ → List ℕ) → List ℕ → Heap → Buffer × Heap
new_from junk bs h = let (x, k) = new_buffer junk (length bs) 0 h in append junk bs x k
