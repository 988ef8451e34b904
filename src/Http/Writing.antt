-- ===== src/Http/Writing.antt =====
-- src/net/http/Http.cpp: what a request and a response write. The text that snprintf makes of a
-- number and the names of http_parser.h for the methods are parameters.
use hwnet.Prelude.{ℕ, Bool, [], ◌∷◌, ◌++◌, Option, some, ◌>>=◌, if◌then◌else◌}
use hwnet.Http.{Bytes, Fields, HttpPacket, HttpSession, send, set_flush, calling}

-- HttpPacket::request and HttpPacket::response
pub data Kind : Type 0 where
  of_request of_response : Kind

abbrev pub space : Bytes
space = 32 ∷ []

abbrev pub line_end : Bytes
line_end = 13 ∷ 10 ∷ []

-- The loop over the headers, and the empty line.
unfoldable pub field_lines : Fields → Bytes
field_lines [] = line_end
field_lines ((k, v) ∷ hs) = k ++ (58 ∷ []) ++ v ++ line_end ++ field_lines hs

module _ (print : ℕ → Bytes) (method_string : ℕ → Bytes) where
  -- "HTTP/" and the version
  unfoldable pub version : HttpPacket → Bytes
  version p = (72 ∷ 84 ∷ 84 ∷ 80 ∷ 47 ∷ []) ++ print p.http_major ++ (46 ∷ []) ++ print p.http_minor

  -- The first line; `none` is a read of a number that was never set.
  unfoldable pub first_line : Kind → HttpPacket → Option Bytes
  unfolding version
  first_line of_request p = do
    method ← p.method
    some (method_string method ++ space ++ p.url ++ space ++ version p ++ line_end)
  first_line of_response p = do
    code ← p.status_code
    some (version p ++ space ++ print code ++ space ++ p.status ++ line_end)

  -- MakeHeader
  unfoldable pub make_header : Kind → HttpPacket → Option Bytes
  unfolding first_line field_lines
  make_header kind p = do line ← first_line kind p; some (line ++ field_lines p.headers)

  -- WriteHeader, given whether writeOk is set.
  unfoldable pub write_header : Kind → Bool → HttpPacket → HttpSession → Option HttpSession
  unfolding make_header
  write_header kind flush p s = do
    header ← make_header kind p
    some (calling (if flush then set_flush ∷ send header ∷ [] else send header ∷ []) s)

-- WriteBody
unfoldable pub write_body : Bool → Bytes → HttpSession → HttpSession
write_body flush b s = calling (if flush then set_flush ∷ send b ∷ [] else send b ∷ []) s
