-- ===== src/Http.antt =====
-- src/net/http/Http.h and src/net/http/Http.cpp: the packet, and the session on a socket. A string is
-- the list of its bytes; http_parser is known by the callbacks that it makes, the events below.
pub mod Fields
pub mod Reading
pub mod Message
pub mod Pieces
mod Split
pub mod Writing
mod Examples
use hwnet.Prelude.{
  ℕ, Bool, true, false, ◌&&◌, ◌||◌, List, [], ◌∷◌, ◌++◌, Option, none, some, ◌>>=◌, ltb, ◌==◌,
  if◌then◌else◌,
}

abbrev pub Bytes : Type 0
Bytes = List ℕ

-- std::string's == and <
unfoldable pub same : Bytes → Bytes → Bool
same [] [] = true
same [] (b ∷ bs) = false
same (a ∷ as') [] = false
same (a ∷ as') (b ∷ bs) = a == b && same as' bs

unfoldable pub less : Bytes → Bytes → Bool
less as' [] = false
less [] (b ∷ bs) = true
less (a ∷ as') (b ∷ bs) = ltb a b || (a == b && less as' bs)

-- std::map<std::string,std::string>, in the order of its keys.
abbrev pub Fields : Type 0
Fields = List (Bytes × Bytes)

-- headers[k] = v
unfoldable pub put_field : Bytes → Bytes → Fields → Fields
put_field k v [] = (k, v) ∷ []
put_field k v ((k', v') ∷ rest) =
    let others = put_field k v rest in
    if same k k'
    then (k, v) ∷ rest
    else if less k k'
    then (k, v) ∷ (k', v') ∷ rest
    else (k', v') ∷ others

-- headers.find(k)
unfoldable pub find : Bytes → Fields → Option Bytes
find k [] = none
find k ((k', v) ∷ rest) = let others = find k rest in if same k k' then some v else others

-- Field: `emptyValue` for a header that is not there.
unfoldable pub field_of : Bytes → Fields → Bytes
unfolding find
field_of k fields = elim (find k fields) [ none ↦ [] | some v ↦ v ]

-- `method` and `status_code` have no value before they are set; `on_body` says whether onBody is.
pub record HttpPacket : Type 0 where
  pub method : Option ℕ
  pub status_code : Option ℕ
  pub http_major : ℕ
  pub http_minor : ℕ
  pub url : Bytes
  pub status : Bytes
  pub headers : Fields
  pub field : Bytes
  pub value : Bytes
  pub on_body : Bool

-- HttpPacket()
unfoldable pub new_packet : HttpPacket
new_packet = record {
  method = none;
  status_code = none;
  http_major = 1;
  http_minor = 1;
  url = [];
  status = [];
  headers = [];
  field = [];
  value = [];
  on_body = false;
}

-- ClientSide and ServerSide
pub data Side : Type 0 where
  client server : Side

-- What the session calls: the callbacks of its user, and the socket's functions.
pub data Call : Type 0 where
  request response : HttpPacket → Call
  body : Bytes → Call
  body_end socket_start socket_recv socket_close set_flush : Call
  send : Bytes → Call

-- `on_request` and `on_response` say whether the callback is set; `calls` holds the calls in order.
pub record HttpSession : Type 0 where
  pub side : Side
  pub packet : Option HttpPacket
  pub on_request : Bool
  pub on_response : Bool
  pub calls : List Call

unfoldable pub new_session : Side → HttpSession
new_session side = record {
  side = side;
  packet = none;
  on_request = false;
  on_response = false;
  calls = [];
}

abbrev pub with_packet : HttpPacket → HttpSession → HttpSession
with_packet p s = record s { packet = some p }

abbrev pub calling : List Call → HttpSession → HttpSession
calling cs s = record s { calls = s.calls ++ cs }

-- The two functions Start, for a callback that is set.
unfoldable pub start : Side → HttpSession → HttpSession
start server s =
    if s.on_request
    then s
    else calling (socket_start ∷ socket_recv ∷ []) (record s { on_request = true })
start client s =
    if s.on_response
    then s
    else calling (socket_start ∷ socket_recv ∷ []) (record s { on_response = true })

-- onClose
unfoldable pub on_close : HttpSession → HttpSession
on_close s = record s { on_request = false }

-- What http_parser calls, with the status code and the version that it has at that time.
pub data Event : Type 0 where
  message_begin message_complete : Event
  url_piece field_piece value_piece body_piece : Bytes → Event
  status_piece : ℕ → Bytes → Event
  headers_complete : ℕ → ℕ → Event

-- The header that is complete goes into the map.
commit_with : Bytes → HttpPacket → HttpPacket
unfolding put_field
commit_with [] p = p
commit_with (b ∷ bs) p = record p {
  headers = put_field (b ∷ bs) p.value p.headers;
  field = [];
  value = [];
}

unfoldable pub commit : HttpPacket → HttpPacket
unfolding commit_with
commit p = commit_with p.field p

-- on_headers_complete, from the call of the user's callback on; `user` is what that does to the
-- packet. `none` is the call of an empty callback.
unfoldable pub announce : (HttpPacket → HttpPacket) → HttpPacket → HttpSession → Option HttpSession
announce user p s = elim s.side [
  | server ↦ if s.on_request then some (calling (request p ∷ []) (with_packet (user p) s)) else none
  | client ↦
      if s.on_response then some (calling (response p ∷ []) (with_packet (user p) s)) else none
]

on_packet : (HttpPacket → HttpPacket) → Event → HttpPacket → HttpSession → Option HttpSession
unfolding announce
on_packet user message_begin p s = some (with_packet new_packet s)
on_packet user (url_piece at) p s = some (with_packet (record p { url = p.url ++ at }) s)
on_packet user (status_piece code at) p s =
    some (with_packet (record p { status = p.status ++ at; status_code = some code }) s)
on_packet user (field_piece at) p s =
    let q = commit p in some (with_packet (record q { field = q.field ++ at }) s)
on_packet user (value_piece at) p s = some (with_packet (record p { value = p.value ++ at }) s)
on_packet user (headers_complete major minor) p s =
    announce user (record (commit p) { http_major = major; http_minor = minor }) s
on_packet user (body_piece at) p s = some (if p.on_body then calling (body at ∷ []) s else s)
on_packet user message_complete p s =
    let done = record s { packet = none } in
    some (if p.on_body then calling (body_end ∷ []) done else done)

-- One callback of the parser. `none` also is a use of the packet where there is none.
on_event : (HttpPacket → HttpPacket) → Event → HttpSession → Option HttpSession
unfolding on_packet
on_event user message_begin s = some (with_packet new_packet s)
on_event user e s = do p ← s.packet; on_packet user e p s

-- The callbacks of one message, or of what came in one buffer.
unfoldable pub execute : (HttpPacket → HttpPacket) → List Event → HttpSession → Option HttpSession
unfolding on_event
execute user [] s = some s
execute user (e ∷ es) s = do s' ← on_event user e s; execute user es s'

-- onData, given the callbacks that http_parser_execute makes and whether it parses all.
unfoldable pub on_data :
    (HttpPacket → HttpPacket) → List Event → Bool → HttpSession → Option HttpSession
on_data user es all s = do
  s' ← execute user es s
  some (calling (if all then socket_recv ∷ [] else socket_close ∷ socket_recv ∷ []) s')
