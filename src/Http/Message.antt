-- ===== src/Http/Message.antt =====
-- A message for the session of src/net/http/Http.cpp, and the callbacks that http_parser makes of it.
use hwnet.Prelude.{ℕ, Bool, true, false, ◌&&◌, List, [], ◌∷◌, ◌++◌, Option, none, some, map}
use hwnet.Http.{
  Bytes, Fields, HttpPacket, HttpSession, Call, Event, Side, client, server, request, response,
  body, body_end, message_begin, message_complete, url_piece, field_piece, value_piece, body_piece,
  status_piece, headers_complete, put_field, new_packet,
}

unfoldable pub concat : List Bytes → Bytes
concat [] = []
concat (b ∷ bs) = b ++ concat bs

-- A message: its first line, its headers and its body, all but a header's name in pieces.
pub record Message : Type 0 where
  pub urls : List Bytes
  pub code : ℕ
  pub statuses : List Bytes
  pub fields : List (Bytes × List Bytes)
  pub major : ℕ
  pub minor : ℕ
  pub bodies : List Bytes

-- The callbacks of the parts, in front of `rest`.
unfoldable pub url_events : List Bytes → List Event → List Event
url_events [] rest = rest
url_events (b ∷ bs) rest = url_piece b ∷ url_events bs rest

unfoldable pub status_events : ℕ → List Bytes → List Event → List Event
status_events code [] rest = rest
status_events code (b ∷ bs) rest = status_piece code b ∷ status_events code bs rest

unfoldable pub value_events : List Bytes → List Event → List Event
value_events [] rest = rest
value_events (b ∷ bs) rest = value_piece b ∷ value_events bs rest

unfoldable pub field_events : List (Bytes × List Bytes) → List Event → List Event
unfolding value_events
field_events [] rest = rest
field_events ((f, vs) ∷ hs) rest = field_piece f ∷ value_events vs (field_events hs rest)

unfoldable pub body_events : List Bytes → List Event → List Event
body_events [] rest = rest
body_events (b ∷ bs) rest = body_piece b ∷ body_events bs rest

-- http_parser's callbacks for a message.
unfoldable pub events : Message → List Event
unfolding url_events status_events field_events body_events
events m =
    message_begin
    ∷ url_events m.urls (
        status_events m.code m.statuses (
          field_events m.fields
            (headers_complete m.major m.minor ∷ body_events m.bodies (message_complete ∷ []))))

-- The headers of a message, each set to the whole of its value.
unfoldable pub all_fields : List (Bytes × List Bytes) → Fields → Fields
unfolding concat put_field
all_fields [] hs = hs
all_fields ((f, vs) ∷ rest) hs = all_fields rest (put_field f (concat vs) hs)

abbrev named : Bytes → Bool
named [] = false
named (b ∷ bs) = true

unfoldable pub all_named : List (Bytes × List Bytes) → Bool
all_named [] = true
all_named ((f, vs) ∷ rest) = named f && all_named rest

-- parser->status_code is only looked at with a piece of the status.
unfoldable pub code_seen : ℕ → List Bytes → Option ℕ
code_seen code [] = none
code_seen code (b ∷ bs) = some code

-- The packet that a message is, put together.
unfoldable pub packet_of : Message → HttpPacket
unfolding concat all_fields code_seen new_packet
packet_of m = record new_packet {
  url = concat m.urls;
  status = concat m.statuses;
  status_code = code_seen m.code m.statuses;
  headers = all_fields m.fields [];
  http_major = m.major;
  http_minor = m.minor;
}

-- What onBody is told of the body, if it is set.
unfoldable pub told : Bool → List Bytes → List Call
told true bs = map body bs ++ body_end ∷ []
told false bs = []

-- Whether the callback for what a session receives is set, and its call.
unfoldable pub listens : HttpSession → Bool
listens s = elim s.side [ server ↦ s.on_request | client ↦ s.on_response ]

abbrev pub announced : Side → HttpPacket → Call
announced server p = request p
announced client p = response p
