-- ===== src/Http/Examples.antt =====
-- Runs of the model of src/net/http/Http.cpp. Digits and methods print as one byte.
use hwnet.Prelude.{◌+◌, ◌++◌, ◌≡◌, refl, true, false, [], ◌∷◌, none, some, if◌then◌else◌}
use hwnet.Http.{
  Bytes, HttpPacket, HttpSession, client, server, request, body, body_end, socket_start,
  socket_recv, socket_close, send, set_flush, with_packet, message_begin, url_piece, field_piece,
  value_piece, new_packet, new_session, start, on_close, commit, put_field, find, field_of, same,
  less, execute, on_data,
}
use hwnet.Http.Message.{Message, events, all_named, packet_of, told, listens}
use hwnet.Http.Pieces.{events-execute}
use hwnet.Http.Split.{field_pieces-torn}
use hwnet.Http.Reading.{words, read_message, lacks, are_plain, read_message-make_header}
use hwnet.Http.Writing.{version, of_request, of_response, make_header, write_header, write_body}

-- A request for "/ab" with the header "k" of value "vw" and a body of two pieces.
abbrev asked : Message
asked = record {
  urls = (47 ∷ []) ∷ (97 ∷ 98 ∷ []) ∷ [];
  code = 0;
  statuses = [];
  fields = (107 ∷ [], (118 ∷ []) ∷ (119 ∷ []) ∷ []) ∷ [];
  major = 1;
  minor = 0;
  bodies = (1 ∷ 2 ∷ []) ∷ (3 ∷ []) ∷ [];
}

abbrev hear : HttpPacket → HttpPacket
hear p = record p { on_body = true }

abbrev listening : HttpSession
listening = record (new_session server) { on_request = true }

events-execute_example :
    execute hear (events asked) listening
    ≡ some (record listening {
      packet = none;
      calls = request (packet_of asked) ∷ body (1 ∷ 2 ∷ []) ∷ body (3 ∷ []) ∷ body_end ∷ [];
    })
unfolding told new_session listens all_named
events-execute_example = events-execute hear asked listening refl refl

asked_url : (packet_of asked).url ≡ 47 ∷ 97 ∷ 98 ∷ []
unfolding packet_of
asked_url = refl

asked_field : field_of (107 ∷ []) (packet_of asked).headers ≡ 118 ∷ 119 ∷ []
unfolding packet_of field_of same
asked_field = refl

-- "ab" in two pieces.
field_pieces-torn_example :
    (p : HttpPacket) × (execute hear
        (field_piece (97 ∷ []) ∷ field_piece (98 ∷ []) ∷ value_piece (1 ∷ []) ∷ [])
        (with_packet (record new_packet { field = []; value = [] }) listening)
      ≡ some (with_packet p listening))
    × (find (97 ∷ 98 ∷ []) (commit p).headers ≡ find (97 ∷ 98 ∷ []) new_packet.headers)
    × (find (97 ∷ []) (commit p).headers
        ≡ (if same (97 ∷ []) (98 ∷ []) then some (1 ∷ []) else some []))
    × (find (98 ∷ []) (commit p).headers ≡ some (1 ∷ []))
field_pieces-torn_example = field_pieces-torn hear 97 98 [] [] (1 ∷ []) new_packet listening

-- Start, then bytes that the parser refuses, then the end.
refused_run :
    on_data hear (message_begin ∷ []) false (start server (new_session server))
    ≡ some (record (with_packet new_packet (new_session server)) {
      on_request = true;
      calls = socket_start ∷ socket_recv ∷ socket_close ∷ socket_recv ∷ [];
    })
unfolding on_data execute start new_session
refused_run = refl

-- A piece after the end of the message has no packet to go to.
late_run : execute hear (url_piece [] ∷ []) (on_close (new_session client)) ≡ none
unfolding execute on_close new_session
late_run = refl

abbrev answer : HttpPacket
answer = record new_packet {
  status_code = some 5;
  status = 79 ∷ 75 ∷ [];
  headers = put_field (97 ∷ []) (2 ∷ []) (put_field (98 ∷ []) (1 ∷ []) []);
}

-- "HTTP/1.1 5 OK", then a and b in order.
answer_run :
    make_header (λ n. (48 + n) ∷ []) (λ n. n ∷ []) of_response answer
    ≡ some (
        72 ∷ 84 ∷ 84 ∷ 80 ∷ 47 ∷ 49 ∷ 46 ∷ 49 ∷ 32 ∷ 53 ∷ 32 ∷ 79 ∷ 75 ∷ 13 ∷ 10 ∷ 97 ∷ 58 ∷ 2 ∷ 13
        ∷ 10 ∷ 98 ∷ 58 ∷ 1 ∷ 13 ∷ 10 ∷ 13 ∷ 10 ∷ [])
unfolding make_header new_packet put_field same less
answer_run = refl

read_message-make_header_example :
    (text : Bytes) × (make_header (λ n. (48 + n) ∷ []) (λ n. n ∷ []) of_response answer ≡ some text)
    × (read_message (text ++ 9 ∷ [])
        ≡ some (
          (72 ∷ 84 ∷ 84 ∷ 80 ∷ 47 ∷ 49 ∷ 46 ∷ 49 ∷ [], 53 ∷ [], 79 ∷ 75 ∷ []),
          answer.headers,
          9 ∷ [],
        ))
unfolding words version new_packet put_field same less lacks are_plain
read_message-make_header_example =
    read_message-make_header (λ n. (48 + n) ∷ []) (λ n. n ∷ []) of_response answer
      (72 ∷ 84 ∷ 84 ∷ 80 ∷ 47 ∷ 49 ∷ 46 ∷ 49 ∷ []) (53 ∷ []) (79 ∷ 75 ∷ []) (9 ∷ []) refl refl refl
      refl refl

write_run :
    write_header (λ n. n ∷ []) (λ n. n ∷ []) of_request true new_packet (new_session client) ≡ none
unfolding write_header new_packet new_session
write_run = refl

write_body_run :
    (write_body true (1 ∷ []) (new_session client)).calls ≡ set_flush ∷ send (1 ∷ []) ∷ []
unfolding write_body new_session
write_body_run = refl
