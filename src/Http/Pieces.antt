-- ===== src/Http/Pieces.antt =====
-- That the session of src/net/http/Http.cpp puts together what http_parser gives it in pieces.
use hwnet.Prelude.{
  ℕ, ◌≡◌, refl, sym, ap, ◌∙◌, Bool, true, false, List, [], ◌∷◌, ◌++◌, none, some, ◌>>=◌,
  append_assoc, append-nil, arith,
}
use hwnet.Http.{
  Bytes, HttpPacket, HttpSession, Event, Side, client, server, announce, with_packet, body, calling,
  message_begin, message_complete, headers_complete, commit, put_field, execute, new_packet,
}
use hwnet.Http.Message.{
  concat, Message, url_events, status_events, value_events, field_events, body_events, events,
  all_fields, all_named, code_seen, packet_of, told, listens, announced,
}

module _ (user : HttpPacket → HttpPacket) where
  url_events-execute :
      (bs : List Bytes) (rest : List Event) (p : HttpPacket) (s : HttpSession)
      → execute user (url_events bs rest) (with_packet p s)
        ≡ execute user rest (with_packet (record p { url = p.url ++ concat bs }) s)
  unfolding url_events execute concat
  url_events-execute [] rest p s =
      ap (λ u. execute user rest (with_packet (record p { url = u }) s)) (sym (append-nil p.url))
  url_events-execute (b ∷ bs) rest p s =
      url_events-execute bs rest (record p { url = p.url ++ b }) s
      ∙ ap (λ u. execute user rest (with_packet (record p { url = u }) s))
          (append_assoc p.url b (concat bs))

  -- The pieces of the status; the code stays as it was if there are none.
  status_events-execute :
      (code : ℕ) (b : Bytes) (bs : List Bytes) (rest : List Event) (p : HttpPacket)
      (s : HttpSession)
      → execute user (status_events code (b ∷ bs) rest) (with_packet p s)
        ≡ execute user rest (
            with_packet
              (record p { status = p.status ++ concat (b ∷ bs); status_code = some code })
              s)
  unfolding status_events execute concat
  status_events-execute code b [] rest p s =
      ap
        (λ u.
          execute user rest
            (with_packet (record p { status = p.status ++ u; status_code = some code }) s))
        (sym (append-nil b))
  status_events-execute code b (c ∷ bs) rest p s =
      status_events-execute code c bs rest
        (record p { status = p.status ++ b; status_code = some code }) s
      ∙ ap
          (λ u.
            execute user rest (with_packet (record p { status = u; status_code = some code }) s))
          (append_assoc p.status b (concat (c ∷ bs)))

  first_status-execute :
      (code : ℕ) (bs : List Bytes) (rest : List Event) (p : HttpPacket) (s : HttpSession)
      → execute user
          (status_events code bs rest)
          (with_packet (record p { status = []; status_code = none }) s)
        ≡ execute user rest
            (with_packet (record p { status = concat bs; status_code = code_seen code bs }) s)
  unfolding status_events concat code_seen
  first_status-execute code [] rest p s = refl
  first_status-execute code (b ∷ bs) rest p s =
      status_events-execute code b bs rest (record p { status = []; status_code = none }) s

  value_events-execute :
      (bs : List Bytes) (rest : List Event) (p : HttpPacket) (s : HttpSession)
      → execute user (value_events bs rest) (with_packet p s)
        ≡ execute user rest (with_packet (record p { value = p.value ++ concat bs }) s)
  unfolding value_events execute concat
  value_events-execute [] rest p s =
      ap (λ u. execute user rest (with_packet (record p { value = u }) s))
        (sym (append-nil p.value))
  value_events-execute (b ∷ bs) rest p s =
      value_events-execute bs rest (record p { value = p.value ++ b }) s
      ∙ ap (λ u. execute user rest (with_packet (record p { value = u }) s))
          (append_assoc p.value b (concat bs))

  -- From a header that is not in the map yet on, all are in it once the headers are complete.
  held-execute :
      (b : ℕ) (bs v : Bytes) (hs : List (Bytes × List Bytes)) (major minor : ℕ) (rest : List Event)
      (p : HttpPacket) (s : HttpSession)
      → all_named hs ≡ true
      → execute user
          (field_events hs (headers_complete major minor ∷ rest))
          (with_packet (record p { field = b ∷ bs; value = v }) s)
        ≡ execute user (headers_complete major minor ∷ rest) (
            with_packet
              (record p {
                headers = all_fields hs (put_field (b ∷ bs) v p.headers);
                field = [];
                value = [];
              })
              s)
  unfolding field_events execute all_fields all_named commit
  held-execute b bs v [] major minor rest p s e = refl
  held-execute b bs v (([], vs) ∷ hs) major minor rest p s e = absurd (ground (arith, e))
  held-execute b bs v ((c ∷ cs, vs) ∷ hs) major minor rest p s e =
      let held = record p {
        headers = put_field (b ∷ bs) v p.headers;
        field = c ∷ cs;
        value = [];
      } in
      value_events-execute vs (field_events hs (headers_complete major minor ∷ rest)) held s
      ∙ held-execute c cs (concat vs) hs major minor rest held s e

  field_events-execute :
      (hs : List (Bytes × List Bytes)) (major minor : ℕ) (rest : List Event) (p : HttpPacket)
      (s : HttpSession)
      → all_named hs ≡ true
      → execute user
          (field_events hs (headers_complete major minor ∷ rest))
          (with_packet (record p { field = []; value = [] }) s)
        ≡ execute user
            (headers_complete major minor ∷ rest)
            (with_packet (record p { headers = all_fields hs p.headers; field = []; value = [] }) s)
  unfolding field_events execute all_fields all_named commit
  field_events-execute [] major minor rest p s e = refl
  field_events-execute (([], vs) ∷ hs) major minor rest p s e = absurd (ground (arith, e))
  field_events-execute ((c ∷ cs, vs) ∷ hs) major minor rest p s e =
      let held = record p { field = c ∷ cs; value = [] } in
      value_events-execute vs (field_events hs (headers_complete major minor ∷ rest)) held s
      ∙ held-execute c cs (concat vs) hs major minor rest held s e

  body_events-execute :
      (heard : Bool) (bs : List Bytes) (p : HttpPacket) (s : HttpSession)
      → execute user
          (body_events bs (message_complete ∷ []))
          (with_packet (record p { on_body = heard }) s)
        ≡ some (record s { packet = none; calls = s.calls ++ told heard bs })
  unfolding body_events execute told
  body_events-execute true [] p s = refl
  body_events-execute false [] p s =
      ap (λ c. some (record s { packet = none; calls = c })) (sym (append-nil s.calls))
  body_events-execute true (b ∷ bs) p s =
      body_events-execute true bs p (calling (body b ∷ []) s)
      ∙ ap (λ c. some (record s { packet = none; calls = c }))
          (append_assoc s.calls (body b ∷ []) (told true bs))
  body_events-execute false (b ∷ bs) p s = body_events-execute false bs p s

  -- The pieces of the first line and the headers of a message, in front of the body.
  front-execute :
      (m : Message) (rest : List Event) (s : HttpSession)
      → all_named m.fields ≡ true
      → execute user
          (message_begin
            ∷ url_events m.urls (
                status_events m.code m.statuses
                  (field_events m.fields (headers_complete m.major m.minor ∷ rest))))
          s
        ≡ execute user (headers_complete m.major m.minor ∷ rest) (with_packet (packet_of m) s)
  unfolding execute packet_of new_packet commit
  front-execute m rest s e =
      let last : List Event = headers_complete m.major m.minor ∷ rest in
      let headed : List Event = field_events m.fields last in
      let first : HttpPacket = record new_packet { url = concat m.urls } in
      let second : HttpPacket = record first {
        status = concat m.statuses;
        status_code = code_seen m.code m.statuses;
      } in
      url_events-execute m.urls (status_events m.code m.statuses headed) new_packet s
      ∙ first_status-execute m.code m.statuses headed first s
      ∙ field_events-execute m.fields m.major m.minor rest second s e

  announce-listens :
      (side : Side) (p : HttpPacket) (s : HttpSession)
      → s.side ≡ side
      → listens s ≡ true
      → announce user p s
        ≡ some (record s { packet = some (user p); calls = s.calls ++ announced side p ∷ [] })
  unfolding announce listens
  announce-listens server p s e l =
      let set : s.on_request ≡ true = ground (arith, l, e) in rw (e, set) refl
  announce-listens client p s e l =
      let set : s.on_response ≡ true = ground (arith, l, e) in rw (e, set) refl

  -- However http_parser cuts the first line, the values and the body of a message, where it gives
  -- the name of each header in one piece that is not empty: a session whose callback is set calls
  -- it once, with the packet put together; then it tells onBody of the pieces of the body and of
  -- its end, if the callback has set it; and no packet is left.
  pub events-execute :
      (m : Message) (s : HttpSession)
      → listens s ≡ true
      → all_named m.fields ≡ true
      → execute user (events m) s
        ≡ some (record s {
          packet = none;
          calls =
              (s.calls ++ announced s.side (packet_of m) ∷ [])
              ++ told (user (packet_of m)).on_body m.bodies;
        })
  unfolding events execute packet_of new_packet commit listens
  events-execute m s l e =
      let p = packet_of m in
      let rest : List Event = body_events m.bodies (message_complete ∷ []) in
      front-execute m rest s e
      ∙ ap (λ o. o >>= λ t. execute user rest t)
          (announce-listens s.side p (with_packet new_packet s) refl l)
      ∙ body_events-execute (user p).on_body m.bodies (user p)
          (record s { calls = s.calls ++ announced s.side p ∷ [] })
