-- ===== src/Socket/InOrder.antt =====
-- A history of a connection of src/net/TCPSocket.cpp: calls, turns of sendInWorker that other calls
-- interrupt, also those whose writev fails, and whatever else leaves the send lists alone.
use hwnet.Prelude.{
  true, ℕ, ◌≡◌, sym, ap, ◌∙◌, subst, List, [], ◌++◌, some, arith, append-nil, append_assoc, take,
  ◌⊎◌, inl, inr,
}
use hwnet.Socket.SendList.{gathered}
use hwnet.Socket.State.{Socket}
use hwnet.Socket.Stream.{stream}
use hwnet.Socket.Frame.{send_state}
use hwnet.Socket.Delivery.{
  waiting, IsCounted, Fits, AllFit, accepted, all_accepted, apply-Grows, apply_all-Grows,
}
use hwnet.Socket.Api.{Event, apply, apply_all}
use hwnet.Socket.Worker.{Io, After, write, failed, send_begin, send_end}
use hwnet.Socket.Swap.{
  swapped, send_state-send_begin, swapped-IsCounted, waiting-idle, waiting-swapped,
}
use hwnet.Socket.Balance.{Writes, taken, balance}
use hwnet.Socket.Broken.{is_broken, apply-is_broken, send_begin-whole, send_end-failed}
use hwnet.Socket.Turn.{Delivers, send_end-moved, send_end-would_block}

-- The second region, by what writev said.
send_end-Delivers :
    (ver n : ℕ) (io : Io) (s : Socket)
    → IsCounted (send_state s)
    → Writes n io.result s.spare
    → Delivers n (waiting (send_state s)) (send_end ver io s)
send_end-Delivers ver n io s h (inl (e, pos, le)) = send_end-moved ver io s n h e pos le
send_end-Delivers ver n io s h (inr (e, none_sent)) =
    rw none_sent (send_end-would_block ver io s h e)

-- One turn of sendInWorker on a connection with no write under way and its bytes counted, with calls
-- that fit between its regions, where writev takes at least one byte and no more than it was given, or
-- answers EAGAIN: what it took is cut off from what waited and what the calls added, no write is under
-- way, and the bytes are counted.
pub turn-Delivers :
    (s t : Socket) (ver n : ℕ) (io : Io)
    → send_begin s ≡ (write ver, t)
    → s.spare ≡ []
    → IsCounted (send_state s)
    → AllFit io.meanwhile t
    → Writes n io.result s.current
    → Delivers n
        (waiting (send_state s) ++ all_accepted io.meanwhile t)
        (send_end ver io (apply_all io.meanwhile t))
turn-Delivers s t ver n io e empty h f w =
    let begun : send_state t ≡ swapped s = send_state-send_begin s t ver e empty in
    let counted = subst IsCounted (sym begun) (swapped-IsCounted s empty h) in
    let grown = apply_all-Grows io.meanwhile t f counted in
    let u = apply_all io.meanwhile t in
    let same =
      grown.1
      ∙ ap (λ x. x ++ all_accepted io.meanwhile t) (ap waiting begun ∙ waiting-swapped s empty) in
    subst (λ x. Delivers n x (send_end ver io u)) same
      (send_end-Delivers ver n io u grown.2
        (subst (Writes n io.result) (sym (grown.0 ∙ ap (λ v. v.spare) begun)) w))

-- A history: the bytes that writev took, and those that the calls were granted.
pub data History (s : Socket) : Socket → List ℕ → List ℕ → Type 0 where
  here : History s s [] []
  call :
      {t : Socket} {sent granted : List ℕ}
      → History s t sent granted
      → (e : Event) → Fits e t
      → History s (apply e t) sent (granted ++ accepted e t)
  turn :
      {t v : Socket} {sent granted : List ℕ}
      → History s t sent granted
      → (u : Socket) (ver n : ℕ) (io : Io) (a : After) → send_begin t ≡ (write ver, u)
      → AllFit io.meanwhile u
      → Writes n io.result t.current
      → send_end ver io (apply_all io.meanwhile u) ≡ some (a, v)
      → History s v
          (sent ++ take n (stream (gathered t.current)))
          (granted ++ all_accepted io.meanwhile u)
  fails :
      {t v : Socket} {sent granted : List ℕ}
      → History s t sent granted
      → (u : Socket) (ver : ℕ) (io : Io) (a : After) → send_begin t ≡ (write ver, u)
      → AllFit io.meanwhile u
      → io.result ≡ failed
      → send_end ver io (apply_all io.meanwhile u) ≡ some (a, v)
      → History s v sent (granted ++ all_accepted io.meanwhile u)
  aside :
      {t v : Socket} {sent granted : List ℕ}
      → History s t sent granted
      → send_state v ≡ send_state t
      → (is_broken t ≡ true → is_broken v ≡ true)
      → History s v sent granted

-- The state after a history: nothing under way unless the connection is broken, all counted, and every
-- byte that was granted either taken by writev or waiting, in order.
pub record Settled (s t : Socket) (sent granted : List ℕ) : Type 0 where
  pub idle : (t.spare ≡ []) ⊎ (is_broken t ≡ true)
  pub counted : IsCounted (send_state t)
  pub balanced : sent ++ waiting (send_state t) ≡ waiting (send_state s) ++ granted

-- A turn finds nothing under way.
begun-idle :
    {s t u : Socket} {sent granted : List ℕ} (ver : ℕ)
    → send_begin t ≡ (write ver, u)
    → Settled s t sent granted
    → t.spare ≡ []
begun-idle {t = t} {u = u} ver b before = elim before.idle [
  | inl empty ↦ empty
  | inr broken ↦ absurd (ground (arith, send_begin-whole t u ver b))
]

turn-Settled :
    {s t v : Socket} {sent granted : List ℕ} (u : Socket) (ver n : ℕ) (io : Io) (a : After)
    → send_begin t ≡ (write ver, u)
    → AllFit io.meanwhile u
    → Writes n io.result t.current
    → send_end ver io (apply_all io.meanwhile u) ≡ some (a, v)
    → Settled s t sent granted
    → Settled s v
        (sent ++ take n (stream (gathered t.current)))
        (granted ++ all_accepted io.meanwhile u)
turn-Settled {s} {t} {v} {sent} {granted} u ver n io a b f w x before =
    let h = before.counted in
    let idle = begun-idle ver b before in
    let more = all_accepted io.meanwhile u in
    let (a', v', x', empty', d, h') = turn-Delivers t u ver n io b idle h f w in
    let same : v' ≡ v = cc in
    let front : stream t.current ++ more ≡ waiting (send_state t) ++ more =
      ap (λ y. y ++ more) (sym (waiting-idle t idle)) in
    let took = taken n io.result t.current more h.current_whole w ∙ ap (take n) front in
    subst (λ y. Settled s y (sent ++ take n (stream (gathered t.current))) (granted ++ more)) same
      (record {
        idle = inl empty';
        counted = h';
        balanced =
            balance sent (waiting (send_state t)) (waiting (send_state s)) granted more
              (waiting (send_state v')) _ n before.balanced took d;
      })

-- A turn whose writev fails: what it had taken stays where it is, in front of what waits.
fails-Settled :
    {s t v : Socket} {sent granted : List ℕ} (u : Socket) (ver : ℕ) (io : Io) (a : After)
    → send_begin t ≡ (write ver, u)
    → AllFit io.meanwhile u
    → io.result ≡ failed
    → send_end ver io (apply_all io.meanwhile u) ≡ some (a, v)
    → Settled s t sent granted
    → Settled s v sent (granted ++ all_accepted io.meanwhile u)
fails-Settled {s} {t} {v} {sent} {granted} u ver io a b f x e before =
    let idle = begun-idle ver b before in
    let more = all_accepted io.meanwhile u in
    let begun : send_state u ≡ swapped t = send_state-send_begin t u ver b idle in
    let counted = subst IsCounted (sym begun) (swapped-IsCounted t idle before.counted) in
    let grown = apply_all-Grows io.meanwhile u f counted in
    let (same, broken) = send_end-failed ver io (apply_all io.meanwhile u) v a x e in
    let now : waiting (send_state v) ≡ waiting (send_state t) ++ more =
      ap waiting same ∙ grown.1 ∙ ap (λ y. y ++ more) (ap waiting begun ∙ waiting-swapped t idle) in
    record {
      idle = inr broken;
      counted = subst IsCounted (sym same) grown.2;
      balanced =
          ap (◌++◌ sent) now
          ∙ sym (append_assoc sent (waiting (send_state t)) more)
          ∙ ap (λ y. y ++ more) before.balanced
          ∙ append_assoc (waiting (send_state s)) granted more;
    }

call-Settled :
    {s t : Socket} {sent granted : List ℕ} (c : Event)
    → Fits c t
    → Settled s t sent granted
    → Settled s (apply c t) sent (granted ++ accepted c t)
call-Settled {s} {t} {sent} {granted} c f before =
    let grown = apply-Grows c t f before.counted in
    record {
      idle = elim before.idle [
        | inl empty ↦ inl (grown.0 ∙ empty)
        | inr broken ↦ inr (apply-is_broken c t broken)
      ];
      counted = grown.2;
      balanced =
          ap (◌++◌ sent) grown.1
          ∙ sym (append_assoc sent (waiting (send_state t)) (accepted c t))
          ∙ ap (λ x. x ++ accepted c t) before.balanced
          ∙ append_assoc (waiting (send_state s)) granted (accepted c t);
    }

aside-Settled :
    {s t v : Socket} {sent granted : List ℕ}
    → send_state v ≡ send_state t
    → (is_broken t ≡ true → is_broken v ≡ true)
    → Settled s t sent granted
    → Settled s v sent granted
aside-Settled {sent = sent} same stays before = record {
  idle = elim before.idle [
    | inl empty ↦ inl (ap (λ v. v.spare) same ∙ empty)
    | inr broken ↦ inr (stays broken)
  ];
  counted = subst IsCounted (sym same) before.counted;
  balanced = ap (λ v. sent ++ waiting v) same ∙ before.balanced;
}

-- From a connection with no write under way and its bytes counted, over any history of calls, of turns
-- of sendInWorker whose writev takes at least one byte and no more than it was given, answers EAGAIN or
-- fails, and of steps that change neither list nor count and make no broken connection whole, where
-- each Send fits its buffer and the counter: the bytes that writev took, followed by those that wait,
-- are those that waited at first, followed by those that the calls accepted, in the order of the
-- calls; bytes4Send counts those that wait; and no write is under way unless the connection is closed
-- or had an error.
pub History-Settled :
    {s t : Socket} {sent granted : List ℕ}
    → s.spare ≡ []
    → IsCounted (send_state s)
    → History s t sent granted
    → Settled s t sent granted
History-Settled empty h here = record {
  idle = inl empty;
  counted = h;
  balanced = sym (append-nil _);
}
History-Settled empty h (call r e f) = call-Settled e f (History-Settled empty h r)
History-Settled empty h (turn r u ver n io a b f w x) =
    turn-Settled u ver n io a b f w x (History-Settled empty h r)
History-Settled empty h (fails r u ver io a b f x e) =
    fails-Settled u ver io a b f x e (History-Settled empty h r)
History-Settled empty h (aside r same stays) = aside-Settled same stays (History-Settled empty h r)
