-- ===== src/SslHandshake/Outcomes.antt =====
-- How often src/net/SSLHandshake.cpp reports, and which events it misses.
use hwnet.Prelude.{
  ◌≤◌, ◌<◌, ℕ, suc, ◌+◌, ◌≡◌, Bool, true, false, List, [], ◌∷◌, arith, if◌then◌else◌,
}
use hwnet.SslHandshake.{
  Handshake, Event, Effect, Answer, SslError, Outcome, made, goes_on, leaves, done, undone, ready,
  broken, want_write, want_read, other, new, on_active, check_error, check_answer, ssl_again,
  poller_remove, close_fd, bad_function_call, on_ok, on_error, SockOpt, error_of,
}

-- The thread of Do is at the head of its loop, or in the call of `handshake` with the version that it
-- read before, or not there.
pub data Phase : Type 0 where
  absent head : Phase
  shaking : ℕ → Phase

-- `waited` is the version that was read before the last call of `handshake` that was to be made
-- again.
pub record System : Type 0 where
  pub hand : Handshake
  pub phase : Phase
  pub waited : ℕ

abbrev phase_looked : Outcome → ℕ → Phase
phase_looked goes_on ver = shaking ver
phase_looked leaves ver = absent

abbrev phase_after : Outcome → Phase
phase_after goes_on = head
phase_after leaves = absent

abbrev waited_after : ℕ → ℕ → Answer → ℕ
waited_after old ver done = old
waited_after old ver (undone e code) = if ssl_again e then ver else old

-- The events of the poller and the parts of Do, in any interleaving.
pub data Step : System → System → Type 0 where
  activated : (s : System) (e : Event) → Step s (record s { hand = on_active e s.hand })
  entered : (s : System) → s.phase ≡ absent → 0 < s.hand.tasks → Step s (record s { phase = head })
  looked :
      (s : System)
      → s.phase ≡ head
      → Step s (record s {
        hand = (check_error s.hand).1;
        phase = phase_looked (check_error s.hand).0 s.hand.ver;
      })
  answered :
      (s : System) (ver : ℕ) (a : Answer)
      → s.phase ≡ shaking ver
      → Step s (record {
        hand = (check_answer ver a s.hand).1;
        phase = phase_after (check_answer ver a s.hand).0;
        waited = waited_after s.waited ver a;
      })

pub data Reach (s : System) : System → Type 0 where
  here : Reach s s
  next : {t u : System} → Reach s t → Step t u → Reach s u

abbrev in_loop : Phase → Bool
in_loop absent = false
in_loop head = true
in_loop (shaking ver) = true

-- How many calls of onOK_ there were, of onError_, and of close and Remove.
unfoldable pub oks : List Effect → ℕ
oks [] = 0
oks (e ∷ es) = elim e [ on_ok fd ↦ suc (oks es) | _ ↦ oks es ]

unfoldable pub errors : List Effect → ℕ
errors [] = 0
errors (e ∷ es) = elim e [
  | on_error n ↦ suc (errors es)
  | bad_function_call ↦ suc (errors es)
  | _ ↦ errors es
]

unfoldable pub closes : List Effect → ℕ
closes [] = 0
closes (e ∷ es) = elim e [ close_fd ↦ suc (closes es) | _ ↦ closes es ]

unfoldable pub removes : List Effect → ℕ
removes [] = 0
removes (e ∷ es) = elim e [ poller_remove ↦ suc (removes es) | _ ↦ removes es ]

-- One Do at most, one result at most, of which either the caller gets the SSL and the descriptor or
-- the descriptor is closed; and where no Do is expected and there is no result, no event came since
-- the call of `handshake` that found too little, but for one with the error flag.
pub record IsSettled (s : System) : Type 0 where
  pub single : s.hand.tasks ≤ 1
  pub inside : in_loop s.phase ≡ true → s.hand.tasks ≡ 1
  pub busy : 0 < s.hand.tasks → (s.hand.doing ≡ true) × (removes s.hand.trace ≡ 0)
  pub idle : s.hand.doing ≡ false → (removes s.hand.trace ≡ 0) × (s.waited ≡ s.hand.ver)
  pub once : oks s.hand.trace + errors s.hand.trace ≡ removes s.hand.trace
  pub most : removes s.hand.trace ≤ 1
  pub closed : closes s.hand.trace ≡ errors s.hand.trace
  pub kept : s.hand.ssl ≡ true → oks s.hand.trace ≡ 0
  pub taken : s.hand.ssl ≡ false → oks s.hand.trace ≡ 1

activated-IsSettled :
    (s : System) (e : Event) → IsSettled s → IsSettled (record s { hand = on_active e s.hand })
unfolding on_active
activated-IsSettled s ready h = ground arith
activated-IsSettled s (broken o) h = ground arith

entered-IsSettled :
    (s : System) → 0 < s.hand.tasks → IsSettled s → IsSettled (record s { phase = head })
entered-IsSettled s t h = ground arith

looked-IsSettled :
    (s : System)
    → s.phase ≡ head
    → IsSettled s
    → IsSettled (record s {
      hand = (check_error s.hand).1;
      phase = phase_looked (check_error s.hand).0 s.hand.ver;
    })
unfolding check_error oks errors closes removes
looked-IsSettled s e h = ground arith

answered-IsSettled :
    (s : System) (ver : ℕ) (a : Answer)
    → s.phase ≡ shaking ver
    → IsSettled s
    → IsSettled (record {
      hand = (check_answer ver a s.hand).1;
      phase = phase_after (check_answer ver a s.hand).0;
      waited = waited_after s.waited ver a;
    })
unfolding check_answer ssl_again oks errors closes removes
answered-IsSettled s ver done e h = ground arith
answered-IsSettled s ver (undone want_write code) e h = ground arith
answered-IsSettled s ver (undone want_read code) e h = ground arith
answered-IsSettled s ver (undone (other n) code) e h = ground arith

Step-IsSettled : {s t : System} → Step s t → IsSettled s → IsSettled t
Step-IsSettled (activated s e) h = activated-IsSettled s e h
Step-IsSettled (entered s e t) h = entered-IsSettled s t h
Step-IsSettled (looked s e) h = looked-IsSettled s e h
Step-IsSettled (answered s ver a e) h = answered-IsSettled s ver a e h

new-IsSettled :
    (poller ssl_ctx ok_callback handler has_ssl set_fd : Bool) (fd : ℕ) (m : Handshake)
    → new poller ssl_ctx ok_callback handler has_ssl set_fd fd ≡ made m
    → IsSettled (record { hand = m; phase = absent; waited = 0 })
unfolding new oks errors closes removes
new-IsSettled poller ssl_ctx ok_callback handler has_ssl set_fd fd m e = ground arith

-- From an object that New made on, however events fall between the parts of Do: one Do at most is
-- posted or running; there is one result at most, and with it one Remove; the descriptor is closed
-- when the result is an error and only then, and the SSL leaves the object when it is onOK_ and only
-- then; and when no Do is expected, the last call of `handshake` that wanted more was made with the
-- version of the last event without the error flag.
pub Reach-IsSettled :
    (poller ssl_ctx ok_callback handler has_ssl set_fd : Bool) (fd : ℕ) (m : Handshake) {t : System}
    → new poller ssl_ctx ok_callback handler has_ssl set_fd fd ≡ made m
    → Reach (record { hand = m; phase = absent; waited = 0 }) t
    → IsSettled t
Reach-IsSettled poller ssl_ctx ok_callback handler has_ssl set_fd fd m e here =
    new-IsSettled poller ssl_ctx ok_callback handler has_ssl set_fd fd m e
Reach-IsSettled poller ssl_ctx ok_callback handler has_ssl set_fd fd m e (next r x) =
    Step-IsSettled x (Reach-IsSettled poller ssl_ctx ok_callback handler has_ssl set_fd fd m e r)

-- An event with the error flag that comes during a call of `handshake` that then wants more, with no
-- other event since the version was read: Do returns with nothing reported, and no Do is posted.
pub error_event-missed :
    (o : SockOpt) (e : SslError) (code : ℕ) (h : Handshake)
    → ssl_again e ≡ true
    → h.doing ≡ true
    → h.tasks ≡ 1
    → check_answer h.ver (undone e code) (on_active (broken o) h)
      ≡ (leaves, record h { socket_error = true; err = error_of o; doing = false; tasks = 0 })
unfolding check_answer on_active ssl_again error_of
error_event-missed o want_write code h again busy one = ground arith
error_event-missed o want_read code h again busy one = ground arith
error_event-missed o (other n) code h again busy one = absurd (ground (arith, again))
