-- ===== src/Listener/Events.antt =====
-- Why no connection is missed by Do of src/net/TCPListener.cpp, and when it is deaf for good.
use hwnet.Prelude.{◌≤◌, ◌<◌, ℕ, ◌≡◌, Bool, true, false, List, [], ◌∷◌, Option, none, some, arith}
use hwnet.Listener.{
  Listener, Setup, start_begin, start_end, start_socket, start_on, Answer, Outcome, goes_on, leaves,
  conn, aborted, again, failed, new_listener, on_active, do_round, stop,
}

-- The thread of Do is between a read of the version and the lock after accept, or at the head of its
-- loop, or not there. `drained` is the version that was read before the accept that found nothing.
pub data Phase : Type 0 where
  absent head : Phase
  accepting : ℕ → Phase

pub record System : Type 0 where
  pub listener : Listener
  pub phase : Phase
  pub drained : ℕ
  pub starting : Bool

abbrev phase_after : Outcome → Phase
phase_after goes_on = head
phase_after leaves = absent

-- The events of the poller, the regions of Do, Start and Stop, in any interleaving: a Start that has
-- set `started` may be interrupted before _start; another Start is refused then, and changes nothing.
pub data Step : System → System → Type 0 where
  activated :
      (s : System) (read : Bool) → Step s (record s { listener = on_active read s.listener })
  entered :
      (s : System) → s.phase ≡ absent → 0 < s.listener.tasks → Step s (record s { phase = head })
  looked :
      (s : System)
      → s.phase ≡ head
      → Step s (record s { phase = accepting s.listener.readable_ver })
  answered :
      (s : System) (ver : ℕ) (a : Answer)
      → s.phase ≡ accepting ver
      → Step s (record {
        listener = (do_round ver a s.listener).1;
        phase = phase_after (do_round ver a s.listener).0;
        drained = elim a [ again ↦ ver | _ ↦ s.drained ];
        starting = s.starting;
      })
  start_begins :
      (s : System) (callback : Bool)
      → s.starting ≡ false
      → Step s (record s {
        listener = (start_begin callback s.listener).1;
        starting = (start_begin callback s.listener).0;
      })
  start_ends :
      (s : System) (setup : Setup) (handler : Bool)
      → s.starting ≡ true
      → Step s (record s { listener = (start_end setup handler s.listener).1; starting = false })
  stopped_by : (s : System) → Step s (record s { listener = stop s.listener })

pub data Reach (s : System) : System → Type 0 where
  here : Reach s s
  next : {t u : System} → Reach s t → Step t u → Reach s u

abbrev in_loop : Phase → Bool
in_loop absent = false
in_loop head = true
in_loop (accepting ver) = true

-- One Do at most; and where none is under way, the last accept that found nothing was made after
-- the last event.
pub record IsCurrent (s : System) : Type 0 where
  pub idle :
      s.listener.doing ≡ false → (s.listener.tasks ≡ 0) × (s.drained ≡ s.listener.readable_ver)
  pub single : s.listener.tasks ≤ 1
  pub inside : in_loop s.phase ≡ true → (s.listener.tasks ≡ 1) × (s.listener.doing ≡ true)

activated-IsCurrent :
    (s : System) (read : Bool)
    → IsCurrent s
    → IsCurrent (record s { listener = on_active read s.listener })
unfolding on_active
activated-IsCurrent s read h = ground arith

entered-IsCurrent :
    (s : System) → 0 < s.listener.tasks → IsCurrent s → IsCurrent (record s { phase = head })
entered-IsCurrent s t h = ground arith

looked-IsCurrent :
    (s : System)
    → s.phase ≡ head
    → IsCurrent s
    → IsCurrent (record s { phase = accepting s.listener.readable_ver })
looked-IsCurrent s e h = ground arith

answered-IsCurrent :
    (s : System) (ver : ℕ) (a : Answer)
    → s.phase ≡ accepting ver
    → IsCurrent s
    → IsCurrent (record {
      listener = (do_round ver a s.listener).1;
      phase = phase_after (do_round ver a s.listener).0;
      drained = elim a [ again ↦ ver | _ ↦ s.drained ];
      starting = s.starting;
    })
unfolding do_round
answered-IsCurrent s ver (conn fd) e h = ground arith
answered-IsCurrent s ver aborted e h = ground arith
answered-IsCurrent s ver again e h = ground arith
answered-IsCurrent s ver (failed err) e h = ground arith

stopped_by-IsCurrent :
    (s : System) → IsCurrent s → IsCurrent (record s { listener = stop s.listener })
unfolding stop
stopped_by-IsCurrent s h = ground arith

start_begins-IsCurrent :
    (s : System) (callback : Bool)
    → IsCurrent s
    → IsCurrent (record s {
      listener = (start_begin callback s.listener).1;
      starting = (start_begin callback s.listener).0;
    })
unfolding start_begin
start_begins-IsCurrent s callback h = ground arith

-- _start leaves alone what the invariant is about.
record IsLike (l l' : Listener) : Type 0 where
  doing : l'.doing ≡ l.doing
  tasks : l'.tasks ≡ l.tasks
  ver : l'.readable_ver ≡ l.readable_ver

start_end-IsLike :
    (socket : Option ℕ) (setup : Setup) (handler : Bool) (l : Listener)
    → IsLike l (start_end (record setup { socket = socket }) handler l).1
unfolding start_end start_socket start_on
start_end-IsLike none setup handler l = ground arith
start_end-IsLike (some fd) setup handler l = ground arith

start_ends-IsCurrent :
    (s : System) (setup : Setup) (handler : Bool)
    → IsCurrent s
    → IsCurrent (record s { listener = (start_end setup handler s.listener).1; starting = false })
start_ends-IsCurrent s setup handler h =
    let l = start_end-IsLike setup.socket setup handler s.listener in
    ground (arith, l.doing, l.tasks, l.ver)

Step-IsCurrent : {s t : System} → Step s t → IsCurrent s → IsCurrent t
Step-IsCurrent (activated s read) h = activated-IsCurrent s read h
Step-IsCurrent (entered s e t) h = entered-IsCurrent s t h
Step-IsCurrent (looked s e) h = looked-IsCurrent s e h
Step-IsCurrent (answered s ver a e) h = answered-IsCurrent s ver a e h
Step-IsCurrent (start_begins s callback e) h = start_begins-IsCurrent s callback h
Step-IsCurrent (start_ends s setup handler e) h = start_ends-IsCurrent s setup handler h
Step-IsCurrent (stopped_by s) h = stopped_by-IsCurrent s h

abbrev pub fresh_system : Bool → System
fresh_system valid = record {
  listener = new_listener valid;
  phase = absent;
  drained = 0;
  starting = false;
}

-- From the constructor on, however events, Start and Stop fall between the regions of Do: one Do at
-- most is posted or running, and when `doing` is not set, no Do is, and the accept that last found
-- nothing was made with the version of the last event, so no event is missed.
pub Reach-IsCurrent : (valid : Bool) {t : System} → Reach (fresh_system valid) t → IsCurrent t
unfolding new_listener
Reach-IsCurrent valid here = ground arith
Reach-IsCurrent valid (next r x) = Step-IsCurrent x (Reach-IsCurrent valid r)

unfoldable pub all_active : List Bool → Listener → Listener
all_active [] l = l
all_active (read ∷ reads) l = all_active reads (on_active read l)

all_active-deaf :
    (reads : List Bool) (l : Listener)
    → l.doing ≡ true
    → l.tasks ≡ 0
    → (all_active reads l).tasks ≡ 0
unfolding all_active on_active
all_active-deaf [] l d t = t
all_active-deaf (read ∷ reads) l d t =
    all_active-deaf reads (on_active read l) (ground arith) (ground arith)

-- After an error of accept that the handler was told of, such as too many open files, no event ever
-- posts Do again: the flag `doing` is left set.
pub failed-deaf :
    (ver err : ℕ) (l : Listener) (reads : List Bool)
    → l.handler ≡ true
    → l.doing ≡ true
    → l.tasks ≡ 1
    → (all_active reads (do_round ver (failed err) l).1).tasks ≡ 0
unfolding do_round
failed-deaf ver err l reads e d t =
    all_active-deaf reads (do_round ver (failed err) l).1 (ground arith) (ground arith)
