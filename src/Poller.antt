-- ===== src/Poller.antt =====
-- src/net/Poller.h, src/net/Poller.cpp and src/net/linux/Epoll.cpp: the table of channels and the
-- loop that hands events to them. What the kernel and realloc answer is an argument.
pub mod Kept
pub mod Epoll
pub mod Interest
pub mod Lifetime
pub mod Pools
mod Release
mod Examples
use hwnet.Prelude.{
  put, ℕ, ◌+◌, ◌*◌, Bool, true, false, not, ◌&&◌, ◌||◌, List, [], ◌∷◌, ◌++◌, Option, none, some,
  ◌==◌, if◌then◌else◌,
}

-- A channel: the address of the object, and its Fd().
pub record Channel : Type 0 where
  pub self : ℕ
  pub fd : ℕ

-- Poller::Read, Poller::Write and Poller::ET.
pub record Flags : Type 0 where
  pub read : Bool
  pub write : Bool
  pub edge : Bool

-- EPOLLIN, EPOLLOUT, EPOLLET, and whether EPOLLERR, EPOLLHUP and EPOLLRDHUP are set.
pub record Mask : Type 0 where
  pub input : Bool
  pub output : Bool
  pub edge : Bool
  pub errors : Bool

-- What epoll_ctl was given for a descriptor: data.ptr and events.
pub record Armed : Type 0 where
  pub target : ℕ
  pub mask : Mask

-- `events` is Channel::events, by the channel's address; `armed` holds what epoll_ctl accepted;
-- `batch` the data.ptr of the events that RunOnce has not done with; `room` how many events the
-- array has place for; `notified` counts the writes to the pipe that were not read.
pub record Poller : Type 0 where
  pub channels : ℕ → Option ℕ
  pub wait_remove : List ℕ
  pub clear_wait_remove : ℕ
  pub events : ℕ → Mask
  pub armed : ℕ → Option Armed
  pub batch : List ℕ
  pub max_events : ℕ
  pub room : ℕ
  pub notified : ℕ
  pub closed : Bool
  pub running : Bool

abbrev no_mask : Mask
no_mask = record { input = false; output = false; edge = false; errors = false }

-- Poller() and Epoll::Init, which allocates 64 events.
unfoldable pub new_poller : Poller
new_poller = record {
  channels = λ fd. none;
  wait_remove = [];
  clear_wait_remove = 0;
  events = λ c. no_mask;
  armed = λ fd. none;
  batch = [];
  max_events = 64;
  room = 64;
  notified = 0;
  closed = false;
  running = false;
}

unfoldable pub add_mask : Flags → Mask
add_mask f = record { input = f.read; output = f.write; edge = f.edge; errors = true }

unfoldable pub enable_mask : Flags → Mask → Mask
enable_mask f m = record m { input = f.read || m.input; output = f.write || m.output }

unfoldable pub disable_mask : Flags → Mask → Mask
disable_mask f m = record m { input = not f.read && m.input; output = not f.write && m.output }

-- epoll_ctl with EPOLL_CTL_ADD or EPOLL_CTL_MOD, and Channel::events after it.
unfoldable pub control : Bool → Channel → Mask → Poller → Poller
control ok c m p =
    if ok
    then record p {
      armed = put c.fd (some (record { target = c.self; mask = m })) p.armed;
      events = put c.self m p.events;
    }
    else p

unfoldable pub add_at : Option ℕ → Bool → Channel → Flags → Poller → Bool × Poller
unfolding control
add_at (some other) ok c f p = (false, p)
add_at none true c f p =
    (true, control true c (add_mask f) (record p { channels = put c.fd (some c.self) p.channels }))
add_at none false c f p = (false, p)

-- Add; true is 0. `ok` is the answer of epoll_ctl.
unfoldable pub add : Bool → Channel → Flags → Poller → Bool × Poller
unfolding add_at
add ok c f p = add_at (p.channels c.fd) ok c f p

unfoldable pub remove_at : Option ℕ → Channel → Poller → Poller
remove_at none c p = p
remove_at (some other) c p = record p {
  wait_remove = p.wait_remove ++ c.self ∷ [];
  channels = put c.fd none p.channels;
  armed = put c.fd none p.armed;
  clear_wait_remove = p.clear_wait_remove + 1;
  notified = if p.clear_wait_remove + 1 == 1 then p.notified + 1 else p.notified;
}

-- Remove
unfoldable pub remove : Channel → Poller → Poller
unfolding remove_at
remove c p = remove_at (p.channels c.fd) c p

unfoldable pub change_at : Option ℕ → Bool → Channel → Mask → Poller → Poller
unfolding control
change_at none ok c m p = p
change_at (some other) ok c m p = control ok c m p

-- Enable and Disable
unfoldable pub enable : Bool → Channel → Flags → Poller → Poller
unfolding change_at
enable ok c f p = change_at (p.channels c.fd) ok c (enable_mask f (p.events c.self)) p

unfoldable pub disable : Bool → Channel → Flags → Poller → Poller
unfolding change_at
disable ok c f p = change_at (p.channels c.fd) ok c (disable_mask f (p.events c.self)) p

-- The loop of Run up to the return of epoll_wait, with the targets of the events it reports.
unfoldable pub wait : List ℕ → Poller → Poller
wait targets p = record p { batch = targets }

rest_of : List ℕ → List ℕ
rest_of [] = []
rest_of (c ∷ cs) = cs

-- One OnActive of RunOnce has returned.
unfoldable pub next_event : Poller → Poller
unfolding rest_of
next_event p = record p { batch = rest_of p.batch }

-- OnActive of notifyChannel, which reads the pipe until it is empty.
unfoldable pub drain : Poller → Poller
drain p = record p { notified = 0 }

-- The end of RunOnce, where `count` events came and realloc answers `ok`; true is 0.
unfoldable pub grow : ℕ → Bool → Poller → Bool × Poller
grow count ok p =
    let wider = record p { max_events = p.max_events * 4 } in
    if count == 0
    then (false, p)
    else if not (count == p.max_events)
    then (true, p)
    else if ok
    then (true, record wider { room = wider.max_events })
    else (false, wider)

-- The rest of one turn of Run: removed channels are let go.
unfoldable pub sweep : Poller → Poller
sweep p =
    if p.clear_wait_remove == 0 then p else record p { clear_wait_remove = 0; wait_remove = [] }

-- Stop
unfoldable pub stop : Poller → Poller
stop p = record p { closed = true; notified = p.notified + 1 }

-- Run begins, where nobody runs it yet, and ends.
unfoldable pub run_begin : Poller → Bool × Poller
run_begin p = if p.running then (false, p) else (true, record p { running = true })

-- The test of the loop of Run after RunOnce answered: whether another turn follows.
unfoldable pub run_test : Bool → Poller → Bool × Poller
run_test ok p = if ok && not p.closed then (true, p) else (false, record p { running = false })
