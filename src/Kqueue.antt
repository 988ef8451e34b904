-- ===== src/Kqueue.antt =====
-- src/net/mac/Kqueue.h and src/net/mac/Kqueue.cpp, under the table of src/net/Poller.cpp: the poller
-- of the build for macOS. Whether the kernel accepts a change is an argument.
pub mod Rows
pub mod Filters
pub mod Interest
mod Examples
use hwnet.Prelude.{
  put, ℕ, ◌*◌, Bool, true, false, not, ◌||◌, Option, none, some, ◌==◌, if◌then◌else◌,
}
use hwnet.Poller.{Channel, Flags}

-- A filter of the kernel: udata, whether it is enabled, and EV_CLEAR.
pub record Kevent : Type 0 where
  pub udata : ℕ
  pub enabled : Bool
  pub clear : Bool

-- The table of the poller, and the filters EVFILT_READ and EVFILT_WRITE of the queue, by descriptor.
pub record KqPoller : Type 0 where
  pub channels : ℕ → Option ℕ
  pub read_filter : ℕ → Option Kevent
  pub write_filter : ℕ → Option Kevent
  pub max_events : ℕ

-- Init
unfoldable pub new_poller : KqPoller
new_poller = record {
  channels = λ fd. none;
  read_filter = λ fd. none;
  write_filter = λ fd. none;
  max_events = 64;
}

-- EV_ADD, with EV_DISABLE where the flag is not asked for.
unfoldable pub added : Channel → Bool → Flags → Kevent
added c wanted f = record { udata = c.self; enabled = wanted; clear = f.edge }

-- EV_ENABLE or EV_DISABLE: a filter that is not there stays so.
unfoldable pub switched : Channel → Bool → Option Kevent → Option Kevent
switched c enabled none = none
switched c enabled (some k) = some (record k { udata = c.self; enabled = enabled })

add_at : Option ℕ → Bool → Channel → Flags → KqPoller → Bool × KqPoller
unfolding added
add_at (some other) ok c f p = (false, p)
add_at none ok c f p =
    let known = record p { channels = put c.fd (some c.self) p.channels } in
    (
      true,
      (if ok
          then record known {
            read_filter = put c.fd (some (added c f.read f)) p.read_filter;
            write_filter = put c.fd (some (added c f.write f)) p.write_filter;
          }
          else known),
    )

-- Poller::Add with Kqueue::Add, which does not look at the answer of kevent; true is 0.
unfoldable pub add : Bool → Channel → Flags → KqPoller → Bool × KqPoller
unfolding add_at
add ok c f p = add_at (p.channels c.fd) ok c f p

remove_at : Option ℕ → Channel → KqPoller → KqPoller
remove_at none c p = p
remove_at (some other) c p = record p {
  channels = put c.fd none p.channels;
  read_filter = put c.fd none p.read_filter;
  write_filter = put c.fd none p.write_filter;
}

-- Poller::Remove with Kqueue::Remove, as far as the table and the queue go.
unfoldable pub remove : Channel → KqPoller → KqPoller
unfolding remove_at
remove c p = remove_at (p.channels c.fd) c p

-- Kqueue::Enable and Kqueue::Disable
unfoldable pub switch : Bool → Channel → Flags → KqPoller → KqPoller
unfolding switched
switch enabled c f p = record p {
  read_filter =
      if f.read
      then put c.fd (switched c enabled (p.read_filter c.fd)) p.read_filter
      else p.read_filter;
  write_filter =
      if f.write
      then put c.fd (switched c enabled (p.write_filter c.fd)) p.write_filter
      else p.write_filter;
}

change_at : Option ℕ → Bool → Channel → Flags → KqPoller → KqPoller
unfolding switch
change_at none enabled c f p = p
change_at (some other) enabled c f p = switch enabled c f p

-- Poller::Enable and Poller::Disable
unfoldable pub change : Bool → Channel → Flags → KqPoller → KqPoller
unfolding change_at
change enabled c f p = change_at (p.channels c.fd) enabled c f p

-- What RunOnce makes of an event: its filter, and EV_EOF or EV_ERROR.
pub data Filter : Type 0 where
  evfilt_read evfilt_write : Filter

pub record Active : Type 0 where
  pub readable : Bool
  pub writeable : Bool
  pub error : Bool

unfoldable pub active_of : Filter → Bool → Bool → Active
active_of evfilt_read eof err = record { readable = true; writeable = false; error = eof || err }
active_of evfilt_write eof err = record { readable = false; writeable = true; error = eof || err }

-- The end of RunOnce, where `count` events came and realloc answers `ok`; true is 0.
unfoldable pub grow : ℕ → Bool → KqPoller → Bool × KqPoller
grow count ok p =
    let wider = record p { max_events = p.max_events * 4 } in
    if count == 0
    then (false, p)
    else if not (count == p.max_events)
    then (true, p)
    else (ok, wider)
