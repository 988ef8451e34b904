-- ===== src/Connector/Once.antt =====
-- How often the callbacks of src/net/TCPConnector.cpp are called.
use hwnet.Prelude.{ℕ, ◌+◌, ◌≤◌, ◌<◌, ◌≡◌, Bool, true, false, List, [], ◌∷◌}
use hwnet.Connector.{
  Connector, Setup, Effect, on_connect, on_error, connect, connect_with_timeout, connect_timeout,
  active_begin, active_end, run_task,
}

abbrev is_call : Effect → ℕ
is_call (on_connect fd) = 1
is_call (on_error err) = 1
is_call e = 0

-- The callbacks that were made.
abbrev pub calls : List Effect → ℕ
calls [] = 0
calls (e ∷ es) = is_call e + calls es

-- The calls of a user, the timer, the two parts of OnActive and the task, in any interleaving.
-- Events and the timer come after Connect has begun.
pub data Step : Connector → Connector → Type 0 where
  connects :
      (c : Connector) (s : Setup) (callback handler : Bool)
      → Step c (connect s callback handler c).1
  connects_with_timeout :
      (c : Connector) (s : Setup) (callback handler : Bool) (timeout fresh : ℕ)
      → Step c (connect_with_timeout s callback handler timeout fresh c).1
  times_out :
      (c : Connector) (timed_out t : ℕ) → c.started ≡ true → Step c (connect_timeout timed_out t c)
  begins_active : (c : Connector) (reason : ℕ) → c.started ≡ true → Step c (active_begin reason c)
  ends_active : (c : Connector) → c.started ≡ true → Step c (active_end c)
  runs : (c : Connector) → 0 < c.tasks → Step c (run_task c)

pub data Reach (c : Connector) : Connector → Type 0 where
  here : Reach c c
  next : {d e : Connector} → Reach c d → Step d e → Reach c e

-- Before the first event or timeout nothing is posted; from then on there is one task or one
-- callback, where both callbacks are set, and never two.
pub record IsOnce (c : Connector) : Type 0 where
  pub unborn : c.started ≡ false → c.doing ≡ false
  pub idle : c.doing ≡ false → (c.tasks ≡ 0) × (calls c.trace ≡ 0)
  pub single : c.tasks + calls c.trace ≤ 1
  pub answered :
      c.doing ≡ true
      → c.connect_callback ≡ true
      → c.error_callback ≡ true
      → c.tasks + calls c.trace ≡ 1
