-- ===== src/Poller/Interest.antt =====
-- What src/net/Poller.cpp promises of Add, Remove, Enable and Disable, whatever the system: for which
-- descriptors the kernel is asked for which events.
use hwnet.Prelude.{
  ℕ, ◌≡◌, refl, ◌∙◌, Bool, not, ◌&&◌, ◌||◌, List, [], ◌∷◌, Option, none, some, ◌==◌, if◌then◌else◌,
}
use hwnet.Poller.{Channel, Flags}

-- Events to read and to write.
pub record Interest : Type 0 where
  pub input : Bool
  pub output : Bool

pub data Call : Type 0 where
  adds enables disables : Channel → Flags → Call
  removes : Channel → Call

abbrev pub channel_of : Call → Channel
channel_of (adds c f) = c
channel_of (enables c f) = c
channel_of (disables c f) = c
channel_of (removes c) = c

-- What a call makes of the interest in its descriptor; `none` is a descriptor that is not added.
unfoldable pub next_interest : Call → Option Interest → Option Interest
next_interest (adds c f) none = some (record { input = f.read; output = f.write })
next_interest (adds c f) (some i) = some i
next_interest (removes c) o = none
next_interest (enables c f) none = none
next_interest (enables c f) (some i) =
    some (record { input = f.read || i.input; output = f.write || i.output })
next_interest (disables c f) none = none
next_interest (disables c f) (some i) =
    some (record { input = not f.read && i.input; output = not f.write && i.output })

unfoldable pub replay : List Call → (ℕ → Option Interest) → ℕ → Option Interest
unfolding next_interest
replay [] m = m
replay (c ∷ cs) m = replay cs λ j. if (channel_of c).fd == j then next_interest c (m j) else m j

-- A poller of some system, with states `S`: its calls do what the promise says.
pub record IsPoller (S : Type 0) : Type 1 where
  pub start : S
  pub call : Call → S → S
  pub interest : S → ℕ → Option Interest
  pub IsSound : S → Type 0
  pub May : Call → Type 0
  pub start_sound : IsSound start
  pub start_interest : (j : ℕ) → interest start j ≡ none
  pub call_sound : (c : Call) (s : S) → May c → IsSound s → IsSound (call c s)
  pub call_interest :
      (c : Call) (s : S) (j : ℕ)
      → May c
      → IsSound s
      → interest (call c s) j
        ≡ (if (channel_of c).fd == j then next_interest c (interest s j) else interest s j)

abbrev pub AllMay : {S : Type 0} → IsPoller S → List Call → Type 0
AllMay p [] = Unit
AllMay p (c ∷ cs) = p.May c × AllMay p cs

-- Calls one after the other.
unfoldable pub run : {S : Type 0} → (Call → S → S) → List Call → S → S
run call [] s = s
run call (c ∷ cs) s = run call cs (call c s)

replay_same :
    (cs : List Call) (m m' : ℕ → Option Interest)
    → ((j : ℕ) → m j ≡ m' j)
    → (j : ℕ) → replay cs m j ≡ replay cs m' j
unfolding replay
replay_same [] m m' same j = same j
replay_same (c ∷ cs) m m' same j = replay_same cs _ _ (λ k. rw (same k) refl) j

-- Any calls make of the interest what the promise says.
run-replay :
    {S : Type 0} (p : IsPoller S) (cs : List Call) (s : S)
    → AllMay p cs
    → p.IsSound s
    → (j : ℕ) → p.interest (run p.call cs s) j ≡ replay cs (p.interest s) j
unfolding run replay
run-replay p [] s may sound j = refl
run-replay p (c ∷ cs) s (may, rest) sound j =
    run-replay p cs (p.call c s) rest (p.call_sound c s may sound) j
    ∙ replay_same cs _ _ (λ k. p.call_interest c s k may sound) j

-- From its start on, a poller asks its kernel for what the calls make of nothing.
pub run-start :
    {S : Type 0} (p : IsPoller S) (cs : List Call)
    → AllMay p cs
    → (j : ℕ) → p.interest (run p.call cs p.start) j ≡ replay cs (λ k. none) j
run-start p cs may j =
    run-replay p cs p.start may p.start_sound j ∙ replay_same cs _ _ (λ k. p.start_interest k) j
