-- ===== src/Kqueue/Rows.antt =====
-- What a call does to the filters of one descriptor in src/net/mac/Kqueue.cpp.
use hwnet.Prelude.{
  ℕ, ◌≡◌, refl, ◌∙◌, Bool, true, false, not, ◌&&◌, ◌||◌, Option, none, some, arith, if◌then◌else◌,
}
use hwnet.Poller.{Channel}
use hwnet.Poller.Interest.{Interest, Call, adds, removes, enables, disables, next_interest}
use hwnet.Kqueue.{KqPoller, Kevent, add, remove, change, switched, added}

-- What the two filters of a descriptor ask for.
unfoldable pub asked : Option Kevent → Option Kevent → Option Interest
asked (some r) (some w) = some (record { input = r.enabled; output = w.enabled })
asked none w = none
asked (some r) none = none

unfoldable pub interest : KqPoller → ℕ → Option Interest
unfolding asked
interest p j = asked (p.read_filter j) (p.write_filter j)

abbrev matches : Option ℕ → Option Kevent → Option Kevent → Bool
matches none none none = true
matches (some c) (some r) (some w) = true
matches c r w = false

-- A descriptor has both filters if it is in the table, and else none.
pub record IsMatched (p : KqPoller) : Type 0 where
  pub match : (j : ℕ) → matches (p.channels j) (p.read_filter j) (p.write_filter j) ≡ true

-- The calls, where the kernel accepts every change.
unfoldable pub call : Call → KqPoller → KqPoller
call (adds c f) p = (add true c f p).1
call (removes c) p = remove c p
call (enables c f) p = change true c f p
call (disables c f) p = change false c f p

-- The part of a poller that concerns one descriptor: the table, and the two filters.
abbrev Row : Type 0
Row = Option ℕ × Option Kevent × Option Kevent

abbrev pub row : KqPoller → ℕ → Row
row p j = (p.channels j, p.read_filter j, p.write_filter j)

abbrev pub switch_row : Bool → Bool → Channel → Option Kevent → Option Kevent
switch_row wanted enabled c k = if wanted then switched c enabled k else k

-- What a call makes of the row of its descriptor.
abbrev pub row_call : Call → Row → Row
row_call (adds c f) (none, r, w) = (some c.self, some (added c f.read f), some (added c f.write f))
row_call (adds c f) (some o, r, w) = (some o, r, w)
row_call (removes c) (none, r, w) = (none, r, w)
row_call (removes c) (some o, r, w) = (none, none, none)
row_call (enables c f) (none, r, w) = (none, r, w)
row_call (enables c f) (some o, r, w) =
    (some o, switch_row f.read true c r, switch_row f.write true c w)
row_call (disables c f) (none, r, w) = (none, r, w)
row_call (disables c f) (some o, r, w) =
    (some o, switch_row f.read false c r, switch_row f.write false c w)

abbrev pub matches_row : Row → Bool
matches_row (o, r, w) = matches o r w

abbrev pub interest_row : Row → Option Interest
interest_row (o, r, w) = asked r w

abbrev Keeps : Call → Row → Type 0
Keeps c t =
    (matches_row (row_call c t) ≡ true)
    × (interest_row (row_call c t) ≡ next_interest c (interest_row t))

absent-Keeps : (c : Call) → Keeps c (none, none, none)
unfolding asked next_interest added
absent-Keeps (adds c f) = (refl, refl)
absent-Keeps (removes c) = (refl, refl)
absent-Keeps (enables c f) = (refl, refl)
absent-Keeps (disables c f) = (refl, refl)

-- Both filters are switched, or one, or none.
switched-Keeps :
    (a b enabled : Bool) (c : Channel) (o : ℕ) (r w : Kevent)
    → (matches (some o) (switch_row a enabled c (some r)) (switch_row b enabled c (some w)) ≡ true)
      × (asked (switch_row a enabled c (some r)) (switch_row b enabled c (some w))
          ≡ some (record {
            input = if a then enabled else r.enabled;
            output = if b then enabled else w.enabled;
          }))
unfolding asked switched
switched-Keeps true true enabled c o r w = (refl, refl)
switched-Keeps true false enabled c o r w = (refl, refl)
switched-Keeps false true enabled c o r w = (refl, refl)
switched-Keeps false false enabled c o r w = (refl, refl)

if_or : (a b : Bool) → (if a then true else b) ≡ (a || b)
if_or true b = refl
if_or false b = refl

if_and : (a b : Bool) → (if a then false else b) ≡ (not a && b)
if_and true b = refl
if_and false b = refl

present-Keeps : (c : Call) (o : ℕ) (r w : Kevent) → Keeps c (some o, some r, some w)
unfolding asked next_interest
present-Keeps (adds c f) o r w = (refl, refl)
present-Keeps (removes c) o r w = (refl, refl)
present-Keeps (enables c f) o r w =
    let (both, e) = switched-Keeps f.read f.write true c o r w in
    (both, e ∙ rw (if_or f.read r.enabled, if_or f.write w.enabled) refl)
present-Keeps (disables c f) o r w =
    let (both, e) = switched-Keeps f.read f.write false c o r w in
    (both, e ∙ rw (if_and f.read r.enabled, if_and f.write w.enabled) refl)

-- A call keeps the two filters together, and changes what they ask for as promised.
pub row_call-Keeps : (c : Call) (t : Row) → matches_row t ≡ true → Keeps c t
row_call-Keeps c (none, none, none) e = absent-Keeps c
row_call-Keeps c (none, some r, w) e = absurd (ground (arith, e))
row_call-Keeps c (none, none, some w) e = absurd (ground (arith, e))
row_call-Keeps c (some o, none, w) e = absurd (ground (arith, e))
row_call-Keeps c (some o, some r, none) e = absurd (ground (arith, e))
row_call-Keeps c (some o, some r, some w) e = present-Keeps c o r w
