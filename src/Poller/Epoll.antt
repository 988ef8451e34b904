-- ===== src/Poller/Epoll.antt =====
-- That src/net/linux/Epoll.cpp keeps the promise of src/net/Poller.cpp.
use hwnet.Prelude.{
  ==-≡, ==_refl, ℕ, ◌≡◌, refl, sym, ap, ◌∙◌, subst, true, false, Option, none, some, ◌==◌,
  Bool-cases, inl, inr, if◌then◌else◌,
}
use hwnet.Poller.{
  Poller, Channel, Flags, Mask, Armed, new_poller, add, add_at, remove, remove_at, enable, disable,
  change_at, control, add_mask, enable_mask, disable_mask,
}
use hwnet.Poller.Interest.{
  Interest, Call, adds, removes, enables, disables, channel_of, next_interest,
}

-- What the kernel was asked for.
unfoldable pub asked : Option Armed → Option Interest
asked none = none
asked (some a) = some (record { input = a.mask.input; output = a.mask.output })

-- The calls, where the kernel accepts every change.
unfoldable pub call : Call → Poller → Poller
call (adds c f) p = (add true c f p).1
call (removes c) p = remove c p
call (enables c f) p = enable true c f p
call (disables c f) p = disable true c f p

-- The part of a poller that concerns one descriptor: the table, epoll, and Channel::events.
abbrev Row : Type 0
Row = Option ℕ × Option Armed × Mask

abbrev armed_row : ℕ → Channel → Mask → Row
armed_row o c m = (some o, some (record { target = c.self; mask = m }), m)

-- What a call makes of the row of its descriptor.
abbrev row_call : Call → Row → Row
row_call (adds c f) (none, a, m) = armed_row c.self c (add_mask f)
row_call (adds c f) (some o, a, m) = (some o, a, m)
row_call (removes c) (none, a, m) = (none, a, m)
row_call (removes c) (some o, a, m) = (none, none, m)
row_call (enables c f) (none, a, m) = (none, a, m)
row_call (enables c f) (some o, a, m) = armed_row o c (enable_mask f m)
row_call (disables c f) (none, a, m) = (none, a, m)
row_call (disables c f) (some o, a, m) = armed_row o c (disable_mask f m)

-- A descriptor is armed if it is in the table, and then with the channel's events.
abbrev Matches : Row → Type 0
Matches (none, none, m) = Unit
Matches (some o, some a, m) = a.mask ≡ m
Matches (none, some a, m) = ⊥
Matches (some o, none, m) = ⊥

abbrev interest_row : Row → Option Interest
interest_row (o, a, m) = asked a

abbrev Keeps : Call → Row → Type 0
Keeps c t =
    Matches (row_call c t) × (interest_row (row_call c t) ≡ next_interest c (interest_row t))

row_call-Keeps : (c : Call) (t : Row) → Matches t → Keeps c t
unfolding asked next_interest add_mask enable_mask disable_mask
row_call-Keeps (adds c f) (none, none, m) e = (refl, refl)
row_call-Keeps (removes c) (none, none, m) e = (tt, refl)
row_call-Keeps (enables c f) (none, none, m) e = (tt, refl)
row_call-Keeps (disables c f) (none, none, m) e = (tt, refl)
row_call-Keeps (adds c f) (some o, some a, m) e = (e, refl)
row_call-Keeps (removes c) (some o, some a, m) e = (tt, refl)
row_call-Keeps (enables c f) (some o, some a, m) e = (refl, rw e refl)
row_call-Keeps (disables c f) (some o, some a, m) e = (refl, rw e refl)
row_call-Keeps c (none, some a, m) e = absurd e
row_call-Keeps c (some o, none, m) e = absurd e

row : (ℕ → ℕ) → Poller → ℕ → Row
row owner p j = (p.channels j, p.armed j, p.events (owner j))

control-here :
    (owner : ℕ → ℕ) (c : Channel) (m : Mask) (o : ℕ) (p : Poller)
    → c.self ≡ owner c.fd
    → p.channels c.fd ≡ some o
    → row owner (control true c m p) c.fd ≡ armed_row o c m
unfolding row control
control-here owner c m o p own e = rw (e, ==_refl c.fd, sym own, ==_refl c.self) refl

add_at-here :
    (owner : ℕ → ℕ) (c : Channel) (f : Flags) (o : Option ℕ) (p : Poller)
    → c.self ≡ owner c.fd
    → p.channels c.fd ≡ o
    → row owner (add_at o true c f p).1 c.fd ≡ row_call (adds c f) (row owner p c.fd)
unfolding row add_at control
add_at-here owner c f none p own e = rw (e, ==_refl c.fd, sym own, ==_refl c.self) refl
add_at-here owner c f (some o) p own e = rw e refl

remove_at-here :
    (owner : ℕ → ℕ) (c : Channel) (o : Option ℕ) (p : Poller)
    → p.channels c.fd ≡ o
    → row owner (remove_at o c p) c.fd ≡ row_call (removes c) (row owner p c.fd)
unfolding row remove_at
remove_at-here owner c none p e = rw e refl
remove_at-here owner c (some o) p e = rw (e, ==_refl c.fd) refl

enable_at-here :
    (owner : ℕ → ℕ) (c : Channel) (f : Flags) (o : Option ℕ) (p : Poller)
    → c.self ≡ owner c.fd
    → p.channels c.fd ≡ o
    → row owner (change_at o true c (enable_mask f (p.events c.self)) p) c.fd
      ≡ row_call (enables c f) (row owner p c.fd)
unfolding row change_at
enable_at-here owner c f none p own e = rw e refl
enable_at-here owner c f (some o) p own e =
    control-here owner c (enable_mask f (p.events c.self)) o p own e ∙ rw (e, own) refl

disable_at-here :
    (owner : ℕ → ℕ) (c : Channel) (f : Flags) (o : Option ℕ) (p : Poller)
    → c.self ≡ owner c.fd
    → p.channels c.fd ≡ o
    → row owner (change_at o true c (disable_mask f (p.events c.self)) p) c.fd
      ≡ row_call (disables c f) (row owner p c.fd)
unfolding row change_at
disable_at-here owner c f none p own e = rw e refl
disable_at-here owner c f (some o) p own e =
    control-here owner c (disable_mask f (p.events c.self)) o p own e ∙ rw (e, own) refl

call-here :
    (owner : ℕ → ℕ) (c : Call) (p : Poller)
    → (channel_of c).self ≡ owner (channel_of c).fd
    → row owner (call c p) (channel_of c).fd ≡ row_call c (row owner p (channel_of c).fd)
unfolding call add remove enable disable
call-here owner (adds c f) p own = add_at-here owner c f (p.channels c.fd) p own refl
call-here owner (removes c) p own = remove_at-here owner c (p.channels c.fd) p refl
call-here owner (enables c f) p own = enable_at-here owner c f (p.channels c.fd) p own refl
call-here owner (disables c f) p own = disable_at-here owner c f (p.channels c.fd) p own refl

-- Another descriptor, of another channel.
module _ (owner : ℕ → ℕ) (c : Channel) (p : Poller) (j : ℕ) (past : (c.fd == j) ≡ false)
    (apart : (c.self == owner j) ≡ false) where
  control-past : (m : Mask) → row owner (control true c m p) j ≡ row owner p j
  unfolding row control
  control-past m = rw (past, apart) refl

  add_at-past : (f : Flags) (o : Option ℕ) → row owner (add_at o true c f p).1 j ≡ row owner p j
  unfolding row add_at control
  add_at-past f none = rw (past, apart) refl
  add_at-past f (some o) = refl

  remove_at-past : (o : Option ℕ) → row owner (remove_at o c p) j ≡ row owner p j
  unfolding row remove_at
  remove_at-past none = refl
  remove_at-past (some o) = rw past refl

  change_at-past : (m : Mask) (o : Option ℕ) → row owner (change_at o true c m p) j ≡ row owner p j
  unfolding change_at
  change_at-past m none = refl
  change_at-past m (some o) = control-past m

call-past :
    (owner : ℕ → ℕ) (c : Call) (p : Poller) (j : ℕ)
    → ((channel_of c).fd == j) ≡ false
    → ((channel_of c).self == owner j) ≡ false
    → row owner (call c p) j ≡ row owner p j
unfolding call add remove enable disable
call-past owner (adds c f) p j past apart = add_at-past owner c p j past apart f (p.channels c.fd)
call-past owner (removes c) p j past apart = remove_at-past owner c p j past apart (p.channels c.fd)
call-past owner (enables c f) p j past apart =
    change_at-past owner c p j past apart (enable_mask f (p.events c.self)) (p.channels c.fd)
call-past owner (disables c f) p j past apart =
    change_at-past owner c p j past apart (disable_mask f (p.events c.self)) (p.channels c.fd)

-- Each descriptor has one channel, which is no other one's.
abbrev pub IsOwning : (ℕ → ℕ) → Type 0
IsOwning owner = (i j : ℕ) → (i == j) ≡ false → (owner i == owner j) ≡ false

-- The events of each channel in the table are those that epoll was asked for.
pub record IsArmed (owner : ℕ → ℕ) (p : Poller) : Type 0 where
  match : (j : ℕ) → Matches (row owner p j)

unfoldable pub interest : Poller → ℕ → Option Interest
unfolding asked
interest p j = asked (p.armed j)

call-row :
    (owner : ℕ → ℕ) (c : Call) (p : Poller) (j : ℕ)
    → IsOwning owner
    → (channel_of c).self ≡ owner (channel_of c).fd
    → Matches (row owner p j)
    → Matches (row owner (call c p) j)
      × (interest (call c p) j
          ≡ (if (channel_of c).fd == j then next_interest c (interest p j) else interest p j))
unfolding row interest
call-row owner c p j owning own h = elim (Bool-cases ((channel_of c).fd == j)) [
  | inl at ↦
      let same : row owner (call c p) j ≡ row_call c (row owner p j) =
        subst (λ k. row owner (call c p) k ≡ row_call c (row owner p k)) (==-≡ at)
          (call-here owner c p own) in
      let (both, asks) = row_call-Keeps c (row owner p j) h in
      (subst Matches (sym same) both, ap interest_row same ∙ asks ∙ rw at refl)
  | inr past ↦
      let same = call-past owner c p j past (rw own (owning (channel_of c).fd j past)) in
      (subst Matches (sym same) h, ap interest_row same ∙ rw past refl)
]

pub call-IsArmed :
    (owner : ℕ → ℕ) (c : Call) (p : Poller)
    → IsOwning owner
    → (channel_of c).self ≡ owner (channel_of c).fd
    → IsArmed owner p
    → IsArmed owner (call c p)
call-IsArmed owner c p owning own h = record {
  match = λ j. (call-row owner c p j owning own (h.match j)).0;
}

pub interest-call :
    (owner : ℕ → ℕ) (c : Call) (p : Poller) (j : ℕ)
    → IsOwning owner
    → (channel_of c).self ≡ owner (channel_of c).fd
    → IsArmed owner p
    → interest (call c p) j
      ≡ (if (channel_of c).fd == j then next_interest c (interest p j) else interest p j)
interest-call owner c p j owning own h = (call-row owner c p j owning own (h.match j)).1

pub new_poller-IsArmed : (owner : ℕ → ℕ) → IsArmed owner new_poller
unfolding new_poller row
new_poller-IsArmed owner = record { match = λ j. tt }

pub interest-new_poller : (j : ℕ) → interest new_poller j ≡ none
unfolding interest new_poller asked
interest-new_poller j = refl
