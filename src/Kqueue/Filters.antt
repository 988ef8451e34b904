-- ===== src/Kqueue/Filters.antt =====
-- That src/net/mac/Kqueue.cpp keeps the promise of the poller.
use hwnet.Prelude.{
  put, ==-≡, ==_refl, ℕ, ◌≡◌, refl, ap, ◌∙◌, subst, Bool, true, false, Option, none, some, ◌==◌,
  Bool-cases, inl, inr, if◌then◌else◌,
}
use hwnet.Poller.{Channel, Flags}
use hwnet.Poller.Interest.{Call, adds, removes, enables, disables, channel_of, next_interest}
use hwnet.Kqueue.{
  KqPoller, Kevent, new_poller, add, add_at, remove, remove_at, change, change_at, switch, switched,
}
use hwnet.Kqueue.Rows.{
  asked, interest, IsMatched, call, row, switch_row, row_call, matches_row, interest_row,
  row_call-Keeps,
}

if_put-at :
    (b : Bool) (k : ℕ) (x : Option Kevent) (m : ℕ → Option Kevent)
    → (if b then put k x m else m) k ≡ (if b then x else m k)
if_put-at true k x m = rw (==_refl k) refl
if_put-at false k x m = refl

if_put-past :
    (b : Bool) (k j : ℕ) (x : Option Kevent) (m : ℕ → Option Kevent)
    → (k == j) ≡ false
    → (if b then put k x m else m) j ≡ m j
if_put-past true k j x m e = rw e refl
if_put-past false k j x m e = refl

add_at-here :
    (c : Channel) (f : Flags) (o : Option ℕ) (p : KqPoller)
    → p.channels c.fd ≡ o
    → row (add_at o true c f p).1 c.fd ≡ row_call (adds c f) (row p c.fd)
unfolding add_at
add_at-here c f none p e = rw (e, ==_refl c.fd) refl
add_at-here c f (some o) p e = rw e refl

remove_at-here :
    (c : Channel) (o : Option ℕ) (p : KqPoller)
    → p.channels c.fd ≡ o
    → row (remove_at o c p) c.fd ≡ row_call (removes c) (row p c.fd)
unfolding remove_at
remove_at-here c none p e = rw e refl
remove_at-here c (some o) p e = rw (e, ==_refl c.fd) refl

switch-here :
    (enabled : Bool) (c : Channel) (f : Flags) (p : KqPoller)
    → row (switch enabled c f p) c.fd ≡ (
      p.channels c.fd,
      switch_row f.read enabled c (p.read_filter c.fd),
      switch_row f.write enabled c (p.write_filter c.fd),
    )
unfolding switch
switch-here enabled c f p =
    rw
      (
        if_put-at f.read c.fd (switched c enabled (p.read_filter c.fd)) p.read_filter,
        if_put-at f.write c.fd (switched c enabled (p.write_filter c.fd)) p.write_filter,
      )
      refl

enable_at-here :
    (c : Channel) (f : Flags) (o : Option ℕ) (p : KqPoller)
    → p.channels c.fd ≡ o
    → row (change_at o true c f p) c.fd ≡ row_call (enables c f) (row p c.fd)
unfolding change_at
enable_at-here c f none p e = rw e refl
enable_at-here c f (some o) p e = switch-here true c f p ∙ rw e refl

disable_at-here :
    (c : Channel) (f : Flags) (o : Option ℕ) (p : KqPoller)
    → p.channels c.fd ≡ o
    → row (change_at o false c f p) c.fd ≡ row_call (disables c f) (row p c.fd)
unfolding change_at
disable_at-here c f none p e = rw e refl
disable_at-here c f (some o) p e = switch-here false c f p ∙ rw e refl

call-here :
    (c : Call) (p : KqPoller)
    → row (call c p) (channel_of c).fd ≡ row_call c (row p (channel_of c).fd)
unfolding call add remove change
call-here (adds c f) p = add_at-here c f (p.channels c.fd) p refl
call-here (removes c) p = remove_at-here c (p.channels c.fd) p refl
call-here (enables c f) p = enable_at-here c f (p.channels c.fd) p refl
call-here (disables c f) p = disable_at-here c f (p.channels c.fd) p refl

change_at-past :
    (enabled : Bool) (c : Channel) (f : Flags) (o : Option ℕ) (p : KqPoller) (j : ℕ)
    → (c.fd == j) ≡ false
    → row (change_at o enabled c f p) j ≡ row p j
unfolding change_at switch
change_at-past enabled c f none p j past = refl
change_at-past enabled c f (some o) p j past =
    rw
      (
        if_put-past f.read c.fd j (switched c enabled (p.read_filter c.fd)) p.read_filter past,
        if_put-past f.write c.fd j (switched c enabled (p.write_filter c.fd)) p.write_filter past,
      )
      refl

add_at-past :
    (c : Channel) (f : Flags) (o : Option ℕ) (p : KqPoller) (j : ℕ)
    → (c.fd == j) ≡ false
    → row (add_at o true c f p).1 j ≡ row p j
unfolding add_at
add_at-past c f none p j past = rw past refl
add_at-past c f (some o) p j past = refl

remove_at-past :
    (c : Channel) (o : Option ℕ) (p : KqPoller) (j : ℕ)
    → (c.fd == j) ≡ false
    → row (remove_at o c p) j ≡ row p j
unfolding remove_at
remove_at-past c none p j past = refl
remove_at-past c (some o) p j past = rw past refl

call-past :
    (c : Call) (p : KqPoller) (j : ℕ)
    → ((channel_of c).fd == j) ≡ false
    → row (call c p) j ≡ row p j
unfolding call add remove change
call-past (adds c f) p j past = add_at-past c f (p.channels c.fd) p j past
call-past (removes c) p j past = remove_at-past c (p.channels c.fd) p j past
call-past (enables c f) p j past = change_at-past true c f (p.channels c.fd) p j past
call-past (disables c f) p j past = change_at-past false c f (p.channels c.fd) p j past

call-row :
    (c : Call) (p : KqPoller) (j : ℕ)
    → matches_row (row p j) ≡ true
    → (matches_row (row (call c p) j) ≡ true)
      × (interest_row (row (call c p) j) ≡ (
          if (channel_of c).fd == j
          then next_interest c (interest_row (row p j))
          else interest_row (row p j)))
call-row c p j e = elim (Bool-cases ((channel_of c).fd == j)) [
  | inl at ↦
      let same : row (call c p) j ≡ row_call c (row p j) =
        subst (λ k. row (call c p) k ≡ row_call c (row p k)) (==-≡ at) (call-here c p) in
      let (both, asks) = row_call-Keeps c (row p j) e in
      (ap matches_row same ∙ both, ap interest_row same ∙ asks ∙ rw at refl)
  | inr past ↦
      let same = call-past c p j past in
      (ap matches_row same ∙ e, ap interest_row same ∙ rw past refl)
]

pub call-IsMatched : (c : Call) (p : KqPoller) → IsMatched p → IsMatched (call c p)
call-IsMatched c p h = record { match = λ j. (call-row c p j (h.match j)).0 }

pub interest-call :
    (c : Call) (p : KqPoller) (j : ℕ)
    → IsMatched p
    → interest (call c p) j
      ≡ (if (channel_of c).fd == j then next_interest c (interest p j) else interest p j)
unfolding interest
interest-call c p j h = (call-row c p j (h.match j)).1

pub new_poller-IsMatched : IsMatched new_poller
unfolding new_poller
new_poller-IsMatched = record { match = λ j. refl }

pub interest-new_poller : (j : ℕ) → interest new_poller j ≡ none
unfolding interest new_poller asked
interest-new_poller j = refl
