-- ===== src/Poller/Release.antt =====
-- src/net/Poller.cpp: when the loop of Run lets removed channels go, and why it is woken to do so.
use hwnet.Prelude.{
  ℕ, ◌<◌, ◌≤◌, ◌≡◌, refl, sym, ap, ◌∙◌, Bool, true, false, List, [], ◌∷◌, Option, none, some, ◌==◌,
  arith, length, length-append, Bool-cases, inl, inr,
}
use hwnet.Poller.{
  Poller, Channel, Flags, Mask, new_poller, add, add_at, remove, remove_at, enable, disable,
  change_at, control, wait, next_event, drain, grow, sweep, stop,
}

-- `in_turn` is set from the return of epoll_wait up to the end of the turn of Run.
pub record Loop : Type 0 where
  pub poller : Poller
  pub in_turn : Bool

-- What other threads do at any time, and what Run does in its turns: the pipe is read when RunOnce
-- calls OnActive of notifyChannel, and each turn ends with the test of clearWaitRemove.
pub data Step : Loop → Loop → Type 0 where
  adds :
      (l : Loop) (ok : Bool) (c : Channel) (f : Flags)
      → Step l (record l { poller = (add ok c f l.poller).1 })
  removes : (l : Loop) (c : Channel) → Step l (record l { poller = remove c l.poller })
  enables :
      (l : Loop) (ok : Bool) (c : Channel) (f : Flags)
      → Step l (record l { poller = enable ok c f l.poller })
  disables :
      (l : Loop) (ok : Bool) (c : Channel) (f : Flags)
      → Step l (record l { poller = disable ok c f l.poller })
  stops : (l : Loop) → Step l (record l { poller = stop l.poller })
  returns :
      (l : Loop) (targets : List ℕ)
      → l.in_turn ≡ false
      → Step l (record { poller = wait targets l.poller; in_turn = true })
  advances : (l : Loop) → l.in_turn ≡ true → Step l (record l { poller = next_event l.poller })
  drains : (l : Loop) → l.in_turn ≡ true → Step l (record l { poller = drain l.poller })
  grows :
      (l : Loop) (count : ℕ) (ok : Bool)
      → l.in_turn ≡ true
      → Step l (record l { poller = (grow count ok l.poller).1 })
  ends :
      (l : Loop) → l.in_turn ≡ true → Step l (record { poller = sweep l.poller; in_turn = false })

pub data Reach (l : Loop) : Loop → Type 0 where
  here : Reach l l
  next : {m n : Loop} → Reach l m → Step m n → Reach l n

-- clearWaitRemove counts waitRemove; and where no turn is under way and a channel waits, something
-- stands in the pipe.
pub record IsNotified (l : Loop) : Type 0 where
  pub counted : l.poller.clear_wait_remove ≡ length l.poller.wait_remove
  pub told : l.in_turn ≡ false → 0 < length l.poller.wait_remove → 0 < l.poller.notified

-- The two agree in what waits, and no more of the pipe was read.
record IsLike (p q : Poller) : Type 0 where
  count : q.clear_wait_remove ≡ p.clear_wait_remove
  wait_remove : q.wait_remove ≡ p.wait_remove
  notified : p.notified ≤ q.notified

IsLike-IsNotified :
    (l : Loop) (q : Poller)
    → IsLike l.poller q
    → IsNotified l
    → IsNotified (record l { poller = q })
IsLike-IsNotified l q like h = record {
  counted = like.count ∙ h.counted ∙ ap length (sym like.wait_remove);
  told = λ e some_wait.
      omega (arith, like.notified, h.told e (omega (arith, some_wait, ap length like.wait_remove)));
}

control-IsLike : (ok : Bool) (c : Channel) (m : Mask) (p : Poller) → IsLike p (control ok c m p)
unfolding control
control-IsLike ok c m p = ground arith

add_at-IsLike :
    (o : Option ℕ) (ok : Bool) (c : Channel) (f : Flags) (p : Poller)
    → IsLike p (add_at o ok c f p).1
unfolding add_at control
add_at-IsLike none true c f p = ground arith
add_at-IsLike none false c f p = ground arith
add_at-IsLike (some o) ok c f p = ground arith

change_at-IsLike :
    (o : Option ℕ) (ok : Bool) (c : Channel) (m : Mask) (p : Poller)
    → IsLike p (change_at o ok c m p)
unfolding change_at
change_at-IsLike none ok c m p = ground arith
change_at-IsLike (some o) ok c m p = control-IsLike ok c m p

add-IsLike : (ok : Bool) (c : Channel) (f : Flags) (p : Poller) → IsLike p (add ok c f p).1
unfolding add
add-IsLike ok c f p = add_at-IsLike (p.channels c.fd) ok c f p

enable-IsLike : (ok : Bool) (c : Channel) (f : Flags) (p : Poller) → IsLike p (enable ok c f p)
unfolding enable
enable-IsLike ok c f p = change_at-IsLike (p.channels c.fd) ok c _ p

disable-IsLike : (ok : Bool) (c : Channel) (f : Flags) (p : Poller) → IsLike p (disable ok c f p)
unfolding disable
disable-IsLike ok c f p = change_at-IsLike (p.channels c.fd) ok c _ p

stop-IsLike : (p : Poller) → IsLike p (stop p)
unfolding stop
stop-IsLike p = ground arith

next_event-IsLike : (p : Poller) → IsLike p (next_event p)
unfolding next_event
next_event-IsLike p = ground arith

grow-IsLike : (count : ℕ) (ok : Bool) (p : Poller) → IsLike p (grow count ok p).1
unfolding grow
grow-IsLike count ok p = ground arith

remove_at-IsNotified :
    (o : Option ℕ) (l : Loop) (c : Channel)
    → IsNotified l
    → IsNotified (record l { poller = remove_at o c l.poller })
unfolding remove_at
remove_at-IsNotified none l c h = h
remove_at-IsNotified (some o) l c h = record {
  counted = omega (arith, h.counted, length-append l.poller.wait_remove (c.self ∷ []));
  told = λ e some_wait. ground (arith, h.counted, h.told e);
}

remove-IsNotified :
    (l : Loop) (c : Channel) → IsNotified l → IsNotified (record l { poller = remove c l.poller })
unfolding remove
remove-IsNotified l c h = remove_at-IsNotified (l.poller.channels c.fd) l c h

length-nil : (xs : List ℕ) → length xs ≡ 0 → xs ≡ []
length-nil [] e = refl
length-nil (x ∷ xs) e = ground arith

sweep-empty : (p : Poller) → p.clear_wait_remove ≡ length p.wait_remove → (sweep p).wait_remove ≡ []
unfolding sweep
sweep-empty p e = elim (Bool-cases (p.clear_wait_remove == 0)) [
  | inl nobody ↦ rw nobody (length-nil p.wait_remove (ground arith))
  | inr some_wait ↦ rw some_wait refl
]

sweep-counted : (p : Poller) → (sweep p).clear_wait_remove ≡ 0
unfolding sweep
sweep-counted p = ground arith

ends-IsNotified :
    (l : Loop) → IsNotified l → IsNotified (record { poller = sweep l.poller; in_turn = false })
ends-IsNotified l h =
    let gone = ap length (sweep-empty l.poller h.counted) in
    record {
      counted = omega (arith, sweep-counted l.poller, gone);
      told = λ e some_wait. absurd (omega (arith, some_wait, gone));
    }

returns-IsNotified :
    (l : Loop) (targets : List ℕ)
    → IsNotified l
    → IsNotified (record { poller = wait targets l.poller; in_turn = true })
unfolding wait
returns-IsNotified l targets h = record {
  counted = h.counted;
  told = λ e. absurd (ground (arith, e));
}

drains-IsNotified :
    (l : Loop) → l.in_turn ≡ true → IsNotified l → IsNotified (record l { poller = drain l.poller })
unfolding drain
drains-IsNotified l busy h = record {
  counted = h.counted;
  told = λ e. absurd (ground (arith, e, busy));
}

Step-IsNotified : {l m : Loop} → Step l m → IsNotified l → IsNotified m
Step-IsNotified (adds l ok c f) h = IsLike-IsNotified l _ (add-IsLike ok c f l.poller) h
Step-IsNotified (removes l c) h = remove-IsNotified l c h
Step-IsNotified (enables l ok c f) h = IsLike-IsNotified l _ (enable-IsLike ok c f l.poller) h
Step-IsNotified (disables l ok c f) h = IsLike-IsNotified l _ (disable-IsLike ok c f l.poller) h
Step-IsNotified (stops l) h = IsLike-IsNotified l _ (stop-IsLike l.poller) h
Step-IsNotified (returns l targets e) h = returns-IsNotified l targets h
Step-IsNotified (advances l e) h = IsLike-IsNotified l _ (next_event-IsLike l.poller) h
Step-IsNotified (drains l e) h = drains-IsNotified l e h
Step-IsNotified (grows l count ok e) h = IsLike-IsNotified l _ (grow-IsLike count ok l.poller) h
Step-IsNotified (ends l e) h = ends-IsNotified l h

abbrev pub start : Loop
start = record { poller = new_poller; in_turn = false }

start-IsNotified : IsNotified start
unfolding new_poller
start-IsNotified = record {
  counted = refl;
  told = λ e some_wait. absurd (omega (arith, some_wait));
}

after-IsNotified : {l : Loop} → Reach start l → IsNotified l
after-IsNotified here = start-IsNotified
after-IsNotified (next r x) = Step-IsNotified x (after-IsNotified r)

-- From Init on, however Add, Remove, Enable, Disable and Stop fall between the steps of the turns of
-- Run: while no turn is under way and a removed channel waits in waitRemove, something that notify
-- wrote stands unread in the pipe; and the end of a turn lets all of them go.
pub Reach-IsNotified :
    {l : Loop} → Reach start l → IsNotified l × ((sweep l.poller).wait_remove ≡ [])
Reach-IsNotified {l} r = let h = after-IsNotified r in (h, sweep-empty l.poller h.counted)
