-- ===== src/Poller/Lifetime.antt =====
-- src/net/Poller.cpp and src/net/linux/Epoll.cpp: the kernel and the batch of RunOnce hold plain
-- addresses of channels; what keeps those channels alive.
use mathlib.Core.Bool.{true≢false}
use hwnet.Prelude.{
  ℕ, ◌≡◌, inl, inr, refl, sym, ap, ◌∙◌, Bool, true, List, [], ◌∷◌, some, ◌==◌, arith, length,
  Bool-cases,
}
use hwnet.Poller.{
  Poller, Channel, Flags, Armed, new_poller, rest_of, add, remove, enable, disable, wait,
  next_event, drain, grow, sweep, stop, run_begin, run_test,
}
use hwnet.Poller.Kept.{
  has, IsOwner, IsAlive, none-apart, remove_at-IsAlive, add_at-IsAlive, change_at-IsAlive,
}

-- What other threads do, and the turns of Run. epoll_wait reports what is armed, and comes after
-- the batch before it is done and swept.
pub data Step : Poller → Poller → Type 0 where
  adds : (p : Poller) (ok : Bool) (c : Channel) (f : Flags) → Step p (add ok c f p).1
  removes : (p : Poller) (c : Channel) → IsOwner p c → Step p (remove c p)
  enables :
      (p : Poller) (ok : Bool) (c : Channel) (f : Flags) → IsOwner p c → Step p (enable ok c f p)
  disables :
      (p : Poller) (ok : Bool) (c : Channel) (f : Flags) → IsOwner p c → Step p (disable ok c f p)
  waits :
      (p : Poller) (targets : List ℕ)
      → p.batch ≡ []
      → ((c : ℕ)
          → has c targets ≡ true
          → (fd : ℕ) × (a : Armed) × (p.armed fd ≡ some a) × (a.target ≡ c))
      → Step p (wait targets p)
  advances : (p : Poller) → Step p (next_event p)
  drains : (p : Poller) → Step p (drain p)
  grows : (p : Poller) (count : ℕ) (ok : Bool) → p.batch ≡ [] → Step p (grow count ok p).1
  sweeps : (p : Poller) → p.batch ≡ [] → Step p (sweep p)
  stops : (p : Poller) → Step p (stop p)
  begins : (p : Poller) → Step p (run_begin p).1
  tests : (p : Poller) (ok : Bool) → Step p (run_test ok p).1

pub data Reach (p : Poller) : Poller → Type 0 where
  here : Reach p p
  next : {q r : Poller} → Reach p q → Step q r → Reach p r

has-rest_of : (c : ℕ) (cs : List ℕ) → has c (rest_of cs) ≡ true → has c cs ≡ true
unfolding rest_of
has-rest_of c [] k = k
has-rest_of c (d ∷ ds) k = ground arith

next_event-IsAlive : (p : Poller) → IsAlive p → IsAlive (next_event p)
unfolding next_event
next_event-IsAlive p h = record {
  table = h.table;
  kept = λ c k. h.kept c (has-rest_of c p.batch k);
  counted = h.counted;
}

wait-IsAlive :
    (targets : List ℕ) (p : Poller)
    → ((c : ℕ)
        → has c targets ≡ true
        → (fd : ℕ) × (a : Armed) × (p.armed fd ≡ some a) × (a.target ≡ c))
    → IsAlive p
    → IsAlive (wait targets p)
unfolding wait
wait-IsAlive targets p reported h = record {
  table = h.table;
  kept = λ c k. let (fd, a, q, same) = reported c k in inl (fd, h.table fd a q ∙ ap some same);
  counted = h.counted;
}

sweep-IsAlive : (p : Poller) → p.batch ≡ [] → IsAlive p → IsAlive (sweep p)
unfolding sweep
sweep-IsAlive p e h = elim (Bool-cases (p.clear_wait_remove == 0)) [
  | inl nobody ↦ rw (sweep, nobody) h
  | inr some_wait ↦
      rw (sweep, some_wait)
        (record {
          table = h.table;
          kept = λ c k. absurd (true≢false (sym k ∙ ap (has c) e));
          counted = refl;
        })
]

-- The two agree in the fields that the invariant is about.
record IsLike (p q : Poller) : Type 0 where
  channels : q.channels ≡ p.channels
  wait_remove : q.wait_remove ≡ p.wait_remove
  count : q.clear_wait_remove ≡ p.clear_wait_remove
  armed : q.armed ≡ p.armed
  batch : q.batch ≡ p.batch

IsLike-IsAlive : (p q : Poller) → IsLike p q → IsAlive p → IsAlive q
IsLike-IsAlive p q l h = record {
  table = λ fd a e. ap (λ f. f fd) l.channels ∙ h.table fd a (sym (ap (λ f. f fd) l.armed) ∙ e);
  kept = λ c k. elim (h.kept c (sym (ap (has c) l.batch) ∙ k)) [
    | inl (fd, e) ↦ inl (fd, ap (λ f. f fd) l.channels ∙ e)
    | inr w ↦ inr (ap (has c) l.wait_remove ∙ w)
  ];
  counted = l.count ∙ h.counted ∙ sym (ap length l.wait_remove);
}

grow-IsLike : (count : ℕ) (ok : Bool) (p : Poller) → IsLike p (grow count ok p).1
unfolding grow
grow-IsLike count ok p = ground arith

drain-IsLike : (p : Poller) → IsLike p (drain p)
unfolding drain
drain-IsLike p = ground arith

stop-IsLike : (p : Poller) → IsLike p (stop p)
unfolding stop
stop-IsLike p = ground arith

run_begin-IsLike : (p : Poller) → IsLike p (run_begin p).1
unfolding run_begin
run_begin-IsLike p = ground arith

run_test-IsLike : (ok : Bool) (p : Poller) → IsLike p (run_test ok p).1
unfolding run_test
run_test-IsLike ok p = ground arith

add-IsAlive :
    (ok : Bool) (c : Channel) (f : Flags) (p : Poller) → IsAlive p → IsAlive (add ok c f p).1
unfolding add
add-IsAlive ok c f p h = add_at-IsAlive _ ok c f p refl h

remove-IsAlive : (c : Channel) (p : Poller) → IsOwner p c → IsAlive p → IsAlive (remove c p)
unfolding remove
remove-IsAlive c p own h = remove_at-IsAlive _ c p own h

enable-IsAlive :
    (ok : Bool) (c : Channel) (f : Flags) (p : Poller)
    → IsOwner p c
    → IsAlive p
    → IsAlive (enable ok c f p)
unfolding enable
enable-IsAlive ok c f p own h = change_at-IsAlive _ ok c _ p refl own h

disable-IsAlive :
    (ok : Bool) (c : Channel) (f : Flags) (p : Poller)
    → IsOwner p c
    → IsAlive p
    → IsAlive (disable ok c f p)
unfolding disable
disable-IsAlive ok c f p own h = change_at-IsAlive _ ok c _ p refl own h

Step-IsAlive : {p q : Poller} → Step p q → IsAlive p → IsAlive q
Step-IsAlive (adds p ok c f) h = add-IsAlive ok c f p h
Step-IsAlive (removes p c own) h = remove-IsAlive c p own h
Step-IsAlive (enables p ok c f own) h = enable-IsAlive ok c f p own h
Step-IsAlive (disables p ok c f own) h = disable-IsAlive ok c f p own h
Step-IsAlive (waits p targets e reported) h = wait-IsAlive targets p reported h
Step-IsAlive (advances p) h = next_event-IsAlive p h
Step-IsAlive (drains p) h = IsLike-IsAlive p _ (drain-IsLike p) h
Step-IsAlive (grows p count ok e) h = IsLike-IsAlive p _ (grow-IsLike count ok p) h
Step-IsAlive (sweeps p e) h = sweep-IsAlive p e h
Step-IsAlive (stops p) h = IsLike-IsAlive p _ (stop-IsLike p) h
Step-IsAlive (begins p) h = IsLike-IsAlive p _ (run_begin-IsLike p) h
Step-IsAlive (tests p ok) h = IsLike-IsAlive p _ (run_test-IsLike ok p) h

-- From Init on, however Add, Remove, Enable, Disable, Stop and the turns of Run interleave, where
-- no other channel is in the table under the descriptor of the one that is removed, enabled or
-- disabled, and epoll_wait reports what is armed: each channel whose OnActive RunOnce has still to
-- call, or is calling, is in the table or in waitRemove, so it has not been destroyed; what the
-- kernel has armed is in the table; and clearWaitRemove counts waitRemove.
pub Reach-IsAlive : {p : Poller} → Reach new_poller p → IsAlive p
unfolding new_poller
Reach-IsAlive here = record {
  table = λ fd a e. absurd (none-apart refl e);
  kept = λ c k. absurd (true≢false (sym k));
  counted = refl;
}
Reach-IsAlive (next r x) = Step-IsAlive x (Reach-IsAlive r)
