-- ===== src/Poller/Kept.antt =====
-- The channels that src/net/Poller.cpp keeps, and what add, remove and change do to them.
use hwnet.Prelude.{
  ==-≡, put-at, put-past, ℕ, ◌≡◌, ◌⊎◌, inl, inr, refl, sym, ap, ◌∙◌, Bool, true, false, ◌||◌, List,
  [], ◌∷◌, ◌++◌, Option, none, some, ◌==◌, arith, length, length-append, Bool-cases,
}
use hwnet.Poller.{Poller, Channel, Flags, Armed, Mask, control, add_at, remove_at, change_at}

abbrev pub has : ℕ → List ℕ → Bool
has c [] = false
has c (d ∷ ds) = c == d || has c ds

-- The poller holds a pointer that counts: the channel cannot be destroyed.
abbrev IsKept : Poller → ℕ → Type 0
IsKept p c = ((fd : ℕ) × (p.channels fd ≡ some c)) ⊎ (has c p.wait_remove ≡ true)

-- The table does not hold another channel under this one's descriptor.
abbrev pub IsOwner : Poller → Channel → Type 0
IsOwner p c = (other : ℕ) → p.channels c.fd ≡ some other → other ≡ c.self

-- Every address the kernel has was armed and is in the table, those that RunOnce goes through are
-- kept, and clearWaitRemove counts the channels that wait for their end.
pub record IsAlive (p : Poller) : Type 0 where
  pub table : (fd : ℕ) (a : Armed) → p.armed fd ≡ some a → p.channels fd ≡ some a.target
  pub kept : (c : ℕ) → has c p.batch ≡ true → IsKept p c
  pub counted : p.clear_wait_remove ≡ length p.wait_remove

has-append : (c : ℕ) (xs ys : List ℕ) → has c (xs ++ ys) ≡ (has c xs || has c ys)
has-append c [] ys = refl
has-append c (x ∷ xs) ys = let rest = has-append c xs ys in ground arith

pub none-apart {ℓ} : {A : Type ℓ} {x : A} {o : Option A} → o ≡ none → o ≡ some x → ⊥
none-apart e q = ground arith

abbrev target_of : Option Armed → Option ℕ
target_of none = none
target_of (some a) = some a.target

-- Remove keeps every channel that the poller kept, if the table has this channel under its
-- descriptor.
remove_at-IsKept :
    (o : Option ℕ) (c : Channel) (p : Poller) (d : ℕ)
    → IsOwner p c
    → IsKept p d
    → IsKept (remove_at o c p) d
unfolding remove_at
remove_at-IsKept none c p d own h = h
remove_at-IsKept (some o) c p d own (inl (fd, q)) = elim (Bool-cases (c.fd == fd)) [
  | inl same ↦ inr (
      has-append d p.wait_remove (c.self ∷ [])
      ∙ (let e : d ≡ c.self = own d (rw (==-≡ same) q) in ground arith))
  | inr past ↦ inl (fd, put-past c.fd fd none p.channels past ∙ q)
]
remove_at-IsKept (some o) c p d own (inr w) =
    inr (has-append d p.wait_remove (c.self ∷ []) ∙ rw w refl)

pub remove_at-IsAlive :
    (o : Option ℕ) (c : Channel) (p : Poller) → IsOwner p c → IsAlive p → IsAlive (remove_at o c p)
unfolding remove_at
remove_at-IsAlive none c p own h = h
remove_at-IsAlive (some o) c p own h = record {
  table = λ fd a q. elim (Bool-cases (c.fd == fd)) [
    | inl same ↦ absurd (none-apart (put-at c.fd fd none p.armed same) q)
    | inr past ↦
        put-past c.fd fd none p.channels past
        ∙ h.table fd a (sym (put-past c.fd fd none p.armed past) ∙ q)
  ];
  kept = λ d k. remove_at-IsKept (some o) c p d own (h.kept d k);
  counted = omega (arith, h.counted, length-append p.wait_remove (c.self ∷ []));
}

pub add_at-IsAlive :
    (o : Option ℕ) (ok : Bool) (c : Channel) (f : Flags) (p : Poller)
    → p.channels c.fd ≡ o
    → IsAlive p
    → IsAlive (add_at o ok c f p).1
unfolding add_at control
add_at-IsAlive (some o) ok c f p e h = h
add_at-IsAlive none false c f p e h = h
add_at-IsAlive none true c f p e h = record {
  table = λ fd a q. elim (Bool-cases (c.fd == fd)) [
    | inl same ↦
        put-at c.fd fd (some c.self) p.channels same
        ∙ ap target_of (sym (put-at c.fd fd _ p.armed same) ∙ q)
    | inr past ↦
        put-past c.fd fd (some c.self) p.channels past
        ∙ h.table fd a (sym (put-past c.fd fd _ p.armed past) ∙ q)
  ];
  kept = λ d k. elim (h.kept d k) [
    | inl (fd, q) ↦ elim (Bool-cases (c.fd == fd)) [
      | inl same ↦ absurd (none-apart e (ap p.channels (==-≡ same) ∙ q))
      | inr past ↦ inl (fd, put-past c.fd fd (some c.self) p.channels past ∙ q)
    ]
    | inr w ↦ inr w
  ];
  counted = h.counted;
}

pub change_at-IsAlive :
    (o : Option ℕ) (ok : Bool) (c : Channel) (m : Mask) (p : Poller)
    → p.channels c.fd ≡ o
    → IsOwner p c
    → IsAlive p
    → IsAlive (change_at o ok c m p)
unfolding change_at control
change_at-IsAlive none ok c m p e own h = h
change_at-IsAlive (some o) false c m p e own h = h
change_at-IsAlive (some o) true c m p e own h = record {
  table = λ fd a q. elim (Bool-cases (c.fd == fd)) [
    | inl same ↦
        ap p.channels (sym (==-≡ same))
        ∙ e
        ∙ ap some (own o e)
        ∙ ap target_of (sym (put-at c.fd fd _ p.armed same) ∙ q)
    | inr past ↦ h.table fd a (sym (put-past c.fd fd _ p.armed past) ∙ q)
  ];
  kept = h.kept;
  counted = h.counted;
}
