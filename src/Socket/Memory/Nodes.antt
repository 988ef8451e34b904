-- ===== src/Socket/Memory/Nodes.antt =====
-- What put and get of sendContextPool, src/net/TCPSocket.cpp, leave of the memory.
use hwnet.Prelude.{
  ℕ, ◌+◌, ◌≤◌, ◌≡◌, refl, sym, ap, subst, true, false, List, [], ◌∷◌, none, some, put, ==_refl,
  ==-≡, Bool-cases, inl, inr, arith, ◌==◌, ltb, length, if◌then◌else◌,
}
use hwnet.SendPool.{item_count}
use hwnet.Socket.Memory.{
  Node, Memory, destroyed, made_node, keep_node, free_node, put_node, get_at, get_node,
}
use hwnet.Socket.Memory.Linked.{copies, copies-head, Linked, Same, Linked-frame, put-Same}

-- The contexts at `zs` are in use and those at `ps` are in the pool: each once, and all of them are
-- given out by malloc.
pub record IsOwned (m : Memory) (zs ps : List ℕ) : Type 0 where
  pub pool : Linked m.nodes m.pool_head ps
  pub own : (a : ℕ) → copies a zs + copies a ps ≤ (if m.allocated a then 1 else 0)
  pub room : length zs + length ps ≤ m.made

-- The memory `w` is `m` with the contexts of `zs` as they were.
pub record IsFreed (m w : Memory) (zs : List ℕ) : Type 0 where
  pub free : List ℕ
  pub owned : IsOwned w zs free
  pub same : Same zs m.nodes w.nodes
  pub made : w.made ≡ m.made

pub own_once :
    (s : ℕ) (m : Memory) (zs ps : List ℕ)
    → IsOwned m (s ∷ zs) ps
    → (copies s zs ≡ 0) × (copies s ps ≡ 0) × (m.allocated s ≡ true)
own_once s m zs ps i = ground (arith, i.own s, copies-head s zs)

keep_node-first :
    (s : ℕ) (m : Memory) (zs : List ℕ) → IsOwned m (s ∷ zs) [] → IsFreed m (keep_node none s m) zs
unfolding keep_node copies
keep_node-first s m zs i = record {
  free = s ∷ [];
  owned = record {
    pool = (refl, rw (==_refl s) refl);
    own = λ a. omega (arith, i.own a);
    room = omega (arith, i.room);
  };
  same = put-Same zs s destroyed m.nodes (own_once s m zs [] i).0;
  made = refl;
}

keep_node-more :
    (s p : ℕ) (m : Memory) (zs ps : List ℕ)
    → IsOwned m (s ∷ zs) (p ∷ ps)
    → IsFreed m (keep_node (some p) s m) zs
unfolding keep_node copies
keep_node-more s p m zs ps i =
    let once = own_once s m zs (p ∷ ps) i in
    let past : (s == p) ≡ false = ground (arith, once.1) in
    let out : copies s ps ≡ 0 = omega (arith, once.1) in
    let kept : Node = record destroyed { next = (put s destroyed m.nodes p).next } in
    let next : (put s kept m.nodes s).next ≡ (m.nodes p).next = rw (==_refl s, past) refl in
    let rest =
      Linked-frame ps (m.nodes p).next m.nodes _ (put-Same ps s kept m.nodes out) i.pool.1 in
    record {
      free = s ∷ ps;
      owned = record {
        pool = (refl, subst (λ q. Linked (put s kept m.nodes) q ps) (sym next) rest);
        own = λ a. omega (arith, i.own a);
        room = omega (arith, i.room);
      };
      same = put-Same zs s kept m.nodes once.0;
      made = refl;
    }

keep_node-IsFreed :
    (s : ℕ) (m : Memory) (zs ps : List ℕ)
    → IsOwned m (s ∷ zs) ps
    → IsFreed m (keep_node m.pool_head s m) zs
keep_node-IsFreed s m zs [] i =
    subst (λ p. IsFreed m (keep_node p s m) zs) (sym i.pool) (keep_node-first s m zs i)
keep_node-IsFreed s m zs (p ∷ ps) i =
    subst (λ q. IsFreed m (keep_node q s m) zs) (sym i.pool.0) (keep_node-more s p m zs ps i)

free_node-IsFreed :
    (s : ℕ) (m : Memory) (zs ps : List ℕ) → IsOwned m (s ∷ zs) ps → IsFreed m (free_node s m) zs
unfolding free_node copies
free_node-IsFreed s m zs ps i =
    let once = own_once s m zs ps i in
    record {
      free = ps;
      owned = record {
        pool = Linked-frame ps _ m.nodes _ (put-Same ps s destroyed m.nodes once.1) i.pool;
        own = λ a. elim (Bool-cases (s == a)) [
          | inl e ↦ rw e (
              omega (
                arith,
                once.0,
                once.1,
                ap (λ b. copies b zs) (==-≡ e),
                ap (λ b. copies b ps) (==-≡ e),
              ))
          | inr e ↦ rw e (omega (arith, i.own a))
        ];
        room = omega (arith, i.room);
      };
      same = put-Same zs s destroyed m.nodes once.0;
      made = refl;
    }

-- A context that was in use goes to the pool, or to free() where the pool is full. The others in use
-- are as they were, and still none is in the pool.
pub put_node-IsFreed :
    (s : ℕ) (m : Memory) (zs ps : List ℕ) → IsOwned m (s ∷ zs) ps → IsFreed m (put_node s m) zs
unfolding put_node
put_node-IsFreed s m zs ps i = elim (Bool-cases (ltb m.count item_count)) [
  | inl less ↦ rw less (keep_node-IsFreed s m zs ps i)
  | inr full ↦ rw full (free_node-IsFreed s m zs ps i)
]

-- What get gave, and the memory after it: `m` with one context more in use.
pub record IsMade (buff : List ℕ) (len : ℕ) (m : Memory) (r : ℕ × Memory) (zs : List ℕ)
    : Type 0 where
  pub free : List ℕ
  pub owned : IsOwned r.1 (r.0 ∷ zs) free
  pub same : Same zs m.nodes r.1.nodes
  pub node : r.1.nodes r.0 ≡ made_node buff len

get_at-fresh :
    (buff : List ℕ) (len fresh : ℕ) (m : Memory) (zs : List ℕ)
    → IsOwned m zs []
    → m.allocated fresh ≡ false
    → IsMade buff len m (get_at none buff len fresh m) zs
unfolding get_at copies
get_at-fresh buff len fresh m zs i new =
    let out : copies fresh zs ≡ 0 = ground (arith, i.own fresh, new) in
    record {
      free = [];
      owned = record {
        pool = i.pool;
        own = λ a. elim (Bool-cases (fresh == a)) [
          | inl e ↦ rw (e, ==-≡ e, ==_refl a) (omega (arith, out, ap (λ b. copies b zs) (==-≡ e)))
          | inr e ↦ ground (arith, e, i.own a)
        ];
        room = omega (arith, i.room);
      };
      same = put-Same zs fresh (made_node buff len) m.nodes out;
      node = rw (==_refl fresh) refl;
    }

get_at-pool :
    (buff : List ℕ) (len fresh p : ℕ) (m : Memory) (zs ps : List ℕ)
    → IsOwned m zs (p ∷ ps)
    → IsMade buff len m (get_at (some p) buff len fresh m) zs
unfolding get_at copies
get_at-pool buff len fresh p m zs ps i =
    let once : (copies p zs ≡ 0) × (copies p ps ≡ 0) = ground (arith, i.own p, copies-head p ps) in
    record {
      free = ps;
      owned = record {
        pool =
            Linked-frame ps (m.nodes p).next m.nodes _
              (put-Same ps p (made_node buff len) m.nodes once.1) i.pool.1;
        own = λ a. omega (arith, i.own a);
        room = omega (arith, i.room);
      };
      same = put-Same zs p (made_node buff len) m.nodes once.0;
      node = rw (==_refl p) refl;
    }

-- What get hands out is not in use, and is a new context; the others in use are as they were.
pub get_node-IsMade :
    (buff : List ℕ) (len fresh : ℕ) (m : Memory) (zs ps : List ℕ)
    → IsOwned m zs ps
    → m.allocated fresh ≡ false
    → IsMade buff len m (get_node buff len fresh m) zs
unfolding get_node
get_node-IsMade buff len fresh m zs [] i new =
    subst (λ p. IsMade buff len m (get_at p buff len fresh m) zs) (sym i.pool)
      (get_at-fresh buff len fresh m zs i new)
get_node-IsMade buff len fresh m zs (p ∷ ps) i new =
    subst (λ q. IsMade buff len m (get_at q buff len fresh m) zs) (sym i.pool.0)
      (get_at-pool buff len fresh p m zs ps i)
