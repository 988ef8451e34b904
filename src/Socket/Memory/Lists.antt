-- ===== src/Socket/Memory/Lists.antt =====
-- What the operations of linklist, src/net/TCPSocket.h, leave of the memory.
use hwnet.Prelude.{
  ℕ, zero, suc, ◌+◌, ◌≤◌, ◌<◌, ◌≡◌, refl, sym, ◌∙◌, subst, true, false, List, [], ◌∷◌, ◌++◌, Option,
  none, some, arith, length, length-append, append-nil, if◌then◌else◌,
}
use hwnet.Socket.Memory.{
  Node, Memory, LinkList, no_list, set_next, put_node, push_back_at, pop_front_at, add_front_at,
  clear_loop, clear_at,
}
use hwnet.Socket.Memory.Linked.{
  copies, copies-append, Linked, last, IsList, contents, Same, Linked-frame, put-Same, last-found,
  last-copies, last-append, with_next, contents-with_next, Linked-splice,
}
use hwnet.Socket.Memory.Nodes.{IsOwned, IsFreed, put_node-IsFreed}

-- The same contexts are in use, in another order.
pub IsOwned-order :
    (m : Memory) (zs zs' ps : List ℕ)
    → ((a : ℕ) → copies a zs' ≡ copies a zs)
    → length zs' ≡ length zs
    → IsOwned m zs ps
    → IsOwned m zs' ps
IsOwned-order m zs zs' ps order size i = record {
  pool = i.pool;
  own = λ a. omega (arith, i.own a, order a);
  room = omega (arith, i.room, size);
}

-- The memory `w` is `m` with other links between the contexts of `zs`, but none of those in `rest`.
pub record IsRelinked (m w : Memory) (zs ps rest : List ℕ) : Type 0 where
  pub owned : IsOwned w zs ps
  pub same : Same rest m.nodes w.nodes
  pub kept : (xs : List ℕ) → contents w.nodes xs ≡ contents m.nodes xs

abbrev relinked : ℕ → Option ℕ → Memory → Memory
relinked t q m = record m { nodes = with_next t q m.nodes }

pub unchanged-IsRelinked :
    (m : Memory) (zs ps rest : List ℕ) → IsOwned m zs ps → IsRelinked m m zs ps rest
unchanged-IsRelinked m zs ps rest i = record { owned = i; same = λ a pos. refl; kept = λ xs. refl }

-- A chain is put behind another one, of `x ∷ xs`; all are contexts in use.
module _ (m : Memory) (x : ℕ) (xs ys zs ps rest : List ℕ) (p q : Option ℕ) (t : ℕ)
    (i : IsOwned m zs ps) (front : Linked m.nodes p (x ∷ xs)) (end : last (x ∷ xs) ≡ some t)
    (back : Linked m.nodes q ys)
    (all : (a : ℕ) → copies a (x ∷ xs) + (copies a ys + copies a rest) ≡ copies a zs) where
  owned_once : (a : ℕ) → copies a zs + copies a ps ≤ 1
  owned_once a =
      elim (m.allocated a)
          as (λ b.
            copies a zs + copies a ps ≤ (if b then 1 else 0) → copies a zs + copies a ps ≤ 1) [
              | true ↦ λ h. h
              | false ↦ λ h. omega (arith, h)
            ]
        (i.own a)

  pub relinked-Linked : Linked (with_next t q m.nodes) p ((x ∷ xs) ++ ys)
  relinked-Linked =
      Linked-splice x xs ys p q t m.nodes front end (λ a. omega (arith, owned_once a, all a)) back

  pub relinked-IsRelinked : IsRelinked m (relinked t q m) zs ps rest
  relinked-IsRelinked =
      let there = last-copies t x xs end in
      let n : Node = record (m.nodes t) { next = q } in
      record {
        owned = record {
          pool =
              Linked-frame ps m.pool_head m.nodes _
                (put-Same ps t n m.nodes (omega (arith, owned_once t, all t, there))) i.pool;
          own = i.own;
          room = i.room;
        };
        same = put-Same rest t n m.nodes (omega (arith, owned_once t, all t, there));
        kept = λ vs. contents-with_next vs t q m.nodes;
      }

-- push_back of a context that is in use and in no list: the list ends with it.
pub push_back_at-IsList :
    (a : ℕ) (l : LinkList) (m : Memory) (xs ys ps : List ℕ)
    → IsList m.nodes l xs
    → IsOwned m (a ∷ xs ++ ys) ps
    → (m.nodes a).next ≡ none
    → (l' : LinkList) × (w : Memory) × (push_back_at l.head a l m ≡ some (l', w))
      × IsList w.nodes l' (xs ++ a ∷ [])
      × IsRelinked m w (a ∷ xs ++ ys) ps ys
unfolding push_back_at set_next copies
push_back_at-IsList a l m [] ys ps is i single = (
  record { head = some a; tail = some a },
  m,
  rw is.chain refl,
  record { chain = (refl, single); end = refl },
  unchanged-IsRelinked m (a ∷ ys) ps ys i,
)
push_back_at-IsList a l m (x ∷ xs) ys ps is i single =
    let (t, found) = last-found x xs in
    let all : (b : ℕ)
        → copies b (x ∷ xs) + (copies b (a ∷ []) + copies b ys) ≡ copies b (a ∷ (x ∷ xs) ++ ys) =
      λ b. omega (arith, copies-append b xs ys) in
    let back : Linked m.nodes (some a) (a ∷ []) = (refl, single) in
    (
      record l { tail = some a },
      relinked t (some a) m,
      rw (is.chain.0, is.end, found) refl,
      record {
        chain =
            relinked-Linked m x xs (a ∷ []) (a ∷ (x ∷ xs) ++ ys) ps ys l.head (some a) t i is.chain
              found back all;
        end = sym (last-append x xs a []);
      },
      relinked-IsRelinked m x xs (a ∷ []) (a ∷ (x ∷ xs) ++ ys) ps ys l.head (some a) t i is.chain
          found back all,
    )

-- add_front: the contexts of the other list come before those of this one, and it is empty.
pub add_front_at-IsList :
    (l o : LinkList) (m : Memory) (xs ys ps : List ℕ)
    → IsList m.nodes l xs
    → IsList m.nodes o ys
    → IsOwned m (xs ++ ys) ps
    → (l' o' : LinkList) × (w : Memory) × (add_front_at l.head o.head l o m ≡ some (l', o', w))
      × IsList w.nodes l' (ys ++ xs)
      × IsList w.nodes o' []
      × IsRelinked m w (xs ++ ys) ps []
unfolding add_front_at set_next copies
add_front_at-IsList l o m xs [] ps is is' i =
    (l, o, m, rw is'.chain refl, is, is', unchanged-IsRelinked m (xs ++ []) ps [] i)
add_front_at-IsList l o m [] (y ∷ ys) ps is is' i = (
  o,
  no_list,
  m,
  rw (is.chain, is'.chain.0) refl,
  subst (IsList m.nodes o) (sym (append-nil (y ∷ ys))) is',
  record { chain = refl; end = refl },
  unchanged-IsRelinked m (y ∷ ys) ps [] i,
)
add_front_at-IsList l o m (x ∷ xs) (y ∷ ys) ps is is' i =
    let (t, found) = last-found y ys in
    let all : (b : ℕ)
        → copies b (y ∷ ys) + (copies b (x ∷ xs) + copies b []) ≡ copies b ((x ∷ xs) ++ y ∷ ys) =
      λ b. omega (arith, copies-append b xs (y ∷ ys)) in
    (
      record l { head = o.head },
      no_list,
      relinked t l.head m,
      rw (is.chain.0, is'.chain.0, is'.end, found) refl,
      record {
        chain =
            relinked-Linked m y ys (x ∷ xs) ((x ∷ xs) ++ y ∷ ys) ps [] o.head l.head t i is'.chain
              found is.chain all;
        end = is.end ∙ sym (last-append y ys x xs);
      },
      record { chain = refl; end = refl },
      relinked-IsRelinked m y ys (x ∷ xs) ((x ∷ xs) ++ y ∷ ys) ps [] o.head l.head t i is'.chain
          found is.chain all,
    )

pop_front_at-next :
    (l : LinkList) (m : Memory) (x : ℕ) (xs : List ℕ)
    → IsList m.nodes l (x ∷ xs)
    → pop_front_at l.head l m ≡ (record { head = (m.nodes x).next; tail = last xs }, put_node x m)
unfolding pop_front_at
pop_front_at-next l m x [] is = rw (is.chain.0, is.chain.1) refl
pop_front_at-next l m x (y ∷ ys) is = rw (is.chain.0, is.chain.1.0, is.end) refl

-- pop_front takes the first context off and gives it to the pool.
pub pop_front_at-IsList :
    (l : LinkList) (m : Memory) (x : ℕ) (xs ys ps : List ℕ)
    → IsList m.nodes l (x ∷ xs)
    → IsOwned m (x ∷ xs ++ ys) ps
    → (l' : LinkList) × (w : Memory) × (pop_front_at l.head l m ≡ (l', w))
      × IsList w.nodes l' xs
      × IsFreed m w (xs ++ ys)
unfolding pop_front_at copies
pop_front_at-IsList l m x xs ys ps is i =
    let f = put_node-IsFreed x m (xs ++ ys) ps i in
    let same : Same xs m.nodes (put_node x m).nodes =
      λ a pos. f.same a (omega (arith, pos, copies-append a xs ys)) in
    (
      record { head = (m.nodes x).next; tail = last xs },
      put_node x m,
      pop_front_at-next l m x xs is,
      record { chain = Linked-frame xs (m.nodes x).next m.nodes _ same is.chain.1; end = refl },
      f,
    )

-- The loop of clear ends once its fuel exceeds the length of the chain, and gives every context of
-- the chain to the pool.
pub clear_loop-IsFreed :
    (k : ℕ) (p : Option ℕ) (m : Memory) (xs ys ps : List ℕ)
    → length xs < k
    → Linked m.nodes p xs
    → IsOwned m (xs ++ ys) ps
    → (w : Memory) × (clear_loop k p m ≡ some w) × IsFreed m w ys
unfolding clear_loop copies
clear_loop-IsFreed zero p m xs ys ps fuel e i = absurd (omega (arith, fuel))
clear_loop-IsFreed (suc k) p m [] ys ps fuel e i =
    (m, rw e refl, record { free = ps; owned = i; same = λ a pos. refl; made = refl })
clear_loop-IsFreed (suc k) p m (x ∷ xs) ys ps fuel (e, rest) i =
    let f = put_node-IsFreed x m (xs ++ ys) ps i in
    let same : Same xs m.nodes (put_node x m).nodes =
      λ a pos. f.same a (omega (arith, pos, copies-append a xs ys)) in
    let (w, done, g) =
      clear_loop-IsFreed k (m.nodes x).next (put_node x m) xs ys f.free (omega (arith, fuel))
        (Linked-frame xs (m.nodes x).next m.nodes _ same rest) f.owned in
    (
      w,
      rw e done,
      record {
        free = g.free;
        owned = g.owned;
        same = λ a pos. g.same a pos ∙ f.same a (omega (arith, pos, copies-append a xs ys));
        made = g.made ∙ f.made;
      },
    )

-- clear empties the list.
pub clear_at-IsFreed :
    (l : LinkList) (m : Memory) (xs ys ps : List ℕ)
    → IsList m.nodes l xs
    → IsOwned m (xs ++ ys) ps
    → (l' : LinkList) × (w : Memory) × (clear_at l.head l m ≡ some (l', w))
      × IsList w.nodes l' []
      × IsFreed m w ys
unfolding clear_at
clear_at-IsFreed l m [] ys ps is i =
    (l, m, rw is.chain refl, is, record { free = ps; owned = i; same = λ a pos. refl; made = refl })
clear_at-IsFreed l m (x ∷ xs) ys ps is i =
    let long : length (x ∷ xs) < suc m.made = omega (arith, i.room, length-append (x ∷ xs) ys) in
    let (w, done, f) = clear_loop-IsFreed (suc m.made) l.head m (x ∷ xs) ys ps long is.chain i in
    let done' = subst (λ p. clear_loop (suc m.made) p m ≡ some w) is.chain.0 done in
    (no_list, w, rw (is.chain.0, done') refl, record { chain = refl; end = refl }, f)
