-- ===== src/Socket/Memory/Calls.antt =====
-- What push_back, pop_front and the swap do to the lists of src/net/TCPSocket.h in memory.
use hwnet.Prelude.{
  ℕ, ◌+◌, ◌≤◌, ◌<◌, ◌≡◌, refl, sym, ap, ◌∙◌, Bool, true, false, not, List, [], ◌∷◌, ◌++◌, some,
  arith, append-nil, length-append,
}
use hwnet.Socket.SendList.{SendContext, new_context, pop_front, push_back, add_front}
use hwnet.Socket.Memory.{
  Node, Memory, Store, get_node, Call, sends, swaps, pops, restores, clears, cuts, cut, run_call,
  pop_front_at,
}
use hwnet.Socket.Memory.Linked.{
  copies, copies-append, IsList, contents, Same, contents-frame, IsList-frame,
}
use hwnet.Socket.Memory.Nodes.{IsOwned, get_node-IsMade}
use hwnet.Socket.Memory.Lists.{IsOwned-order, push_back_at-IsList, pop_front_at-IsList}

-- The two lists as SendList has them.
abbrev pub Lists : Type 0
Lists = List SendContext × List SendContext

-- cur->ptr += n; cur->len -= n, where there is a context.
unfoldable pub cut_front : ℕ → List SendContext → List SendContext
unfolding cut
cut_front n [] = []
cut_front n (c ∷ cs) = cut n c ∷ cs

-- What each call makes of the two lists.
unfoldable pub replay : Call → Lists → Lists
unfolding cut_front
replay (sends buff len fresh) (cs, ds) = (push_back (new_context buff len) cs, ds)
replay swaps (cs, ds) = (ds, cs)
replay pops (cs, ds) = (cs, pop_front ds)
replay (cuts n) (cs, ds) = (cs, cut_front n ds)
replay restores (cs, ds) = (add_front cs ds, [])
replay clears (cs, ds) = ([], [])

-- malloc gives an address that it has not given out.
unfoldable pub may : Call → Store → Bool
may (sends buff len fresh) s = not (s.memory.allocated fresh)
may c s = true

-- The memory holds the two lists, in contexts of which none is in both, twice in one, or in the pool.
pub record IsStore (s : Store) (ls : Lists) : Type 0 where
  pub xs : List ℕ
  pub ys : List ℕ
  pub free : List ℕ
  pub current : IsList s.memory.nodes s.current xs
  pub spare : IsList s.memory.nodes s.spare ys
  pub owned : IsOwned s.memory (xs ++ ys) free
  pub current_holds : contents s.memory.nodes xs ≡ ls.0
  pub spare_holds : contents s.memory.nodes ys ≡ ls.1

-- A call has a result, which holds what the call makes of the lists.
abbrev pub Refines : Call → Store → Lists → Type 0
Refines c s ls = (s' : Store) × (run_call c s ≡ some s') × IsStore s' (replay c ls)

pub contents-append :
    (h : ℕ → Node) (xs ys : List ℕ) → contents h (xs ++ ys) ≡ contents h xs ++ contents h ys
unfolding contents
contents-append h [] ys = refl
contents-append h (x ∷ xs) ys = rw (contents-append h xs ys) refl

push_back-append : (c : SendContext) (cs : List SendContext) → push_back c cs ≡ cs ++ c ∷ []
unfolding push_back
push_back-append c [] = refl
push_back-append c (d ∷ ds) = refl

pub add_front-append : (cs ds : List SendContext) → add_front cs ds ≡ ds ++ cs
unfolding add_front
add_front-append cs [] = refl
add_front-append [] (d ∷ ds) = sym (append-nil (d ∷ ds))
add_front-append (c ∷ cs) (d ∷ ds) = refl

both : (a : ℕ) (xs ys : List ℕ) → 0 < copies a xs → 0 < copies a (xs ++ ys)
both a xs ys pos = omega (arith, pos, copies-append a xs ys)

other : (a : ℕ) (xs ys : List ℕ) → 0 < copies a ys → 0 < copies a (xs ++ ys)
other a xs ys pos = omega (arith, pos, copies-append a xs ys)

pub swaps-Refines : (s : Store) (ls : Lists) → IsStore s ls → Refines swaps s ls
unfolding run_call replay
swaps-Refines s ls i = (
  record s { current = s.spare; spare = s.current },
  refl,
  record {
    xs = i.ys;
    ys = i.xs;
    free = i.free;
    current = i.spare;
    spare = i.current;
    owned =
        IsOwned-order s.memory (i.xs ++ i.ys) (i.ys ++ i.xs) i.free
          (λ a. omega (arith, copies-append a i.xs i.ys, copies-append a i.ys i.xs))
          (omega (arith, length-append i.xs i.ys, length-append i.ys i.xs)) i.owned;
    current_holds = i.spare_holds;
    spare_holds = i.current_holds;
  },
)

pub sends-Refines :
    (buff : List ℕ) (len fresh : ℕ) (s : Store) (ls : Lists)
    → s.memory.allocated fresh ≡ false
    → IsStore s ls
    → Refines (sends buff len fresh) s ls
unfolding run_call replay contents copies
sends-Refines buff len fresh s ls new i =
    let g = get_node-IsMade buff len fresh s.memory (i.xs ++ i.ys) i.free i.owned new in
    let r = get_node buff len fresh s.memory in
    let a = r.0 in
    let m = r.1 in
    let h = s.memory.nodes in
    let here : Same i.xs h m.nodes = λ b pos. g.same b (both b i.xs i.ys pos) in
    let there : Same i.ys h m.nodes = λ b pos. g.same b (other b i.xs i.ys pos) in
    let (l, w, done, is, k) =
      push_back_at-IsList a s.current m i.xs i.ys g.free
        (IsList-frame i.xs s.current h m.nodes here i.current) g.owned (ap (λ n. n.next) g.node) in
    (
      record { memory = w; current = l; spare = s.spare },
      rw done refl,
      record {
        xs = i.xs ++ a ∷ [];
        ys = i.ys;
        free = g.free;
        current = is;
        spare =
            IsList-frame i.ys s.spare m.nodes w.nodes k.same
              (IsList-frame i.ys s.spare h m.nodes there i.spare);
        owned =
            IsOwned-order w (a ∷ i.xs ++ i.ys) ((i.xs ++ a ∷ []) ++ i.ys) g.free
              (λ b. omega (
                arith,
                copies-append b (i.xs ++ a ∷ []) i.ys,
                copies-append b i.xs (a ∷ []),
                copies-append b i.xs i.ys,
              ))
              (omega (
                arith,
                length-append (i.xs ++ a ∷ []) i.ys,
                length-append i.xs (a ∷ []),
                length-append i.xs i.ys,
              ))
              k.owned;
        current_holds =
            k.kept (i.xs ++ a ∷ [])
            ∙ contents-append m.nodes i.xs (a ∷ [])
            ∙ rw (contents-frame i.xs h m.nodes here, i.current_holds, ap (λ n. n.content) g.node)
                (sym (push_back-append (new_context buff len) ls.0));
        spare_holds = k.kept i.ys ∙ contents-frame i.ys h m.nodes there ∙ i.spare_holds;
      },
    )

pub owned_once :
    (a : ℕ) (m : Memory) (xs ys ps : List ℕ)
    → IsOwned m (xs ++ ys) ps
    → copies a xs + copies a ys ≤ 1
owned_once a m xs ys ps i = ground (arith, i.own a, copies-append a xs ys)

-- The spare list first, as pop_front and clear of it see the memory.
pub spare_first :
    (m : Memory) (xs ys ps : List ℕ) → IsOwned m (xs ++ ys) ps → IsOwned m (ys ++ xs) ps
spare_first m xs ys ps i =
    IsOwned-order m (xs ++ ys) (ys ++ xs) ps
      (λ a. omega (arith, copies-append a xs ys, copies-append a ys xs))
      (omega (arith, length-append xs ys, length-append ys xs)) i

pub pops-at :
    (s : Store) (ls : Lists) (xs ys free : List ℕ)
    → IsList s.memory.nodes s.current xs
    → IsList s.memory.nodes s.spare ys
    → IsOwned s.memory (xs ++ ys) free
    → contents s.memory.nodes xs ≡ ls.0
    → contents s.memory.nodes ys ≡ ls.1
    → Refines pops s ls
unfolding run_call replay contents pop_front pop_front_at
pops-at s ls xs [] free is is' i e e' = (
  s,
  rw is'.chain refl,
  record {
    xs = xs;
    ys = [];
    free = free;
    current = is;
    spare = is';
    owned = i;
    current_holds = e;
    spare_holds = rw (sym e') refl;
  },
)
pops-at s ls xs (y ∷ ys) free is is' i e e' =
    let (l, w, done, is2, f) =
      pop_front_at-IsList s.spare s.memory y ys xs free is'
        (spare_first s.memory xs (y ∷ ys) free i) in
    let h = s.memory.nodes in
    let here : Same xs h w.nodes = λ b pos. f.same b (other b ys xs pos) in
    let there : Same ys h w.nodes = λ b pos. f.same b (both b ys xs pos) in
    (
      record { memory = w; current = s.current; spare = l },
      rw done refl,
      record {
        xs = xs;
        ys = ys;
        free = f.free;
        current = IsList-frame xs s.current h w.nodes here is;
        spare = is2;
        owned = spare_first w ys xs f.free f.owned;
        current_holds = contents-frame xs h w.nodes here ∙ e;
        spare_holds = contents-frame ys h w.nodes there ∙ rw (sym e') refl;
      },
    )
