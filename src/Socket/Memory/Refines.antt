-- ===== src/Socket/Memory/Refines.antt =====
-- That the lists of src/net/TCPSocket.h in memory are the lists of SendList.
use mathlib.Core.Option.{some-injective}
use hwnet.Prelude.{
  ℕ, ◌≡◌, refl, sym, ◌∙◌, subst, true, List, [], ◌∷◌, ◌++◌, some, ==_refl, arith, append-nil,
}
use hwnet.Socket.Memory.{
  Store, Call, sends, swaps, pops, restores, clears, cuts, cut, run_call, new_store, cut_at,
}
use hwnet.Socket.Memory.Linked.{
  copies, IsList, contents, contents-frame, IsList-frame, put-Same, copies-head, with_content,
  Linked-with_content, IsList-with_content,
}
use hwnet.Socket.Memory.Nodes.{IsOwned}
use hwnet.Socket.Memory.Lists.{add_front_at-IsList, clear_at-IsFreed}
use hwnet.Socket.Memory.Calls.{
  Lists, cut_front, replay, may, IsStore, Refines, contents-append, add_front-append, swaps-Refines,
  sends-Refines, owned_once, spare_first, pops-at,
}

restores-Refines : (s : Store) (ls : Lists) → IsStore s ls → Refines restores s ls
unfolding run_call replay contents
restores-Refines s ls i =
    let (l, o, w, done, is, is', k) =
      add_front_at-IsList s.current s.spare s.memory i.xs i.ys i.free i.current i.spare i.owned in
    let h = s.memory.nodes in
    (
      record { memory = w; current = l; spare = o },
      rw done refl,
      record {
        xs = i.ys ++ i.xs;
        ys = [];
        free = i.free;
        current = is;
        spare = is';
        owned = rw (append-nil (i.ys ++ i.xs)) (spare_first w i.xs i.ys i.free k.owned);
        current_holds =
            k.kept (i.ys ++ i.xs)
            ∙ contents-append h i.ys i.xs
            ∙ rw (i.current_holds, i.spare_holds) (sym (add_front-append ls.0 ls.1));
        spare_holds = refl;
      },
    )

clears-Refines : (s : Store) (ls : Lists) → IsStore s ls → Refines clears s ls
unfolding run_call replay contents
clears-Refines s ls i =
    let h = s.memory.nodes in
    let (l, m, done, is, f) =
      clear_at-IsFreed s.current s.memory i.xs i.ys i.free i.current i.owned in
    let spare = IsList-frame i.ys s.spare h m.nodes f.same i.spare in
    let (o, w, done', is', g) =
      clear_at-IsFreed s.spare m i.ys [] f.free spare (rw (append-nil i.ys) f.owned) in
    (
      record { memory = w; current = l; spare = o },
      rw (done, done') refl,
      record {
        xs = [];
        ys = [];
        free = g.free;
        current = record { chain = is.chain; end = is.end };
        spare = is';
        owned = g.owned;
        current_holds = refl;
        spare_holds = refl;
      },
    )

cuts-at :
    (n : ℕ) (s : Store) (ls : Lists) (xs ys free : List ℕ)
    → IsList s.memory.nodes s.current xs
    → IsList s.memory.nodes s.spare ys
    → IsOwned s.memory (xs ++ ys) free
    → contents s.memory.nodes xs ≡ ls.0
    → contents s.memory.nodes ys ≡ ls.1
    → Refines (cuts n) s ls
unfolding run_call replay contents cut_front cut_at copies
cuts-at n s ls xs [] free is is' i e e' = (
  s,
  rw is'.chain refl,
  record {
    xs = xs;
    ys = [];
    free = free;
    current = is;
    spare = is';
    owned = i;
    current_holds = e;
    spare_holds = rw (sym e') refl;
  },
)
cuts-at n s ls xs (y ∷ ys) free is is' i e e' =
    let m = s.memory in
    let h = m.nodes in
    let c = cut n (h y).content in
    let g = with_content y c h in
    let out : (copies y xs ≡ 0) × (copies y ys ≡ 0) =
      ground (arith, owned_once y m xs (y ∷ ys) free i, copies-head y ys) in
    (
      record s { memory = record m { nodes = g } },
      rw is'.chain.0 refl,
      record {
        xs = xs;
        ys = y ∷ ys;
        free = free;
        current = IsList-with_content xs s.current y c h is;
        spare = IsList-with_content (y ∷ ys) s.spare y c h is';
        owned = record {
          pool = Linked-with_content free m.pool_head y c h i.pool;
          own = i.own;
          room = i.room;
        };
        current_holds = contents-frame xs h g (put-Same xs y _ h out.0) ∙ e;
        spare_holds = rw (sym e', ==_refl y, contents-frame ys h g (put-Same ys y _ h out.1)) refl;
      },
    )

run_call-Refines :
    (c : Call) (s : Store) (ls : Lists) → may c s ≡ true → IsStore s ls → Refines c s ls
unfolding may
run_call-Refines (sends buff len fresh) s ls ok i =
    sends-Refines buff len fresh s ls (ground (arith, ok)) i
run_call-Refines swaps s ls ok i = swaps-Refines s ls i
run_call-Refines pops s ls ok i =
    pops-at s ls i.xs i.ys i.free i.current i.spare i.owned i.current_holds i.spare_holds
run_call-Refines (cuts n) s ls ok i =
    cuts-at n s ls i.xs i.ys i.free i.current i.spare i.owned i.current_holds i.spare_holds
run_call-Refines restores s ls ok i = restores-Refines s ls i
run_call-Refines clears s ls ok i = clears-Refines s ls i

-- The calls that were made, and what they make of the lists, the memory being that of the code.
pub data History : Store → Lists → Type 0 where
  fresh : History new_store ([], [])
  called :
      {s s' : Store} {ls : Lists} (c : Call)
      → History s ls
      → may c s ≡ true
      → run_call c s ≡ some s'
      → History s' (replay c ls)

new_store-IsStore : IsStore new_store ([], [])
unfolding new_store contents copies
new_store-IsStore = record {
  xs = [];
  ys = [];
  free = [];
  current = record { chain = refl; end = refl };
  spare = record { chain = refl; end = refl };
  owned = record { pool = refl; own = λ a. omega arith; room = omega arith };
  current_holds = refl;
  spare_holds = refl;
}

History-IsStore : {s : Store} {ls : Lists} → History s ls → IsStore s ls
History-IsStore fresh = new_store-IsStore
History-IsStore (called {s} {s'} {ls} c h ok done) =
    let (t, done', i) = run_call-Refines c s ls ok (History-IsStore h) in
    subst (λ u. IsStore u (replay c ls)) (some-injective t s' (sym done' ∙ done)) i

-- After any calls from two empty lists and an empty pool on, where malloc gives no address twice: the
-- next call has a result, so no null pointer is followed and the loop of clear ends; and the memory
-- holds the lists that the calls make by the definitions of SendList, in contexts that are each in one
-- place only, none of them in the pool.
pub History-Refines :
    {s : Store} {ls : Lists} (c : Call)
    → History s ls
    → may c s ≡ true
    → (s' : Store) × (run_call c s ≡ some s') × IsStore s' (replay c ls)
History-Refines c h ok = run_call-Refines c _ _ ok (History-IsStore h)
