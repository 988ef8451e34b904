-- ===== src/Any/History.antt =====
-- That the objects of src/net/any.h behave as values, over any calls.
use mathlib.Core.Option.{some-injective}
use hwnet.Prelude.{◌≡◌, refl, sym, ◌∙◌, subst, true, [], none, some, arith}
use hwnet.Any.{World, Call, run_call}
use hwnet.Any.Vars.{users}
use hwnet.Any.Values.{Vals, replay, may, casts, IsWorld}
use hwnet.Any.Refines.{run_call-Refines}

-- No objects, and no memory in use.
unfoldable pub new_world : World
new_world = record { vars = []; heap = record { contents = λ a. none; counts = λ a. none } }

-- The calls that were made, and the values after them.
pub data History : World → Vals → Type 0 where
  start : History new_world []
  called :
      {w w' : World} {xs xs' : Vals} (c : Call)
      → History w xs
      → may c w ≡ true
      → replay c xs ≡ some xs'
      → run_call c w ≡ some w'
      → History w' xs'

new_world-IsWorld : IsWorld new_world []
unfolding new_world casts users
new_world-IsWorld = record {
  fits = record { counted = λ a. refl; held = λ a. ground arith };
  paired = tt;
  values = refl;
}

after-IsWorld : {w : World} {xs : Vals} → History w xs → IsWorld w xs
after-IsWorld start = new_world-IsWorld
after-IsWorld (called {w} {w'} {xs} {xs'} c h ok e done) =
    let (t, done', i) = run_call-Refines c w xs xs' (after-IsWorld h) ok e in
    subst (λ v. IsWorld v xs') (some-injective t w' (sym done' ∙ done)) i

-- After any calls of the constructors, the assignment and the destructor, on objects that there are
-- and where `new` gives memory that is free: the next such call has a result, so it uses and deletes
-- only memory that is not free; any_cast of each object then gives the value that it would have if
-- nothing were shared; and a holder is there just if an object has it, its counter being their number.
pub History-IsWorld :
    {w : World} {xs xs' : Vals} (c : Call)
    → History w xs
    → may c w ≡ true
    → replay c xs ≡ some xs'
    → (w' : World) × (run_call c w ≡ some w') × IsWorld w' xs'
History-IsWorld c h ok e = run_call-Refines c _ _ _ (after-IsWorld h) ok e
