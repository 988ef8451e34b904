-- ===== src/Poller/Pools.antt =====
-- Poller::Init and ~Poller of src/net/Poller.h and src/net/Poller.cpp: which thread pools they make
-- and delete. What the kernel answers, and where `new` puts a pool, are arguments.
use hwnet.Prelude.{
  ◌>>=◌, ℕ, ◌≡◌, refl, Bool, true, false, not, ◌&&◌, ◌||◌, List, [], ◌∷◌, Option, none, some, map,
  ==_refl, ◌==◌, if◌then◌else◌,
}

-- `inited`, pool_ and poolCreateByNew, and the pools that were made and not deleted. For the last two
-- members the outer `none` is a member that was never set.
pub record Owner : Type 0 where
  pub inited : Bool
  pub pool : Option (Option ℕ)
  pub create_by_new : Option Bool
  pub pools : List ℕ

-- Poller()
unfoldable pub new_owner : Owner
new_owner = record { inited = false; pool = none; create_by_new = none; pools = [] }

-- delete; `none` is a pool that is not there.
unfoldable pub delete : ℕ → List ℕ → Option (List ℕ)
delete p [] = none
delete p (q ∷ qs) =
    let later : Option (List ℕ) = do rest ← delete p qs; some (q ∷ rest)
    in if q == p then some qs else later

-- What Init is called with, what `new` gives, and whether poller_.Init and the pipe come to be.
pub record Setup : Type 0 where
  pub given : Option ℕ
  pub fresh : ℕ
  pub poller_ok : Bool
  pub pipe_ok : Bool

-- `if(poolCreateByNew_) delete pool`
unfoldable pub give_up : Option ℕ → ℕ → Owner → Option Owner
unfolding delete
give_up none pool o = do qs ← delete pool o.pools; some (record o { pools = qs })
give_up (some p) pool o = some o

abbrev is_none : Option ℕ → Bool
is_none none = true
is_none (some p) = false

-- Init with its pool, after the test of `inited`.
unfoldable pub init_pool : Setup → ℕ → Owner → Option (Bool × Owner)
unfolding give_up
init_pool s pool o =
    let failed : Option (Bool × Owner) = do
      o' ← give_up s.given pool o
      some (false, record o' { pool = some none; inited = true })
    in if not s.poller_ok || not s.pipe_ok
      then failed
      else some (
        true,
        record o { pool = some (some pool); create_by_new = some (is_none s.given); inited = true },
      )

unfoldable pub made_pool : Option ℕ → ℕ → Owner → ℕ × Owner
made_pool none fresh o = (fresh, record o { pools = fresh ∷ o.pools })
made_pool (some p) fresh o = (p, o)

-- Init
unfoldable pub init : Setup → Owner → Option (Bool × Owner)
unfolding made_pool give_up init_pool
init s o =
    let (pool, o') = made_pool s.given s.fresh o in
    let again : Option (Bool × Owner) = do o'' ← give_up s.given pool o'; some (false, o'')
    in if o'.inited then again else init_pool s pool o'

-- ~Poller; `none` is a read of a member that was never set, or a pool that is not there.
unfoldable pub destroy_at : Option Bool → Option (Option ℕ) → Owner → Option Owner
unfolding delete
destroy_at none pool o = none
destroy_at (some false) pool o = some o
destroy_at (some true) none o = none
destroy_at (some true) (some none) o = some o
destroy_at (some true) (some (some p)) o = do qs ← delete p o.pools; some (record o { pools = qs })

unfoldable pub destroy : Owner → Option Owner
unfolding destroy_at
destroy o = destroy_at o.create_by_new o.pool o

-- Calls of Init one after the other, with their answers.
unfoldable pub inits : List Setup → Owner → Option (List Bool × Owner)
unfolding init
inits [] o = some ([], o)
inits (s ∷ ss) o = do
  (answer, o') ← init s o
  (answers, o'') ← inits ss o'
  some (answer ∷ answers, o'')

abbrev pub is_ok : Setup → Bool
is_ok s = s.poller_ok && s.pipe_ok

abbrev pub all_false : List Setup → List Bool
all_false ss = map (λ s. false) ss

delete_made : (p : ℕ) (qs : List ℕ) → delete p (p ∷ qs) ≡ some qs
unfolding delete
delete_made p qs = rw (==_refl p) refl

-- Init where one was called before: its pool goes, and nothing changes.
init_again :
    (given : Option ℕ) (s : Setup) (o : Owner)
    → o.inited ≡ true
    → init (record s { given = given }) o ≡ some (false, o)
unfolding init made_pool give_up
init_again none s o e = rw (delete_made s.fresh o.pools, e) refl
init_again (some p) s o e = rw e refl

inits_again : (ss : List Setup) (o : Owner) → o.inited ≡ true → inits ss o ≡ some (all_false ss, o)
unfolding inits
inits_again [] o e = refl
inits_again (s ∷ ss) o e = rw (init_again s.given s o e, inits_again ss o e) refl

-- The pools that are left in the end.
abbrev pub pools_left : Owner → Option (List ℕ)
pools_left o = destroy o >>= λ o'. some o'.pools

-- What the first Init comes to.
IsFirst : Setup → Owner → Type 0
IsFirst s o =
    (init s new_owner ≡ some (is_ok s, o))
    × (o.inited ≡ true)
    × (pools_left o ≡ (if is_ok s then some [] else none))
    × ((if is_ok s then [] else o.pools) ≡ [])

abbrev failed_owner : Owner
failed_owner = record { inited = true; pool = some none; create_by_new = none; pools = [] }

abbrev owner : ℕ → Bool → List ℕ → Owner
owner p by_new qs = record {
  inited = true;
  pool = some (some p);
  create_by_new = some by_new;
  pools = qs;
}

all-IsFirst :
    (given : Option ℕ) (a b : Bool) (s : Setup)
    → (o : Owner) × IsFirst (record s { given = given; poller_ok = a; pipe_ok = b }) o
unfolding IsFirst init made_pool give_up init_pool new_owner destroy destroy_at
all-IsFirst none true true s =
    (owner s.fresh true (s.fresh ∷ []), (refl, refl, rw (delete_made s.fresh []) refl, refl))
all-IsFirst (some p) true true s = (owner p false [], (refl, refl, refl, refl))
all-IsFirst none true false s = (failed_owner, (rw (delete_made s.fresh []) refl, refl, refl, refl))
all-IsFirst (some p) true false s = (failed_owner, (refl, refl, refl, refl))
all-IsFirst none false b s = (failed_owner, (rw (delete_made s.fresh []) refl, refl, refl, refl))
all-IsFirst (some p) false b s = (failed_owner, (refl, refl, refl, refl))

-- However often Init is called, with a pool or without: only the first call can succeed, also when it
-- failed. If it succeeded, the destructor leaves no pool that Init made, and deletes none twice; if not,
-- no such pool is left before, but the destructor reads a member that was never set.
pub inits-destroy :
    (s : Setup) (ss : List Setup)
    → (o : Owner) × (inits (s ∷ ss) new_owner ≡ some (is_ok s ∷ all_false ss, o))
      × (pools_left o ≡ (if is_ok s then some [] else none))
      × ((if is_ok s then [] else o.pools) ≡ [])
unfolding inits IsFirst
inits-destroy s ss =
    let (o, (first, inited, left, gone)) = all-IsFirst s.given s.poller_ok s.pipe_ok s in
    (o, rw (first, inits_again ss o inited) refl, left, gone)
