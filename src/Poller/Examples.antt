-- ===== src/Poller/Examples.antt =====
-- Runs of the model of src/net/Poller.cpp.
use hwnet.Prelude.{◌>>=◌, ℕ, ◌≡◌, refl, Bool, true, false, List, [], ◌∷◌, none, some, arith}
use hwnet.Poller.{
  Poller, Channel, Flags, Armed, new_poller, add, add_at, control, add_mask, remove, remove_at,
  wait, sweep,
}
use hwnet.Poller.Kept.{IsAlive, IsOwner, has}
use hwnet.Poller.Lifetime.{Reach, next, here, adds, removes, waits, Reach-IsAlive}
use hwnet.Poller.Pools.{
  Owner, Setup, new_owner, init, made_pool, init_pool, give_up, delete, destroy, destroy_at, inits,
  pools_left, inits-destroy,
}
use hwnet.Poller.Release
use hwnet.Poller.Release.{Loop, IsNotified, start, Reach-IsNotified}

-- The channel at address 40 with descriptor 5 is added, reported, and removed while RunOnce has it.
abbrev channel : Channel
channel = record { self = 40; fd = 5 }

abbrev both : Flags
both = record { read = true; write = true; edge = true }

added : Poller
added = (add true channel both new_poller).1

reported : Poller
reported = wait (40 ∷ []) added

removed : Poller
removed = remove channel reported

forty_reported :
    (c : ℕ)
    → has c (40 ∷ []) ≡ true
    → (fd : ℕ) × (a : Armed) × (added.armed fd ≡ some a) × (a.target ≡ c)
unfolding added add add_at control new_poller
forty_reported c e = (
  5,
  record { target = 40; mask = add_mask both },
  refl,
  (let same : c ≡ 40 = ground arith in ground arith),
)

no_batch : added.batch ≡ []
unfolding added add add_at control new_poller
no_batch = refl

channel-IsOwner : IsOwner reported channel
unfolding reported wait added add add_at control new_poller
channel-IsOwner other e = ground arith

removed-Reach : Reach new_poller removed
unfolding removed reported added
removed-Reach =
    next
      (next (next here (adds new_poller true channel both))
        (waits added (40 ∷ []) no_batch forty_reported))
      (removes reported channel channel-IsOwner)

Reach-IsAlive_example : IsAlive removed
Reach-IsAlive_example = Reach-IsAlive removed-Reach

kept_while_reported : removed.wait_remove ≡ 40 ∷ []
unfolding removed remove remove_at reported wait added add add_at control new_poller
kept_while_reported = refl

-- Nobody reads the pipe while the channel, which was removed between two turns, waits.
released : Loop
released = record { poller = remove channel added; in_turn = false }

Reach-IsNotified_example : IsNotified released × ((sweep released.poller).wait_remove ≡ [])
unfolding released added
Reach-IsNotified_example = Reach-IsNotified (
    Release.next (Release.next Release.here (Release.adds start true channel both))
      (Release.removes _ channel))

one_waits : released.poller.wait_remove ≡ 40 ∷ []
unfolding released remove remove_at added add add_at control new_poller
one_waits = refl

-- Init without a pool, where the pipe fails or does not, and again.
abbrev own_pool : Bool → Setup
own_pool ok = record { given = none; fresh = 3; poller_ok = true; pipe_ok = ok }

inits-destroy_example :
    (o : Owner) × (inits (own_pool true ∷ own_pool true ∷ []) new_owner
      ≡ some (true ∷ false ∷ [], o))
    × (pools_left o ≡ some [])
    × (◌≡◌ {A = List ℕ} [] [])
inits-destroy_example = inits-destroy (own_pool true) (own_pool true ∷ [])

wild_destroy :
    (inits (own_pool false ∷ own_pool true ∷ []) new_owner >>= λ (answers, o). pools_left o) ≡ none
unfolding inits init made_pool init_pool give_up delete new_owner destroy destroy_at
wild_destroy = refl
