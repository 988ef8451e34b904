-- ===== src/Redis/Examples.antt =====
-- Runs of the model of src/redis/RedisCli.cpp.
use hwnet.Prelude.{◌≡◌, refl, true, [], ◌∷◌, none, some}
use hwnet.Redis.{new_conn, command, callback_front}
use hwnet.Redis.Pairing.{
  System, Reach, next, here, commanded, skipped, answered, start, answering-callback_front,
}

-- A command without a callback and one with the callback 7, and their answers.
asked : System
asked = record start { conn = (command true (some 7) new_conn).1; pending = none ∷ some 7 ∷ [] }

handing : System
handing = record asked { pending = []; answering = some 7 }

handing-Reach : Reach start handing
unfolding handing asked command new_conn
handing-Reach =
    next
      (next (next (next here (commanded start true none)) (commanded _ true (some 7)))
        (skipped asked (some 7 ∷ []) refl refl))
      (answered _ 7 [] refl refl)

answering-callback_front_example : callback_front handing.conn ≡ some 7
unfolding handing
answering-callback_front_example = answering-callback_front 7 handing-Reach refl
