-- ===== src/Redis/Pairing.antt =====
-- Which callback of src/redis/RedisCli.cpp is called for which reply.
use hwnet.Prelude.{
  ℕ, ◌≡◌, refl, sym, ap, ◌∙◌, Bool, List, [], ◌∷◌, ◌++◌, Option, none, some, append_assoc,
  append-nil, if◌then◌else◌, Bool-cases, inl, inr,
}
use hwnet.Redis.{RedisConn, new_conn, command, callback_front, without_front, callback_end, close}

-- A connection, the commands that hiredis has accepted and not answered, each with the callback it
-- was given, and the callback whose reply is being handed over.
pub record System : Type 0 where
  pub conn : RedisConn
  pub pending : List (Option ℕ)
  pub answering : Option ℕ

-- What hiredis has in mind after a command.
abbrev pub accept : Bool → Option ℕ → List (Option ℕ) → List (Option ℕ)
accept ok f ps = if ok then ps ++ f ∷ [] else ps

-- hiredis answers in the order of the commands, and each command once, as it does for all but those
-- that subscribe to something and MONITOR, which are not among these; with getCallback for a command
-- that has a callback. Commands and Close may come while a callback runs, the next answer may not.
pub data Step : System → System → Type 0 where
  commanded :
      (s : System) (ok : Bool) (f : Option ℕ)
      → Step s (record s {
        conn = (command ok f s.conn).1;
        pending = accept (command ok f s.conn).0 f s.pending;
      })
  skipped :
      (s : System) (ps : List (Option ℕ))
      → s.answering ≡ none
      → s.pending ≡ none ∷ ps
      → Step s (record s { pending = ps })
  answered :
      (s : System) (f : ℕ) (ps : List (Option ℕ))
      → s.answering ≡ none
      → s.pending ≡ some f ∷ ps
      → Step s (record s { pending = ps; answering = some f })
  returned :
      (s : System) (f : ℕ)
      → s.answering ≡ some f
      → Step s (record s { conn = callback_end s.conn; answering = none })
  closed_by : (s : System) → Step s (record s { conn = close s.conn })

pub data Reach (s : System) : System → Type 0 where
  here : Reach s s
  next : {t u : System} → Reach s t → Step t u → Reach s u

-- The callbacks of these commands.
unfoldable pub callbacks : List (Option ℕ) → List ℕ
callbacks [] = []
callbacks (none ∷ ps) = callbacks ps
callbacks (some f ∷ ps) = f ∷ callbacks ps

abbrev pub under_way : Option ℕ → List ℕ
under_way none = []
under_way (some f) = f ∷ []

-- The queue holds the callback that runs and those of the commands that wait, in their order.
abbrev pub IsPaired : System → Type 0
IsPaired s = s.conn.redis_fns ≡ under_way s.answering ++ callbacks s.pending

callbacks-append :
    (ps : List (Option ℕ)) (f : Option ℕ) → callbacks (ps ++ f ∷ []) ≡ callbacks ps ++ under_way f
unfolding callbacks
callbacks-append [] none = refl
callbacks-append [] (some f) = refl
callbacks-append (none ∷ ps) f = callbacks-append ps f
callbacks-append (some g ∷ ps) f = ap (◌∷◌ g) (callbacks-append ps f)

command-IsPaired :
    (ok : Bool) (f : Option ℕ) (c : RedisConn) (ps : List (Option ℕ)) (before : List ℕ)
    → c.redis_fns ≡ before ++ callbacks ps
    → (command ok f c).1.redis_fns ≡ before ++ callbacks (accept (command ok f c).0 f ps)
unfolding command
command-IsPaired ok none c ps before h = elim (Bool-cases c.closed) [
  | inl e ↦ rw e h
  | inr e ↦ elim (Bool-cases ok) [
    | inl t ↦ rw (e, t) (h ∙ ap (◌++◌ before) (sym (append-nil _) ∙ sym (callbacks-append ps none)))
    | inr t ↦ rw (e, t) h
  ]
]
command-IsPaired ok (some f) c ps before h = elim (Bool-cases c.closed) [
  | inl e ↦ rw e h
  | inr e ↦ elim (Bool-cases ok) [
    | inl t ↦
        rw (e, t)
          (ap (λ l. l ++ f ∷ []) h
            ∙ append_assoc before (callbacks ps) (f ∷ [])
            ∙ ap (◌++◌ before) (sym (callbacks-append ps (some f))))
    | inr t ↦ rw (e, t) h
  ]
]

Step-IsPaired : {s t : System} → Step s t → IsPaired s → IsPaired t
unfolding callback_end close callbacks
Step-IsPaired (commanded s ok f) h =
    command-IsPaired ok f s.conn s.pending (under_way s.answering) h
Step-IsPaired (skipped s ps e q) h = h ∙ ap (λ l. under_way s.answering ++ callbacks l) q
Step-IsPaired (answered s f ps e q) h =
    h
    ∙ ap (λ l. under_way s.answering ++ callbacks l) q
    ∙ ap (λ o. under_way o ++ f ∷ callbacks ps) e
Step-IsPaired (returned s f e) h =
    ap without_front (h ∙ ap (λ o. under_way o ++ callbacks s.pending) e)
Step-IsPaired (closed_by s) h = h

abbrev pub start : System
start = record { conn = new_conn; pending = []; answering = none }

Reach-IsPaired : {s : System} → Reach start s → IsPaired s
unfolding new_conn callbacks
Reach-IsPaired here = refl
Reach-IsPaired (next r x) = Step-IsPaired x (Reach-IsPaired r)

-- However commands, with and without callbacks, answers, and Close interleave, where hiredis answers
-- each command once, so that none is SUBSCRIBE or MONITOR, and in order: when the answer of a command
-- is handed over, the callback that getCallback finds is the one the command was given.
pub answering-callback_front :
    {s : System} (f : ℕ) → Reach start s → s.answering ≡ some f → callback_front s.conn ≡ some f
unfolding callback_front
answering-callback_front {s} f r e =
    rw (Reach-IsPaired r ∙ ap (λ o. under_way o ++ callbacks s.pending) e) refl
