-- ===== src/ThreadPool/Delivery.antt =====
-- Which tasks the threads of src/net/ThreadPool.cpp run, and in which order.
use hwnet.Prelude.{
  ℕ, ◌<◌, ◌≡◌, refl, sym, ap, ◌∙◌, subst, Bool, true, false, List, [], ◌∷◌, ◌++◌, Option, none,
  some, map, append-nil, arith, if◌then◌else◌,
}
use hwnet.ThreadPool.{
  TaskQueue, Got, destroyed, new_queue, post_task, close, get_from, block, get, get_all_from,
  get_all, wake, wake_spuriously, runs,
}

-- A pass of Get by a thread that enters, or by one that was woken, in either mode.
pub data Pass : TaskQueue → Got → TaskQueue → Type 0 where
  enters : (q : TaskQueue) → Pass q (get q).0 (get q).1
  enters_all : (q : TaskQueue) → Pass q (get_all q).0 (get_all q).1
  resumes : (q : TaskQueue) → 0 < q.woken → Pass q (get (wake q)).0 (get (wake q)).1
  resumes_all : (q : TaskQueue) → 0 < q.woken → Pass q (get_all (wake q)).0 (get_all (wake q)).1

-- A history of a queue: the tasks that were accepted, and those that the threads ran, in order, `none`
-- being an undefined one.
pub data History : TaskQueue → List ℕ → List (Option ℕ) → Type 0 where
  fresh : History new_queue [] []
  posted :
      {q : TaskQueue} {accepted : List ℕ} {done : List (Option ℕ)} (t : ℕ)
      → History q accepted done
      → History (post_task t q) (accepted ++ (if q.closed then [] else t ∷ [])) done
  closed_down :
      {q : TaskQueue} {accepted : List ℕ} {done : List (Option ℕ)}
      → History q accepted done
      → History (close q) accepted done
  woken_up :
      {q : TaskQueue} {accepted : List ℕ} {done : List (Option ℕ)}
      → History q accepted done
      → History (wake_spuriously q) accepted done
  passed :
      {q r : TaskQueue} {g : Got} {accepted : List ℕ} {done : List (Option ℕ)}
      → History q accepted done
      → Pass q g r
      → History r accepted (done ++ (runs g).0)

-- The tasks that were taken are the first ones of `accepted`, where they are defined, and `left` are
-- the others.
abbrev pub Agrees : List (Option ℕ) → List ℕ → List ℕ → Type 0
Agrees [] left accepted = left ≡ accepted
Agrees (o ∷ os) left [] = ⊥
Agrees (some t ∷ os) left (a ∷ rest) = (t ≡ a) × Agrees os left rest
Agrees (none ∷ os) left (a ∷ rest) = Agrees os left rest

abbrev pub AllDefined : List (Option ℕ) → Type 0
AllDefined [] = Unit
AllDefined (some t ∷ os) = AllDefined os
AllDefined (none ∷ os) = ⊥

Agrees-batch : (ts : List ℕ) → Agrees (map some ts) [] ts
Agrees-batch [] = refl
Agrees-batch (t ∷ ts) = (refl, Agrees-batch ts)

-- More is taken of what was left.
Agrees-append :
    (ds es : List (Option ℕ)) (mid left accepted : List ℕ)
    → Agrees ds mid accepted
    → Agrees es left mid
    → Agrees (ds ++ es) left accepted
Agrees-append [] es mid left accepted e h = subst (Agrees es left) e h
Agrees-append (o ∷ ds) es mid left [] e h = absurd e
Agrees-append (some t ∷ ds) es mid left (a ∷ accepted) (same, e) h =
    (same, Agrees-append ds es mid left accepted e h)
Agrees-append (none ∷ ds) es mid left (a ∷ accepted) e h = Agrees-append ds es mid left accepted e h

-- More is posted.
Agrees-more :
    (ds : List (Option ℕ)) (left accepted more : List ℕ)
    → Agrees ds left accepted
    → Agrees ds (left ++ more) (accepted ++ more)
Agrees-more [] left accepted more e = ap (λ l. l ++ more) e
Agrees-more (o ∷ ds) left [] more e = absurd e
Agrees-more (some t ∷ ds) left (a ∷ accepted) more (same, e) =
    (same, Agrees-more ds left accepted more e)
Agrees-more (none ∷ ds) left (a ∷ accepted) more e = Agrees-more ds left accepted more e

AllDefined-append :
    (ds es : List (Option ℕ)) → AllDefined ds → AllDefined es → AllDefined (ds ++ es)
AllDefined-append [] es h h' = h'
AllDefined-append (some t ∷ ds) es h h' = AllDefined-append ds es h h'
AllDefined-append (none ∷ ds) es h h' = absurd h

AllDefined-batch : (ts : List ℕ) → AllDefined (map some ts)
AllDefined-batch [] = tt
AllDefined-batch (t ∷ ts) = AllDefined-batch ts

-- What one pass takes, and what it leaves of `ts`.
record IsPassed (ts : List ℕ) (q : TaskQueue) (r : Got × TaskQueue) : Type 0 where
  agrees : Agrees (runs r.0).0 r.1.tasks ts
  defined : q.closed ≡ false → AllDefined (runs r.0).0
  same : r.1.closed ≡ q.closed

get_from-IsPassed :
    (ts : List ℕ) (closed : Bool) (q : TaskQueue)
    → q.tasks ≡ ts
    → q.closed ≡ closed
    → IsPassed ts q (get_from ts q)
unfolding get_from runs block
get_from-IsPassed [] true q e c = rw c (record { agrees = e; defined = λ o. tt; same = refl })
get_from-IsPassed [] false q e c = rw c (record { agrees = e; defined = λ o. tt; same = refl })
get_from-IsPassed (t ∷ ts) true q e c =
    rw c (record { agrees = refl; defined = λ o. absurd (ground (arith, o, c)); same = refl })
get_from-IsPassed (t ∷ ts) false q e c =
    rw c (record { agrees = (refl, refl); defined = λ o. tt; same = refl })

get_all_from-IsPassed :
    (ts : List ℕ) (closed : Bool) (q : TaskQueue)
    → q.tasks ≡ ts
    → q.closed ≡ closed
    → IsPassed ts q (get_all_from ts q)
unfolding get_all_from runs block
get_all_from-IsPassed [] true q e c = rw c (record { agrees = e; defined = λ o. tt; same = refl })
get_all_from-IsPassed [] false q e c = rw c (record { agrees = e; defined = λ o. tt; same = refl })
get_all_from-IsPassed (t ∷ ts) closed q e c = record {
  agrees = Agrees-batch (t ∷ ts);
  defined = λ o. AllDefined-batch (t ∷ ts);
  same = refl;
}

get-IsPassed : (q : TaskQueue) → IsPassed q.tasks q (get q)
unfolding get
get-IsPassed q = get_from-IsPassed q.tasks q.closed q refl refl

get_all-IsPassed : (q : TaskQueue) → IsPassed q.tasks q (get_all q)
unfolding get_all
get_all-IsPassed q = get_all_from-IsPassed q.tasks q.closed q refl refl

wake-IsPassed :
    (q : TaskQueue) (r : Got × TaskQueue)
    → IsPassed (wake q).tasks (wake q) r
    → IsPassed q.tasks q r
unfolding wake
wake-IsPassed q r h = record { agrees = h.agrees; defined = h.defined; same = h.same }

Pass-IsPassed : {q r : TaskQueue} {g : Got} → Pass q g r → IsPassed q.tasks q (g, r)
Pass-IsPassed (enters q) = get-IsPassed q
Pass-IsPassed (enters_all q) = get_all-IsPassed q
Pass-IsPassed (resumes q h) = wake-IsPassed q _ (get-IsPassed (wake q))
Pass-IsPassed (resumes_all q h) = wake-IsPassed q _ (get_all-IsPassed (wake q))

post_task-tasks :
    (t : ℕ) (q : TaskQueue) → (post_task t q).tasks ≡ q.tasks ++ (if q.closed then [] else t ∷ [])
unfolding post_task
post_task-tasks t q = ground (arith, append-nil q.tasks)

close-tasks : (q : TaskQueue) → (close q).tasks ≡ q.tasks
unfolding close
close-tasks q = ground arith

wake_spuriously-tasks : (q : TaskQueue) → (wake_spuriously q).tasks ≡ q.tasks
unfolding wake_spuriously
wake_spuriously-tasks q = ground arith

post_task-closed : (t : ℕ) (q : TaskQueue) → (post_task t q).closed ≡ q.closed
unfolding post_task
post_task-closed t q = ground arith

wake_spuriously-closed : (q : TaskQueue) → (wake_spuriously q).closed ≡ q.closed
unfolding wake_spuriously
wake_spuriously-closed q = ground arith

close-closed : (q : TaskQueue) → (close q).closed ≡ true
unfolding close
close-closed q = ground arith

-- The queue is the rest of what was accepted, and undefined tasks come only from a closed one.
pub record IsInOrder (q : TaskQueue) (accepted : List ℕ) (done : List (Option ℕ)) : Type 0 where
  pub agrees : Agrees done q.tasks accepted
  pub defined : q.closed ≡ false → AllDefined done

-- However posts, passes of Get, wakeups and Close interleave, the threads take the tasks that were
-- accepted, each once and in the order of the posts, and the rest is in the queue; but what they run
-- in the place of a task is undefined where Get() read it through a destroyed element. As long as the
-- queue is not closed, none is. A post is accepted while the queue is not closed.
pub History-IsInOrder :
    {q : TaskQueue} {accepted : List ℕ} {done : List (Option ℕ)}
    → History q accepted done
    → IsInOrder q accepted done
unfolding new_queue
History-IsInOrder fresh = record { agrees = refl; defined = λ e. tt }
History-IsInOrder (posted {q} {accepted} {done} t h) =
    let i = History-IsInOrder h in
    record {
      agrees =
          subst (λ l. Agrees done l (accepted ++ (if q.closed then [] else t ∷ [])))
            (sym (post_task-tasks t q))
            (Agrees-more done q.tasks accepted (if q.closed then [] else t ∷ []) i.agrees);
      defined = λ e. i.defined (sym (post_task-closed t q) ∙ e);
    }
History-IsInOrder (closed_down {q} {accepted} {done} h) =
    let i = History-IsInOrder h in
    record {
      agrees = subst (λ l. Agrees done l accepted) (sym (close-tasks q)) i.agrees;
      defined = λ e. absurd (ground (arith, e, close-closed q));
    }
History-IsInOrder (woken_up {q} {accepted} {done} h) =
    let i = History-IsInOrder h in
    record {
      agrees = subst (λ l. Agrees done l accepted) (sym (wake_spuriously-tasks q)) i.agrees;
      defined = λ e. i.defined (sym (wake_spuriously-closed q) ∙ e);
    }
History-IsInOrder (passed {q} {r} {g} {accepted} {done} h p) =
    let i = History-IsInOrder h in
    let s = Pass-IsPassed p in
    record {
      agrees = Agrees-append done (runs g).0 q.tasks r.tasks accepted i.agrees s.agrees;
      defined = λ e.
          let open' : q.closed ≡ false = sym s.same ∙ e in
          AllDefined-append done (runs g).0 (i.defined open') (s.defined open');
    }

-- On a closed queue with tasks left, Get() hands out a task that it reads through a reference to the
-- element that pop_front has just destroyed.
get-destroyed :
    (q : TaskQueue) (t : ℕ) (ts : List ℕ)
    → q.closed ≡ true
    → q.tasks ≡ t ∷ ts
    → (get q).0 ≡ destroyed
unfolding get
get-destroyed q t ts c e = rw (e, get_from, c)
