-- ===== src/Kqueue/Interest.antt =====
-- That the pollers of Linux and macOS, src/net/linux/Epoll.cpp and src/net/mac/Kqueue.cpp, ask their
-- kernels for the same events.
use hwnet.Prelude.{ℕ, ◌≡◌, sym, ◌∙◌, List, [], ◌∷◌, none}
use hwnet.Poller
use hwnet.Poller.{Poller}
use hwnet.Poller.Epoll
use hwnet.Poller.Epoll.{IsOwning, IsArmed}
use hwnet.Poller.Interest.{Call, channel_of, IsPoller, AllMay, run, replay, run-start}
use hwnet.Kqueue.{KqPoller, new_poller}
use hwnet.Kqueue.Rows.{IsMatched, interest, call}
use hwnet.Kqueue.Filters.{call-IsMatched, interest-call, new_poller-IsMatched, interest-new_poller}

-- Every call is made with the channel of its descriptor.
abbrev pub AllOwn : (ℕ → ℕ) → List Call → Type 0
AllOwn owner [] = Unit
AllOwn owner (c ∷ cs) = ((channel_of c).self ≡ owner (channel_of c).fd) × AllOwn owner cs

unfoldable kqueue : IsPoller KqPoller
kqueue = record {
  start = new_poller;
  call = call;
  interest = interest;
  IsSound = IsMatched;
  May = λ c. Unit;
  start_sound = new_poller-IsMatched;
  start_interest = interest-new_poller;
  call_sound = λ c s may h. call-IsMatched c s h;
  call_interest = λ c s j may h. interest-call c s j h;
}

unfoldable epoll : (owner : ℕ → ℕ) → IsOwning owner → IsPoller Poller
epoll owner owning = record {
  start = Poller.new_poller;
  call = Epoll.call;
  interest = Epoll.interest;
  IsSound = IsArmed owner;
  May = λ c. (channel_of c).self ≡ owner (channel_of c).fd;
  start_sound = Epoll.new_poller-IsArmed owner;
  start_interest = Epoll.interest-new_poller;
  call_sound = λ c s may h. Epoll.call-IsArmed owner c s owning may h;
  call_interest = λ c s j may h. Epoll.interest-call owner c s j owning may h;
}

kqueue-AllMay : (cs : List Call) → AllMay kqueue cs
unfolding kqueue
kqueue-AllMay [] = tt
kqueue-AllMay (c ∷ cs) = (tt, kqueue-AllMay cs)

epoll-AllMay :
    (owner : ℕ → ℕ) (owning : IsOwning owner) (cs : List Call)
    → AllOwn owner cs
    → AllMay (epoll owner owning) cs
unfolding epoll
epoll-AllMay owner owning [] own = tt
epoll-AllMay owner owning (c ∷ cs) (own, rest) = (own, epoll-AllMay owner owning cs rest)

-- After any calls of Add, Remove, Enable and Disable on a new poller, where each descriptor has a
-- channel of its own and the kernel accepts every change: epoll and kqueue were asked for the same
-- events of each descriptor, which are those that the calls promise.
pub run-interest :
    (owner : ℕ → ℕ) (cs : List Call) (j : ℕ)
    → IsOwning owner
    → AllOwn owner cs
    → (Epoll.interest (run Epoll.call cs Poller.new_poller) j ≡ interest (run call cs new_poller) j)
      × (interest (run call cs new_poller) j ≡ replay cs (λ k. none) j)
unfolding kqueue epoll
run-interest owner cs j owning own =
    let by_epoll = run-start (epoll owner owning) cs (epoll-AllMay owner owning cs own) j in
    let by_kqueue = run-start kqueue cs (kqueue-AllMay cs) j in
    (by_epoll ∙ sym by_kqueue, by_kqueue)
