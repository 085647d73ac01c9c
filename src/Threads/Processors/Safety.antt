-- ===== src/Threads/Processors/Safety.antt =====
-- What holds in every state that the processors reach, in whatever order they go on.
use depos.Base.{
  unique, no_answer, ℕ, ◌<◌, ◌≡◌, ◌≢◌, inl, inr, Bool, true, false, none, some, [], update, arith,
  refl, List-cases,
}
use depos.Threads.{World, State, ready, waiting, finishing}
use depos.Threads.Thread.{wakeup_of, wakeup}
use depos.Threads.Count.{occurrences}
use depos.Threads.Consistent.{one_state, is_running, is_waiting}
use depos.Threads.Consistent.Wakeup.{wakeup_first}
use depos.Threads.Processors.{
  System, system, land, Step, yields, exits, sleeps, lands, wakes, Reach, start, later, lock,
}
use depos.Threads.Processors.Departure.{
  Leaves, LeavesFor, queue_asleep, yield_half-Leaves, exit_half-Leaves, sleep_half-Leaves,
}
use depos.Threads.Processors.Flight.{in_flight, is_finished, IsSafe}
use depos.Threads.Processors.Moves.{left-IsSafe, asleep-IsSafe, stays-IsSafe}
use depos.Threads.Processors.Landing.{land-IsSafe, woken-IsSafe}

abbrev SomePlace : ℕ → System → Type 0
SomePlace cores s = (place : ℕ → ℕ) × IsSafe cores place s

wakeup_nil : (l : ℕ) (w : World) → w.lists l ≡ [] → wakeup l w ≡ none
unfolding wakeup wakeup_of
wakeup_nil l w e = rw e refl

module _ (cores : ℕ) (s : System) (place : ℕ → ℕ) (v : IsSafe cores place s) where
  Leaves-IsSafe :
      (me : ℕ) (k : State) (b : Bool) (w' : World)
      → me < cores
      → s.away me ≡ false
      → (is_running k ≡ false) × (is_waiting k ≡ false) × (is_finished k ≡ false)
      → Leaves me k none s.world (b, w')
      → SomePlace cores (system w' (update s.away me b))
  Leaves-IsSafe me k b w' h here kind (inl (e, f)) =
      (place, rw (e, f) (stays-IsSafe cores place s v me here))
  Leaves-IsSafe me k b w' h here kind (inr (r, next, q, e, f, g)) =
      (place, rw (f, g) (left-IsSafe cores place s v me r next q h here e k kind.0 kind.1 kind.2))

  LeavesFor-IsSafe :
      (me l : ℕ) (b : Bool) (w' : World)
      → me < cores
      → s.away me ≡ false
      → s.world.locked l ≡ false
      → LeavesFor me waiting (some l) (queue_asleep me l (lock l s.world)) (b, w')
      → SomePlace cores (system w' (update s.away me b))
  unfolding queue_asleep lock
  LeavesFor-IsSafe me l b w' h here free (r, next, q, e, f, g) = (
    update place (s.world.heads me) l,
    rw (f, g) (asleep-IsSafe cores place s v me r next q h here e l free),
  )

  wakes-IsSafe :
      (l : ℕ) (w' : World)
      → s.world.locked l ≡ false
      → wakeup l s.world ≡ some w'
      → SomePlace cores (system w' s.away)
  wakes-IsSafe l w' free e = elim (List-cases (s.world.lists l)) [
    | inl f ↦ no_answer (wakeup_nil l s.world f) e
    | inr (t, q, f) ↦ (
      place,
      unique (λ w1. IsSafe cores place (system w1 s.away)) (wakeup_first l t q s.world f) e
          (woken-IsSafe cores place s v l t q f free),
    )
  ]

Step-IsSafe : (cores : ℕ) (s t : System) → SomePlace cores s → Step cores s t → SomePlace cores t
Step-IsSafe cores s _ (place, v) (yields me {b} {w} h here e) =
    Leaves-IsSafe cores s place v me ready b w h here (refl, refl, refl)
      (yield_half-Leaves me s.world (b, w) e)
Step-IsSafe cores s _ (place, v) (exits me {b} {w} h here e) =
    Leaves-IsSafe cores s place v me finishing b w h here (refl, refl, refl)
      (exit_half-Leaves me s.world (b, w) e)
Step-IsSafe cores s _ (place, v) (sleeps me l {b} {w} h here free e) =
    LeavesFor-IsSafe cores s place v me l b w h here free
      (sleep_half-Leaves me l (lock l s.world) (b, w) e)
Step-IsSafe cores s _ (place, v) (lands me {w} h gone e) =
    let (w1, f, v1) = land-IsSafe cores place s v me gone in
    (place, unique (λ w2. IsSafe cores place (system w2 (update s.away me false))) f e v1)
Step-IsSafe cores s _ (place, v) (wakes me l {w} h here free e) =
    wakes-IsSafe cores s place v l w free e

Reach-IsSafe :
    (cores : ℕ) (first s : System) → SomePlace cores first → Reach cores first s → SomePlace cores s
Reach-IsSafe cores first _ v start = v
Reach-IsSafe cores first _ v (later {s} {t} r step) =
    Step-IsSafe cores s t (Reach-IsSafe cores first s v r) step

-- No thread is in two places, and the second half of a switch ends.
pub record IsSeparate (cores : ℕ) (s : System) : Type 0 where
  pub one_processor : (c d : ℕ) → c < cores → d < cores → s.world.heads c ≡ s.world.heads d → c ≡ d
  pub not_queued : (c d r : ℕ) → c < cores → occurrences (s.world.heads c) (s.world.queues d r) ≡ 0
  pub not_taken :
      (t : ℕ)
      → in_flight s t ≡ true
      → ((c : ℕ) → c < cores → s.world.heads c ≢ t)
        × ((c r : ℕ) → occurrences t (s.world.queues c r) ≡ 0)
  pub not_woken :
      (t l : ℕ)
      → in_flight s t ≡ true
      → occurrences t (s.world.lists l) ≢ 0
      → s.world.locked l ≡ true
  pub comes_back : (c : ℕ) → s.away c ≡ true → (w : World) × (land c (true, s.world) ≡ some w)

in_flight-not_running :
    (cores : ℕ) (place : ℕ → ℕ) (s : System)
    → IsSafe cores place s
    → (t : ℕ) → in_flight s t ≡ true
    → is_running (s.world.state t) ≡ false
in_flight-not_running cores place s v t f =
    let (lt, u, p, at, run, fin, wait) = v.behind (s.world.cpu t) (ground arith) in ground arith

-- However the processors go on from a state in which each thread is where its state says: no thread is
-- the current one of two processors, or the current one and in a queue; a thread that its processor is
-- still leaving is the current one of no processor and in no queue, and a list that it sleeps on is locked; and no
-- assertion of an `epilogue` fails.
pub Reach-IsSeparate :
    (cores : ℕ) (place : ℕ → ℕ) (first s : System)
    → IsSafe cores place first
    → Reach cores first s
    → IsSeparate cores s
Reach-IsSeparate cores place first s v r =
    let (place', v') = Reach-IsSafe cores first s (place, v) r in
    record {
      one_processor = λ c d hc hd e.
          ground (arith, v'.current c (s.world.heads c) hc, v'.current d (s.world.heads c) hd);
      not_queued = λ c d q hc. ground (
        arith,
        v'.current c (s.world.heads c) hc,
        v'.queued d q (s.world.heads c),
        one_state (s.world.state (s.world.heads c)),
      );
      not_taken = λ t f. (
        λ c hc e. ground (arith, v'.current c t hc, in_flight-not_running cores place' s v' t f),
        λ c q. ground (arith, v'.queued c q t),
      );
      not_woken = λ t l f o. ground (arith, v'.sleeping l t, v'.held t f);
      comes_back = λ c gone. let (w1, e, v1) = land-IsSafe cores place' s v' c gone in (w1, e);
    }
