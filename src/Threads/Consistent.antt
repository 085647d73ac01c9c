-- ===== src/Threads/Consistent.antt =====
-- The state of a thread says where the thread is: it is the current one of its processor, or once in
-- the queue of its processor and rank, or once in the list that it sleeps on, and nowhere else.
pub mod Switch
pub mod Sleep
pub mod Wakeup
pub mod Fairness
use depos.Base.{
  ℕ, suc, ◌+◌, ◌-◌, ◌%◌, ◌<◌, ◌≡◌, ◌≢◌, ◌==◌, ltb, if◌then◌else◌, ◌&&◌, ◌||◌, not, Bool, true,
  false, Option, none, some, List, [], ◌∷◌, ◌++◌, update, ◌>>=◌, ◌>>◌, assert, is_some, arith,
  List-cases, inl, inr, ◌⊎◌, refl, subst, sym, ne→==_false, update_self, update_ne, ◌∙◌,
}
use depos.Threads.{World, State, running, ready, waiting, finishing, finished, modulus}
use depos.Threads.Scheduler.{
  set_queue, insert, take_from, or_else, remove_from, set_head, remove, idle_rank, normal_rank,
  build,
}
use depos.Threads.Thread.{
  set_state, release_lock, epilogue_of, epilogue, depart, dispatch, dispatch_next,
  dispatch_sleeping, reschedule, exit, sleep, wakeup, wakeup_of, create,
}
use depos.Threads.Count.{occurrences, occurrences-append}

abbrev pub is_running : State → Bool
is_running running = true
is_running ready = false
is_running waiting = false
is_running finishing = false
is_running finished = false

abbrev pub is_ready : State → Bool
is_ready running = false
is_ready ready = true
is_ready waiting = false
is_ready finishing = false
is_ready finished = false

abbrev pub is_waiting : State → Bool
is_waiting running = false
is_waiting ready = false
is_waiting waiting = true
is_waiting finishing = false
is_waiting finished = false

abbrev pub one_if : Bool → ℕ
one_if b = if b then 1 else 0

-- `place t` is the list that a waiting thread `t` sleeps on.
module _ (cores : ℕ) where
  pub record IsConsistent (place : ℕ → ℕ) (w : World) : Type 0 where
    pub current :
        (c t : ℕ) → c < cores → (w.heads c == t) ≡ (is_running (w.state t) && (w.cpu t == c))
    pub queued :
        (c r t : ℕ)
        → occurrences t (w.queues c r)
          ≡ one_if (is_ready (w.state t) && ((w.cpu t == c) && (w.rank t == r)))
    pub sleeping :
        (l t : ℕ) → occurrences t (w.lists l) ≡ one_if (is_waiting (w.state t) && (place t == l))

pub one_state :
    (s : State)
    → ((is_running s && is_ready s) ≡ false)
      × ((is_running s && is_waiting s) ≡ false)
      × ((is_ready s && is_waiting s) ≡ false)
one_state running = (refl, refl, refl)
one_state ready = (refl, refl, refl)
one_state waiting = (refl, refl, refl)
one_state finishing = (refl, refl, refl)
one_state finished = (refl, refl, refl)

abbrev pub put : (ℕ → ℕ → List ℕ) → ℕ → ℕ → List ℕ → ℕ → ℕ → List ℕ
put queues c r q = update queues c (update (queues c) r q)

pub occurrences-put :
    (queues : ℕ → ℕ → List ℕ) (c' r' c r t : ℕ) (q : List ℕ)
    → occurrences t (put queues c' r' q c r)
      ≡ (if (c == c') && (r == r') then occurrences t q else occurrences t (queues c r))
occurrences-put queues c' r' c r t q = ground arith

pub occurrences-push :
    (queues : ℕ → ℕ → List ℕ) (c' r' c r t x : ℕ)
    → occurrences t (put queues c' r' (queues c' r' ++ (x ∷ [])) c r)
      ≡ occurrences t (queues c r) + one_if ((x == t) && ((c == c') && (r == r')))
occurrences-push queues c' r' c r t x = ground (
  arith,
  occurrences-put queues c' r' c r t (queues c' r' ++ (x ∷ [])),
  occurrences-append t x (queues c' r'),
)

abbrev pub dispatched : ℕ → ℕ → ℕ → Option ℕ → World → World
dispatched me t next lock w = record w {
  previous = update w.previous me (some t);
  spin = update w.spin me lock;
  state = update w.state next running;
}

pub dispatch_to :
    (me t next : ℕ) (lock : Option ℕ) (w : World)
    → next ≢ t
    → dispatch me t next lock w ≡ epilogue_of (w.state t) t lock (dispatched me t next lock w)
unfolding dispatch depart epilogue set_state
dispatch_to me t next lock w ne =
    rw
      (
        ne→==_false next t ne,
        update_self w.previous me (some t),
        update_self w.spin me lock,
        update_ne w.state next running t (λ e. ne (sym e)),
      )
      refl

module _ (cores : ℕ) (place : ℕ → ℕ) (w : World) (v : IsConsistent cores place w) where
  -- the head of a queue is ready
  pub next_facts :
      (c r t : ℕ) (q : List ℕ)
      → w.queues c r ≡ t ∷ q
      → (is_ready (w.state t) ≡ true) × (w.cpu t ≡ c) × (w.rank t ≡ r) × (occurrences t q ≡ 0)
  next_facts c r t q e =
      let h : occurrences t (t ∷ q)
          ≡ one_if (is_ready (w.state t) && ((w.cpu t == c) && (w.rank t == r))) =
        subst
          (λ l.
            occurrences t l ≡ one_if (is_ready (w.state t) && ((w.cpu t == c) && (w.rank t == r))))
          e (v.queued c r t) in
      ground arith

  pub current_facts :
      (me : ℕ) → me < cores → (is_running (w.state (w.heads me)) ≡ true) × (w.cpu (w.heads me) ≡ me)
  current_facts me h = ground (arith, v.current me (w.heads me) h)
