-- ===== src/Threads/Processors/Departure.antt =====
-- What the first halves of `reschedule`, `exit` and `sleep` do.
use depos.Base.{
  unique, no_answer, bind_at, bind_none, ℕ, ◌≡◌, ◌≢◌, ◌⊎◌, inl, inr, Bool, true, false, Option,
  none, some, List, [], ◌∷◌, ◌++◌, update, arith, refl, List-cases, eq-cases, ne→==_false,
}
use depos.Threads.{World, State, running, ready, waiting, finishing}
use depos.Threads.Scheduler.{set_queue, take_from, or_else, remove_from, set_head, remove}
use depos.Threads.Thread.{set_state, depart}
use depos.Threads.Consistent.{put}
use depos.Threads.Consistent.Sleep.{IsNext, removed, remove_next}
use depos.Threads.Processors.{yield_half, exit_half, sleep_half, leave_for, leave_asleep}

-- The world behind a first half of `me`, which leaves its thread in state `k` for `next`.
unfoldable pub left : ℕ → ℕ → ℕ → List ℕ → State → Option ℕ → World → World
left me r next q k spin w =
    let t = w.heads me in
    record w {
      heads = update w.heads me next;
      state = update (update w.state t k) next running;
      previous = update w.previous me (some t);
      spin = update w.spin me spin;
      queues = put w.queues me r q;
    }

-- It leaves for the first thread of a queue.
abbrev pub LeavesFor : ℕ → State → Option ℕ → World → Bool × World → Type 0
LeavesFor me k spin w (b, w') =
    (r : ℕ) × (next : ℕ) × (q : List ℕ) × (w.queues me r ≡ next ∷ q)
    × (b ≡ true)
    × (w' ≡ left me r next q k spin w)

-- Or it does nothing.
abbrev pub Leaves : ℕ → State → Option ℕ → World → Bool × World → Type 0
Leaves me k spin w (b, w') = ((b ≡ false) × (w' ≡ w)) ⊎ LeavesFor me k spin w (b, w')

remove_normal :
    (me next : ℕ) (q : List ℕ) (w : World)
    → w.queues me 1 ≡ next ∷ q
    → remove me 1 w ≡ some (some next, removed me 1 next q w)
unfolding remove remove_from take_from or_else set_head set_queue removed
remove_normal me next q w e = rw e refl

remove_normal-nil : (me : ℕ) (w : World) → w.queues me 1 ≡ [] → remove me 1 w ≡ some (none, w)
unfolding remove remove_from take_from or_else set_head
remove_normal-nil me w e = rw e refl

remove_idle-nil :
    (me : ℕ) (w : World) → w.queues me 1 ≡ [] → w.queues me 0 ≡ [] → remove me 0 w ≡ none
unfolding remove remove_from take_from or_else set_head
remove_idle-nil me w e f = rw e (rw f refl)

depart_same : (me t : ℕ) (o : Option ℕ) (w : World) → depart me t t o w ≡ none
unfolding depart
depart_same me t o w = ground arith

leave_for_same :
    (me t next : ℕ) (k : State) (w : World) → next ≡ t → leave_for me t k (some next) w ≡ none
unfolding leave_for depart
leave_for_same me t next k w e = ground arith

leave_for_other :
    (me r next : ℕ) (q : List ℕ) (k : State) (w : World)
    → next ≢ w.heads me
    → leave_for me (w.heads me) k (some next) (removed me r next q w)
      ≡ some (true, left me r next q k none w)
unfolding leave_for depart set_state removed left
leave_for_other me r next q k w ne = rw (ne→==_false next (w.heads me) ne) refl

leave_asleep_same :
    (me t l next : ℕ) (w : World) → next ≡ t → leave_asleep me t l (some next) w ≡ none
unfolding leave_asleep depart
leave_asleep_same me t l next w e = ground arith

leave_for-Leaves :
    (me r next : ℕ) (q : List ℕ) (k : State) (w : World) (a : Bool × World)
    → w.queues me r ≡ next ∷ q
    → leave_for me (w.heads me) k (some next) (removed me r next q w) ≡ some a
    → Leaves me k none w a
leave_for-Leaves me r next q k w a e h = elim (eq-cases next (w.heads me)) [
  | inl hit ↦ no_answer (leave_for_same me (w.heads me) next k (removed me r next q w) hit) h
  | inr miss ↦
      unique (Leaves me k none w) (leave_for_other me r next q k w miss) h
        (inr (r, next, q, e, refl, refl))
]

idle_Leaves :
    (me : ℕ) (w : World) (a : Bool × World)
    → leave_for me (w.heads me) ready none w ≡ some a
    → Leaves me ready none w a
unfolding leave_for
idle_Leaves me w a h = unique (Leaves me ready none w) refl h (inl (refl, refl))

pub yield_half-Leaves :
    (me : ℕ) (w : World) (a : Bool × World) → yield_half me w ≡ some a → Leaves me ready none w a
unfolding yield_half
yield_half-Leaves me w a h =
    let go = λ (answer : Option ℕ × World). leave_for me (w.heads me) ready answer.0 answer.1 in
    elim (List-cases (w.queues me 1)) [
      | inl e ↦ idle_Leaves me w a (bind_at (remove me 1 w) go (remove_normal-nil me w e) h)
      | inr (next, q, e) ↦
          leave_for-Leaves me 1 next q ready w a e
            (bind_at (remove me 1 w) go (remove_normal me next q w e) h)
    ]

-- The queue that a processor takes from where it must leave, if there is one.
IsNext-or_none :
    (me : ℕ) (w : World)
    → (remove me 0 w ≡ none) ⊎ ((r : ℕ) × (next : ℕ) × (q : List ℕ) × IsNext w me r next q)
IsNext-or_none me w = elim (List-cases (w.queues me 1)) [
  | inr (next, q, e) ↦ inr (1, next, q, (e, inl refl))
  | inl e ↦ elim (List-cases (w.queues me 0)) [
    | inr (next, q, f) ↦ inr (0, next, q, (f, inr (refl, e)))
    | inl f ↦ inl (remove_idle-nil me w e f)
  ]
]

pub exit_half-Leaves :
    (me : ℕ) (w : World) (a : Bool × World) → exit_half me w ≡ some a → Leaves me finishing none w a
unfolding exit_half
exit_half-Leaves me w a h =
    let go = λ (answer : Option ℕ × World). leave_for me (w.heads me) finishing answer.0 answer.1 in
    elim (IsNext-or_none me w) [
      | inl e ↦ no_answer (bind_none (remove me 0 w) go e) h
      | inr (r, next, q, n) ↦
          leave_for-Leaves me r next q finishing w a n.0
            (bind_at (remove me 0 w) go (remove_next me r next q w n) h)
    ]

-- The thread is on its list before it is left.
unfoldable pub queue_asleep : ℕ → ℕ → World → World
queue_asleep me l w = record w { lists = update w.lists l (w.lists l ++ (w.heads me ∷ [])) }

leave_asleep_other :
    (me l r next : ℕ) (q : List ℕ) (w : World)
    → next ≢ w.heads me
    → leave_asleep me
        (w.heads me)
        l
        (some next)
        (removed me r next q (set_state (w.heads me) waiting w))
      ≡ some (true, left me r next q waiting (some l) w)
unfolding leave_asleep depart set_state removed left
leave_asleep_other me l r next q w ne = rw (ne→==_false next (w.heads me) ne) refl

leave_asleep-Leaves :
    (me l r next : ℕ) (q : List ℕ) (w : World) (a : Bool × World)
    → w.queues me r ≡ next ∷ q
    → leave_asleep me
        (w.heads me)
        l
        (some next)
        (removed me r next q (set_state (w.heads me) waiting w))
      ≡ some a
    → LeavesFor me waiting (some l) w a
leave_asleep-Leaves me l r next q w a e h =
    let w1 = removed me r next q (set_state (w.heads me) waiting w) in
    elim (eq-cases next (w.heads me)) [
      | inl hit ↦ no_answer (leave_asleep_same me (w.heads me) l next w1 hit) h
      | inr miss ↦
          unique (LeavesFor me waiting (some l) w) (leave_asleep_other me l r next q w miss) h
            (r, next, q, e, refl, refl)
    ]

pub sleep_half-Leaves :
    (me l : ℕ) (w : World) (a : Bool × World)
    → sleep_half me l w ≡ some a
    → LeavesFor me waiting (some l) (queue_asleep me l w) a
unfolding sleep_half queue_asleep set_state
sleep_half-Leaves me l w a h =
    let go = λ (answer : Option ℕ × World). leave_asleep me (w.heads me) l answer.0 answer.1 in
    let w1 = set_state (w.heads me) waiting (queue_asleep me l w) in
    elim (IsNext-or_none me w1) [
      | inl e ↦ no_answer (bind_none (remove me 0 w1) go e) h
      | inr (r, next, q, n) ↦
          leave_asleep-Leaves me l r next q (queue_asleep me l w) a n.0
            (bind_at (remove me 0 w1) go (remove_next me r next q w1 n) h)
    ]
