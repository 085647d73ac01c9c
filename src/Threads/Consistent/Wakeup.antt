-- ===== src/Threads/Consistent/Wakeup.antt =====
-- `Thread::wakeup` and the constructor of a thread make a thread ready.
use depos.Base.{
  ℕ, ◌+◌, ◌-◌, ◌%◌, ◌<◌, ◌≡◌, ◌==◌, if◌then◌else◌, ◌&&◌, true, false, some, List, [], ◌∷◌, ◌++◌,
  update, arith, ◌⊎◌, refl, subst, sym, update_self, lt→ltb,
}
use depos.Threads.{World, ready, finished, modulus}
use depos.Threads.Scheduler.{set_queue, insert, any_cpu, build}
use depos.Threads.Thread.{set_state, wakeup, wakeup_of, create}
use depos.Threads.Count.{occurrences}
use depos.Threads.Consistent.{
  IsConsistent, is_running, is_ready, is_waiting, one_if, one_state, put, occurrences-push,
}

-- The world after the first thread of list `l` was woken.
unfoldable pub woken : ℕ → ℕ → List ℕ → World → World
woken l t q w = record w {
  lists = update w.lists l q;
  state = update w.state t ready;
  queues = put w.queues (w.cpu t) (w.rank t) (w.queues (w.cpu t) (w.rank t) ++ (t ∷ []));
}

pub wakeup_first :
    (l t : ℕ) (q : List ℕ) (w : World) → w.lists l ≡ t ∷ q → wakeup l w ≡ some (woken l t q w)
unfolding wakeup wakeup_of insert set_queue set_state woken
wakeup_first l t q w e = rw e refl

created : ℕ → ℕ → ℕ → ℕ → World → World
created t cpu rank idles w = record w {
  cpu = update w.cpu t cpu;
  rank = update w.rank t rank;
  idles = idles;
  count = (w.count + 1) % modulus;
  state = update w.state t ready;
  queues = put w.queues cpu rank (w.queues cpu rank ++ (t ∷ []));
}

create_built :
    (cores boot t rank cpu cpu' rank' idles' : ℕ) (w : World)
    → build cores boot rank cpu w.idles ≡ some (cpu', rank', idles')
    → create cores boot t rank cpu w ≡ some (created t cpu' rank' idles' w)
unfolding create insert set_queue set_state created
create_built cores boot t rank cpu cpu' rank' idles' w e =
    rw (e, update_self w.cpu t cpu', update_self w.rank t rank') refl

module _ (cores : ℕ) (place : ℕ → ℕ) (w : World) (v : IsConsistent cores place w) where
  module _ (l t : ℕ) (q : List ℕ) (e : w.lists l ≡ t ∷ q) where
    list_facts :
        (k : ℕ)
        → occurrences k q ≡ one_if (is_waiting (w.state k) && (place k == l)) - one_if (t == k)
    list_facts k =
        let z : occurrences k (t ∷ q) ≡ one_if (is_waiting (w.state k) && (place k == l)) =
          subst (λ xs. occurrences k xs ≡ one_if (is_waiting (w.state k) && (place k == l))) e
            (v.sleeping l k) in
        ground arith

    first_waiting : (is_waiting (w.state t) ≡ true) × (place t ≡ l)
    first_waiting =
        let z : occurrences t (t ∷ q) ≡ one_if (is_waiting (w.state t) && (place t == l)) =
          subst (λ xs. occurrences t xs ≡ one_if (is_waiting (w.state t) && (place t == l))) e
            (v.sleeping l t) in
        ground arith

    pub woken-IsConsistent : IsConsistent cores place (woken l t q w)
    unfolding woken
    woken-IsConsistent =
        let a = first_waiting in
        record {
          current = λ c k hc. ground (arith, v.current c k hc, one_state (w.state t));
          queued = λ c r k. ground (
            arith,
            v.queued c r k,
            occurrences-push w.queues (w.cpu t) (w.rank t) c r k t,
            one_state (w.state t),
          );
          sleeping = λ m k. ground (arith, v.sleeping m k, list_facts k, one_state (w.state t));
        }

    -- `wakeup` takes the thread that sleeps on the list the longest, it is ready afterwards, and the
    -- threads stay consistent.
    pub wakeup-IsConsistent :
        (w' : World) × (wakeup l w ≡ some w')
        × (w'.lists l ≡ q)
        × (w'.value ≡ w.value)
        × (w'.state t ≡ ready)
        × IsConsistent cores place w'
    unfolding woken
    wakeup-IsConsistent = (
      woken l t q w,
      wakeup_first l t q w e,
      update_self w.lists l q,
      refl,
      update_self w.state t ready,
      woken-IsConsistent,
    )

  module _ (boot t rank cpu : ℕ) (fresh : w.state t ≡ finished) (hr : rank < 2) (hb : boot < cores)
      (hc : (cpu < cores) ⊎ (cpu ≡ any_cpu)) where
    -- With a rank below 2, and a processor below the number of them or `ANY`, a criterion is built.
    build_lem :
        (cpu' : ℕ) × (idles' : ℕ) × (build cores boot rank cpu w.idles ≡ some (cpu', rank, idles'))
        × (cpu' < cores)
    unfolding build
    build_lem =
        let both = (rank == 0) && (cpu == any_cpu) in
        let c = if both then w.idles % cores else (if cpu == any_cpu then boot else cpu) in
        let lt : c < cores = ground arith in
        (
          c,
          (if both then (w.idles + 1) % modulus else w.idles),
          rw (lt→ltb rank 2 hr, lt→ltb c cores lt) refl,
          lt,
        )

    -- A new thread is ready, and the threads stay consistent.
    pub create-IsConsistent :
        (w' : World) × (create cores boot t rank cpu w ≡ some w')
        × (w'.state t ≡ ready)
        × IsConsistent cores place w'
    unfolding created
    create-IsConsistent =
        let (cpu', idles', e, h) = build_lem in
        let f =
          subst (λ s. (is_running s ≡ false) × (is_ready s ≡ false) × (is_waiting s ≡ false))
            (sym fresh) (refl, refl, refl) in
        (
          created t cpu' rank idles' w,
          create_built cores boot t rank cpu cpu' rank idles' w e,
          update_self w.state t ready,
          record {
            current = λ c k hc. ground (arith, v.current c k hc);
            queued = λ c r k.
                ground (arith, v.queued c r k, occurrences-push w.queues cpu' rank c r k t);
            sleeping = λ m k. ground (arith, v.sleeping m k);
          },
        )
