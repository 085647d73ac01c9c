-- ===== src/Threads/Processors/Landing.antt =====
-- The `epilogue` of a processor and the wakeup of a thread keep the threads in their places.
use depos.Base.{
  ℕ, ◌+◌, ◌-◌, ◌%◌, ◌<◌, ◌≡◌, ◌==◌, ◌&&◌, true, false, Option, some, List, [], ◌∷◌, ◌++◌, update,
  arith, refl, subst,
}
use depos.Threads.{World, State, running, ready, waiting, finishing, finished, modulus}
use depos.Threads.Scheduler.{insert, set_queue}
use depos.Threads.Thread.{epilogue, epilogue_of, release_lock, set_state}
use depos.Threads.Count.{occurrences}
use depos.Threads.Consistent.{is_running, is_waiting, one_if, one_state, put, occurrences-push}
use depos.Threads.Consistent.Wakeup.{woken}
use depos.Threads.Processors.{System, system, land}
use depos.Threads.Processors.Flight.{in_flight, is_finished, IsSafe}

module _ (cores : ℕ) (place : ℕ → ℕ) (s : System) (v : IsSafe cores place s) (me t : ℕ)
    (gone : s.away me ≡ true) (lt : me < cores) (before : s.world.previous me ≡ some t)
    (at : s.world.cpu t ≡ me) where
  abbrev w : World
  w = s.world

  abbrev back : World → System
  back w' = system w' (update s.away me false)

  -- it becomes ready
  inserted : World
  inserted = record w {
    queues = put w.queues (w.cpu t) (w.rank t) (w.queues (w.cpu t) (w.rank t) ++ (t ∷ []));
  }

  inserted-IsSafe : w.state t ≡ ready → IsSafe cores place (back inserted)
  unfolding inserted
  inserted-IsSafe e = record {
    current = λ c u hc. ground (arith, v.current c u hc);
    queued = λ c r u. ground (
      arith,
      v.queued c r u,
      occurrences-push w.queues (w.cpu t) (w.rank t) c r u t,
      one_state (w.state u),
    );
    sleeping = λ l u. v.sleeping l u;
    behind = λ c y. v.behind c (ground arith);
    held = λ u f g. ground (arith, v.held u);
    alone = λ u x f g i j. ground (arith, v.alone u x);
  }

  -- the lock of its list is released
  released : World
  released = record w { locked = update w.locked (place t) false }

  released-IsSafe : w.state t ≡ waiting → IsSafe cores place (back released)
  unfolding released
  released-IsSafe e = record {
    current = v.current;
    queued = λ c r u. ground (arith, v.queued c r u, one_state (w.state u));
    sleeping = v.sleeping;
    behind = λ c y. v.behind c (ground arith);
    held = λ u f g. ground (arith, v.held u, v.alone u t);
    alone = λ u x f g i j. ground (arith, v.alone u x);
  }

  -- it is finished
  ended : World
  ended = record w {
    state = update w.state t finished;
    count = (w.count + (modulus - 1)) % modulus;
  }

  ended-IsSafe : w.state t ≡ finishing → IsSafe cores place (back ended)
  unfolding ended
  ended-IsSafe e = record {
    current = λ c u hc. ground (arith, v.current c u hc);
    queued = λ c r u. ground (arith, v.queued c r u, one_state (w.state u));
    sleeping = λ l u. ground (arith, v.sleeping l u);
    behind = λ c y.
        let (lt', u, p, at', run, fin, wait) = v.behind c (ground arith) in
        (lt', u, p, at', ground arith, ground arith, λ z. ground (arith, wait));
    held = λ u f g. ground (arith, v.held u);
    alone = λ u x f g i j. ground (arith, v.alone u x);
  }

  abbrev Lands : Option World → Type 0
  Lands o = (w' : World) × (o ≡ some w') × IsSafe cores place (back w')

  epilogue_of-Lands :
      (k : State)
      → w.state t ≡ k
      → is_running k ≡ false
      → is_finished k ≡ false
      → (is_waiting k ≡ true → w.spin me ≡ some (place t))
      → Lands (epilogue_of k t (w.spin me) w)
  unfolding epilogue_of release_lock insert set_queue set_state inserted released ended
  epilogue_of-Lands running e run fin wait = cc
  epilogue_of-Lands ready e run fin wait = (inserted, refl, inserted-IsSafe e)
  epilogue_of-Lands waiting e run fin wait = (released, rw (wait refl) refl, released-IsSafe e)
  epilogue_of-Lands finishing e run fin wait = (ended, refl, ended-IsSafe e)
  epilogue_of-Lands finished e run fin wait = cc

module _ (cores : ℕ) (place : ℕ → ℕ) (s : System) (v : IsSafe cores place s) where
  -- The `epilogue` behind a switch does not fail.
  pub land-IsSafe :
      (me : ℕ)
      → s.away me ≡ true
      → (w' : World) × (land me (true, s.world) ≡ some w')
        × IsSafe cores place (system w' (update s.away me false))
  unfolding land epilogue
  land-IsSafe me gone =
      let (lt, t, p, at, run, fin, wait) = v.behind me gone in
      rw p (epilogue_of-Lands cores place s v me t gone lt p at (s.world.state t) refl run fin wait)

  pub woken-IsSafe :
      (l t : ℕ) (q : List ℕ)
      → s.world.lists l ≡ t ∷ q
      → s.world.locked l ≡ false
      → IsSafe cores place (system (woken l t q s.world) s.away)
  unfolding woken
  woken-IsSafe l t q e free =
      let w = s.world in
      let mem : (k : ℕ)
          → occurrences k q ≡ one_if (is_waiting (w.state k) && (place k == l)) - one_if (t == k) =
        λ k.
          let z : occurrences k (t ∷ q) ≡ one_if (is_waiting (w.state k) && (place k == l)) =
            subst (λ xs. occurrences k xs ≡ one_if (is_waiting (w.state k) && (place k == l))) e
              (v.sleeping l k) in
          ground arith in
      let z : occurrences t (t ∷ q) ≡ one_if (is_waiting (w.state t) && (place t == l)) =
        subst (λ xs. occurrences t xs ≡ one_if (is_waiting (w.state t) && (place t == l))) e
          (v.sleeping l t) in
      let a : (is_waiting (w.state t) ≡ true) × (place t ≡ l) = ground arith in
      let b : in_flight s t ≡ false = ground (arith, v.held t) in
      record {
        current = λ c k hc. ground (arith, v.current c k hc, one_state (w.state t));
        queued = λ c r k. ground (
          arith,
          v.queued c r k,
          occurrences-push w.queues (w.cpu t) (w.rank t) c r k t,
          one_state (w.state t),
        );
        sleeping = λ m k. ground (arith, v.sleeping m k, mem k, one_state (w.state t));
        behind = λ c y.
            let (lt', u, p, at', run, fin, wait) = v.behind c y in
            (lt', u, p, at', ground arith, ground arith, λ z. ground (arith, wait));
        held = λ u f g. ground (arith, v.held u);
        alone = λ u x f g i j. ground (arith, v.alone u x);
      }
