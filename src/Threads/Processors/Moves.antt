-- ===== src/Threads/Processors/Moves.antt =====
-- Each step of a processor keeps the threads in their places.
use depos.Base.{
  fun_ext, ℕ, ◌-◌, ◌<◌, ◌≡◌, ◌≢◌, inl, inr, ◌==◌, ◌&&◌, not, true, false, none, some, List, ◌∷◌,
  update, arith, subst, eq-cases,
}
use depos.Threads.{World, State, waiting}
use depos.Threads.Count.{occurrences, occurrences-append}
use depos.Threads.Consistent.{is_running, is_ready, is_waiting, one_if, one_state, occurrences-put}
use depos.Threads.Processors.{System, system, lock}
use depos.Threads.Processors.Departure.{left, queue_asleep}
use depos.Threads.Processors.Flight.{in_flight, is_finished, IsSafe}

module _ (cores : ℕ) (place : ℕ → ℕ) (s : System) (v : IsSafe cores place s) where
  module _ (me r next : ℕ) (q : List ℕ) (h : me < cores) (here : s.away me ≡ false)
      (e : s.world.queues me r ≡ next ∷ q) where
    abbrev w : World
    w = s.world

    queue_of :
        (t : ℕ)
        → occurrences t q
          ≡ one_if (
              is_ready (w.state t) && (not (in_flight s t) && ((w.cpu t == me) && (w.rank t == r))))
            - one_if (next == t)
    queue_of t =
        let z : occurrences t (next ∷ q)
            ≡ one_if (
                is_ready (w.state t)
                && (not (in_flight s t) && ((w.cpu t == me) && (w.rank t == r)))) =
          subst
            (λ l.
              occurrences t l
              ≡ one_if (
                  is_ready (w.state t)
                  && (not (in_flight s t) && ((w.cpu t == me) && (w.rank t == r)))))
            e (v.queued me r t) in
        ground arith

    next_facts :
        (is_ready (w.state next) ≡ true)
        × (w.cpu next ≡ me)
        × (w.rank next ≡ r)
        × (in_flight s next ≡ false)
    next_facts =
        let z : occurrences next (next ∷ q)
            ≡ one_if (
                is_ready (w.state next)
                && (not (in_flight s next) && ((w.cpu next == me) && (w.rank next == r)))) =
          subst
            (λ l.
              occurrences next l
              ≡ one_if (
                  is_ready (w.state next)
                  && (not (in_flight s next) && ((w.cpu next == me) && (w.rank next == r)))))
            e (v.queued me r next) in
        ground arith

    head_facts : (is_running (w.state (w.heads me)) ≡ true) × (w.cpu (w.heads me) ≡ me)
    head_facts = ground (arith, v.current me (w.heads me) h)

    next-ne : next ≢ w.heads me
    next-ne = let a = head_facts in let b = next_facts in ground (arith, one_state (w.state next))

    module _ (k : State) (m1 : is_running k ≡ false) (m2 : is_waiting k ≡ false)
        (m3 : is_finished k ≡ false) where
      pub left-IsSafe :
          IsSafe cores place (system (left me r next q k none w) (update s.away me true))
      unfolding left
      left-IsSafe =
          let a = head_facts in
          let b = next_facts in
          let ne = next-ne in
          record {
            current = λ c t hc. ground (arith, v.current c t hc, v.current me t h);
            queued = λ c r' t. ground (
              arith,
              v.queued c r' t,
              queue_of t,
              occurrences-put w.queues me r c r' t q,
              one_state (w.state t),
            );
            sleeping = λ l t. ground (arith, v.sleeping l t, one_state (w.state t));
            behind = λ c y. elim (eq-cases c me) [
              | inl hit ↦ (
                ground arith,
                w.heads me,
                ground arith,
                ground arith,
                ground arith,
                ground arith,
                ground arith,
              )
              | inr miss ↦
                  let (lt, u, p, at, run, fin, wait) = v.behind c (ground arith) in
                  (lt, u, ground arith, ground arith, ground arith, ground arith, ground arith)
            ];
            held = λ t f g. ground (arith, v.held t);
            alone = λ t u f g i j. ground (arith, v.alone t u);
          }

    pub asleep-IsSafe :
        (l : ℕ)
        → w.locked l ≡ false
        → IsSafe cores (update place (w.heads me) l) (
            system
              (left me r next q waiting (some l) (queue_asleep me l (lock l w)))
              (update s.away me true))
    unfolding left queue_asleep lock
    asleep-IsSafe l free =
        let a = head_facts in
        let b = next_facts in
        let ne = next-ne in
        record {
          current = λ c t hc. ground (arith, v.current c t hc, v.current me t h);
          queued = λ c r' t. ground (
            arith,
            v.queued c r' t,
            queue_of t,
            occurrences-put w.queues me r c r' t q,
            one_state (w.state t),
          );
          sleeping = λ m t. ground (
            arith,
            v.sleeping m t,
            one_state (w.state t),
            occurrences-append t (w.heads me) (w.lists l),
          );
          behind = λ c y. elim (eq-cases c me) [
            | inl hit ↦ (
              ground arith,
              w.heads me,
              ground arith,
              ground arith,
              ground arith,
              ground arith,
              ground arith,
            )
            | inr miss ↦
                let (lt, u, p, at, run, fin, wait) = v.behind c (ground arith) in
                (
                  lt,
                  u,
                  ground arith,
                  ground arith,
                  ground arith,
                  ground arith,
                  λ z. ground (arith, wait),
                )
          ];
          held = λ t f g. ground (arith, v.held t);
          alone = λ t u f g i j. ground (arith, v.alone t u, v.held t, v.held u);
        }

  -- A processor that does nothing.
  pub stays-IsSafe :
      (me : ℕ) → s.away me ≡ false → IsSafe cores place (system s.world (update s.away me false))
  stays-IsSafe me here =
      let same_away : s.away ≡ update s.away me false = fun_ext (λ c. ground arith) in
      subst (λ a. IsSafe cores place (system s.world a)) same_away v
