-- ===== src/Threads/Consistent/Switch.antt =====
-- `Thread::reschedule` keeps every thread in its place.
use depos.Base.{
  ℕ, ◌-◌, ◌<◌, ◌≡◌, ◌≢◌, ◌==◌, ◌&&◌, none, some, List, [], ◌∷◌, ◌++◌, update, arith, List-cases,
  inl, inr, refl, subst,
}
use depos.Threads.{World, running, ready}
use depos.Threads.Scheduler.{set_queue, insert, take_from, or_else, remove_from, set_head, remove}
use depos.Threads.Thread.{
  set_state, epilogue_of, epilogue, depart, dispatch, dispatch_next, reschedule,
}
use depos.Threads.Count.{occurrences}
use depos.Threads.Consistent.{
  IsConsistent, is_running, is_ready, is_waiting, one_if, one_state, put, occurrences-put,
  occurrences-push, next_facts, current_facts,
}

-- The world after a switch of `me` to `next`, where the thread before becomes ready.
unfoldable pub switched : ℕ → ℕ → List ℕ → World → World
switched me next q w =
    let t = w.heads me in
    let queues' = put w.queues me 1 q in
    record w {
      heads = update w.heads me next;
      state = update (update w.state t ready) next running;
      previous = update w.previous me (some t);
      spin = update w.spin me none;
      queues = put queues' (w.cpu t) (w.rank t) (queues' (w.cpu t) (w.rank t) ++ (t ∷ []));
    }

reschedule-none : (me : ℕ) (w : World) → w.queues me 1 ≡ [] → reschedule me w ≡ some w
unfolding remove remove_from take_from or_else set_head reschedule dispatch_next
reschedule-none me w e = rw e refl

pub reschedule-some :
    (me next : ℕ) (q : List ℕ) (w : World)
    → w.queues me 1 ≡ next ∷ q
    → next ≢ w.heads me
    → reschedule me w ≡ some (switched me next q w)
unfolding remove remove_from take_from or_else set_head reschedule dispatch_next dispatch depart
    epilogue epilogue_of set_state insert set_queue switched
reschedule-some me next q w e ne = rw e (ground arith)

module _ (cores : ℕ) (place : ℕ → ℕ) (w : World) (v : IsConsistent cores place w) where
  module _ (me next : ℕ) (q : List ℕ) (h : me < cores) (e : w.queues me 1 ≡ next ∷ q) where
    pub next-ne : next ≢ w.heads me
    next-ne =
        let a = current_facts cores place w v me h in
        let b = next_facts cores place w v me 1 next q e in ground (arith, one_state (w.state next))

    switched-current :
        (c t : ℕ)
        → c < cores
        → let w' = switched me next q w in
          (w'.heads c == t) ≡ (is_running (w'.state t) && (w'.cpu t == c))
    unfolding switched
    switched-current c t hc =
        let a = current_facts cores place w v me h in
        let b = next_facts cores place w v me 1 next q e in
        let ne = next-ne in ground (arith, v.current c t hc, v.current me t h)

    queue_after :
        (t : ℕ)
        → occurrences t q
          ≡ one_if (is_ready (w.state t) && ((w.cpu t == me) && (w.rank t == 1)))
            - one_if (next == t)
    queue_after t =
        let z : occurrences t (next ∷ q)
            ≡ one_if (is_ready (w.state t) && ((w.cpu t == me) && (w.rank t == 1))) =
          subst
            (λ l.
              occurrences t l
              ≡ one_if (is_ready (w.state t) && ((w.cpu t == me) && (w.rank t == 1))))
            e (v.queued me 1 t) in
        ground arith

    switched-queued :
        (c r t : ℕ)
        → let w' = switched me next q w in
          occurrences t (w'.queues c r)
          ≡ one_if (is_ready (w'.state t) && ((w'.cpu t == c) && (w'.rank t == r)))
    unfolding switched
    switched-queued c r t =
        let a = current_facts cores place w v me h in
        let b = next_facts cores place w v me 1 next q e in
        let ne = next-ne in
        let p = w.heads me in
        ground (
          arith,
          v.queued c r t,
          queue_after t,
          occurrences-push (put w.queues me 1 q) (w.cpu p) (w.rank p) c r t p,
          occurrences-put w.queues me 1 c r t q,
          one_state (w.state t),
        )

    switched-sleeping :
        (l t : ℕ)
        → let w' = switched me next q w in
          occurrences t (w'.lists l) ≡ one_if (is_waiting (w'.state t) && (place t == l))
    unfolding switched
    switched-sleeping l t =
        let a = current_facts cores place w v me h in
        let b = next_facts cores place w v me 1 next q e in
        ground (arith, v.sleeping l t, one_state (w.state t))

    pub switched-IsConsistent : IsConsistent cores place (switched me next q w)
    switched-IsConsistent = record {
      current = switched-current;
      queued = switched-queued;
      sleeping = switched-sleeping;
    }

  -- `reschedule` ends, and the threads stay consistent.
  pub reschedule-IsConsistent :
      (me : ℕ)
      → me < cores
      → (w' : World) × (reschedule me w ≡ some w') × IsConsistent cores place w'
  reschedule-IsConsistent me h = elim (List-cases (w.queues me 1)) [
    | inl e ↦ (w, reschedule-none me w e, v)
    | inr (next, q, e) ↦ (
      switched me next q w,
      reschedule-some me next q w e (next-ne me next q h e),
      switched-IsConsistent me next q h e,
    )
  ]
