-- ===== src/Threads/Consistent/Sleep.antt =====
-- `Thread::sleep` and `Thread::exit` give the processor to another thread.
use depos.Base.{
  sym, ℕ, ◌+◌, ◌-◌, ◌%◌, ◌<◌, ◌≡◌, ◌≢◌, ◌==◌, ◌&&◌, false, none, some, List, [], ◌∷◌, ◌++◌, update,
  arith, List-cases, inl, inr, ◌⊎◌, refl, subst, update_self, ◌∙◌,
}
use depos.Threads.{World, running, waiting, finishing, finished, modulus}
use depos.Threads.Scheduler.{set_queue, take_from, or_else, remove_from, set_head, remove}
use depos.Threads.Thread.{
  set_state, release_lock, epilogue_of, dispatch_next, dispatch_sleeping, exit, sleep, sleep_on,
}
use depos.Threads.Count.{occurrences, occurrences-append}
use depos.Threads.Consistent.{
  IsConsistent, is_ready, one_if, one_state, put, occurrences-put, dispatch_to, next_facts,
  current_facts,
}

-- the thread that processor `me` takes next, its queue and the rest of that queue
abbrev pub IsNext : World → ℕ → ℕ → ℕ → List ℕ → Type 0
IsNext w me r next q = ((w.queues me r) ≡ next ∷ q) × ((r ≡ 1) ⊎ ((r ≡ 0) × (w.queues me 1 ≡ [])))

unfoldable pub removed : ℕ → ℕ → ℕ → List ℕ → World → World
removed me r next q w = record w { queues = put w.queues me r q; heads = update w.heads me next }

pub remove_next :
    (me r next : ℕ) (q : List ℕ) (w : World)
    → IsNext w me r next q
    → remove me 0 w ≡ some (some next, removed me r next q w)
unfolding remove remove_from take_from or_else set_head set_queue removed
remove_next me r next q w (e, inl f) = rw f (rw (subst (λ k. w.queues me k ≡ next ∷ q) f e) refl)
remove_next me r next q w (e, inr (f, g)) =
    rw f (rw (g, subst (λ k. w.queues me k ≡ next ∷ q) f e) refl)

-- The world after the current thread of `me` went to sleep on `l`, which released `lock`.
slept : ℕ → ℕ → ℕ → List ℕ → ℕ → ℕ → World → World
slept me r next q l lock w =
    let t = w.heads me in
    record w {
      heads = update w.heads me next;
      state = update (update w.state t waiting) next running;
      previous = update w.previous me (some t);
      spin = update w.spin me (some lock);
      queues = put w.queues me r q;
      lists = update w.lists l (w.lists l ++ (t ∷ []));
      locked = update w.locked lock false;
    }

sleep_next :
    (me r next : ℕ) (q : List ℕ) (l : ℕ) (w : World)
    → IsNext w me r next q
    → next ≢ w.heads me
    → sleep me l w ≡ some (slept me r next q l l w)
unfolding sleep dispatch_sleeping set_state slept removed epilogue_of release_lock
sleep_next me r next q l w n ne =
    let t = w.heads me in
    let w1 = set_state t waiting (record w { lists = update w.lists l (w.lists l ++ (t ∷ [])) }) in
    rw (remove_next me r next q w1 n) (
      dispatch_to me t next (some l) (removed me r next q w1) ne
      ∙ rw (update_self w.state t waiting) refl)

sleep_on_next :
    (me r next : ℕ) (q : List ℕ) (l lock : ℕ) (w : World)
    → IsNext w me r next q
    → next ≢ w.heads me
    → sleep_on me l lock w ≡ some (slept me r next q l lock w)
unfolding sleep_on dispatch_sleeping set_state slept removed epilogue_of release_lock
sleep_on_next me r next q l lock w n ne =
    let t = w.heads me in
    let w1 = set_state t waiting (record w { lists = update w.lists l (w.lists l ++ (t ∷ [])) }) in
    rw (remove_next me r next q w1 n) (
      dispatch_to me t next (some lock) (removed me r next q w1) ne
      ∙ rw (update_self w.state t waiting) refl)

-- The world after the current thread of `me` ended.
gone : ℕ → ℕ → ℕ → List ℕ → World → World
gone me r next q w =
    let t = w.heads me in
    record w {
      heads = update w.heads me next;
      state = update (update (update w.state t finishing) next running) t finished;
      previous = update w.previous me (some t);
      spin = update w.spin me none;
      queues = put w.queues me r q;
      count = (w.count + (modulus - 1)) % modulus;
    }

exit_next :
    (me r next : ℕ) (q : List ℕ) (w : World)
    → IsNext w me r next q
    → next ≢ w.heads me
    → exit me w ≡ some (gone me r next q w)
unfolding exit dispatch_next set_state gone removed epilogue_of
exit_next me r next q w n ne =
    let t = w.heads me in
    rw (remove_next me r next q w n) (
      dispatch_to me t next none (set_state t finishing (removed me r next q w)) ne
      ∙ rw (update_self w.state t finishing) refl)

-- Some thread waits for processor `me`, such as its idle thread.
pub IsNext-of :
    (w : World) (me : ℕ)
    → (w.queues me 1 ≢ []) ⊎ (w.queues me 0 ≢ [])
    → (r : ℕ) × (next : ℕ) × (q : List ℕ) × IsNext w me r next q
IsNext-of w me some_one = elim (List-cases (w.queues me 1)) [
  | inr (next, q, e) ↦ (1, next, q, (e, inl refl))
  | inl e ↦ elim (List-cases (w.queues me 0)) [
    | inr (next, q, e') ↦ (0, next, q, (e', inr (refl, e)))
    | inl e' ↦ elim some_one [ inl f ↦ absurd (f e) | inr f ↦ absurd (f e') ]
  ]
]

module _ (cores : ℕ) (place : ℕ → ℕ) (w : World) (v : IsConsistent cores place w) where
  module _ (me r next : ℕ) (q : List ℕ) (h : me < cores) (e : w.queues me r ≡ next ∷ q) where
    next-ne : next ≢ w.heads me
    next-ne =
        let a = current_facts cores place w v me h in
        let b = next_facts cores place w v me r next q e in ground (arith, one_state (w.state next))

    queue_after :
        (t : ℕ)
        → occurrences t q
          ≡ one_if (is_ready (w.state t) && ((w.cpu t == me) && (w.rank t == r)))
            - one_if (next == t)
    queue_after t =
        let z : occurrences t (next ∷ q)
            ≡ one_if (is_ready (w.state t) && ((w.cpu t == me) && (w.rank t == r))) =
          subst
            (λ l.
              occurrences t l
              ≡ one_if (is_ready (w.state t) && ((w.cpu t == me) && (w.rank t == r))))
            e (v.queued me r t) in
        ground arith

    slept-IsConsistent :
        (l lock : ℕ) → IsConsistent cores (update place (w.heads me) l) (slept me r next q l lock w)
    unfolding slept
    slept-IsConsistent l lock =
        let a = current_facts cores place w v me h in
        let b = next_facts cores place w v me r next q e in
        let ne = next-ne in
        record {
          current = λ c t hc. ground (arith, v.current c t hc, v.current me t h);
          queued = λ c r' t. ground (
            arith,
            v.queued c r' t,
            queue_after t,
            occurrences-put w.queues me r c r' t q,
            one_state (w.state t),
          );
          sleeping = λ k t. ground (
            arith,
            v.sleeping k t,
            one_state (w.state t),
            occurrences-append t (w.heads me) (w.lists l),
          );
        }

    gone-IsConsistent : IsConsistent cores place (gone me r next q w)
    unfolding gone
    gone-IsConsistent =
        let a = current_facts cores place w v me h in
        let b = next_facts cores place w v me r next q e in
        let ne = next-ne in
        record {
          current = λ c t hc. ground (arith, v.current c t hc, v.current me t h);
          queued = λ c r' t. ground (
            arith,
            v.queued c r' t,
            queue_after t,
            occurrences-put w.queues me r c r' t q,
            one_state (w.state t),
          );
          sleeping = λ k t. ground (arith, v.sleeping k t, one_state (w.state t));
        }

  module _ (me : ℕ) (h : me < cores) (some_one : (w.queues me 1 ≢ []) ⊎ (w.queues me 0 ≢ [])) where
    -- Where another thread waits for the processor, `sleep` ends with the thread on its list, the
    -- lock of the list released, and the threads consistent.
    pub sleep-IsConsistent :
        (l : ℕ)
        → (w' : World) × (sleep me l w ≡ some w')
          × (w'.lists l ≡ w.lists l ++ (w.heads me ∷ []))
          × (w'.locked l ≡ false)
          × (w'.value ≡ w.value)
          × IsConsistent cores (update place (w.heads me) l) w'
    unfolding slept
    sleep-IsConsistent l =
        let (r, next, q, n) = IsNext-of w me some_one in
        (
          slept me r next q l l w,
          sleep_next me r next q l w n (next-ne me r next q h n.0),
          update_self w.lists l (w.lists l ++ (w.heads me ∷ [])),
          update_self w.locked l false,
          refl,
          slept-IsConsistent me r next q h n.0 l l,
        )

    pub sleep_on-IsConsistent :
        (l lock : ℕ)
        → (w' : World) × (sleep_on me l lock w ≡ some w')
          × (w'.lists ≡ update w.lists l (w.lists l ++ (w.heads me ∷ [])))
          × (w'.locked ≡ update w.locked lock false)
          × (w'.value ≡ w.value)
          × IsConsistent cores (update place (w.heads me) l) w'
    unfolding slept
    sleep_on-IsConsistent l lock =
        let (r, next, q, n) = IsNext-of w me some_one in
        (
          slept me r next q l lock w,
          sleep_on_next me r next q l lock w n (next-ne me r next q h n.0),
          refl,
          refl,
          refl,
          slept-IsConsistent me r next q h n.0 l lock,
        )

    -- Where the threads are consistent and another one waits for the processor, `exit` ends with the thread finished and another one
    -- current, one thread less is counted, no list of sleeping threads changes, and the threads stay consistent.
    pub exit-IsConsistent :
        (w' : World) × (exit me w ≡ some w')
        × (w'.state (w.heads me) ≡ finished)
        × (w'.heads me ≢ w.heads me)
        × (w'.count ≡ (w.count + (modulus - 1)) % modulus)
        × (w'.lists ≡ w.lists)
        × IsConsistent cores place w'
    unfolding gone
    exit-IsConsistent =
        let (r, next, q, n) = IsNext-of w me some_one in
        (
          gone me r next q w,
          exit_next me r next q w n (next-ne me r next q h n.0),
          update_self (update (update w.state (w.heads me) finishing) next running) (w.heads me)
              finished,
          λ same. next-ne me r next q h n.0 (sym (update_self w.heads me next) ∙ same),
          refl,
          refl,
          gone-IsConsistent me r next q h n.0,
        )
