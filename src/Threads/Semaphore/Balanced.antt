-- ===== src/Threads/Semaphore/Balanced.antt =====
-- The counter of a semaphore says how many threads sleep on it.
pub mod Frame
use depos.Base.{
  ℕ, ◌+◌, ◌-◌, ◌%◌, ◌<◌, ◌≡◌, ◌≢◌, ◌==◌, if◌then◌else◌, ◌||◌, true, false, Option, some, List, [],
  ◌∷◌, ◌++◌, update, arith, List-cases, Bool-cases, inl, inr, ◌⊎◌, refl, subst, ap, update_self,
  length, length-append, ◌∙◌, drop,
}
use depos.Threads.{World, modulus}
use depos.Threads.Thread.{sleep, wakeup}
use depos.Threads.Semaphore.{is_negative, acquire_lock, release_lock, add_value, p, v}
use depos.Threads.Consistent.{IsConsistent}
use depos.Threads.Consistent.Sleep.{sleep-IsConsistent}
use depos.Threads.Consistent.Wakeup.{wakeup-IsConsistent}

-- how far an `int` is below 0
abbrev pub deficit : ℕ → ℕ
deficit k = if is_negative k then modulus - k else 0

-- The counter is below 0 by the number of threads that sleep, and the lock is free.
pub record IsBalanced (s : ℕ) (w : World) : Type 0 where
  pub waiting_for : length (w.lists s) ≡ deficit (w.value s)
  pub word : w.value s < modulus
  pub free : w.locked s ≡ false

pub prepared : ℕ → ℕ → World → World
prepared s k w = record w {
  locked = update w.locked s true;
  value = update w.value s ((w.value s + k) % modulus);
}

prepared-IsConsistent :
    (cores : ℕ) (place : ℕ → ℕ) (w : World) (s k : ℕ)
    → IsConsistent cores place w
    → IsConsistent cores place (prepared s k w)
unfolding prepared
prepared-IsConsistent cores place w s k c = record {
  current = c.current;
  queued = c.queued;
  sleeping = c.sleeping;
}

p_full :
    (me s : ℕ) (w : World)
    → w.locked s ≡ false
    → 0 < w.value s
    → is_negative (w.value s) ≡ false
    → p me s w ≡ some (release_lock s (prepared s (modulus - 1) w))
unfolding p acquire_lock add_value prepared
p_full me s w e h n = rw e (ground arith)

p_empty :
    (me s : ℕ) (w : World)
    → w.locked s ≡ false
    → ((w.value s == 0) || is_negative (w.value s)) ≡ true
    → p me s w ≡ sleep me s (prepared s (modulus - 1) w)
unfolding p acquire_lock add_value prepared
p_empty me s w e h = rw (e, h) refl

pub v_empty :
    (s : ℕ) (w w' : World)
    → w.locked s ≡ false
    → is_negative (w.value s) ≡ true
    → wakeup s (prepared s 1 w) ≡ some w'
    → v s w ≡ some (release_lock s w')
unfolding v acquire_lock add_value prepared
v_empty s w w' e h f = rw (e, h, f) refl

pub v_full :
    (s : ℕ) (w : World)
    → w.locked s ≡ false
    → is_negative (w.value s) ≡ false
    → v s w ≡ some (release_lock s (prepared s 1 w))
unfolding v acquire_lock add_value prepared
v_full s w e h = rw (e, h) refl

module _ (cores : ℕ) (place : ℕ → ℕ) (w : World) (c : IsConsistent cores place w) (s : ℕ)
    (b : IsBalanced s w) where
  abbrev pub Done : (World → Type 0) → Option World → Type 0
  Done P o =
      (w' : World) × (place' : ℕ → ℕ) × (o ≡ some w')
      × P w'
      × IsBalanced s w'
      × IsConsistent cores place' w'

  down : ℕ → ℕ
  down k = (k + (modulus - 1)) % modulus

  up : ℕ → ℕ
  up k = (k + 1) % modulus

  length-snoc : (t : ℕ) (xs : List ℕ) → length (xs ++ (t ∷ [])) ≡ length xs + 1
  length-snoc t xs = length-append xs (t ∷ [])

  deficit-down :
      (k : ℕ)
      → k < modulus
      → k ≢ 2147483648
      → (down k < modulus)
        × (deficit (down k) ≡ deficit k + (if (k == 0) || is_negative k then 1 else 0))
  unfolding down
  deficit-down k h ne = ground arith

  deficit-up :
      (k : ℕ) → k < modulus → k ≢ 2147483647 → (up k < modulus) × (deficit (up k) ≡ deficit k - 1)
  unfolding up
  deficit-up k h ne = ground arith

  module _ (me : ℕ) (h : me < cores) (some_one : (w.queues me 1 ≢ []) ⊎ (w.queues me 0 ≢ []))
      (low : w.value s ≢ 2147483648) where
    -- what `p` promises: it ends, and the thread is on the list of the semaphore exactly if there was
    -- nothing to take
    abbrev Downed : World → Type 0
    Downed w' =
        (w'.lists s ≡ (
          if (w.value s == 0) || is_negative (w.value s)
          then w.lists s ++ (w.heads me ∷ [])
          else w.lists s))
        × (w'.value s ≡ (w.value s + (modulus - 1)) % modulus)

    p_available : ((w.value s == 0) || is_negative (w.value s)) ≡ false → Done Downed (p me s w)
    unfolding prepared release_lock down
    p_available n =
        let d = deficit-down (w.value s) b.word low in
        let u : update w.value s ((w.value s + (modulus - 1)) % modulus) s ≡ down (w.value s) =
          update_self w.value s (down (w.value s)) in
        let c' = prepared-IsConsistent cores place w s (modulus - 1) c in
        (
          release_lock s (prepared s (modulus - 1) w),
          place,
          p_full me s w b.free (ground arith) (ground arith),
          (rw n refl, u),
          record {
            waiting_for = rw u (ground (arith, b.waiting_for));
            word = rw u (d.0);
            free = update_self (update w.locked s true) s false;
          },
          record { current = c'.current; queued = c'.queued; sleeping = c'.sleeping },
        )

    p_blocked : ((w.value s == 0) || is_negative (w.value s)) ≡ true → Done Downed (p me s w)
    unfolding prepared down
    p_blocked n =
        let d = deficit-down (w.value s) b.word low in
        let u : update w.value s ((w.value s + (modulus - 1)) % modulus) s ≡ down (w.value s) =
          update_self w.value s (down (w.value s)) in
        let c' = prepared-IsConsistent cores place w s (modulus - 1) c in
        let (w', e, el, ef, ev, cw) =
          sleep-IsConsistent cores place (prepared s (modulus - 1) w) c' me h some_one s in
        let u' : w'.value s ≡ down (w.value s) = ap (λ f. f s) ev ∙ u in
        (
          w',
          update place (w.heads me) s,
          p_empty me s w b.free n ∙ e,
          (rw n el, u'),
          record {
            waiting_for =
                rw (u', el, length-snoc (w.heads me) (w.lists s)) (ground (arith, b.waiting_for));
            word = rw u' (d.0);
            free = ef;
          },
          cw,
        )

    -- With the lock of the semaphore free and another thread for the processor, `p` ends. The counter
    -- is one less, the current thread sleeps on the semaphore exactly if the counter was not positive,
    -- and the counter, the lock and the threads stay consistent.
    pub p-IsBalanced : Done Downed (p me s w)
    p-IsBalanced = elim (Bool-cases ((w.value s == 0) || is_negative (w.value s))) [
      | inl n ↦ p_blocked n
      | inr n ↦ p_available n
    ]

  -- The counter is one more, and the first thread that sleeps is taken off the list.
  abbrev Upped : World → Type 0
  Upped w' = (w'.lists s ≡ drop 1 (w.lists s)) × (w'.value s ≡ (w.value s + 1) % modulus)

  module _ (high : w.value s ≢ 2147483647) where
    drop-none : (xs : List ℕ) → length xs ≡ 0 → xs ≡ drop 1 xs
    drop-none [] e = refl
    drop-none (x ∷ xs) e = absurd (omega arith)

    v_free : is_negative (w.value s) ≡ false → Done Upped (v s w)
    unfolding prepared release_lock up
    v_free n =
        let d = deficit-up (w.value s) b.word high in
        let u : update w.value s ((w.value s + 1) % modulus) s ≡ up (w.value s) =
          update_self w.value s (up (w.value s)) in
        let c' = prepared-IsConsistent cores place w s 1 c in
        (
          release_lock s (prepared s 1 w),
          place,
          v_full s w b.free n,
          (drop-none (w.lists s) (ground (arith, b.waiting_for)), u),
          record {
            waiting_for = rw u (ground (arith, b.waiting_for));
            word = rw u (d.0);
            free = update_self (update w.locked s true) s false;
          },
          record { current = c'.current; queued = c'.queued; sleeping = c'.sleeping },
        )

    v_waking :
        is_negative (w.value s) ≡ true
        → (t : ℕ) (q : List ℕ) → w.lists s ≡ t ∷ q
        → Done Upped (v s w)
    unfolding prepared release_lock up
    v_waking n t q eq =
        let d = deficit-up (w.value s) b.word high in
        let u : update w.value s ((w.value s + 1) % modulus) s ≡ up (w.value s) =
          update_self w.value s (up (w.value s)) in
        let c' = prepared-IsConsistent cores place w s 1 c in
        let (w', e, el, ev, es, cw) =
          wakeup-IsConsistent cores place (prepared s 1 w) c' s t q eq in
        let u' : w'.value s ≡ up (w.value s) = ap (λ f. f s) ev ∙ u in
        let len : length (t ∷ q) ≡ deficit (w.value s) =
          subst (λ l. length l ≡ deficit (w.value s)) eq b.waiting_for in
        (
          release_lock s w',
          place,
          v_empty s w w' b.free n e,
          (rw eq el, u'),
          record {
            waiting_for = rw (u', el) (ground arith);
            word = rw u' (d.0);
            free = update_self w'.locked s false;
          },
          record { current = cw.current; queued = cw.queued; sleeping = cw.sleeping },
        )

    -- With the lock of the semaphore free, `v` ends. The counter is one more, the thread that sleeps on
    -- the semaphore the longest is taken off its list where there is one, and the counter, the lock
    -- and the threads stay consistent.
    pub v-IsBalanced : Done Upped (v s w)
    v-IsBalanced = elim (Bool-cases (is_negative (w.value s))) [
      | inr n ↦ v_free n
      | inl n ↦ elim (List-cases (w.lists s)) [
        | inl e ↦ absurd (
            let z : 0 ≡ deficit (w.value s) =
              subst (λ l. length l ≡ deficit (w.value s)) e b.waiting_for in
            ground (arith, b.word))
        | inr (t, q, e) ↦ v_waking n t q e
      ]
    ]
