-- ===== src/Threads/Variable/Wait.antt =====
-- What `ConditionalVariable::wait` does up to the switch.
use depos.Base.{
  ap₂, has-append, ℕ, ◌+◌, ◌%◌, ◌^◌, ◌<◌, ◌≡◌, ◌≢◌, true, false, some, List, [], ◌∷◌, ◌++◌, update,
  arith, refl, subst, sym, ap, ◌∙◌, update_self, update_ne, ◌⊎◌, inl, inr, length, length-append,
  has, ◌∉◌, drop,
}
use depos.Threads.{World, modulus}
use depos.Threads.Thread.{sleep_on}
use depos.Threads.Semaphore.{acquire_lock, release, v}
use depos.Threads.Semaphore.Balanced.{deficit, IsBalanced, v-IsBalanced}
use depos.Threads.Semaphore.Balanced.Frame.{v-IsFrame}
use depos.Threads.Consistent.{IsConsistent}
use depos.Threads.Consistent.Sleep.{sleep_on-IsConsistent}
use depos.Threads.Variable.{Variable, enlist, wait}

-- Each node of the list is a node, has one thread asleep on it, and stands there once.
abbrev pub Sleepers : (ℕ → List ℕ) → List ℕ → Type 0
Sleepers lists [] = Unit
Sleepers lists (n ∷ ns) = (n ≢ 0) × ((t : ℕ) × (lists n ≡ t ∷ [])) × (n ∉ ns) × Sleepers lists ns

-- The count is that of the waiters, and the lock is free.
pub record IsVariable (lock : ℕ) (c : Variable) (w : World) : Type 0 where
  pub counted : c.waiting ≡ length c.waiters
  pub asleep : Sleepers w.lists c.waiters
  pub free : w.locked lock ≡ false

pub Sleepers-same :
    (f g : ℕ → List ℕ) (ns : List ℕ)
    → ((n : ℕ) → has n ns ≡ true → g n ≡ f n)
    → Sleepers f ns
    → Sleepers g ns
Sleepers-same f g [] e h = tt
Sleepers-same f g (n ∷ ns) e (z, (t, a), b, h) =
    (z, (t, e n (ground arith) ∙ a), b, Sleepers-same f g ns (λ m i. e m (ground (arith, i))) h)

Sleepers-append :
    (f : ℕ → List ℕ) (ns : List ℕ) (n t : ℕ)
    → n ≢ 0
    → f n ≡ t ∷ []
    → n ∉ ns
    → Sleepers f ns
    → Sleepers f (ns ++ (n ∷ []))
Sleepers-append f [] n t z e i h = (z, (t, e), refl, tt)
Sleepers-append f (m ∷ ns) n t z e i (a, b, d, h) =
    (a, b, ground (arith, has-append m ns (n ∷ [])), Sleepers-append f ns n t z e (ground arith) h)

unfoldable pub acquired : ℕ → World → World
acquired lock w = record w { locked = update w.locked lock true }

pub acquire_free :
    (lock : ℕ) (w : World) → w.locked lock ≡ false → acquire_lock lock w ≡ some (acquired lock w)
unfolding acquire_lock acquired
acquire_free lock w e = rw e refl

wait_steps :
    (me lock s node buffer size : ℕ) (c : Variable) (w w1 w2 w3 : World)
    → acquire_lock lock w ≡ some w1
    → v s w1 ≡ some w2
    → sleep_on me node lock w2 ≡ some w3
    → wait me lock s node buffer size c w ≡ some (enlist node buffer size c, w3)
unfolding wait release
wait_steps me lock s node buffer size c w w1 w2 w3 e f g = rw (e, f, g) refl

module _ (cores : ℕ) (place : ℕ → ℕ) (w : World) (c : IsConsistent cores place w) (lock s : ℕ)
    (b : IsBalanced s w) (x : Variable) (i : IsVariable lock x w) where
  module _ (me node buffer size : ℕ) (h : me < cores)
      (some_one : (w.queues me 1 ≢ []) ⊎ (w.queues me 0 ≢ [])) (high : w.value s ≢ 2147483647)
      (apart : s ≢ lock) (other : node ≢ s) (new : node ∉ x.waiters) (not_null : node ≢ 0)
      (unused : w.lists node ≡ []) (outside : s ∉ x.waiters)
      (room : length x.waiters + 1 < 2 ^ 64) where
    -- With the locks of the variable and of the mutex free and another thread for the processor, `wait` with a fresh node
    -- ends: the mutex is released, the current thread alone sleeps on the node, the node is the last of the waiters, both locks
    -- are free, and the counters and the threads stay consistent.
    pub wait-IsVariable :
        (w' : World) × (place' : ℕ → ℕ) × (wait me lock s node buffer size x w
          ≡ some (enlist node buffer size x, w'))
        × ((enlist node buffer size x).waiters ≡ x.waiters ++ (node ∷ []))
        × (w'.lists node ≡ w.heads me ∷ [])
        × (w'.value s ≡ (w.value s + 1) % modulus)
        × (w'.lists s ≡ drop 1 (w.lists s))
        × IsBalanced s w'
        × IsVariable lock (enlist node buffer size x) w'
        × IsConsistent cores place' w'
    unfolding acquired enlist
    wait-IsVariable =
        let w1 = acquired lock w in
        let c1 : IsConsistent cores place w1 = record {
          current = c.current;
          queued = c.queued;
          sleeping = c.sleeping;
        } in
        let b1 : IsBalanced s w1 = record {
          waiting_for = b.waiting_for;
          word = b.word;
          free = update_ne w.locked lock true s apart ∙ b.free;
        } in
        let (w2, place2, e2, up, b2, c2) = v-IsBalanced cores place w1 c1 s b1 high in
        let f = v-IsFrame s w1 w2 b1 e2 in
        let some_one' : (w2.queues me 1 ≢ []) ⊎ (w2.queues me 0 ≢ []) = elim some_one [
          | inl a ↦ inl (f.queues me 1 a)
          | inr a ↦ inr (f.queues me 0 a)
        ] in
        let (w3, e3, lists, locked, value, c3) =
          sleep_on-IsConsistent cores place2 w2 c2 me h some_one' node lock in
        let mine : w3.lists node ≡ w.heads me ∷ [] =
          ap (λ g. g node) lists
          ∙ (update_self w2.lists node (w2.lists node ++ (w2.heads me ∷ []))
              ∙ ap₂ (λ (l : List ℕ) (t : ℕ). l ++ (t ∷ [])) (f.lists node other ∙ unused)
                  (ap (λ g. g me) f.heads)) in
        let others : (n : ℕ) → n ≢ node → w3.lists n ≡ w2.lists n = λ n a.
          ap (λ g. g n) lists ∙ update_ne w2.lists node (w2.lists node ++ (w2.heads me ∷ [])) n a in
        let list_s = others s (λ e. other (sym e)) in
        let value_s : w3.value s ≡ w2.value s = ap (λ g. g s) value in
        let locked_s : w3.locked s ≡ false =
          ap (λ g. g s) locked ∙ (update_ne w2.locked lock false s apart ∙ b2.free) in
        let kept : (n : ℕ) → has n x.waiters ≡ true → w3.lists n ≡ w.lists n = λ n a.
          others n (λ e. absurd (ground (arith, ap (λ k. has k x.waiters) e)))
          ∙ f.lists n (λ e. absurd (ground (arith, ap (λ k. has k x.waiters) e))) in
        let asleep = Sleepers-same w.lists w3.lists x.waiters kept i.asleep in
        (
          w3,
          update place2 (w2.heads me) node,
          wait_steps me lock s node buffer size x w w1 w2 w3 (acquire_free lock w i.free) e2 e3,
          refl,
          mine,
          value_s ∙ up.1,
          list_s ∙ up.0,
          record {
            waiting_for = ap length list_s ∙ (b2.waiting_for ∙ ap deficit (sym value_s));
            word = subst (λ k. k < modulus) (sym value_s) b2.word;
            free = locked_s;
          },
          record {
            counted = omega (arith, i.counted, length-append x.waiters (node ∷ []));
            asleep = Sleepers-append w3.lists x.waiters node (w.heads me) not_null mine new asleep;
            free = ap (λ g. g lock) locked ∙ update_self w2.locked lock false;
          },
          c3,
        )
