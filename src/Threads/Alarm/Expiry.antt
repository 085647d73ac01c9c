-- ===== src/Threads/Alarm/Expiry.antt =====
-- The handler of the alarms wakes the threads whose time has come, and no other.
use depos.Base.{
  Bool-cases, ap, ◌∈◌, update_self, ◌&&◌, length, ne→==_false, false, true, has, ◌∷◌, [], ◌≢◌, List,
  ℕ, zero, suc, ◌+◌, ◌*◌, ◌^◌, ltb, leb, some, update, arith, ◌≡◌, ◌<◌, ◌≤◌, refl,
}
use depos.Collections.{Ptr, null}
use depos.Collections.OrderedList.{OrderedList, Nodes, nodes}
use depos.Collections.OrderedList
use depos.Collections.OrderedList.Chain.{IsList}
use depos.Collections.OrderedList.Insertion.{insert_sorted, insert-insert_sorted}
use depos.Collections.OrderedList.Removal.{remove-Removes}
use depos.Collections.OrderedList.Sorted.{IsSorted, has-insert_sorted, insert_sorted-IsSorted}
use depos.Threads.{ready}
use depos.Threads.Consistent.{IsConsistent}
use depos.Threads.Consistent.Wakeup.{woken, wakeup_first, woken-IsConsistent}
use depos.Base.{eq-cases, subst, sym, inl, inr, Bool-cases, ◌∙◌}
use depos.Utility.Time.{sub, convert}
use depos.Threads.{World}
use depos.Threads.Alarm.{wakeup, Alarms, elapsed, with_list, handler}

abbrev Fits : ℕ → Type 0
Fits us = us * 1000000000 < 2 ^ 64

elapsed_lem :
    (now us : ℕ) → now < 2 ^ 63 → us * 1000000000 < 2 ^ 64 → elapsed now us ≡ leb (us * 1000) now
unfolding elapsed sub convert
elapsed_lem now us h k = ground arith

module _ (thread_of : Ptr → ℕ) (size : ℕ) (now : ℕ → ℕ) (k i me : ℕ) (a : Alarms) (w : World) where
  handler_empty :
      (l : OrderedList) (n : Nodes)
      → OrderedList.remove (a.lists me) a.links ≡ (null, l, n)
      → handler thread_of size now (suc k) i me a w ≡ some (with_list me (l, n) a, w)
  unfolding handler
  handler_empty l n e = rw e refl

  handler_wakes :
      (x : Ptr) (l : OrderedList) (n : Nodes) (w' : World)
      → OrderedList.remove (a.lists me) a.links ≡ (x, l, n)
      → x ≢ null
      → elapsed (now i) (a.criterion x) ≡ true
      → wakeup (thread_of x) w ≡ some w'
      → handler thread_of size now (suc k) i me a w
        ≡ handler thread_of size now k (i + 1) me (with_list me (l, n) a) w'
  unfolding handler
  handler_wakes x l n w' e ne past f = rw (e, ne→==_false x null ne, past, f) refl

  handler_waits :
      (x : Ptr) (l l' : OrderedList) (n n' : Nodes)
      → OrderedList.remove (a.lists me) a.links ≡ (x, l, n)
      → x ≢ null
      → elapsed (now i) (a.criterion x) ≡ false
      → OrderedList.insert a.criterion size x l n ≡ some (l', n')
      → handler thread_of size now (suc k) i me a w
        ≡ some (with_list me (l', n') (with_list me (l, n) a), w)
  unfolding handler with_list
  handler_waits x l l' n n' e ne past f =
      rw (e, ne→==_false x null ne, past, update_self a.lists me l, f) refl

abbrev pub Clock : (ℕ → ℕ) → Type 0
Clock now = ((i : ℕ) → now i < 2 ^ 63) × ((i : ℕ) → (j : ℕ) → i ≤ j → now i ≤ now j)

module _ (cores : ℕ) (place : ℕ → ℕ) (thread_of sleeper : Ptr → ℕ) (me : ℕ) where
  -- The alarms `xs` of processor `me`: each has a list of its own, on which its thread sleeps.
  pub record IsArmed (xs : List Ptr) (a : Alarms) (w : World) : Type 0 where
    pub linked : IsList (a.lists me) a.links xs
    pub sorted : IsSorted a.criterion xs
    pub fits : (x : Ptr) → x ∈ xs → a.criterion x * 1000000000 < 2 ^ 64
    pub sleeps : (x : Ptr) → x ∈ xs → w.lists (thread_of x) ≡ sleeper x ∷ []
    pub own : (x y : Ptr) → x ∈ xs → y ∈ xs → thread_of x ≡ thread_of y → x ≡ y
    pub consistent : IsConsistent cores place w

  -- What the handler leaves at the time `t`: the alarms whose time is to come, and the threads of
  -- the others are ready.
  pub record Expired (t : ℕ) (xs : List Ptr) (a : Alarms) (w : World) (a' : Alarms) (w' : World)
      : Type 0 where
    pub left : List Ptr
    pub armed : IsArmed left a' w'
    pub criteria : a'.criterion ≡ a.criterion
    pub later : (x : Ptr) → has x left ≡ (has x xs && ltb t (a.criterion x * 1000))
    pub woken : (x : Ptr) → x ∈ xs → a.criterion x * 1000 ≤ t → w'.state (sleeper x) ≡ ready
    pub ready_stay : (s : ℕ) → w.state s ≡ ready → w'.state s ≡ ready

  abbrev pub Expires : ℕ → ℕ → (ℕ → ℕ) → ℕ → List Ptr → Alarms → World → Type 0
  Expires size fuel now i xs a w =
      (j : ℕ) × (a' : Alarms) × (w' : World) × (i ≤ j)
      × (handler thread_of size now fuel i me a w ≡ some (a', w'))
      × Expired (now j) xs a w a' w'

  empty_Expires :
      (size k : ℕ) (now : ℕ → ℕ) (i : ℕ) (a : Alarms) (w : World)
      → IsArmed [] a w
      → Expires size (suc k) now i [] a w
  unfolding with_list
  empty_Expires size k now i a w v = (
    i,
    with_list me (a.lists me, a.links) a,
    w,
    omega arith,
    handler_empty thread_of size now k i me a w (a.lists me) a.links
        (remove-Removes (a.lists me) a.links [] v.linked),
    record {
      left = [];
      armed = record {
        linked = rw (update_self a.lists me (a.lists me)) v.linked;
        sorted = tt;
        fits = λ x m. cc;
        sleeps = λ x m. cc;
        own = λ x y m l. cc;
        consistent = v.consistent;
      };
      criteria = refl;
      later = λ x. refl;
      woken = λ x m. cc;
      ready_stay = λ s e. e;
    },
  )

  waiting_Expires :
      (size k : ℕ) (now : ℕ → ℕ) (i : ℕ) (x : Ptr) (xs : List Ptr) (a : Alarms) (w : World)
      → IsArmed (x ∷ xs) a w
      → length xs ≤ size
      → now i < 2 ^ 63
      → now i < a.criterion x * 1000
      → Expires size (suc k) now i (x ∷ xs) a w
  unfolding with_list
  waiting_Expires size k now i x xs a w v h c late =
      let (e, linked, off_next, off_previous, same) =
        remove-Removes (a.lists me) a.links (x ∷ xs) v.linked in
      let (head, l, n) = OrderedList.remove (a.lists me) a.links in
      let (l', n', f, ins) =
        insert-insert_sorted a.criterion size x l n xs linked v.linked.1 v.linked.2 h in
      let a' = with_list me (l', n') (with_list me (l, n) a) in
      (
        i,
        a',
        w,
        omega arith,
        handler_waits thread_of size now k i me a w x l l' n n' (ap (λ (p : Ptr). (p, l, n)) e)
            v.linked.1
            (ground (arith, elapsed_lem (now i) (a.criterion x) c (v.fits x (ground arith)))) f,
        record {
          left = insert_sorted a.criterion x xs;
          armed = record {
            linked = rw (update_self (update a.lists me l) me l') ins.left;
            sorted = insert_sorted-IsSorted a.criterion x xs v.sorted.1;
            fits = λ y m. v.fits y (ground (arith, has-insert_sorted a.criterion y x xs));
            sleeps = λ y m. v.sleeps y (ground (arith, has-insert_sorted a.criterion y x xs));
            own = λ y z m l.
                v.own y z (ground (arith, has-insert_sorted a.criterion y x xs))
                  (ground (arith, has-insert_sorted a.criterion z x xs));
            consistent = v.consistent;
          };
          criteria = refl;
          later = λ y. ground (arith, has-insert_sorted a.criterion y x xs, v.sorted.0 y);
          woken = λ y m o. ground (arith, v.sorted.0 y);
          ready_stay = λ s e. e;
        },
      )

  -- The alarms behind the first one, after its thread was woken.
  woken_IsArmed :
      (x : Ptr) (xs : List Ptr) (a : Alarms) (w : World) (l : OrderedList) (n : Nodes)
      → IsArmed (x ∷ xs) a w
      → IsList l n xs
      → IsConsistent cores place (woken (thread_of x) (sleeper x) [] w)
      → IsArmed xs (with_list me (l, n) a) (woken (thread_of x) (sleeper x) [] w)
  unfolding with_list woken
  woken_IsArmed x xs a w l n v linked consistent = record {
    linked = rw (update_self a.lists me l) linked;
    sorted = v.sorted.1;
    fits = λ y m. v.fits y (ground arith);
    sleeps = λ y m. ground (arith, v.sleeps y, v.own x y, v.linked.2);
    own = λ y z m l. v.own y z (ground arith) (ground arith);
    consistent = consistent;
  }

  woken_facts :
      (l t s : ℕ) (w : World)
      → ((woken l t [] w).state t ≡ ready) × (w.state s ≡ ready → (woken l t [] w).state s ≡ ready)
  unfolding woken
  woken_facts l t s w = (update_self w.state t ready, λ e. ground arith)

  -- One round that wakes, in front of the others.
  waking_Expired :
      (x : Ptr) (xs : List Ptr) (a a' : Alarms) (w w' : World) (l : OrderedList) (n : Nodes)
      (early t : ℕ)
      → a.criterion x * 1000 ≤ early
      → early ≤ t
      → Expired t xs (with_list me (l, n) a) (woken (thread_of x) (sleeper x) [] w) a' w'
      → Expired t (x ∷ xs) a w a' w'
  unfolding with_list
  waking_Expired x xs a a' w w' l n early t past le r =
      let facts = woken_facts (thread_of x) (sleeper x) in
      record {
        left = r.left;
        armed = r.armed;
        criteria = r.criteria;
        later = λ y. ground (arith, r.later y);
        woken = λ y m o. elim (eq-cases y x) [
          | inl hit ↦
              subst (λ z. w'.state (sleeper z) ≡ ready) (sym hit)
                (r.ready_stay (sleeper x) (facts (sleeper x) w).0)
          | inr miss ↦ r.woken y (ground arith) o
        ];
        ready_stay = λ s z. r.ready_stay s ((facts s w).1 z);
      }

  -- The handler of the alarms of a processor, where each alarm has a list of its own on which its thread sleeps
  -- and a time in microseconds that fits 64 bits in nanoseconds, and the clock goes forward below 2 ^ 63: with one
  -- more round than there are alarms it ends, and there is a time that the clock showed such that exactly the
  -- alarms that are later are left, in the order of their times, the threads of the others are ready, and the
  -- threads stay consistent.
  pub handler-Expires :
      (size fuel : ℕ) (now : ℕ → ℕ) (i : ℕ) (xs : List Ptr) (a : Alarms) (w : World)
      → Clock now
      → IsArmed xs a w
      → length xs ≤ size
      → length xs < fuel
      → Expires size fuel now i xs a w
  handler-Expires size zero now i xs a w clock v h k = absurd (omega arith)
  handler-Expires size (suc fuel) now i [] a w clock v h k = empty_Expires size fuel now i a w v
  handler-Expires size (suc fuel) now i (x ∷ xs) a w clock v h k =
      elim (Bool-cases (leb (a.criterion x * 1000) (now i))) [
        | inr late ↦
            waiting_Expires size fuel now i x xs a w v (omega arith) (clock.0 i) (ground arith)
        | inl past ↦
            let (e, linked, off_next, off_previous, same) =
              remove-Removes (a.lists me) a.links (x ∷ xs) v.linked in
            let (head, l, n) = OrderedList.remove (a.lists me) a.links in
            let sleep = v.sleeps x (ground arith) in
            let w1 = woken (thread_of x) (sleeper x) [] w in
            let wake = wakeup_first (thread_of x) (sleeper x) [] w sleep in
            let c1 =
              woken-IsConsistent cores place w v.consistent (thread_of x) (sleeper x) [] sleep in
            let armed = woken_IsArmed x xs a w l n v linked c1 in
            let (j, a', w', le, f, r) =
              handler-Expires size fuel now (i + 1) xs (with_list me (l, n) a) w1 clock armed
                (omega arith) (omega arith) in
            let time = elapsed_lem (now i) (a.criterion x) (clock.0 i) (v.fits x (ground arith)) in
            let step =
              handler_wakes thread_of size now fuel i me a w x l n w1
                (ap (λ (p : Ptr). (p, l, n)) e) v.linked.1 (time ∙ past) wake in
            (
              j,
              a',
              w',
              omega arith,
              step ∙ f,
              waking_Expired x xs a a' w w' l n (now i) (now j) (ground arith)
                  (clock.1 i j (omega arith)) r,
            )
      ]
