-- ===== src/Threads/Variable/Send.antt =====
-- What `ConditionalVariable::send` does.
use depos.Base.{
  ℕ, ◌-◌, ◌≡◌, ◌≢◌, Bool, true, false, Option, some, List, [], ◌∷◌, update, arith, refl, subst, sym,
  ap, ◌∙◌, update_self, update_ne, length, has, unique, ne→==_false, List-cases, inl, inr, ◌⊎◌, ◌≤◌,
  eq-cases, Bool-cases, ltb,
}
use depos.Threads.{World, ready}
use depos.Threads.Thread.{wakeup}
use depos.Threads.Semaphore.{release_lock}
use depos.Threads.Consistent.{IsConsistent}
use depos.Threads.Consistent.Wakeup.{woken, wakeup_first, wakeup-IsConsistent}
use depos.Threads.Variable.{Message, Variable, take, deliver, delivered_size, send}
use depos.Threads.Variable.Wait.{Sleepers, Sleepers-same, IsVariable, acquired, acquire_free}
use depos.Utility.String.{memcpy}

-- the world after the lock was taken and given back
returned : ℕ → World → World
returned lock w = release_lock lock (acquired lock w)

send-none :
    (lock value size : ℕ) (x : Variable) (w : World) (memory : ℕ → ℕ)
    → w.locked lock ≡ false
    → x.waiting ≡ 0
    → send lock value size x w memory ≡ some (false, x, returned lock w, memory)
unfolding send take returned
send-none lock value size x w memory e z = rw (acquire_free lock w e, z) refl

-- How many bytes of a message of `size` bytes at `value` a waiter gets: none if there is no message or no buffer for it, and
-- else all that the message has and the buffer takes.
abbrev pub Amount : ℕ → ℕ → Message → ℕ → Type 0
Amount value size m k =
    (((value ≡ 0) ⊎ (m.buffer ≡ 0)) × (k ≡ 0))
    ⊎ ((value ≢ 0) × (m.buffer ≢ 0) × (k ≤ size) × (k ≤ m.size) × ((k ≡ size) ⊎ (k ≡ m.size)))

delivered_size-Amount :
    (value size : ℕ) (m : Message) → Amount value size m (delivered_size value size m)
unfolding delivered_size
delivered_size-Amount value size m = elim (eq-cases value 0) [
  | inl v ↦ inl (inl v, ground arith)
  | inr nv ↦ elim (eq-cases m.buffer 0) [
    | inl b ↦ inl (inr b, ground arith)
    | inr nb ↦ inr (
      nv,
      nb,
      ground arith,
      ground arith,
      elim (Bool-cases (ltb m.size size)) [
        | inl t ↦ inr (ground arith)
        | inr f ↦ inl (ground arith)
      ],
    )
  ]
]

-- the variable after the first node was taken and its message delivered
abbrev pub taken : ℕ → ℕ → List ℕ → Variable → Variable
taken k n ns x = record {
  waiters = ns;
  waiting = x.waiting - 1;
  messages = update x.messages n (record { buffer = (x.messages n).buffer; size = k });
}

first_taken :
    (x : Variable) (n : ℕ) (ns : List ℕ)
    → x.waiters ≡ n ∷ ns
    → x.waiting ≢ 0
    → take x ≡ (n, record x { waiters = ns; waiting = x.waiting - 1 })
unfolding take
first_taken x n ns e h = rw (take, e, ne→==_false x.waiting 0 h) refl

send-some :
    (lock value size n : ℕ) (ns : List ℕ) (x : Variable) (w w' : World) (memory : ℕ → ℕ)
    → w.locked lock ≡ false
    → x.waiters ≡ n ∷ ns
    → x.waiting ≢ 0
    → n ≢ 0
    → wakeup n (returned lock w) ≡ some w'
    → send lock value size x w memory
      ≡ some (
        true,
        taken (delivered_size value size (x.messages n)) n ns x,
        w',
        memcpy (x.messages n).buffer value (delivered_size value size (x.messages n)) memory,
      )
unfolding send deliver returned
send-some lock value size n ns x w w' memory e f h z g =
    rw (acquire_free lock w e, first_taken x n ns f h, ne→==_false n 0 z, g) refl

woken_lists :
    (n t : ℕ) (w : World)
    → ((woken n t [] w).lists ≡ update w.lists n []) × ((woken n t [] w).locked ≡ w.locked)
unfolding woken
woken_lists n t w = (refl, refl)

module _ (cores : ℕ) (place : ℕ → ℕ) (w : World) (c : IsConsistent cores place w) (lock : ℕ)
    (x : Variable) (i : IsVariable lock x w) (value size : ℕ) (memory : ℕ → ℕ) where
  -- What `send` leaves, by the list of the waiters.
  abbrev pub Sent : List ℕ → Option (Bool × Variable × World × (ℕ → ℕ)) → Type 0
  Sent [] answer =
      (w' : World) × (answer ≡ some (false, x, w', memory))
      × (w'.lists ≡ w.lists)
      × (w'.state ≡ w.state)
      × IsVariable lock x w'
      × IsConsistent cores place w'
  Sent (n ∷ ns) answer =
      (w' : World) × (t k : ℕ) × Amount value size (x.messages n) k
      × (answer ≡ some (true, taken k n ns x, w', memcpy (x.messages n).buffer value k memory))
      × (w.lists n ≡ t ∷ [])
      × (w'.state t ≡ ready)
      × (w'.lists n ≡ [])
      × IsVariable lock (taken k n ns x) w'
      × IsConsistent cores place w'

  returned-IsConsistent : IsConsistent cores place (returned lock w)
  unfolding returned release_lock acquired
  returned-IsConsistent = record { current = c.current; queued = c.queued; sleeping = c.sleeping }

  returned-free : (returned lock w).locked lock ≡ false
  unfolding returned release_lock acquired
  returned-free = update_self (update w.locked lock true) lock false

  returned-lists : ((returned lock w).lists ≡ w.lists) × ((returned lock w).state ≡ w.state)
  unfolding returned release_lock acquired
  returned-lists = (refl, refl)

  send_empty : x.waiters ≡ [] → Sent [] (send lock value size x w memory)
  send_empty e = (
    returned lock w,
    send-none lock value size x w memory i.free (i.counted ∙ ap length e),
    returned-lists.0,
    returned-lists.1,
    record {
      counted = i.counted;
      asleep = subst (λ f. Sleepers f x.waiters) (sym returned-lists.0) i.asleep;
      free = returned-free;
    },
    returned-IsConsistent,
  )

  send_first :
      (n : ℕ) (ns : List ℕ) → x.waiters ≡ n ∷ ns → Sent (n ∷ ns) (send lock value size x w memory)
  send_first n ns e =
      let (z, (t, l), absent, rest) = subst (λ ws. Sleepers w.lists ws) e i.asleep in
      let v = returned lock w in
      let lv : v.lists n ≡ t ∷ [] = ap (λ f. f n) returned-lists.0 ∙ l in
      let (w', woke, empty, _, state, c') =
        wakeup-IsConsistent cores place v returned-IsConsistent n t [] lv in
      let frame : (w'.lists ≡ update v.lists n []) × (w'.locked ≡ v.locked) =
        unique (λ (u : World). (u.lists ≡ update v.lists n []) × (u.locked ≡ v.locked))
          (wakeup_first n t [] v lv) woke (woken_lists n t v) in
      let kept : (m : ℕ) → has m ns ≡ true → w'.lists m ≡ w.lists m = λ m h.
        ap (λ f. f m) frame.0
        ∙ (update_ne v.lists n [] m (λ same. absurd (ground (arith, ap (λ k. has k ns) same)))
            ∙ ap (λ f. f m) returned-lists.0) in
      let len : x.waiting ≡ length (n ∷ ns) = i.counted ∙ ap length e in
      (
        w',
        t,
        delivered_size value size (x.messages n),
        delivered_size-Amount value size (x.messages n),
        send-some lock value size n ns x w w' memory i.free e (omega (arith, len)) z woke,
        l,
        state,
        empty,
        record {
          counted = omega (arith, len);
          asleep = Sleepers-same w.lists w'.lists ns kept rest;
          free = ap (λ f. f lock) frame.1 ∙ returned-free;
        },
        c',
      )

  -- With the lock of the variable free and the variable and the threads consistent, `send` ends. Without a waiter it answers
  -- false and changes no thread. Otherwise it answers true, takes the waiter that came first, copies into its buffer as much
  -- of the message as both sizes allow, or nothing if the message or the buffer is null, and makes the thread ready that sleeps on
  -- the node; the other waiters sleep on in order, and the variable and the threads stay consistent.
  pub send-Sent : Sent x.waiters (send lock value size x w memory)
  send-Sent = elim (List-cases x.waiters) [
    | inl e ↦ subst (λ ws. Sent ws (send lock value size x w memory)) (sym e) (send_empty e)
    | inr (n, ns, e) ↦
        subst (λ ws. Sent ws (send lock value size x w memory)) (sym e) (send_first n ns e)
  ]
