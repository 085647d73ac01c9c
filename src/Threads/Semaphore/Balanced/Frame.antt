-- ===== src/Threads/Semaphore/Balanced/Frame.antt =====
-- What `Semaphore::v` leaves alone.
use depos.Base.{
  ℕ, ◌≡◌, ◌≢◌, some, List, [], ◌∷◌, ◌++◌, arith, refl, subst, Bool-cases, List-cases, inl, inr,
  length, unique,
}
use depos.Threads.{World}
use depos.Threads.Semaphore.{v, is_negative, release_lock}
use depos.Threads.Consistent.{put}
use depos.Threads.Consistent.Wakeup.{woken, wakeup_first}
use depos.Threads.Semaphore.Balanced.{IsBalanced, prepared, deficit, v_full, v_empty}

-- The other lists and locks are as before, the processors run what they ran, and no queue is emptied.
pub record IsFrame (s : ℕ) (w w' : World) : Type 0 where
  pub heads : w'.heads ≡ w.heads
  pub lists : (n : ℕ) → n ≢ s → w'.lists n ≡ w.lists n
  pub locked : (n : ℕ) → n ≢ s → w'.locked n ≡ w.locked n
  pub queues : (c r : ℕ) → w.queues c r ≢ [] → w'.queues c r ≢ []

prepared-IsFrame : (s k : ℕ) (w : World) → IsFrame s w (release_lock s (prepared s k w))
unfolding release_lock prepared
prepared-IsFrame s k w = record {
  heads = refl;
  lists = λ n h. refl;
  locked = λ n h. ground arith;
  queues = λ c r h. h;
}

snoc-ne : (x : ℕ) (q : List ℕ) → q ++ (x ∷ []) ≢ []
snoc-ne x [] e = ground arith
snoc-ne x (y ∷ q) e = ground arith

put-ne :
    (queues : ℕ → ℕ → List ℕ) (c' r' x c r : ℕ)
    → queues c r ≢ []
    → put queues c' r' (queues c' r' ++ (x ∷ [])) c r ≢ []
put-ne queues c' r' x c r h = ground (arith, snoc-ne x (queues c' r'))

woken-IsFrame :
    (s k t : ℕ) (q : List ℕ) (w : World)
    → IsFrame s w (release_lock s (woken s t q (prepared s k w)))
unfolding release_lock prepared woken
woken-IsFrame s k t q w = record {
  heads = refl;
  lists = λ n h. ground arith;
  locked = λ n h. ground arith;
  queues = λ c r h. put-ne w.queues (w.cpu t) (w.rank t) t c r h;
}

pub v-IsFrame : (s : ℕ) (w w' : World) → IsBalanced s w → v s w ≡ some w' → IsFrame s w w'
unfolding prepared
v-IsFrame s w w' b e = elim (Bool-cases (is_negative (w.value s))) [
  | inr n ↦ unique (IsFrame s w) (v_full s w b.free n) e (prepared-IsFrame s 1 w)
  | inl n ↦ elim (List-cases (w.lists s)) [
    | inl none_waits ↦ absurd (
        let z : 0 ≡ deficit (w.value s) =
          subst (λ l. length l ≡ deficit (w.value s)) none_waits b.waiting_for in
        ground (arith, b.word))
    | inr (t, q, f) ↦
        unique (IsFrame s w)
          (v_empty s w (woken s t q (prepared s 1 w)) b.free n
            (wakeup_first s t q (prepared s 1 w) f))
          e (woken-IsFrame s 1 t q w)
  ]
]
