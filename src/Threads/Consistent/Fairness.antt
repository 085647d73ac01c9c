-- ===== src/Threads/Consistent/Fairness.antt =====
-- A thread that is ready gets its processor.
use depos.Base.{
  ℕ, zero, suc, ◌<◌, ◌≡◌, ◌==◌, if◌then◌else◌, Option, some, List, [], ◌∷◌, ◌++◌, arith, length,
  refl, ◌>>=◌, append_assoc, eq-cases, inl, inr, ◌∙◌, update_self,
}
use depos.Threads.{World}
use depos.Threads.Thread.{reschedule}
use depos.Threads.Consistent.{IsConsistent, current_facts}
use depos.Threads.Consistent.Switch.{switched, reschedule-some, next-ne, switched-IsConsistent}

pub reschedules : ℕ → ℕ → World → Option World
reschedules me zero w = some w
reschedules me (suc n) w = reschedule me w >>= λ w'. reschedules me n w'

reschedules_first :
    (me n : ℕ) (w w' : World)
    → reschedule me w ≡ some w'
    → reschedules me (suc n) w ≡ reschedules me n w'
unfolding reschedules
reschedules_first me n w w' e = rw e refl

-- The queue without its first thread, and with the thread that was current behind it or not.
switched-queue :
    (me next : ℕ) (q : List ℕ) (w : World)
    → w.cpu (w.heads me) ≡ me
    → (switched me next q w).queues me 1
      ≡ (if w.rank (w.heads me) == 1 then q ++ (w.heads me ∷ []) else q)
unfolding switched
switched-queue me next q w e = ground (arith, e)

switched-heads : (me next : ℕ) (q : List ℕ) (w : World) → (switched me next q w).heads me ≡ next
unfolding switched
switched-heads me next q w = update_self w.heads me next

behind :
    (me next x : ℕ) (ys post : List ℕ) (w : World)
    → w.cpu (w.heads me) ≡ me
    → (post' : List ℕ) × ((switched me next (ys ++ (x ∷ post)) w).queues me 1 ≡ ys ++ (x ∷ post'))
behind me next x ys post w e =
    let z = switched-queue me next (ys ++ (x ∷ post)) w e in
    elim (eq-cases (w.rank (w.heads me)) 1) [
      | inl one ↦ (
        post ++ (w.heads me ∷ []),
        ground (arith, z, append_assoc ys (x ∷ post) (w.heads me ∷ [])),
      )
      | inr other ↦ (post, ground (arith, z))
    ]

-- Where the threads are consistent, a thread with `length pre` threads in front of it in the queue of a
-- processor for the normal rank, which is number 1, is the current one of the processor after one more call of
-- `reschedule` there than those, and the threads are consistent, whatever threads stand behind it. Nothing is said of the
-- queue of idle threads, from which `reschedule` takes none.
pub reschedules-heads :
    (cores : ℕ) (place : ℕ → ℕ) (w : World) (me x : ℕ) (pre post : List ℕ)
    → IsConsistent cores place w
    → me < cores
    → w.queues me 1 ≡ pre ++ (x ∷ post)
    → (w' : World) × (reschedules me (suc (length pre)) w ≡ some w')
      × (w'.heads me ≡ x)
      × IsConsistent cores place w'
unfolding reschedules
reschedules-heads cores place w me x [] post v h e =
    let w' = switched me x post w in
    (
      w',
      reschedules_first me 0 w w'
          (reschedule-some me x post w e (next-ne cores place w v me x post h e)),
      switched-heads me x post w,
      switched-IsConsistent cores place w v me x post h e,
    )
reschedules-heads cores place w me x (y ∷ ys) post v h e =
    let w1 = switched me y (ys ++ (x ∷ post)) w in
    let step =
      reschedule-some me y (ys ++ (x ∷ post)) w e
        (next-ne cores place w v me y (ys ++ (x ∷ post)) h e) in
    let (post', f) = behind me y x ys post w (current_facts cores place w v me h).1 in
    let (w', g, i, j) =
      reschedules-heads cores place w1 me x ys post'
        (switched-IsConsistent cores place w v me y (ys ++ (x ∷ post)) h e) h f in
    (w', reschedules_first me (suc (length ys)) w w1 step ∙ g, i, j)
