-- ===== src/Threads/Processors/Halves.antt =====
-- With the `epilogue` right behind it, each first half is the operation of the thread.
use depos.Base.{◌++◌, ◌∷◌, [], update, true, Bool, ℕ, ◌≡◌, Option, none, some, refl, ◌>>=◌}
use depos.Threads.{finishing, ready, waiting, World, State}
use depos.Threads.Scheduler.{remove}
use depos.Threads.Thread.{
  set_state, epilogue, dispatch, dispatch_next, depart, dispatch_sleeping, reschedule, exit, sleep,
}
use depos.Threads.Processors.{
  idle_rank, normal_rank, leave_for, leave_asleep, yield_half, exit_half, sleep_half, land,
}

bind_land :
    (me : ℕ) (m : Option World)
    → ((m >>= λ w. some (true, w)) >>= λ a. land me a) ≡ (m >>= λ w. epilogue me w)
unfolding land
bind_land me none = refl
bind_land me (some w) = refl

leave_for-land :
    (me t : ℕ) (s : State) (o : Option ℕ) (w : World)
    → (leave_for me t s o w >>= λ a. land me a) ≡ dispatch_next me t s o w
unfolding leave_for land dispatch_next dispatch
leave_for-land me t s none w = refl
leave_for-land me t s (some next) w = bind_land me (depart me t next none (set_state t s w))

leave_asleep-land :
    (me t l : ℕ) (o : Option ℕ) (w : World)
    → (leave_asleep me t l o w >>= λ a. land me a) ≡ dispatch_sleeping me t l o w
unfolding leave_asleep land dispatch_sleeping dispatch
leave_asleep-land me t l none w = refl
leave_asleep-land me t l (some next) w = bind_land me (depart me t next (some l) w)

bind_same :
    (m : Option (Option ℕ × World)) (f : Option ℕ → World → Option (Bool × World))
    (g : Option ℕ → World → Option World) (me : ℕ)
    → ((o : Option ℕ) → (w : World) → (f o w >>= λ a. land me a) ≡ g o w)
    → ((m >>= λ a. f a.0 a.1) >>= λ a. land me a) ≡ (m >>= λ a. g a.0 a.1)
bind_same none f g me h = refl
bind_same (some a) f g me h = h a.0 a.1

-- With the second half right behind it, the first half of `reschedule`, of `exit` and of `sleep` is
-- the whole operation.
pub halves-land :
    (me l : ℕ) (w : World)
    → ((yield_half me w >>= λ a. land me a) ≡ reschedule me w)
      × ((exit_half me w >>= λ a. land me a) ≡ exit me w)
      × ((sleep_half me l w >>= λ a. land me a) ≡ sleep me l w)
unfolding yield_half exit_half sleep_half reschedule exit sleep
halves-land me l w =
    let t = w.heads me in
    let w1 = set_state t waiting (record w { lists = update w.lists l (w.lists l ++ (t ∷ [])) }) in
    (
      bind_same (remove me normal_rank w) (leave_for me t ready) (dispatch_next me t ready) me
          (leave_for-land me t ready),
      bind_same (remove me idle_rank w) (leave_for me t finishing) (dispatch_next me t finishing) me
          (leave_for-land me t finishing),
      bind_same (remove me idle_rank w1) (leave_asleep me t l) (dispatch_sleeping me t l) me
          (leave_asleep-land me t l),
    )
