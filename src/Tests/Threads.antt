-- ===== src/Tests/Threads.antt =====
-- One processor with the threads 1 to 4 and the semaphore 5: thread 1 runs, 2 and the idle thread 3 are ready,
-- and 4 sleeps on the semaphore.
use depos.Base.{
  ℕ, ◌+◌, ◌%◌, ◌-◌, ◌≡◌, ◌≢◌, ◌⊎◌, inl, ◌==◌, ◌&&◌, if◌then◌else◌, false, none, some, [], ◌∷◌,
  update, arith, refl,
}
use depos.Threads.{World, State, running, ready, waiting, finished, modulus}
use depos.Threads.Thread.{reschedule, exit, sleep, wakeup}
use depos.Threads.Semaphore.{p, v}
use depos.Threads.Consistent.{IsConsistent}
use depos.Threads.Consistent.Switch.{reschedule-IsConsistent}
use depos.Threads.Consistent.Sleep.{sleep-IsConsistent, exit-IsConsistent}
use depos.Threads.Consistent.Wakeup.{wakeup-IsConsistent}
use depos.Base.{true, some}
use depos.Threads.Scheduler.{remove, remove_from, take_from, or_else, set_head, set_queue}
use depos.Threads.Thread.{depart, set_state}
use depos.Threads.Processors.{System, system, yield_half, leave_for, later, start, yields}
use depos.Threads.Processors.Departure.{left}
use depos.Threads.Processors.Flight.{IsSafe}
use depos.Threads.Processors.Safety.{IsSeparate, Reach-IsSeparate}
use depos.Threads.Consistent.Fairness.{reschedules, reschedules-heads}
use depos.Threads.Variable.{Variable, enlist, wait, send}
use depos.Threads.Variable.Wait.{IsVariable, wait-IsVariable}
use depos.Threads.Variable.Send.{Sent, send-Sent}
use depos.Threads.Alarm.{Alarms}
use depos.Threads.Alarm.Expiry.{IsArmed, Expires, handler-Expires}
use depos.Threads.Semaphore.Balanced.{IsBalanced, Done, p-IsBalanced, v-IsBalanced}

abbrev state_of : ℕ → State
state_of t =
    if t == 1
    then running
    else (if t == 2
        then ready
        else (if t == 3 then ready else (if t == 4 then waiting else finished)))

abbrev world : World
world = record {
  state = state_of;
  cpu = λ t. 0;
  rank = λ t. if t == 3 then 0 else 1;
  heads = λ c. 1;
  queues =
      λ c r. if (c == 0) && (r == 1) then 2 ∷ [] else (if (c == 0) && (r == 0) then 3 ∷ [] else []);
  previous = λ c. none;
  spin = λ c. none;
  count = 4;
  idles = 1;
  lists = λ l. if l == 5 then 4 ∷ [] else [];
  locked = λ l. false;
  value = λ l. if l == 5 then 4294967295 else 0;
}

abbrev place : ℕ → ℕ
place t = 5

world-IsConsistent : IsConsistent 1 place world
world-IsConsistent = record {
  current = λ c t h. ground arith;
  queued = λ c r t. ground arith;
  sleeping = λ l t. ground arith;
}

world-IsBalanced : IsBalanced 5 world
world-IsBalanced = record { waiting_for = refl; word = omega arith; free = refl }

abbrev another : (world.queues 0 1 ≢ []) ⊎ (world.queues 0 0 ≢ [])
another = inl (λ e. absurd (ground arith))

reschedule-IsConsistent_example :
    (w' : World) × (reschedule 0 world ≡ some w') × IsConsistent 1 place w'
reschedule-IsConsistent_example =
    reschedule-IsConsistent 1 place world world-IsConsistent 0 (omega arith)

sleep-IsConsistent_example :
    (w' : World) × (sleep 0 7 world ≡ some w')
    × (w'.lists 7 ≡ 1 ∷ [])
    × (w'.locked 7 ≡ false)
    × (w'.value ≡ world.value)
    × IsConsistent 1 (update place 1 7) w'
sleep-IsConsistent_example =
    sleep-IsConsistent 1 place world world-IsConsistent 0 (omega arith) another 7

wakeup-IsConsistent_example :
    (w' : World) × (wakeup 5 world ≡ some w')
    × (w'.lists 5 ≡ [])
    × (w'.value ≡ world.value)
    × (w'.state 4 ≡ ready)
    × IsConsistent 1 place w'
wakeup-IsConsistent_example = wakeup-IsConsistent 1 place world world-IsConsistent 5 4 [] refl

p-IsBalanced_example :
    Done 1 place world world-IsConsistent 5 world-IsBalanced
      (λ w'. (w'.lists 5 ≡ 4 ∷ 1 ∷ []) × (w'.value 5 ≡ (4294967295 + (modulus - 1)) % modulus))
      (p 0 5 world)
p-IsBalanced_example =
    p-IsBalanced 1 place world world-IsConsistent 5 world-IsBalanced 0 (omega arith) another
      (λ e. absurd (omega arith))

v-IsBalanced_example :
    Done 1 place world world-IsConsistent 5 world-IsBalanced
      (λ w'. (w'.lists 5 ≡ []) × (w'.value 5 ≡ (4294967295 + 1) % modulus))
      (v 5 world)
v-IsBalanced_example =
    v-IsBalanced 1 place world world-IsConsistent 5 world-IsBalanced (λ e. absurd (omega arith))

reschedules-heads_example :
    (w' : World) × (reschedules 0 1 world ≡ some w') × (w'.heads 0 ≡ 2) × IsConsistent 1 place w'
reschedules-heads_example =
    reschedules-heads 1 place world 0 2 [] [] world-IsConsistent (omega arith) refl

-- the processor is between the switch from thread 1 to thread 2 and the epilogue behind it
abbrev at_rest : System
at_rest = system world (λ c. false)

abbrev switching : System
switching = system (left 0 1 2 [] ready none world) (update (λ c. false) 0 true)

at_rest-IsSafe : IsSafe 1 place at_rest
at_rest-IsSafe = record {
  current = λ c t h. ground arith;
  queued = λ c r t. ground arith;
  sleeping = λ l t. ground arith;
  behind = λ c e. cc;
  held = λ t e f. cc;
  alone = λ t u e f g h i. cc;
}

switches : yield_half 0 world ≡ some (true, left 0 1 2 [] ready none world)
unfolding yield_half leave_for depart remove remove_from take_from or_else set_head set_queue
    set_state left
switches = refl

Reach-IsSeparate_example : IsSeparate 1 switching
Reach-IsSeparate_example =
    Reach-IsSeparate 1 place at_rest switching at_rest-IsSafe
      (later start (yields 0 (omega arith) refl switches))

-- Thread 4 sleeps for the alarm 8 on the list 5, until 3 microseconds.
abbrev alarms : Alarms
alarms = record {
  lists = λ c. record { head = 8; tail = 8 };
  links = record { next = λ a. 0; previous = λ a. 0 };
  criterion = λ a. 3;
}

alarms-IsArmed : IsArmed 1 place (λ a. 5) (λ a. 4) 0 (8 ∷ []) alarms world
alarms-IsArmed = record {
  linked = (refl, λ e. absurd (omega arith), refl, refl, (refl, refl));
  sorted = (λ a m. cc, tt);
  fits = λ x m. omega arith;
  sleeps = λ x m. refl;
  own = λ x y m n e. ground arith;
  consistent = world-IsConsistent;
}

handler-Expires_example :
    Expires 1 place (λ a. 5) (λ a. 4) 0 1 2 (λ i. 4000) 0 (8 ∷ []) alarms world
handler-Expires_example =
    handler-Expires 1 place (λ a. 5) (λ a. 4) 0 1 2 (λ i. 4000) 0 (8 ∷ []) alarms world
      (λ i. omega arith, λ i j h. omega arith) alarms-IsArmed (omega arith) (omega arith)

exit-IsConsistent_example :
    (w' : World) × (exit 0 world ≡ some w')
    × (w'.state 1 ≡ finished)
    × (w'.heads 0 ≢ 1)
    × (w'.count ≡ (4 + (modulus - 1)) % modulus)
    × (w'.lists ≡ world.lists)
    × IsConsistent 1 place w'
exit-IsConsistent_example =
    exit-IsConsistent 1 place world world-IsConsistent 0 (omega arith) another

-- The variable with the lock 20 has thread 4 waiting on node 5.
abbrev variable : Variable
variable = record {
  waiters = 5 ∷ [];
  waiting = 1;
  messages = λ n. record { buffer = 100; size = 2 };
}

variable-IsVariable : IsVariable 20 variable world
variable-IsVariable = record {
  counted = refl;
  asleep = ((λ e. absurd (omega arith)), (4, refl), refl, tt);
  free = refl;
}

send-Sent_example :
    Sent 1 place world world-IsConsistent 20 variable variable-IsVariable 200 8
      (λ a. a % 256)
      (5 ∷ [])
      (send 20 200 8 variable world (λ a. a % 256))
send-Sent_example =
    send-Sent 1 place world world-IsConsistent 20 variable variable-IsVariable 200 8 (λ a. a % 256)

-- Thread 1 holds the mutex 7 and waits on node 30.
mutex-IsBalanced : IsBalanced 7 world
mutex-IsBalanced = record { waiting_for = refl; word = omega arith; free = refl }

wait-IsVariable_example :
    (w' : World) × (place' : ℕ → ℕ) × (wait 0 20 7 30 300 4 variable world
      ≡ some (enlist 30 300 4 variable, w'))
    × ((enlist 30 300 4 variable).waiters ≡ 5 ∷ 30 ∷ [])
    × (w'.lists 30 ≡ 1 ∷ [])
    × (w'.value 7 ≡ 1)
    × (w'.lists 7 ≡ [])
    × IsBalanced 7 w'
    × IsVariable 20 (enlist 30 300 4 variable) w'
    × IsConsistent 1 place' w'
wait-IsVariable_example =
    wait-IsVariable 1 place world world-IsConsistent 20 7 mutex-IsBalanced variable
      variable-IsVariable 0 30 300 4 (omega arith) another (omega arith) (omega arith) (omega arith)
      refl (omega arith) refl refl (omega arith)
