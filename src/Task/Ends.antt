-- ===== src/Task/Ends.antt =====
-- What becomes of the status that the worker function returned, and what `wait` returns.
use stmanager.Prelude.{Bool, true, false, ◌≡◌, ◌⊎◌, inl, inr, arith}
use stmanager.Status.{Status}
use stmanager.Client.Pair.{DeviceInfo}
use stmanager.Task.Handle.{
  finished, SyncTaskMode, ok_status, returns, mark_finished, wait_section, is_running,
}
use stmanager.Task.Threads.{
  working, returned, ended, Threads, fresh, WorkerStep, begin, return_status, finish, Step,
  by_worker, started, stop_stored, stop_entered, wait_entered, wait_returned, joined, callback_set,
  endpoint_set, Reach, here, next,
}
use stmanager.Task.Reached.{Inv, Step-Inv, Reach-Inv}

module _ {C : Type 0} where
  -- The task is marked with this status, and a call of `wait` from another thread that returns at
  -- once returns the status.
  pub record Over (result : Status) (s : Threads C) : Type 0 where
    pub worker_ended : s.worker ≡ ended result
    pub is_finished : s.task.task_state ≡ finished
    pub has_result : s.task.task_status ≡ result
    pub not_running : is_running s.task ≡ false
    pub waits : (st : Status) → (wait_section false s.task).0 ≡ returns st → st ≡ result

  -- The worker function has returned this status, and the task is over with it; or the worker has
  -- one step left, after which it is.
  pub data Settling (result : Status) (s : Threads C) : Type 0 where
    over : Over result s → Settling result s
    marking :
        s.worker ≡ returned result
        → WorkerStep s (record s { task = mark_finished result s.task; worker = ended result })
        → ((t : Threads C) → WorkerStep s t → Over result t)
        → Settling result s

  -- The worker function has returned this status.
  abbrev HasReturned : Status → Threads C → Type 0
  HasReturned result s = (s.worker ≡ returned result) ⊎ (s.worker ≡ ended result)

  Step-HasReturned :
      {result : Status} {s t : Threads C} → Step s t → HasReturned result s → HasReturned result t
  Step-HasReturned {result} {s} (by_worker (begin e)) h = ground arith
  Step-HasReturned {result} {s} (by_worker (return_status st e)) h = ground arith
  Step-HasReturned {result} {s} (by_worker (finish st e)) h = ground arith
  Step-HasReturned {result} {s} (started e) h = ground arith
  Step-HasReturned stop_stored h = h
  Step-HasReturned (stop_entered e) h = h
  Step-HasReturned (wait_entered own e) h = h
  Step-HasReturned (wait_returned own st e) h = h
  Step-HasReturned (joined st j e) h = h
  Step-HasReturned (callback_set c) h = h
  Step-HasReturned (endpoint_set host port) h = h

  Reach-HasReturned :
      {result : Status} {s t : Threads C}
      → Inv s
      → HasReturned result s
      → Reach s t
      → HasReturned result t × Inv t
  Reach-HasReturned i h here = (h, i)
  Reach-HasReturned i h (next r e) =
      let (h', i') = Reach-HasReturned i h r in (Step-HasReturned e h', Step-Inv e i')

  Inv-Over : {result : Status} (s : Threads C) → Inv s → s.worker ≡ ended result → Over result s
  unfolding is_running wait_section
  Inv-Over {result} s i e = record {
    worker_ended = e;
    is_finished = ground (arith, i);
    has_result = ground (arith, i);
    not_running = ground (arith, i);
    waits = λ st w. ground (arith, i);
  }

  WorkerStep-Over :
      {result : Status} {s t : Threads C}
      → Inv s
      → s.worker ≡ returned result
      → WorkerStep s t
      → Over result t
  WorkerStep-Over {result} {s} {t} i e step =
      Inv-Over t (Step-Inv (by_worker step) i) (last_step step)
    where
      last_step : {t : Threads C} → WorkerStep s t → t.worker ≡ ended result
      last_step (begin f) = ground arith
      last_step (return_status st f) = ground arith
      last_step (finish st f) = ground arith

  -- The status that the worker function returned is the result of the task, whatever the callers
  -- and the callbacks do from then on, in whatever order: either the task is over, which means that
  -- it is finished with that status and that a call of `wait` from another thread, if it returns
  -- at once, returns that status; or the worker can take one more step, and after any step that it
  -- takes the task is over. Nothing is said of a worker function that does not return.
  pub Reach-Settling :
      (task_mode : SyncTaskMode) (device_info : DeviceInfo) (result : Status) {s t : Threads C}
      → Reach (fresh task_mode device_info) s
      → s.worker ≡ returned result
      → Reach s t
      → Settling result t
  Reach-Settling m d result {s} {t} reached e run =
      let (h, i) = Reach-HasReturned (Reach-Inv m d reached) (inl e) run in
      elim h [
        | inl f ↦ marking f (finish result f) (λ u step. WorkerStep-Over i f step)
        | inr f ↦ over (Inv-Over t i f)
      ]

  -- While the worker runs and one caller of wait joins it, any other call of wait returns at once,
  -- with the ok status, although the task is not finished; it changes nothing.
  pub wait_section-second :
      (task_mode : SyncTaskMode) (device_info : DeviceInfo) {s : Threads C} (own : Bool)
      → Reach (fresh task_mode device_info) s
      → s.joiner ≡ true
      → s.worker ≡ working
      → (wait_section own s.task ≡ (returns ok_status, s.task)) × (is_running s.task ≡ true)
  unfolding wait_section is_running
  wait_section-second m d {s} own reached j w = ground (arith, Reach-Inv m d reached)
