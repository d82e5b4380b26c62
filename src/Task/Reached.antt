-- ===== src/Task/Reached.antt =====
-- What holds of a task and its threads whatever steps are taken, in whatever order.
use stmanager.Prelude.{ℕ, Bool, true, false, ◌≡◌, ◌⊎◌, ◌≤◌, arith}
use stmanager.Status.{Status}
use stmanager.Client.Pair.{DeviceInfo}
use stmanager.Task.Handle.{
  SyncTaskState, starting, running, stopping, finished, SyncTaskMode, ok_status, new_task, start,
  mark_finished, set_interrupt_callback, set_local_endpoint, store_stop_requested, stop_section,
  wait_section, run_section,
}
use stmanager.Task.Threads.{
  Worker, not_started, created, working, returned, ended, Threads, fresh, WorkerStep, begin,
  return_status, finish, Step, by_worker, started, stop_stored, stop_entered, wait_entered,
  wait_returned, joined, callback_set, endpoint_set, Reach, here, next,
}

-- Somebody can still join the thread: the handle holds it, or one caller of `wait` took it.
abbrev pub OneOwner : Bool → Bool → Type 0
OneOwner thread joiner = ((thread ≡ true) × (joiner ≡ false)) ⊎ ((thread ≡ false) × (joiner ≡ true))

-- How the state and the status of a task fit the place where its worker stands.
abbrev pub Fits : Worker → SyncTaskState → Status → Bool → Bool → Type 0
Fits not_started state st thread joiner =
    ((state ≡ starting) ⊎ (state ≡ stopping))
    × (st ≡ ok_status)
    × (thread ≡ false)
    × (joiner ≡ false)
Fits created state st thread joiner =
    ((state ≡ starting) ⊎ (state ≡ stopping)) × (st ≡ ok_status) × OneOwner thread joiner
Fits working state st thread joiner =
    ((state ≡ running) ⊎ (state ≡ stopping)) × (st ≡ ok_status) × OneOwner thread joiner
Fits (returned result) state st thread joiner =
    ((state ≡ running) ⊎ (state ≡ stopping)) × (st ≡ ok_status) × OneOwner thread joiner
Fits (ended result) state st thread joiner =
    (state ≡ finished) × (st ≡ result) × ((thread ≡ false) ⊎ (joiner ≡ false))

-- The order in which a task goes through its states.
abbrev pub rank : SyncTaskState → ℕ
rank starting = 0
rank running = 1
rank stopping = 2
rank finished = 3

module _ {C : Type 0} where
  pub record Inv (s : Threads C) : Type 0 where
    pub fits : Fits s.worker s.task.task_state s.task.task_status s.task.worker_thread s.joiner
    pub asked : s.task.task_state ≡ stopping → s.task.stop_requested ≡ true

  fresh-Inv :
      (task_mode : SyncTaskMode) (device_info : DeviceInfo) → Inv (fresh task_mode device_info)
  unfolding fresh new_task
  fresh-Inv m d = ground arith

  pub WorkerStep-Inv : {s t : Threads C} → WorkerStep s t → Inv s → Inv t
  unfolding run_section mark_finished
  WorkerStep-Inv {s} (begin e) h = ground arith
  WorkerStep-Inv {s} (return_status st e) h = ground arith
  WorkerStep-Inv {s} (finish st e) h = ground arith

  pub Step-Inv : {s t : Threads C} → Step s t → Inv s → Inv t
  unfolding start store_stop_requested stop_section wait_section set_interrupt_callback
      set_local_endpoint
  Step-Inv (by_worker w) h = WorkerStep-Inv w h
  Step-Inv {s} (started e) h = ground arith
  Step-Inv {s} stop_stored h = ground arith
  Step-Inv {s} (stop_entered e) h = ground arith
  Step-Inv {s} (wait_entered own e) h = ground arith
  Step-Inv {s} (wait_returned own st e) h = ground arith
  Step-Inv {s} (joined st j e) h = ground arith
  Step-Inv {s} (callback_set c) h = ground arith
  Step-Inv {s} (endpoint_set host port) h = ground arith

  -- From a new task on, whatever steps the worker, the callers and the callbacks take and in
  -- whatever order: the state is starting or stopping before the worker has begun, running or
  -- stopping until it marks the task, and finished after that; the status is the ok status until
  -- then, and the status of the worker function after it; while the worker is alive exactly one of
  -- the handle and a caller of wait owns its thread; and a task that is stopping was asked to stop.
  pub Reach-Inv :
      (task_mode : SyncTaskMode) (device_info : DeviceInfo) {s : Threads C}
      → Reach (fresh task_mode device_info) s
      → Inv s
  Reach-Inv m d here = fresh-Inv m d
  Reach-Inv m d (next r e) = Step-Inv e (Reach-Inv m d r)

  -- What a step may change of a task's state and status.
  pub record Forward (s t : Threads C) : Type 0 where
    pub goes_on : rank s.task.task_state ≤ rank t.task.task_state
    pub stays_stopped : s.task.stop_requested ≡ true → t.task.stop_requested ≡ true
    pub keeps_status :
        s.task.task_state ≡ finished
        → (t.task.task_state ≡ finished)
          × (t.task.task_status ≡ s.task.task_status)
          × (t.worker ≡ s.worker)

  Step-Forward : {s t : Threads C} → Inv s → Step s t → Forward s t
  unfolding start mark_finished store_stop_requested stop_section wait_section run_section
      set_interrupt_callback set_local_endpoint
  Step-Forward {s} h (by_worker (begin e)) = ground arith
  Step-Forward {s} h (by_worker (return_status st e)) = ground arith
  Step-Forward {s} h (by_worker (finish st e)) = ground arith
  Step-Forward {s} h (started e) = ground arith
  Step-Forward {s} h stop_stored = ground arith
  Step-Forward {s} h (stop_entered e) = ground arith
  Step-Forward {s} h (wait_entered own e) = ground arith
  Step-Forward {s} h (wait_returned own st e) = ground arith
  Step-Forward {s} h (joined st j e) = ground arith
  Step-Forward {s} h (callback_set c) = ground arith
  Step-Forward {s} h (endpoint_set host port) = ground arith

  Reach-Forward_from : {s t : Threads C} → Inv s → Reach s t → Forward s t × Inv t
  Reach-Forward_from h here = (ground arith, h)
  Reach-Forward_from h (next {t} {u} r e) =
      let (f, i) = Reach-Forward_from h r in
      let g = Step-Forward i e in (ground arith, Step-Inv e i)

  -- Between two moments of a task's life, whatever steps are taken between them, its state never
  -- goes back in the order starting, running, stopping, finished; a stop that was asked for stays
  -- asked for; and once the task is finished, its state, its status and its worker never change.
  pub Reach-Forward :
      (task_mode : SyncTaskMode) (device_info : DeviceInfo) {s t : Threads C}
      → Reach (fresh task_mode device_info) s
      → Reach s t
      → Forward s t
  Reach-Forward m d r r' = (Reach-Forward_from (Reach-Inv m d r) r').0
