-- ===== src/Task/Threads.antt =====
-- The threads around a task: the worker that `start` creates and runs `run`, the callers of
-- `request_stop` and `wait`, and the callbacks that the server calls. A step is one critical
-- section or one atomic store, so the steps come in any order.
use stmanager.Prelude.{Text, Bool, true, false, Option, ◌≡◌}
use stmanager.Prelude.Int.{ℤ}
use stmanager.Status.{Status}
use stmanager.Client.Pair.{DeviceInfo}
use stmanager.Task.Handle.{
  SyncTaskMode, Task, joins, returns, new_task, start, mark_finished, set_interrupt_callback,
  set_local_endpoint, store_stop_requested, stop_section, wait_section, run_section,
}

-- Where the worker thread stands: in front of the section of `run`, in the worker function, after
-- it with the status that it returned, or after `mark_finished` with that status.
pub data Worker : Type 0 where
  not_started created working : Worker
  returned ended : Status → Worker

-- `joiner` says that a caller of `wait` took the thread and waits for its end.
pub record Threads (C : Type 0) : Type 0 where
  pub task : Task C
  pub worker : Worker
  pub joiner : Bool

module _ {C : Type 0} where
  unfoldable pub fresh : SyncTaskMode → DeviceInfo → Threads C
  unfolding new_task
  fresh task_mode device_info = record {
    task = new_task task_mode device_info;
    worker = not_started;
    joiner = false;
  }

  -- A step of the worker. `return_status` is the return of the worker function, of which nothing
  -- says that it comes.
  pub data WorkerStep (s : Threads C) : Threads C → Type 0 where
    begin :
        s.worker ≡ created → WorkerStep s (record s { task = run_section s.task; worker = working })
    return_status :
        (st : Status) → s.worker ≡ working → WorkerStep s (record s { worker = returned st })
    finish :
        (st : Status)
        → s.worker ≡ returned st
        → WorkerStep s (record s { task = mark_finished st s.task; worker = ended st })

  -- A step of the worker or of a caller.
  pub data Step (s : Threads C) : Threads C → Type 0 where
    by_worker : {s' : Threads C} → WorkerStep s s' → Step s s'
    started : s.worker ≡ not_started → Step s (record s { task = start s.task; worker = created })
    stop_stored : Step s (record s { task = store_stop_requested s.task })
    stop_entered :
        s.task.stop_requested ≡ true → Step s (record s { task = (stop_section s.task).1 })
    wait_entered :
        (own : Bool)
        → (wait_section own s.task).0 ≡ joins
        → Step s (record s { task = (wait_section own s.task).1; joiner = true })
    wait_returned :
        (own : Bool) (st : Status)
        → (wait_section own s.task).0 ≡ returns st
        → Step s (record s { task = (wait_section own s.task).1 })
    joined :
        (st : Status) → s.joiner ≡ true → s.worker ≡ ended st → Step s (record s { joiner = false })
    callback_set :
        (callback : Option C) → Step s (record s { task = set_interrupt_callback callback s.task })
    endpoint_set :
        (host : Text) (port : ℤ) → Step s (record s { task = set_local_endpoint host port s.task })

  pub data Reach (s : Threads C) : Threads C → Type 0 where
    here : Reach s s
    next : {t u : Threads C} → Reach s t → Step t u → Reach s u
