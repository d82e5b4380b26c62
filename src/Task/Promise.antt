-- ===== src/Task/Promise.antt =====
-- What a task promises its caller, without threads, states or callbacks: a result that comes once,
-- a request to stop that is never taken back, and who it is. The task implements it.
use stmanager.Prelude.{Text, Bool, true, ◌≡◌, refl, sym, subst, arith}
use stmanager.Status.{Status}
use stmanager.Client.Pair.{DeviceInfo}
use stmanager.Task.Handle.{
  SyncTaskState, SyncTaskMode, Task, start, mark_finished, set_interrupt_callback,
  set_local_endpoint, store_stop_requested, stop_section, wait_section, run_section,
}
use stmanager.Task.Threads.{
  Threads, fresh, begin, return_status, finish, Step, by_worker, started, stop_stored, stop_entered,
  wait_entered, wait_returned, joined, callback_set, endpoint_set, Reach, here, next,
}
use stmanager.Task.Reached.{Inv, Step-Inv, Reach-Inv}

pub data Outcome : Type 0 where
  pending : Outcome
  settled : Status → Outcome

pub record Promise : Type 0 where
  pub outcome : Outcome
  pub asked_to_stop : Bool
  pub mode : SyncTaskMode
  pub device_id : Text
  pub device_name : Text

pub data PromiseStep (p : Promise) : Promise → Type 0 where
  settle : (st : Status) → p.outcome ≡ pending → PromiseStep p (record p { outcome = settled st })
  ask : PromiseStep p (record p { asked_to_stop = true })

pub data PromiseRun (p : Promise) : Promise → Type 0 where
  done : PromiseRun p p
  then_step : {q r : Promise} → PromiseRun p q → PromiseStep q r → PromiseRun p r

abbrev outcome_of : SyncTaskState → Status → Outcome
outcome_of SyncTaskState.finished st = settled st
outcome_of SyncTaskState.starting st = pending
outcome_of SyncTaskState.running st = pending
outcome_of SyncTaskState.stopping st = pending

unchanged : {p q r : Promise} → PromiseRun p q → r ≡ q → PromiseRun p r
unchanged {p} r e = subst (PromiseRun p) (sym e) r

stepped : {p q r r' : Promise} → PromiseRun p q → PromiseStep q r' → r ≡ r' → PromiseRun p r
stepped run s e = unchanged (then_step run s) e

module _ {C : Type 0} where
  -- The promise that a task shows.
  unfoldable pub promise : Task C → Promise
  promise t = record {
    outcome = outcome_of t.task_state t.task_status;
    asked_to_stop = t.stop_requested;
    mode = t.task_mode;
    device_id = t.device_info.device_id;
    device_name = t.device_info.device_name;
  }

  Step-PromiseRun :
      {p : Promise} {s t : Threads C}
      → Inv s
      → Step s t
      → PromiseRun p (promise s.task)
      → PromiseRun p (promise t.task)
  unfolding promise start mark_finished store_stop_requested stop_section wait_section run_section
      set_interrupt_callback set_local_endpoint
  Step-PromiseRun {s = s} h (by_worker (begin e)) r = unchanged r (ground arith)
  Step-PromiseRun {s = s} h (by_worker (return_status st e)) r = r
  Step-PromiseRun {s = s} h (by_worker (finish st e)) r = stepped r (settle st (ground arith)) refl
  Step-PromiseRun {s = s} h (started e) r = unchanged r (ground arith)
  Step-PromiseRun {s = s} h stop_stored r = stepped r ask refl
  Step-PromiseRun {s = s} h (stop_entered e) r = unchanged r (ground arith)
  Step-PromiseRun {s = s} h (wait_entered own e) r = unchanged r (ground arith)
  Step-PromiseRun {s = s} h (wait_returned own st e) r = unchanged r (ground arith)
  Step-PromiseRun {s = s} h (joined st j e) r = r
  Step-PromiseRun {s = s} h (callback_set c) r = unchanged r (ground arith)
  Step-PromiseRun {s = s} h (endpoint_set host port) r = unchanged r (ground arith)

  Reach-PromiseRun_from :
      {s t : Threads C} → Inv s → Reach s t → PromiseRun (promise s.task) (promise t.task) × Inv t
  Reach-PromiseRun_from h here = (done, h)
  Reach-PromiseRun_from h (next r e) =
      let (run, i) = Reach-PromiseRun_from h r in (Step-PromiseRun i e run, Step-Inv e i)

  -- A task implements the promise: what its threads do between any two moments of its life, seen
  -- through its state, status, mode, id, name and stop flag, is a run of the promise, in which the
  -- outcome is settled at most once and from then on stays, a request to stop stays, and nothing
  -- else changes.
  pub Reach-PromiseRun :
      (task_mode : SyncTaskMode) (device_info : DeviceInfo) {s t : Threads C}
      → Reach (fresh task_mode device_info) s
      → Reach s t
      → PromiseRun (promise s.task) (promise t.task)
  Reach-PromiseRun m d r r' = (Reach-PromiseRun_from (Reach-Inv m d r) r').0
