-- ===== src/Task/Handle.antt =====
-- include/STManager/manager.h: SyncTaskState and SyncTaskMode; src/sync.cpp: the class
-- SyncTaskHandle::Impl, one function for each critical section under its mutex, and the class
-- SyncTaskHandle, which calls it through a pointer that may be empty.
use stmanager.Prelude.{
  Text, Bool, true, false, codes, is_empty, not, [], Option, none, some, if◌then◌else◌,
}
use stmanager.Prelude.Int.{ℤ, pos}
use stmanager.Status.{Status, status, ok_code, sync_protocol_error}
use stmanager.Client.Pair.{DeviceInfo}

pub data SyncTaskState : Type 0 where
  starting running stopping finished : SyncTaskState

pub data SyncTaskMode : Type 0 where
  serve pair : SyncTaskMode

abbrev pub ok_status : Status
ok_status = status ok_code []

-- The fields of Impl. `worker_thread` says whether the thread object is joinable, and `C` is the
-- type std::function<void()>, whose empty value is `none`.
pub record Task (C : Type 0) : Type 0 where
  pub task_state : SyncTaskState
  pub task_status : Status
  pub task_mode : SyncTaskMode
  pub device_info : DeviceInfo
  pub stop_requested : Bool
  pub worker_thread : Bool
  pub interrupt_callback : Option C

-- What the first section of `wait` ends with: the caller goes on to join the thread that it took
-- out of the handle, or it returns a status.
pub data Waiting : Type 0 where
  joins : Waiting
  returns : Status → Waiting

abbrev pub is_finished : SyncTaskState → Bool
is_finished finished = true
is_finished _ = false

abbrev stopped_state : SyncTaskState → SyncTaskState
stopped_state starting = stopping
stopped_state running = stopping
stopped_state other = other

abbrev begun_state : SyncTaskState → SyncTaskState
begun_state starting = running
begun_state other = other

abbrev not_initialized : Status
not_initialized = status sync_protocol_error (codes "Sync task handle is not initialized")

module _ {C : Type 0} where
  unfoldable pub new_task : SyncTaskMode → DeviceInfo → Task C
  new_task task_mode device_info = record {
    task_state = starting;
    task_status = ok_status;
    task_mode = task_mode;
    device_info = device_info;
    stop_requested = false;
    worker_thread = false;
    interrupt_callback = none;
  }

  unfoldable pub start : Task C → Task C
  start t = record t { worker_thread = true }

  unfoldable pub mark_finished : Status → Task C → Task C
  mark_finished task_status t = record t {
    task_status = task_status;
    task_state = finished;
    interrupt_callback = none;
  }

  unfoldable pub set_interrupt_callback : Option C → Task C → Task C
  set_interrupt_callback callback t = record t { interrupt_callback = callback }

  unfoldable pub set_local_endpoint : Text → ℤ → Task C → Task C
  set_local_endpoint local_ip local_port t = record t {
    device_info = record (t.device_info) { host = local_ip; port = local_port };
  }

  -- `request_stop` stores the flag outside the mutex, then takes the mutex.
  unfoldable pub store_stop_requested : Task C → Task C
  store_stop_requested t = record t { stop_requested = true }

  -- The section of `request_stop`, and the callback that it is to call after it.
  unfoldable pub stop_section : Task C → Option C × Task C
  stop_section t = (t.interrupt_callback, record t { task_state = stopped_state t.task_state })

  unfoldable pub request_stop : Task C → Option C × Task C
  unfolding store_stop_requested stop_section
  request_stop t = stop_section (store_stop_requested t)

  -- `own` says whether the caller is the worker thread that the handle holds.
  unfoldable pub wait_section : Bool → Task C → Waiting × Task C
  wait_section own t =
      if not t.worker_thread
      then (returns t.task_status, t)
      else if own
      then (returns (status sync_protocol_error (codes "cannot wait from worker thread")), t)
      else (joins, record t { worker_thread = false })

  -- The section of `run` before the worker function.
  unfoldable pub run_section : Task C → Task C
  run_section t = record t { task_state = begun_state t.task_state }

  unfoldable pub is_running : Task C → Bool
  is_running t = not (is_finished t.task_state)

  unfoldable pub make_finished_sync_task : SyncTaskMode → Text → Text → Status → Task C
  unfolding mark_finished new_task
  make_finished_sync_task task_mode device_id device_name task_status = mark_finished task_status (
      new_task task_mode (record {
        device_id = device_id;
        device_name = if is_empty device_name then device_id else device_name;
        host = [];
        port = pos 0;
      }))

  -- The methods of SyncTaskHandle; `none` is a handle without a task.
  unfoldable pub handle_stop : Option (Task C) → Option C × Option (Task C)
  unfolding request_stop
  handle_stop none = (none, none)
  handle_stop (some t) = let (callback, t') = request_stop t in (callback, some t')

  unfoldable pub handle_wait : Bool → Option (Task C) → Waiting × Option (Task C)
  unfolding wait_section
  handle_wait own none = (returns not_initialized, none)
  handle_wait own (some t) = let (w, t') = wait_section own t in (w, some t')

  unfoldable pub handle_state : Option (Task C) → SyncTaskState
  handle_state none = finished
  handle_state (some t) = t.task_state

  unfoldable pub handle_mode : Option (Task C) → SyncTaskMode
  handle_mode none = serve
  handle_mode (some t) = t.task_mode

  unfoldable pub handle_last_status : Option (Task C) → Status
  handle_last_status none = not_initialized
  handle_last_status (some t) = t.task_status

  unfoldable pub handle_info : Option (Task C) → DeviceInfo
  handle_info none = record { device_id = []; device_name = []; host = []; port = pos 0 }
  handle_info (some t) = t.device_info

  unfoldable pub handle_is_running : Option (Task C) → Bool
  unfolding is_running
  handle_is_running none = false
  handle_is_running (some t) = is_running t
