-- ===== src/Tests/Tasks.antt =====
-- The theorems of the task handle at a task that serves, is stopped and is waited for.
use stmanager.Prelude.{ℕ, true, false, codes, ◌≡◌, refl}
use stmanager.Prelude.Int.{pos}
use stmanager.Status.{Status, status, io_error}
use stmanager.Client.Pair.{DeviceInfo}
use stmanager.Task.Handle.{
  serve, ok_status, returns, new_task, start, mark_finished, store_stop_requested, stop_section,
  wait_section, is_running, run_section,
}
use stmanager.Task.Threads.{
  Threads, working, ended, fresh, begin, return_status, finish, by_worker, started, stop_stored,
  stop_entered, wait_entered, Reach, here, next, returned,
}
use stmanager.Task.Reached.{Inv, Forward, Reach-Inv, Reach-Forward}
use stmanager.Task.Ends.{Settling, Reach-Settling, wait_section-second}
use stmanager.Task.Promise.{PromiseRun, promise, Reach-PromiseRun}

abbrev device : DeviceInfo
device = record { device_id = codes "a"; device_name = codes "b"; host = codes "h"; port = pos 80 }

abbrev first : Threads ℕ
unfolding fresh new_task
first = fresh serve device

-- The worker runs, and a caller waits for it.
abbrev waited : Threads ℕ
unfolding run_section start wait_section
waited = record first {
  task = (wait_section false (run_section (start first.task))).1;
  worker = working;
  joiner = true;
}

abbrev stopped : Threads ℕ
unfolding store_stop_requested stop_section
stopped = record waited { task = (stop_section (store_stop_requested waited.task)).1 }

abbrev over : Threads ℕ
unfolding mark_finished
over = record stopped { task = mark_finished ok_status stopped.task; worker = ended ok_status }

first-Reach-waited : Reach (fresh serve device) waited
unfolding waited first fresh new_task run_section start wait_section
first-Reach-waited =
    next (next (next here (started refl)) (by_worker (begin refl))) (wait_entered false refl)

waited-Reach-over : Reach waited over
unfolding over stopped waited first fresh new_task run_section start wait_section mark_finished
    store_stop_requested stop_section
waited-Reach-over =
    next
      (next (next (next here stop_stored) (stop_entered refl))
        (by_worker (return_status ok_status refl)))
      (by_worker (finish ok_status refl))

Reach-Inv_example : Inv waited
Reach-Inv_example = Reach-Inv serve device first-Reach-waited

Reach-Forward_example : Forward waited over
Reach-Forward_example = Reach-Forward serve device first-Reach-waited waited-Reach-over

Reach-PromiseRun_example : PromiseRun (promise waited.task) (promise over.task)
Reach-PromiseRun_example = Reach-PromiseRun serve device first-Reach-waited waited-Reach-over

waited_joiner : waited.joiner ≡ true
unfolding waited
waited_joiner = refl

waited_working : waited.worker ≡ working
unfolding waited
waited_working = refl

abbrev failure : Status
failure = status io_error (codes "accept")

-- The worker function has returned an error.
abbrev failing : Threads ℕ
failing = record waited { worker = returned failure }

first-Reach-failing : Reach (fresh serve device) failing
unfolding waited
first-Reach-failing = next first-Reach-waited (by_worker (return_status failure refl))

failing_returned : failing.worker ≡ returned failure
unfolding waited
failing_returned = refl

abbrev failed_late : Threads ℕ
unfolding store_stop_requested stop_section mark_finished
failed_late = record failing {
  task = mark_finished failure (stop_section (store_stop_requested failing.task)).1;
  worker = ended failure;
}

failing-Reach-failed_late : Reach failing failed_late
unfolding failed_late waited first fresh new_task run_section start wait_section mark_finished
    store_stop_requested stop_section
failing-Reach-failed_late =
    next (next (next here stop_stored) (stop_entered refl)) (by_worker (finish failure refl))

Reach-Settling_example : Settling failure failed_late
Reach-Settling_example =
    Reach-Settling serve device failure first-Reach-failing failing_returned
      failing-Reach-failed_late

wait_section-second_example :
    (wait_section false waited.task ≡ (returns ok_status, waited.task))
    × (is_running waited.task ≡ true)
wait_section-second_example =
    wait_section-second serve device false first-Reach-waited waited_joiner waited_working
