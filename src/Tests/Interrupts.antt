-- ===== src/Tests/Interrupts.antt =====
-- The tasklet and the work queues.
use sem_os.Base.{◌≡◌, refl, List, [], ◌∷◌, ◌++◌, none, pos, true, false}
use sem_os.Tasklet.Handler as H
use sem_os.Tasklet.Samples.{Samples, trace_refines}
use sem_os.Workqueue.Module as W
use sem_os.Workqueue.Handler as Q

-- Two keys before the tasklet runs, the key 4 between the start of the run and the call of its
-- function, which the next run shows again, and an interrupt of another line.
abbrev events : List H.Event
events =
    H.Event.interrupt 1 2
    ∷ H.Event.interrupt 1 3
    ∷ H.Event.softirq
    ∷ H.Event.interrupt 1 4
    ∷ H.Event.call
    ∷ H.Event.interrupt 9 5
    ∷ H.Event.softirq
    ∷ H.Event.call
    ∷ []

trace_refines_example :
    Samples (record { code = 0; scheduled = false; running = false }) events none none
trace_refines_example = trace_refines 0 events

abbrev queues : W.Outcomes
queues = record {
  request_irq = pos 0;
  alloc_workqueue_1 = true;
  alloc_workqueue_2 = true;
  kmalloc_1 = true;
  kmalloc_2 = true;
  proc_create_data = true;
  proc_mkdir = true;
  proc_symlink = true;
}

-- The device as it is after the module has been loaded, where the codes are not set.
abbrev fresh : Q.Device
fresh = record {
  code_1 = 77;
  code_2 = 78;
  queued_1 = false;
  queued_2 = false;
  sleeping_2 = false;
  log_1 = [];
  log_2 = [];
}

-- An interrupt of another number before the first key, and what comes behind that key.
abbrev foreign : List Q.Event
foreign = Q.Event.interrupt 9 1 ∷ Q.Event.run_1 ∷ []

abbrev keys : List Q.Event
keys = Q.Event.start_2 ∷ Q.Event.run_1 ∷ Q.Event.interrupt 1 4 ∷ Q.Event.wake_2 ∷ []

run-IsCurrent_example :
    let u = Q.run fresh (foreign ++ (Q.Event.interrupt 1 3 ∷ keys)) in
    (u.code_1 ≡ 4) × (u.code_2 ≡ 4) × Q.IsCurrent u
run-IsCurrent_example = Q.run-IsCurrent fresh foreign keys 3 (tt, (tt, (refl, (tt, tt))))
