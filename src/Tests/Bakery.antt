-- ===== src/Tests/Bakery.antt =====
-- The bakery server with two clients.
use sem_os.Base.{ℕ, zero, suc, ◌≤◌, ◌<◌, ◌≡◌, ◌≢◌, refl, true, false, arith}
use sem_os.Bakery.Family.{update}
use sem_os.Bakery.System.{
  System, init, Reach, start, later, Step, Scan, slots, scanning, numbered, joining, ready,
  ticketed, at_choosing, taking, joined, critical,
}
use sem_os.Bakery.Invariant.{pending}
use sem_os.Bakery.Safety.{mutual_exclusion, first_come_first_served, bakery_service_deadlock}
use sem_os.Bakery.Progress.{entered, serves_in_turn}
use sem_os.Bakery.Letters.{letter_of}
use sem_os.Bakery.Liveness.{AreServed, can_finish, join_returns}

-- The second client in the critical section, with the first one through.
second : (s : System) × Reach init s × (s.thread 1 ≡ taking)
second = let (s, r, a) = entered 1 (omega arith) (serves_in_turn 1 (omega arith)) in (s, r, a.here)

second_critical : critical (second.0.thread 1) ≡ true
second_critical = ground (arith, second.2)

mutual_exclusion_example : ◌≡◌ {A = ℕ} 1 1
mutual_exclusion_example = mutual_exclusion second.1 1 1 second_critical second_critical

first_come_first_served_example : (second.0.number 0 ≡ 0) × (pending (second.0.thread 0) ≡ false)
first_come_first_served_example = first_come_first_served second.1 1 0 second_critical (omega arith)

-- Two clients, of which only the second waits and is served: the first call.
abbrev first_scan : ℕ → System
first_scan i = record init {
  num = 1;
  choosing = update init.choosing 0 true;
  main = scanning 0 i 0;
}

first_scans : (i : ℕ) → i ≤ slots → Reach init (first_scan i)
first_scans zero h = later start (Step.claim refl (omega arith))
first_scans (suc i) h =
    later (first_scans i (omega arith)) (Step.scan refl (Scan.low (omega arith) (omega arith)))

abbrev first_numbered : System
first_numbered = record (first_scan slots) { number = update init.number 0 1; main = numbered 0 }

abbrev first_ticket : System
first_ticket = record first_numbered {
  choosing = update first_numbered.choosing 0 false;
  thread = update init.thread 0 ticketed;
  main = ready;
}

reach_first : Reach init first_ticket
reach_first =
    later (later (first_scans slots (omega arith)) (Step.store 0 slots 0 refl (omega arith)))
      (Step.chosen 0 refl)

-- The second call.
abbrev second_scan : ℕ → System
second_scan i = record first_ticket {
  num = 2;
  choosing = update first_ticket.choosing 1 true;
  main = scanning 1 (suc i) 1;
}

second_scans : (i : ℕ) → i < slots → Reach init (second_scan i)
second_scans zero h =
    later
      (later (later reach_first (Step.claim refl (omega arith)))
        (Step.scan refl (Scan.high (omega arith) (omega arith))))
      (Step.scan refl Scan.raise)
second_scans (suc i) h =
    later (second_scans i (omega arith)) (Step.scan refl (Scan.low (omega arith) (ground arith)))

abbrev stuck : System
stuck = record (second_scan 31) {
  number = update first_ticket.number 1 2;
  choosing = update (second_scan 31).choosing 1 false;
  thread = update (update first_ticket.thread 1 ticketed) 1 (at_choosing 0);
  main = joining 1;
}

reach_stuck : Reach init stuck
reach_stuck =
    later
      (later
        (later (later (second_scans 31 (omega arith)) (Step.store 1 slots 1 refl (omega arith)))
          (Step.chosen 1 refl))
        (Step.wait 1 refl refl))
      (Step.service 1 refl refl)

bakery_service_deadlock_example : stuck.main ≡ joining 1
bakery_service_deadlock_example =
    bakery_service_deadlock reach_stuck 0 1 (omega arith) refl refl (λ e. ground (arith, e)) start

can_finish_example : (t : System) × Reach first_ticket t × AreServed first_ticket.num t
can_finish_example = can_finish reach_first (λ p e. cc)

-- The first client has called `bakery_wait` and asks for its letter before its thread has run.
abbrev asked_early : System
asked_early = record first_ticket {
  thread = update first_ticket.thread 0 (at_choosing 0);
  main = joining 0;
}

reach_asked_early : Reach init asked_early
reach_asked_early = later (later reach_first (Step.wait 0 refl refl)) (Step.service 0 refl refl)

none_ticketed : (p : ℕ) → p ≤ 0 → asked_early.thread p ≢ ticketed
none_ticketed zero h e = cc
none_ticketed (suc p) h e = omega arith

join_returns_example :
    (t : System) × Reach asked_early t
    × (t.main ≡ ready)
    × (t.thread 0 ≡ joined)
    × (t.res 0 ≡ letter_of 0)
join_returns_example = join_returns 0 reach_asked_early refl none_ticketed
