-- ===== src/Bakery/Safety.antt =====
-- What the bakery server guarantees its clients, and the deadlock of its main thread.
use sem_os.Base.{ℕ, ◌+◌, ◌≤◌, ◌<◌, ◌≡◌, ◌≢◌, true, false, arith}
use native.Mathlib.Decide.{dec_lt}
use sem_os.Bakery.System.{
  Scan, System, init, Reach, start, later, Step, critical, slots, ticketed, joining, done,
}
use sem_os.Bakery.Invariant.{Inv, Step-Inv, Reach-Inv, pending, Walk-pending, Walk-ticketed}

critical-excludes :
    {s : System}
    → Inv s
    → (p q : ℕ) → p < q
    → critical (s.thread p) ≡ true
    → critical (s.thread q) ≡ true
    → ⊥
critical-excludes {s} inv p q lt cp cq =
    ground (arith, inv.alive p, inv.clear q p, inv.unused q, inv.few)

-- In every reachable state at most one thread is in the critical section of the bakery, whatever
-- the order of the steps of the main thread and of the others.
pub mutual_exclusion :
    {s : System}
    → Reach init s
    → (p q : ℕ) → critical (s.thread p) ≡ true
    → critical (s.thread q) ≡ true
    → p ≡ q
mutual_exclusion r p q cp cq = elim (dec_lt p q) [
  | yes lt ↦ absurd (critical-excludes (Reach-Inv r) p q lt cp cq)
  | no ge ↦ elim (dec_lt q p) [
    | yes gt ↦ absurd (critical-excludes (Reach-Inv r) q p gt cq cp)
    | no le ↦ omega arith
  ]
]

-- First come, first served: a thread in the critical section has every client with a smaller pid,
-- and so every one that took its number before, behind it: none of them holds a number any more.
pub first_come_first_served :
    {s : System}
    → Reach init s
    → (p q : ℕ) → critical (s.thread p) ≡ true
    → q < p
    → (s.number q ≡ 0) × (pending (s.thread q) ≡ false)
first_come_first_served {s} r p q c lt =
    let inv = Reach-Inv r in
    ground (arith, inv.clear p q, inv.alive q, inv.alive p, inv.unused p, inv.few)

-- No number exceeds the number of clients before it and one: it stays far from the bounds of `int`.
pub number_bound : {s : System} → Reach init s → (p : ℕ) → (s.num ≤ slots) × (s.number p ≤ p + 1)
number_bound r p = ((Reach-Inv r).few, (Reach-Inv r).bound p)

-- The main thread waits for the thread of `q`, and an earlier client has no thread yet.
record IsStuck (p q : ℕ) (s : System) : Type 0 where
  inv : Inv s
  before : p < q
  waits : s.main ≡ joining q
  no_thread : s.thread p ≡ ticketed
  not_done : s.thread q ≢ done

step_waits : {p q : ℕ} {s t : System} → IsStuck p q s → Step s t → t.main ≡ joining q
step_waits k (Step.claim e h) = ground (arith, k.waits)
step_waits k (Step.scan e (Scan.low l h)) = ground (arith, k.waits)
step_waits k (Step.scan e (Scan.high l h)) = ground (arith, k.waits)
step_waits k (Step.scan e Scan.raise) = ground (arith, k.waits)
step_waits k (Step.join r e h) = ground (arith, k.waits, k.not_done)
step_waits k (Step.store ind i max e h) = ground (arith, k.waits)
step_waits k (Step.chosen ind e) = ground (arith, k.waits)
step_waits k (Step.wait r e h) = ground (arith, k.waits)
step_waits k (Step.service r e h) = ground (arith, k.waits)
step_waits k _ = k.waits

step_no_thread : {p q : ℕ} {s t : System} → IsStuck p q s → Step s t → t.thread p ≡ ticketed
step_no_thread k (Step.walk r e w) = ground (arith, k.no_thread, Walk-pending w, Walk-ticketed w)
step_no_thread k (Step.join r e h) = ground (arith, k.no_thread)
step_no_thread k (Step.wait r e h) = ground (arith, k.waits)
step_no_thread k (Step.chosen ind e) = ground (arith, k.waits, k.no_thread)
step_no_thread k (Step.put r v e) = ground (arith, k.waits, k.no_thread)
step_no_thread k (Step.wrap r e h) = ground (arith, k.waits, k.no_thread)
step_no_thread k (Step.keep r e h) = ground (arith, k.waits, k.no_thread)
step_no_thread k (Step.leave r e) = ground (arith, k.waits, k.no_thread)
step_no_thread k _ = k.no_thread

step_not_done : {p q : ℕ} {s t : System} → IsStuck p q s → Step s t → t.thread q ≢ done
step_not_done {p} {q} k (Step.leave r e) =
    ground
      (arith, k.not_done, k.inv.clear q p, k.inv.alive p, k.inv.alive q, k.inv.unused q, k.inv.few)
step_not_done k (Step.walk r e w) = ground (arith, k.not_done, Walk-pending w)
step_not_done k (Step.wait r e h) = ground (arith, k.not_done)
step_not_done k (Step.chosen ind e) = ground (arith, k.not_done)
step_not_done k (Step.join r e h) = ground (arith, k.not_done)
step_not_done k (Step.put r v e) = ground (arith, k.not_done)
step_not_done k (Step.wrap r e h) = ground (arith, k.not_done)
step_not_done k (Step.keep r e h) = ground (arith, k.not_done)
step_not_done k _ = k.not_done

step-IsStuck : {p q : ℕ} {s t : System} → IsStuck p q s → Step s t → IsStuck p q t
step-IsStuck {p} {q} {s} k st = record {
  inv = Step-Inv k.inv st;
  before = k.before;
  waits = step_waits k st;
  no_thread = step_no_thread k st;
  not_done = step_not_done k st;
}

reach-IsStuck : {p q : ℕ} {s t : System} → IsStuck p q s → Reach s t → IsStuck p q t
reach-IsStuck k start = k
reach-IsStuck k (later r st) = step-IsStuck (reach-IsStuck k r) st

-- A deadlock: if the server is asked for the result of a client whose thread is not through, while
-- one with a smaller pid has not called `bakery_wait`, the main thread never answers a call again.
pub bakery_service_deadlock :
    {s t : System}
    → Reach init s
    → (p q : ℕ) → p < q
    → s.main ≡ joining q
    → s.thread p ≡ ticketed
    → s.thread q ≢ done
    → Reach s t
    → t.main ≡ joining q
bakery_service_deadlock reached p q before waits no_thread not_done r =
    (reach-IsStuck
      (record {
        inv = Reach-Inv reached;
        before = before;
        waits = waits;
        no_thread = no_thread;
        not_done = not_done;
      })
      r).waits
