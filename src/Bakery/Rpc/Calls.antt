-- ===== src/Bakery/Rpc/Calls.antt =====
-- The calls of the server in 3/proc/bakery_server.c, by the steps of its main thread, among those of the
-- other threads.
use sem_os.Base.{ℕ, ◌≡◌, ◌≢◌, ◌⊎◌, inl, inr, refl, sym, ◌∙◌, arith}
use sem_os.Bakery.Family.{update}
use sem_os.Bakery.System.{
  System, Reach, start, later, Step, claim, scan, store, wait, service, join, walk, put, wrap, keep,
  leave, Scan, Main, ready, scanning, joining, ticketed, at_choosing, joined,
}
use sem_os.Bakery.Invariant.{Reach-trans}
use sem_os.Bakery.Rpc.Dispatch.{Procedures}
use sem_os.TimedBakery.Rpc.Xdr.{Bakery}

-- Steps while the main thread is in a call: it answers no other before it is `ready`.
pub data During (s : System) : System → Type 0 where
  enter : During s s
  more : {t u : System} → During s t → t.main ≢ ready → Step t u → During s u

-- A call from where the main thread is ready, by its first step, until it is ready again.
pub record Call (entry : Main) (s u : System) : Type 0 where
  pub first : System
  pub idle : s.main ≡ ready
  pub enters : Step s first
  pub entered : first.main ≡ entry
  pub during : During first u
  pub answers : u.main ≡ ready

-- The fields that a procedure does not set are 0 in its static result.
pub data GetNumber (b : Bakery) (s : System) : Bakery → System → Type 0 where
  given :
      {u : System}
      → Call (scanning s.num 0 0) s u
      → GetNumber b s (record { num = u.number s.num; pid = s.num; res = 0 }) u

pub data BakeryWait (b : Bakery) (s : System) : Bakery → System → Type 0 where
  started :
      s.main ≡ ready
      → s.thread b.pid ≡ ticketed
      → BakeryWait b s
          (record { num = 0; pid = 0; res = 0 })
          (record s { thread = update s.thread b.pid (at_choosing 0) })

pub data BakeryService (b : Bakery) (s : System) : Bakery → System → Type 0 where
  joins :
      {u : System}
      → Call (joining b.pid) s u
      → BakeryService b s (record { num = 0; pid = 0; res = u.res b.pid }) u

abbrev pub server : Procedures System
server = record {
  get_number_1_svc = GetNumber;
  bakery_wait_1_svc = BakeryWait;
  bakery_service_1_svc = BakeryService;
}

During-Reach : {s t : System} → During s t → Reach s t
During-Reach enter = start
During-Reach (more d n st) = later (During-Reach d) st

pub Call-Reach : {entry : Main} {s u : System} → Call entry s u → Reach s u
Call-Reach c = Reach-trans (later start c.enters) (During-Reach c.during)

-- The main thread only leaves `pthread_join` when the thread has ended, which is joined then.
step-joining :
    {p : ℕ} {s t : System}
    → s.main ≡ joining p
    → Step s t
    → (t.main ≡ joining p) ⊎ ((t.main ≡ ready) × (t.thread p ≡ joined))
step-joining m (claim e h) = absurd cc
step-joining m (scan e (Scan.low l h)) = absurd cc
step-joining m (scan e (Scan.high l h)) = absurd cc
step-joining m (scan e Scan.raise) = absurd cc
step-joining m (store ind i max e h) = absurd cc
step-joining m (Step.chosen ind e) = absurd cc
step-joining m (wait r e h) = absurd cc
step-joining m (service r e h) = absurd cc
step-joining m (join r e h) = inr (refl, ground (arith, m))
step-joining m (walk r e w) = inl m
step-joining m (put r v e) = inl m
step-joining m (wrap r e h) = inl m
step-joining m (keep r e h) = inl m
step-joining m (leave r e) = inl m

During-joining :
    {p : ℕ} {s t : System}
    → s.main ≡ joining p
    → During s t
    → (t.main ≡ joining p) ⊎ ((t.main ≡ ready) × (t.thread p ≡ joined))
During-joining m enter = inl m
During-joining m (more d n st) = elim (During-joining m d) [
  | inl k ↦ step-joining k st
  | inr k ↦ absurd (n k.0)
]

-- When `bakery_service_1_svc` answers, the thread of the client is joined.
pub service-joined : {p : ℕ} {s u : System} → Call (joining p) s u → u.thread p ≡ joined
service-joined {p} c = elim (During-joining c.entered c.during) [
  | inl k ↦ absurd (busy (sym c.answers ∙ k))
  | inr k ↦ k.1
]
  where
    busy : ready ≡ joining p → ⊥
    busy e = absurd cc
