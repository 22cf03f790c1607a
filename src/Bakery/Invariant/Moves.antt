-- ===== src/Bakery/Invariant/Moves.antt =====
-- Every step of the bakery server keeps each field of the invariant.
use sem_os.Base.{Bool-cases, ℕ, ◌+◌, ◌≤◌, ◌<◌, ◌≡◌, ◌≢◌, inl, inr, refl, true, arith, ◌==◌}
use sem_os.Bakery.Family.{update}
use sem_os.Bakery.System.{
  slots, Main, ready, scanning, raising, numbered, joining, Pc, absent, ticketed, at_choosing,
  at_equal, checking, leaving, done, System, Scan, Walk, Step, claim, scan, store, wait, service,
  join, walk, put, wrap, keep, leave, low, high, raise,
}
use sem_os.Bakery.Invariant.Defs.{pending, passed, ScanInv, Inv}

-- Only threads that wait for their turn walk.
pub Walk-pending :
    {s : System} {p : ℕ} {x y : Pc} → Walk s p x y → (pending x ≡ true) × (pending y ≡ true)
Walk-pending (Walk.spin_choosing h e) = (refl, refl)
Walk-pending _ = (refl, refl)

-- A client with no thread does not walk.
pub Walk-ticketed : {s : System} {p : ℕ} {x y : Pc} → Walk s p x y → x ≢ ticketed
Walk-ticketed (Walk.spin_choosing h e) a = cc
Walk-ticketed _ a = cc

module _ {s : System} (inv : Inv s) where
  open inv use {few, unused, bound, ordered, alive, clear, behind, scanned}

  -- What the main thread knows where it stands.
  pub at_main : (m : Main) → s.main ≡ m → ScanInv s.num s.number s.thread m
  at_main m e = rw e at scanned

  Step-few : {t : System} → Step s t → t.num ≤ slots
  Step-few (claim e h) = omega arith
  Step-few _ = few

  Step-unused :
      {t : System} → Step s t → (j : ℕ) → t.num ≤ j → (t.number j ≡ 0) × (t.thread j ≡ absent)
  Step-unused (claim e h) j le = ground (arith, unused j)
  Step-unused (scan e sc) j le = unused j le
  Step-unused (store ind i max e h) j le = ground (arith, unused j, at_main _ e)
  Step-unused (Step.chosen ind e) j le = ground (arith, unused j, at_main _ e)
  Step-unused (wait p e h) j le = ground (arith, unused j)
  Step-unused (service p e h) j le = unused j le
  Step-unused (join p e h) j le = ground (arith, unused j)
  Step-unused (walk p e w) j le = ground (arith, unused j, Walk-pending w)
  Step-unused (put p v e) j le = ground (arith, unused j)
  Step-unused (wrap p e h) j le = ground (arith, unused j)
  Step-unused (keep p e h) j le = ground (arith, unused j)
  Step-unused (leave p e) j le = ground (arith, unused j)

  Step-bound : {t : System} → Step s t → (j : ℕ) → t.number j ≤ j + 1
  Step-bound (store ind i max e h) j = ground (arith, bound j, at_main _ e)
  Step-bound (leave p e) j = ground (arith, bound j)
  Step-bound (claim e h) j = bound j
  Step-bound _ j = bound j

  Step-ordered :
      {t : System}
      → Step s t
      → (i j : ℕ) → i < j
      → t.number i ≢ 0
      → t.number j ≢ 0
      → t.number i < t.number j
  Step-ordered (store ind k max e h) i j lt ni nj =
      ground (arith, ordered i j lt, at_main _ e, (at_main _ e).4 i, unused j, few)
  Step-ordered (leave p e) i j lt ni nj = ground (arith, ordered i j lt)
  Step-ordered (claim e h) i j lt ni nj = ordered i j lt ni nj
  Step-ordered _ i j lt ni nj = ordered i j lt ni nj

  Step-alive : {t : System} → Step s t → (p : ℕ) → pending (t.thread p) ≡ true → t.number p ≢ 0
  Step-alive (claim e h) q a = alive q a
  Step-alive (scan e sc) q a = alive q a
  Step-alive (store ind i max e h) q a = ground (arith, alive q)
  Step-alive (Step.chosen ind e) q a = ground (arith, alive q, at_main _ e)
  Step-alive (wait p e h) q a = ground (arith, alive q)
  Step-alive (service p e h) q a = alive q a
  Step-alive (join p e h) q a = ground (arith, alive q)
  Step-alive (walk p e w) q a = ground (arith, alive q, Walk-pending w)
  Step-alive (put p v e) q a = ground (arith, alive q)
  Step-alive (wrap p e h) q a = ground (arith, alive q)
  Step-alive (keep p e h) q a = ground (arith, alive q)
  Step-alive (leave p e) q a = ground (arith, alive q)

  -- A thread does not find the number of an earlier one to be greater: that one is before it.
  Walk-behind :
      {p : ℕ} {x y : Pc} → Walk s p x y → s.thread p ≡ x → (j : ℕ) → y ≡ at_equal j → p ≤ j
  Walk-behind {p} (Walk.not_less {j = k} h) e j a = ground (arith, ordered k p, alive p)
  Walk-behind (Walk.spin_choosing h c) e j a = cc
  Walk-behind _ e j a = cc

  Walk-clear :
      {p : ℕ} {x y : Pc}
      → Walk s p x y
      → s.thread p ≡ x
      → (q : ℕ) → q < passed y
      → q < p
      → s.number q ≡ 0
  Walk-clear {p} (Walk.gone {j} h) e q l m = ground (arith, clear p q)
  Walk-clear {p} (Walk.not_equal {j} h) e q l m = ground (arith, clear p q, behind p j)
  Walk-clear {p} (Walk.not_before {j} h) e q l m = ground (arith, clear p q, behind p j)
  Walk-clear {p} (Walk.enter h) e q l m = ground (arith, clear p q)
  Walk-clear {p} (Walk.spin_choosing h c) e q l m = ground (arith, clear p q)
  Walk-clear {p} _ e q l m = ground (arith, clear p q)

  Step-behind : {t : System} → Step s t → (q j : ℕ) → t.thread q ≡ at_equal j → q ≤ j
  Step-behind (claim e h) q j a = behind q j a
  Step-behind (scan e sc) q j a = behind q j a
  Step-behind (store ind i max e h) q j a = behind q j a
  Step-behind (Step.chosen ind e) q j a = ground (arith, behind q j)
  Step-behind (wait p e h) q j a = ground (arith, behind q j)
  Step-behind (service p e h) q j a = behind q j a
  Step-behind (join p e h) q j a = ground (arith, behind q j)
  Step-behind (walk p {x} {y} e w) q j a = ground (arith, behind q j, Walk-behind w e j)
  Step-behind (put p v e) q j a = ground (arith, behind q j)
  Step-behind (wrap p e h) q j a = ground (arith, behind q j)
  Step-behind (keep p e h) q j a = ground (arith, behind q j)
  Step-behind (leave p e) q j a = ground (arith, behind q j)

  Step-clear :
      {t : System} → Step s t → (p q : ℕ) → q < passed (t.thread p) → q < p → t.number q ≡ 0
  Step-clear (claim e h) p q l m = clear p q l m
  Step-clear (scan e sc) p q l m = clear p q l m
  Step-clear (store ind i max e h) p q l m = ground (arith, clear p q, at_main _ e, unused p)
  Step-clear (Step.chosen ind e) p q l m = ground (arith, clear p q)
  Step-clear (wait r e h) p q l m = ground (arith, clear p q)
  Step-clear (service r e h) p q l m = clear p q l m
  Step-clear (join r e h) p q l m = ground (arith, clear p q)
  Step-clear (walk r e w) p q l m = ground (arith, clear p q, Walk-clear w e q)
  Step-clear (put r v e) p q l m = ground (arith, clear p q)
  Step-clear (wrap r e h) p q l m = ground (arith, clear p q)
  Step-clear (keep r e h) p q l m = ground (arith, clear p q)
  Step-clear (leave r e) p q l m = ground (arith, clear p q)

  -- A thread that has left `absent` moves: the main thread does not care.
  thread-ScanInv :
      (m : Main) (p : ℕ) (y : Pc)
      → s.thread p ≢ absent
      → ScanInv s.num s.number s.thread m
      → ScanInv s.num s.number (update s.thread p y) m
  thread-ScanInv ready p y n h = tt
  thread-ScanInv (joining r) p y n h = tt
  thread-ScanInv (numbered ind) p y n h = (h.0, ground arith, h.2)
  thread-ScanInv (scanning ind i max) p y n h = (h.0, ground arith, h.2, h.3, h.4)
  thread-ScanInv (raising ind i max) p y n h = (h.0, ground arith, h.2, h.3, h.4)

  -- A thread that gives its number back has no earlier one before it.
  leave-ScanInv :
      (m : Main) (p : ℕ)
      → s.thread p ≡ leaving
      → ScanInv s.num s.number s.thread m
      → ScanInv s.num (update s.number p 0) (update s.thread p done) m
  leave-ScanInv ready p e h = tt
  leave-ScanInv (joining r) p e h = tt
  leave-ScanInv (numbered ind) p e h = (h.0, ground arith, ground arith)
  leave-ScanInv (scanning ind i max) p e h =
      (h.0, ground arith, ground arith, h.3, λ q l. ground (arith, h.4 q))
  leave-ScanInv (raising ind i max) p e h = (
    h.0,
    ground arith,
    ground arith,
    h.3,
    elim h.4 [
      | inr none_left ↦ inr (λ q l. ground (arith, none_left q))
      | inl (above, below) ↦ elim (Bool-cases (p == i)) [
        | inl same ↦ inr (λ q l. ground (arith, clear p q))
        | inr other ↦ inl (ground arith, λ q l. ground (arith, below q))
      ]
    ],
  )

  Scan-ScanInv :
      {m m' : Main}
      → Scan s m m'
      → ScanInv s.num s.number s.thread m
      → ScanInv s.num s.number s.thread m'
  Scan-ScanInv (low {ind} {i} {max} l h) v = (v.0, v.1, v.2, v.3, λ q k. ground (arith, v.4 q))
  Scan-ScanInv (high {ind} {i} {max} l h) v = (v.0, v.1, v.2, l, inl (h, v.4))
  Scan-ScanInv (raise {ind} {i} {max}) v = (
    v.0,
    v.1,
    v.2,
    ground (arith, bound i, unused i),
    λ q k. elim v.4 [
      | inl (above, below) ↦ ground (arith, below q)
      | inr none_left ↦ ground (arith, none_left q)
    ],
  )

  Step-scanned : {t : System} → Step s t → ScanInv t.num t.number t.thread t.main
  Step-scanned (claim e h) = (
    refl,
    (unused s.num (omega arith)).1,
    (unused s.num (omega arith)).0,
    omega arith,
    λ q k. absurd (omega arith),
  )
  Step-scanned (scan e sc) = Scan-ScanInv sc (at_main _ e)
  Step-scanned (store ind i max e h) = let v = at_main _ e in (v.0, v.1, ground arith)
  Step-scanned (Step.chosen ind e) = tt
  Step-scanned (wait p e h) = thread-ScanInv s.main p (at_choosing 0) (λ a. cc) scanned
  Step-scanned (service p e h) = tt
  Step-scanned (join p e h) = tt
  Step-scanned (walk p {x} {y} e w) =
      thread-ScanInv s.main p y (λ a. ground (arith, Walk-pending w)) scanned
  Step-scanned (put p v e) = thread-ScanInv s.main p checking (λ a. cc) scanned
  Step-scanned (wrap p e h) = thread-ScanInv s.main p leaving (λ a. cc) scanned
  Step-scanned (keep p e h) = thread-ScanInv s.main p leaving (λ a. cc) scanned
  Step-scanned (leave p e) = leave-ScanInv s.main p e scanned

  pub Step-Inv : {t : System} → Step s t → Inv t
  Step-Inv st = record {
    few = Step-few st;
    unused = Step-unused st;
    bound = Step-bound st;
    ordered = Step-ordered st;
    alive = Step-alive st;
    clear = Step-clear st;
    behind = Step-behind st;
    scanned = Step-scanned st;
  }
