-- ===== src/Bakery/System.antt =====
-- The server of 3/proc/bakery_server.c: its main thread answers one call at a time, and each
-- `bakery_wait` starts a thread of `bakery_service`. A step is one access to a shared variable.
use sem_os.Base.{ℕ, suc, ◌+◌, ◌≤◌, ◌<◌, ◌≡◌, ◌≢◌, Bool, true, false}
use sem_os.Bakery.Family.{update}

-- The length of the arrays.
abbrev pub slots : ℕ
slots = 32

-- 'a' and 'z'.
abbrev pub letter_a : ℕ
letter_a = 97

abbrev pub letter_z : ℕ
letter_z = 122

-- Where the main thread stands: between calls, in `get_number_1_svc` with its `ind`, `i` and `max`,
-- or in the `pthread_join` of `bakery_service_1_svc`.
pub data Main : Type 0 where
  ready : Main
  scanning : (ind i max : ℕ) → Main  -- before `number[i] > max`
  raising : (ind i max : ℕ) → Main  -- before `max = number[i]`
  numbered : (ind : ℕ) → Main  -- before `choosing[ind] = 0`
  joining : (p : ℕ) → Main

-- Where the client with a given pid stands, and its thread.
pub data Pc : Type 0 where
  absent : Pc  -- the pid is not given out yet
  ticketed : Pc  -- it has a number, and no thread
  at_choosing : (j : ℕ) → Pc  -- before the first `while` of round `j`
  at_zero : (j : ℕ) → Pc  -- before `number[j] != 0`
  at_less : (j : ℕ) → Pc  -- before `number[j] < number[i]`
  at_equal : (j : ℕ) → Pc  -- before `number[j] == number[i] && j < i`
  taking : Pc  -- before the read of `c++`
  storing : (v : ℕ) → Pc  -- before its write
  checking : Pc  -- before `c > 'z'`
  leaving : Pc  -- before `number[i] = 0`
  done : Pc
  joined : Pc

pub record System : Type 0 where
  pub number : ℕ → ℕ
  pub choosing : ℕ → Bool
  pub num : ℕ
  pub letter : ℕ
  pub res : ℕ → ℕ
  pub main : Main
  pub thread : ℕ → Pc

-- The loop of `get_number_1_svc`, which reads `number[i]` a second time where it raises `max`.
pub data Scan (s : System) : Main → Main → Type 0 where
  low :
      {ind i max : ℕ}
      → i < slots
      → s.number i ≤ max
      → Scan s (scanning ind i max) (scanning ind (suc i) max)
  high :
      {ind i max : ℕ}
      → i < slots
      → max < s.number i
      → Scan s (scanning ind i max) (raising ind i max)
  raise : {ind i max : ℕ} → Scan s (raising ind i max) (scanning ind (suc i) (s.number i))

-- The loop of `bakery_service` in the thread of pid `p`.
pub data Walk (s : System) (p : ℕ) : Pc → Pc → Type 0 where
  spin_choosing :
      {j : ℕ} → j < slots → s.choosing j ≡ true → Walk s p (at_choosing j) (at_choosing j)
  chosen : {j : ℕ} → j < slots → s.choosing j ≡ false → Walk s p (at_choosing j) (at_zero j)
  gone : {j : ℕ} → s.number j ≡ 0 → Walk s p (at_zero j) (at_choosing (suc j))
  there : {j : ℕ} → s.number j ≢ 0 → Walk s p (at_zero j) (at_less j)
  less : {j : ℕ} → s.number j < s.number p → Walk s p (at_less j) (at_zero j)
  not_less : {j : ℕ} → s.number p ≤ s.number j → Walk s p (at_less j) (at_equal j)
  equal : {j : ℕ} → s.number j ≡ s.number p → j < p → Walk s p (at_equal j) (at_zero j)
  not_equal : {j : ℕ} → s.number j ≢ s.number p → Walk s p (at_equal j) (at_choosing (suc j))
  not_before : {j : ℕ} → p ≤ j → Walk s p (at_equal j) (at_choosing (suc j))
  enter : {j : ℕ} → slots ≤ j → Walk s p (at_choosing j) taking
  read : Walk s p taking (storing s.letter)

-- Threads that `pthread_create` has started and `pthread_join` has not joined.
abbrev pub started : Pc → Bool
started absent = false
started ticketed = false
started joined = false
started _ = true

-- The client calls `get_number`, `bakery_wait` and `bakery_service` in this order, once each, with
-- its own pid. A call of `get_number` past the last slot would write outside the arrays: it has no
-- step. Only the main thread uses `num`, so `num++` and `choosing[ind] = 1` are one step.
pub data Step (s : System) : System → Type 0 where
  claim :
      s.main ≡ ready
      → s.num < slots
      → Step s (record s {
        num = s.num + 1;
        choosing = update s.choosing s.num true;
        main = scanning s.num 0 0;
      })
  scan : {m m' : Main} → s.main ≡ m → Scan s m m' → Step s (record s { main = m' })
  store :
      (ind i max : ℕ)
      → s.main ≡ scanning ind i max
      → slots ≤ i
      → Step s (record s { number = update s.number ind (max + 1); main = numbered ind })
  chosen :
      (ind : ℕ)
      → s.main ≡ numbered ind
      → Step s (record s {
        choosing = update s.choosing ind false;
        thread = update s.thread ind ticketed;
        main = ready;
      })
  wait :
      (p : ℕ)
      → s.main ≡ ready
      → s.thread p ≡ ticketed
      → Step s (record s { thread = update s.thread p (at_choosing 0) })
  service :
      (p : ℕ)
      → s.main ≡ ready
      → started (s.thread p) ≡ true
      → Step s (record s { main = joining p })
  join :
      (p : ℕ)
      → s.main ≡ joining p
      → s.thread p ≡ done
      → Step s (record s { thread = update s.thread p joined; main = ready })
  walk :
      (p : ℕ) {x y : Pc}
      → s.thread p ≡ x
      → Walk s p x y
      → Step s (record s { thread = update s.thread p y })
  put :
      (p v : ℕ)
      → s.thread p ≡ storing v
      → Step s
          (record s { letter = v + 1; res = update s.res p v; thread = update s.thread p checking })
  wrap :
      (p : ℕ)
      → s.thread p ≡ checking
      → letter_z < s.letter
      → Step s (record s { letter = letter_a; thread = update s.thread p leaving })
  keep :
      (p : ℕ)
      → s.thread p ≡ checking
      → s.letter ≤ letter_z
      → Step s (record s { thread = update s.thread p leaving })
  leave :
      (p : ℕ)
      → s.thread p ≡ leaving
      → Step s (record s { number = update s.number p 0; thread = update s.thread p done })

abbrev pub init : System
init = record {
  number = λ _. 0;
  choosing = λ _. false;
  num = 0;
  letter = letter_a;
  res = λ _. 0;
  main = ready;
  thread = λ _. absent;
}

-- From `s`, by any steps of any of the threads.
pub data Reach (s : System) : System → Type 0 where
  start : Reach s s
  later : {t u : System} → Reach s t → Step t u → Reach s u

-- In the bakery's critical section, between the two loops and `number[i] = 0`.
abbrev pub critical : Pc → Bool
critical taking = true
critical (storing v) = true
critical checking = true
critical leaving = true
critical _ = false
