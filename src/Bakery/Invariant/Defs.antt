-- ===== src/Bakery/Invariant/Defs.antt =====
-- The invariant of the bakery server: who holds which number, and which thread has passed whom.
use sem_os.Base.{ℕ, ◌+◌, ◌≤◌, ◌<◌, ◌≡◌, ◌≢◌, ◌⊎◌, Bool, true, false}
use sem_os.Bakery.System.{
  slots, Main, ready, scanning, raising, numbered, joining, Pc, absent, ticketed, at_choosing,
  at_zero, at_less, at_equal, done, joined, System,
}

-- Has a number, and has not given it back.
abbrev pub pending : Pc → Bool
pending absent = false
pending done = false
pending joined = false
pending _ = true

-- The rounds of its loop that a thread has behind it.
abbrev pub passed : Pc → ℕ
passed absent = 0
passed ticketed = 0
passed (at_choosing j) = j
passed (at_zero j) = j
passed (at_less j) = j
passed (at_equal j) = j
passed _ = slots

-- What the local variables of the main thread say about the numbers.
abbrev pub ScanInv : ℕ → (ℕ → ℕ) → (ℕ → Pc) → Main → Type 0
ScanInv num number thread ready = Unit
ScanInv num number thread (joining p) = Unit
ScanInv num number thread (numbered ind) =
    (ind + 1 ≡ num) × (thread ind ≡ absent) × (number ind ≢ 0)
ScanInv num number thread (scanning ind i max) =
    (ind + 1 ≡ num)
    × (thread ind ≡ absent)
    × (number ind ≡ 0)
    × (max ≤ ind)
    × ((q : ℕ) → q < i → number q ≤ max)
ScanInv num number thread (raising ind i max) =
    (ind + 1 ≡ num)
    × (thread ind ≡ absent)
    × (number ind ≡ 0)
    × (i < slots)
    × (((max < number i) × ((q : ℕ) → q < i → number q ≤ max)) ⊎ ((q : ℕ) → q ≤ i → number q ≡ 0))

pub record Inv (s : System) : Type 0 where
  pub few : s.num ≤ slots
  pub unused : (j : ℕ) → s.num ≤ j → (s.number j ≡ 0) × (s.thread j ≡ absent)
  pub bound : (j : ℕ) → s.number j ≤ j + 1
  pub ordered : (i j : ℕ) → i < j → s.number i ≢ 0 → s.number j ≢ 0 → s.number i < s.number j
  pub alive : (p : ℕ) → pending (s.thread p) ≡ true → s.number p ≢ 0
  pub clear : (p q : ℕ) → q < passed (s.thread p) → q < p → s.number q ≡ 0
  pub behind : (p j : ℕ) → s.thread p ≡ at_equal j → p ≤ j
  pub scanned : ScanInv s.num s.number s.thread s.main
