-- ===== src/Bakery/Letters/Place.antt =====
-- The place of a client of 3/proc/bakery_server.c in the order of the letters.
use sem_os.Base.{ℕ, ◌+◌, ◌%◌, ◌≤◌, ◌<◌, ◌≡◌, ◌⊎◌, Bool, true, false}
use sem_os.Bakery.System.{
  System, letter_a, Main, ready, joining, Pc, absent, storing, checking, leaving, done, joined,
}

-- The letters in order, and again from 'a' after 'z'.
abbrev pub letter_of : ℕ → ℕ
letter_of k = letter_a + k % 26

-- A thread that has given its number back.
abbrev pub finished : Pc → Bool
finished done = true
finished joined = true
finished _ = false

-- A thread that has its letter.
abbrev pub printed : Pc → Bool
printed checking = true
printed leaving = true
printed done = true
printed joined = true
printed _ = false

-- The main thread is in `get_number_1_svc`.
abbrev pub numbering : Main → Bool
numbering ready = false
numbering (joining p) = false
numbering _ = true

-- What `c` holds while it is the turn of the client `k`, by where its thread stands.
abbrev pub Holds : ℕ → Pc → (letter res : ℕ) → Type 0
Holds k (storing v) letter res = (v ≡ letter_of k) × (letter ≡ letter_of k)
Holds k checking letter res = (letter ≡ letter_of k + 1) × (res ≡ letter_of k)
Holds k leaving letter res = (letter ≡ letter_of (k + 1)) × (res ≡ letter_of k)
Holds k _ letter res = letter ≡ letter_of k

-- It is the turn of the client `k`: those before it have their letters and are through.
pub record Turn (k : ℕ) (s : System) : Type 0 where
  pub behind : (j : ℕ) → j < k → (finished (s.thread j) ≡ true) × (s.res j ≡ letter_of j)
  pub ahead : (j : ℕ) → k ≤ j → finished (s.thread j) ≡ false
  pub given :
      (j : ℕ) → s.thread j ≡ absent → (s.num ≤ j) ⊎ ((j + 1 ≡ s.num) × (numbering s.main ≡ true))
  pub holds : Holds k (s.thread k) s.letter (s.res k)
