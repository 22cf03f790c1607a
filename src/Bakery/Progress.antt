-- ===== src/Bakery/Progress.antt =====
-- Clients of 3/proc/bakery_server.c that come one after another.
mod Arrival
pub use Arrival.{IsServed, From, Alone, Choosing, claimed, given, waited, enters, entered}
use sem_os.Base.{
  ℕ, zero, suc, ◌+◌, ◌%◌, ◌≤◌, ◌<◌, ◌≡◌, ◌≢◌, refl, ap, Bool, true, false, arith, ◌==◌,
  if◌then◌else◌, inl, inr, Bool-cases,
}
use native.Mathlib.Decide.{dec_le}
use sem_os.Bakery.Family.{update}
use sem_os.Bakery.Letters.{letter_of}
use sem_os.Bakery.System.{
  System, init, Reach, start, later, Step, Scan, Walk, slots, letter_a, letter_z, Main, ready,
  scanning, numbered, Pc, ticketed, at_choosing, at_zero, at_less, at_equal, taking, storing,
  checking, leaving, done,
}

-- After the write of `res`, with the letter already counted up.
record Printed (p : ℕ) (pc : Pc) (letter : ℕ) (s : System) : Type 0 where
  idle : s.main ≡ ready
  count : s.num ≡ p + 1
  here : s.thread p ≡ pc
  letters : s.letter ≡ letter
  result : s.res p ≡ letter_of p
  others : (j : ℕ) → j ≢ p → s.number j ≡ 0
  none_chooses : (j : ℕ) → s.choosing j ≡ false
  before : (j : ℕ) → j < p → (s.thread j ≡ done) × (s.res j ≡ letter_of j)

printed :
    {b : System} (p : ℕ) → From b (Alone p taking) → From b (Printed p checking (letter_of p + 1))
printed p (s, r, a) = (
  _,
  later (later r (Step.walk p a.here Walk.read)) (Step.put p s.letter (ground arith)),
  record {
    idle = a.idle;
    count = a.count;
    here = ground arith;
    letters = ap (λ n. n + 1) a.letters;
    result = ground (arith, a.letters);
    others = a.others;
    none_chooses = a.none_chooses;
    before = λ j l. ground (arith, a.before j);
  },
)

checked :
    {b : System} (p : ℕ)
    → From b (Printed p checking (letter_of p + 1))
    → From b (Printed p leaving (letter_of (p + 1)))
checked p (s, r, k) = elim (dec_le s.letter letter_z) [
  | yes le ↦ (
    _,
    later r (Step.keep p k.here le),
    record {
      idle = k.idle;
      count = k.count;
      here = ground arith;
      letters = omega (arith, k.letters);
      result = k.result;
      others = k.others;
      none_chooses = k.none_chooses;
      before = λ j l. ground (arith, k.before j);
    },
  )
  | no gt ↦ (
    _,
    later r (Step.wrap p k.here (omega arith)),
    record {
      idle = k.idle;
      count = k.count;
      here = ground arith;
      letters = omega (arith, k.letters);
      result = k.result;
      others = k.others;
      none_chooses = k.none_chooses;
      before = λ j l. ground (arith, k.before j);
    },
  )
]

left :
    {b : System} (p : ℕ)
    → From b (Printed p leaving (letter_of (p + 1)))
    → From b (IsServed (suc p))
left p (s, r, k) = (
  _,
  later r (Step.leave p k.here),
  record {
    idle = k.idle;
    count = omega (arith, k.count);
    letters = omega (arith, k.letters);
    no_number = λ j. ground (arith, k.others j);
    none_chooses = k.none_chooses;
    served = λ j l. ground (arith, k.before j, k.result);
  },
)

-- From the critical section to the end of the thread.
pub leaves : {b : System} (p : ℕ) → From b (Alone p taking) → From b (IsServed (suc p))
leaves p a = left p (checked p (printed p a))

-- The server can serve its 32 clients one after another: for any number of them up to 32, it can
-- reach a state where each is through and nothing of them is left, and each has got its letter, in
-- the order of the alphabet and from the start again after the last.
pub serves_in_turn : (p : ℕ) → p ≤ slots → (s : System) × Reach init s × IsServed p s
serves_in_turn zero h = (
  init,
  start,
  record {
    idle = refl;
    count = refl;
    letters = refl;
    no_number = λ j. refl;
    none_chooses = λ j. refl;
    served = λ j l. absurd (omega arith);
  },
)
serves_in_turn (suc p) h = leaves p (entered p (omega arith) (serves_in_turn p (omega arith)))
