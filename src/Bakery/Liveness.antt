-- ===== src/Bakery/Liveness.antt =====
-- That the server of 3/proc/bakery_server.c can always bring its clients to their end, but for the
-- deadlock of Safety.
mod Calm
mod Solo
use mathlib.Core.Path.{subst}
use native.Mathlib.Decide.{dec_lt, dec_le}
use sem_os.Base.{
  ℕ, zero, suc, ◌+◌, ◌≤◌, ◌<◌, ◌≡◌, ◌≢◌, ◌⊎◌, inl, inr, refl, sym, ap, ◌∙◌, true, arith, Bool-cases,
  none,
}
use sem_os.Bakery.System.{
  System, init, Reach, start, later, Step, Scan, slots, Main, ready, scanning, raising, numbered,
  joining, Pc, started, absent, ticketed, done, joined,
}
use sem_os.Bakery.Invariant.{Reach-Inv, Reach-trans}
use sem_os.Bakery.Letters.{letter_of, finished, printed, letters_lem, reach-Turn}
use sem_os.Bakery.Liveness.Calm.{chooser, Reach-Calm}
use sem_os.Bakery.Liveness.Solo.{Scene, Standing, To, and_then, next_Standing}

-- All the clients of a scene get to their end.
all_Standing :
    {g : Scene} (d k : ℕ) (s : System)
    → k + d ≡ g.bound
    → Standing g k s
    → To s (Standing g g.bound)
all_Standing {g} zero k s e a =
    let last : k ≡ g.bound = omega (arith, e) in (s, start, subst (λ i. Standing g i s) last a)
all_Standing {g} (suc d) k s e a =
    and_then (next_Standing s (omega arith) a) (λ t. all_Standing {g = g} d (suc k) t (omega arith))

-- The main thread is ready, with so many numbers given out.
record IsReady (count : ℕ) (s : System) : Type 0 where
  idle : s.main ≡ ready
  numbers : s.num ≡ count

-- `get_number` comes to its end, from wherever it is: `d` rounds of its loop are left at most.
from_scanning :
    (d ind i max : ℕ) (s : System)
    → slots ≤ d + i
    → s.main ≡ scanning ind i max
    → To s (IsReady s.num)
from_scanning zero ind i max s h e = (
  _,
  later (later start (Step.store ind i max e (omega arith))) (Step.chosen ind refl),
  record { idle = refl; numbers = refl },
)
from_scanning (suc d) ind i max s h e = elim (dec_lt i slots) [
  | no l ↦ (
    _,
    later (later start (Step.store ind i max e (omega arith))) (Step.chosen ind refl),
    record { idle = refl; numbers = refl },
  )
  | yes l ↦ elim (dec_le (s.number i) max) [
    | yes le ↦
        (let t : System = record s { main = scanning ind (suc i) max } in
          let (u, r, k) = from_scanning d ind (suc i) max t (omega arith) refl in
          (u, Reach-trans (later start (Step.scan e (Scan.low l le))) r, k))
    | no gt ↦
        (let t : System = record s { main = scanning ind (suc i) (s.number i) } in
          let (u, r, k) = from_scanning d ind (suc i) (s.number i) t (omega arith) refl in
          (
            u,
            Reach-trans
                (later (later start (Step.scan e (Scan.high l (omega arith))))
                  (Step.scan refl Scan.raise))
                r,
            k,
          ))
  ]
]

get_number-IsReady :
    (m : Main) (s : System) → s.main ≡ m → ((p : ℕ) → m ≢ joining p) → To s (IsReady s.num)
get_number-IsReady ready s e n = (s, start, record { idle = e; numbers = refl })
get_number-IsReady (joining p) s e n = absurd (n p refl)
get_number-IsReady (numbered ind) s e n =
    (_, later start (Step.chosen ind e), record { idle = refl; numbers = refl })
get_number-IsReady (scanning ind i max) s e n = from_scanning slots ind i max s (omega arith) e
get_number-IsReady (raising ind i max) s e n =
    let t : System = record s { main = scanning ind (suc i) (s.number i) } in
    let (u, r, k) = from_scanning slots ind (suc i) (s.number i) t (omega arith) refl in
    (u, Reach-trans (later start (Step.scan e Scan.raise)) r, k)

-- All that have a number are through, each with its letter.
pub record AreServed (count : ℕ) (s : System) : Type 0 where
  pub idle : s.main ≡ ready
  pub numbers : s.num ≡ count
  pub through : (p : ℕ) → p < count → finished (s.thread p) ≡ true
  pub letters : (p : ℕ) → p < count → s.res p ≡ letter_of p

finished-printed : (x : Pc) → finished x ≡ true → printed x ≡ true
finished-printed done f = refl
finished-printed joined f = refl
finished-printed _ f = cc

-- From every state that the server can reach, in which its main thread is not in `pthread_join`, it
-- can go on to one where every client that has a number is through, and has the letter of its place,
-- if the clients that have no thread yet call `bakery_wait`.
pub can_finish :
    {s : System}
    → Reach init s
    → ((p : ℕ) → s.main ≢ joining p)
    → (t : System) × Reach s t × AreServed s.num t
can_finish {s} r n =
    let (t, q, k) = get_number-IsReady s.main s refl n in
    let reached = Reach-trans r q in
    let (_, turn) = reach-Turn reached in
    let g : Scene = record { main = ready; count = s.num; bound = s.num } in
    let stands : Standing g 0 t = record {
      reached = reached;
      idle = k.idle;
      quiet = refl;
      count = k.numbers;
      before = λ j l. absurd (omega arith);
      given = λ j l a. ground (arith, turn.given j, k.idle, k.numbers);
      asked = λ j l a. refl;
    } in
    let (u, p, a) = all_Standing {g = g} s.num 0 t (omega arith) stands in
    (
      u,
      Reach-trans q p,
      record {
        idle = a.idle;
        numbers = a.count;
        through = a.before;
        letters = λ j l. letters_lem a.reached j (finished-printed (u.thread j) (a.before j l));
      },
    )

-- From every state that the server can reach, in which its main thread waits in `pthread_join` for the
-- thread of `q`, it can go on to answer the call, if no client up to `q` is still to call
-- `bakery_wait`.
pub join_returns :
    {s : System} (q : ℕ)
    → Reach init s
    → s.main ≡ joining q
    → ((p : ℕ) → p ≤ q → s.thread p ≢ ticketed)
    → (t : System) × Reach s t × (t.main ≡ ready) × (t.thread q ≡ joined) × (t.res q ≡ letter_of q)
join_returns {s} q r e n =
    let (_, turn) = reach-Turn r in
    let here = (Reach-Calm r).joins q e in
    let g : Scene = record { main = joining q; count = s.num; bound = suc q } in
    let stands : Standing g 0 s = record {
      reached = r;
      idle = e;
      quiet = refl;
      count = refl;
      before = λ j l. absurd (omega arith);
      given = λ j l a. ground (arith, turn.given j, (Reach-Inv r).unused q, here, e);
      asked = λ j l a. absurd (n j (omega arith) a);
    } in
    let (u, p, a) = all_Standing {g = g} (suc q) 0 s (omega arith) stands in
    let through : u.thread q ≡ done =
      ground (arith, a.before q (omega arith), (Reach-Calm a.reached).joins q a.idle) in
    let st = Step.join q a.idle through in
    (_, later p st, refl, ground arith, letters_lem a.reached q (ap printed through))
