-- ===== src/Bakery/Letters.antt =====
-- Which letter each client of 3/proc/bakery_server.c gets.
mod Place
use mathlib.Core.Path.{subst}
use sem_os.Base.{
  ℕ, ◌+◌, ◌%◌, ◌≤◌, ◌<◌, ◌≡◌, ◌≢◌, ◌⊎◌, inl, inr, refl, sym, ap, ◌∙◌, Bool, true, false, arith,
  ◌==◌, Bool-cases,
}
use sem_os.Bakery.Family.{update}
use sem_os.Bakery.System.{
  System, init, Reach, start, later, Step, claim, scan, store, wait, service, join, walk, put, wrap,
  keep, leave, Walk, Scan, letter_a, Main, ready, numbered, joining, Pc, absent, ticketed,
  at_choosing, taking, storing, checking, leaving, done, joined, critical,
}
use sem_os.Bakery.Invariant.{Inv, Reach-Inv, at_main, Walk-pending}
pub use Place.{letter_of, finished, printed, numbering, Holds, Turn}

-- A thread in the critical section is the one whose turn it is.
critical-Turn :
    {s : System} {k : ℕ} (p : ℕ) → Inv s → Turn k s → critical (s.thread p) ≡ true → p ≡ k
critical-Turn {s} {k} p inv t c = ground (
  arith,
  t.behind p,
  t.ahead k,
  t.given k,
  inv.clear p k,
  inv.alive k,
  inv.alive p,
  inv.unused p,
  inv.few,
)

Scan-numbering :
    {s : System} {m m' : Main} → Scan s m m' → (numbering m ≡ true) × (numbering m' ≡ true)
Scan-numbering (Scan.low l h) = (refl, refl)
Scan-numbering (Scan.high l h) = (refl, refl)
Scan-numbering Scan.raise = (refl, refl)

-- A thread that walks does not touch what it is the turn for.
Walk-Holds :
    {s : System} {p : ℕ} {x y : Pc}
    → Walk s p x y
    → (k res : ℕ) → Holds k x s.letter res
    → Holds k y s.letter res × (finished x ≡ false) × (finished y ≡ false)
Walk-Holds Walk.read k res h = ((h, h), refl, refl)
Walk-Holds (Walk.spin_choosing l c) k res h = (h, refl, refl)
Walk-Holds _ k res h = (h, refl, refl)

Holds-idle :
    (k : ℕ) (x : Pc) (letter res : ℕ)
    → critical x ≡ false
    → letter ≡ letter_of k
    → Holds k x letter res
Holds-idle k (storing v) letter res c e = cc
Holds-idle k checking letter res c e = cc
Holds-idle k leaving letter res c e = cc
Holds-idle k _ letter res c e = e

module _ {s : System} {k : ℕ} (inv : Inv s) (t : Turn k s) where
  -- A thread that is not through moves to a place where it is not through either.
  moved :
      (p : ℕ) (y : Pc)
      → finished (s.thread p) ≡ false
      → finished y ≡ false
      → s.thread p ≢ absent
      → y ≢ absent
      → ((p ≡ k) → Holds k y s.letter (s.res k))
      → Turn k (record s { thread = update s.thread p y })
  moved p y f g a b h = record {
    behind = λ j l. ground (arith, t.behind j);
    ahead = λ j l. ground (arith, t.ahead j);
    given = λ j e. ground (arith, t.given j);
    holds = elim (Bool-cases (p == k)) [ inl e ↦ rw e (h (ground arith)) | inr e ↦ rw e t.holds ];
  }

  hold_at : (p : ℕ) (x : Pc) → s.thread p ≡ x → p ≡ k → Holds k x s.letter (s.res k)
  hold_at p x e same =
      subst (λ y. Holds k y s.letter (s.res k)) (ap s.thread (sym same) ∙ e) t.holds

  -- What the thread knows whose turn it is, where it stands.
  at_turn :
      (p : ℕ) (x : Pc)
      → s.thread p ≡ x
      → critical x ≡ true
      → (p ≡ k) × ((p == k) ≡ true) × Holds k x s.letter (s.res k)
  at_turn p x e c =
      let same : p ≡ k = critical-Turn p inv t (ap critical e ∙ c) in
      (same, ground (arith, same), hold_at p x e same)

  Walk-Turn :
      (p : ℕ) (x y : Pc)
      → s.thread p ≡ x
      → Walk s p x y
      → Turn k (record s { thread = update s.thread p y })
  Walk-Turn p x y e w =
      let both = Walk-pending w in
      moved p y (ground (arith, both)) (ground (arith, both)) (λ a. ground (arith, both))
        (λ a. ground (arith, both)) (λ same. (Walk-Holds w k (s.res k) (hold_at p x e same)).0)

  -- The turn passes on when a thread gives its number back, and with no other step.
  step-Turn : {u : System} → Step s u → (Turn k u) ⊎ (Turn (k + 1) u)
  step-Turn (claim e h) = inl (record {
    behind = t.behind;
    ahead = t.ahead;
    given = λ j a. ground (arith, t.given j);
    holds = t.holds;
  })
  step-Turn (scan e sc) = inl (record {
    behind = t.behind;
    ahead = t.ahead;
    given = λ j a. ground (arith, t.given j, Scan-numbering sc);
    holds = t.holds;
  })
  step-Turn (store ind i max e h) = inl (record {
    behind = t.behind;
    ahead = t.ahead;
    given = λ j a. ground (arith, t.given j);
    holds = t.holds;
  })
  step-Turn (Step.chosen ind e) =
      let (next, none, _) = at_main inv (numbered ind) e in
      inl (record {
        behind = λ j l. ground (arith, t.behind j, none);
        ahead = λ j l. ground (arith, t.ahead j);
        given = λ j a. ground (arith, t.given j, next);
        holds = ground (arith, t.holds, none);
      })
  step-Turn (wait p e h) = inl (
      moved p (at_choosing 0) (ground arith) refl (λ a. cc) (λ a. cc)
        (λ same. ground (arith, t.holds)))
  step-Turn (service p e h) = inl (record {
    behind = t.behind;
    ahead = t.ahead;
    given = λ j a. ground (arith, t.given j);
    holds = t.holds;
  })
  step-Turn (join p e h) = inl (record {
    behind = λ j l. ground (arith, t.behind j);
    ahead = λ j l. ground (arith, t.ahead j, t.ahead p);
    given = λ j a. ground (arith, t.given j);
    holds = ground (arith, t.holds, t.ahead p);
  })
  step-Turn (walk p {x} {y} e w) = inl (Walk-Turn p x y e w)
  step-Turn (put p v e) =
      let (same, b, h) = at_turn p (storing v) e refl in
      inl (record {
        behind = λ j l. ground (arith, t.behind j, same);
        ahead = λ j l. ground (arith, t.ahead j);
        given = λ j a. ground (arith, t.given j);
        holds = rw b (omega (arith, h));
      })
  step-Turn (wrap p e h) =
      let (same, b, l) = at_turn p checking e refl in
      inl (record {
        behind = λ j l. ground (arith, t.behind j, same);
        ahead = λ j l. ground (arith, t.ahead j);
        given = λ j a. ground (arith, t.given j);
        holds = rw b (omega (arith, h, l));
      })
  step-Turn (keep p e h) =
      let (same, b, l) = at_turn p checking e refl in
      inl (record {
        behind = λ j l. ground (arith, t.behind j, same);
        ahead = λ j l. ground (arith, t.ahead j);
        given = λ j a. ground (arith, t.given j);
        holds = rw b (omega (arith, h, l));
      })
  step-Turn (leave p e) =
      let (same, b, l) = at_turn p leaving e refl in
      let other : (p == k + 1) ≡ false = ground (arith, same) in
      let idle : critical (s.thread (k + 1)) ≡ false =
        elim (Bool-cases (critical (s.thread (k + 1)))) [
          | inl c ↦ absurd (omega (arith, critical-Turn (k + 1) inv t c))
          | inr c ↦ c
        ] in
      inr (record {
        behind = λ j l. ground (arith, t.behind j, same);
        ahead = λ j l. ground (arith, t.ahead j, same);
        given = λ j a. ground (arith, t.given j);
        holds = rw other (Holds-idle (k + 1) (s.thread (k + 1)) s.letter (s.res (k + 1)) idle l.0);
      })

init-Turn : Turn 0 init
init-Turn = record {
  behind = λ j l. absurd (omega arith);
  ahead = λ j l. refl;
  given = λ j a. inl (omega arith);
  holds = refl;
}

pub reach-Turn : {s : System} → Reach init s → (k : ℕ) × Turn k s
reach-Turn start = (0, init-Turn)
reach-Turn (later r st) =
    let (k, t) = reach-Turn r in
    elim (step-Turn (Reach-Inv r) t st) [ inl u ↦ (k, u) | inr u ↦ (k + 1, u) ]

printed_letter :
    {s : System} {k : ℕ} (p : ℕ) (x : Pc)
    → Inv s
    → Turn k s
    → s.thread p ≡ x
    → printed x ≡ true
    → s.res p ≡ letter_of p
printed_letter p checking inv t e h =
    let (same, _, l) = at_turn inv t p checking e refl in rw same (l.1)
printed_letter p leaving inv t e h =
    let (same, _, l) = at_turn inv t p leaving e refl in rw same (l.1)
printed_letter {k = k} p done inv t e h = ground (arith, t.behind p, t.ahead p)
printed_letter {k = k} p joined inv t e h = ground (arith, t.behind p, t.ahead p)
printed_letter p absent inv t e h = cc
printed_letter p ticketed inv t e h = cc
printed_letter p (at_choosing j) inv t e h = cc
printed_letter p (Pc.at_zero j) inv t e h = cc
printed_letter p (Pc.at_less j) inv t e h = cc
printed_letter p (Pc.at_equal j) inv t e h = cc
printed_letter p taking inv t e h = cc
printed_letter p (storing v) inv t e h = cc

-- Whatever the order of the steps of the main thread and of the others, each client gets the letter
-- of its place: the thread of the client `p`, once it has its letter, has the one with the place
-- `p` in the alphabet, from 'a' again after 'z'.
pub letters_lem :
    {s : System} → Reach init s → (p : ℕ) → printed (s.thread p) ≡ true → s.res p ≡ letter_of p
letters_lem {s} r p h =
    let (k, t) = reach-Turn r in printed_letter p (s.thread p) (Reach-Inv r) t refl h
