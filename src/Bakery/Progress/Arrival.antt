-- ===== src/Bakery/Progress/Arrival.antt =====
-- A client of 3/proc/bakery_server.c that is alone, from its `get_number` to the critical section.
use sem_os.Base.{
  ℕ, zero, suc, ◌+◌, ◌≤◌, ◌<◌, ◌≡◌, ◌≢◌, refl, sym, ◌∙◌, false, arith, ◌==◌, inl, inr, Bool-cases,
}
use sem_os.Bakery.Family.{update}
use sem_os.Bakery.System.{
  System, Reach, later, Step, Scan, Walk, slots, Main, ready, scanning, numbered, Pc, ticketed,
  at_choosing, at_zero, taking, done,
}
use sem_os.Bakery.Letters.{letter_of}

-- `p` clients have come and gone.
pub record IsServed (p : ℕ) (s : System) : Type 0 where
  pub idle : s.main ≡ ready
  pub count : s.num ≡ p
  pub letters : s.letter ≡ letter_of p
  pub no_number : (j : ℕ) → s.number j ≡ 0
  pub none_chooses : (j : ℕ) → s.choosing j ≡ false
  pub served : (j : ℕ) → j < p → (s.thread j ≡ done) × (s.res j ≡ letter_of j)

-- The client `p` stands at `pc`, alone, and `p` clients before it are through.
pub record Alone (p : ℕ) (pc : Pc) (s : System) : Type 0 where
  pub idle : s.main ≡ ready
  pub count : s.num ≡ p + 1
  pub here : s.thread p ≡ pc
  pub letters : s.letter ≡ letter_of p
  pub own : s.number p ≡ 1
  pub others : (j : ℕ) → j ≢ p → s.number j ≡ 0
  pub none_chooses : (j : ℕ) → s.choosing j ≡ false
  pub before : (j : ℕ) → j < p → (s.thread j ≡ done) × (s.res j ≡ letter_of j)

-- A state that can be reached from `b`, with a property.
abbrev pub From : System → (System → Type 0) → Type 0
From b F = (s : System) × Reach b s × F s

-- The server gives a number to the client `p`: it stands in its loop, or behind it.
pub record Choosing (p : ℕ) (m : Main) (number_p : ℕ) (s : System) : Type 0 where
  idle : s.main ≡ m
  count : s.num ≡ p + 1
  letters : s.letter ≡ letter_of p
  own : s.number p ≡ number_p
  others : (j : ℕ) → j ≢ p → s.number j ≡ 0
  none_chooses : (j : ℕ) → j ≢ p → s.choosing j ≡ false
  before : (j : ℕ) → j < p → (s.thread j ≡ done) × (s.res j ≡ letter_of j)

-- The first step of `get_number`.
pub claimed :
    (p : ℕ) (s : System)
    → p < slots
    → IsServed p s
    → (t : System) × Step s t × (t.main ≡ scanning s.num 0 0) × Choosing p (scanning p 0 0) 0 t
claimed p s h k = (
  _,
  Step.claim k.idle (omega (arith, k.count)),
  refl,
  record {
    idle = ground (arith, k.count);
    count = ground (arith, k.count);
    letters = k.letters;
    own = k.no_number p;
    others = λ j ne. k.no_number j;
    none_chooses = λ j ne. ground (arith, k.count, k.none_chooses j);
    before = k.served;
  },
)

-- The steps of `get_number`, along any kind of path that goes on while the main thread is busy.
module _ (Path_to : System → Type 0)
    (extend : (s t : System) → Path_to s → s.main ≢ ready → Step s t → Path_to t) where
  abbrev Along : (System → Type 0) → Type 0
  Along F = (s : System) × Path_to s × F s

  scanned :
      (p i : ℕ)
      → i ≤ slots
      → Along (Choosing p (scanning p 0 0) 0)
      → Along (Choosing p (scanning p i 0) 0)
  scanned p zero h c = c
  scanned p (suc i) h c =
      let (s, r, k) = scanned p i (omega arith) c in
      (
        _,
        extend _ _ r (λ e. absurd (busy (sym k.idle ∙ e)))
            (Step.scan k.idle (Scan.low (omega arith) (ground (arith, k.own, k.others i)))),
        record {
          idle = refl;
          count = k.count;
          letters = k.letters;
          own = k.own;
          others = k.others;
          none_chooses = k.none_chooses;
          before = k.before;
        },
      )
    where
      busy : {a b c : ℕ} → scanning a b c ≡ ready → ⊥
      busy e = absurd cc

  stored : (p : ℕ) → Along (Choosing p (scanning p slots 0) 0) → Along (Choosing p (numbered p) 1)
  stored p (s, r, k) = (
    _,
    extend _ _ r (λ e. absurd (busy (sym k.idle ∙ e))) (Step.store p slots 0 k.idle (omega arith)),
    record {
      idle = refl;
      count = k.count;
      letters = k.letters;
      own = ground arith;
      others = λ j ne. ground (arith, k.others j);
      none_chooses = k.none_chooses;
      before = k.before;
    },
  )
    where
      busy : {a b c : ℕ} → scanning a b c ≡ ready → ⊥
      busy e = absurd cc

  ticket : (p : ℕ) → Along (Choosing p (numbered p) 1) → Along (Alone p ticketed)
  ticket p (s, r, k) = (
    _,
    extend _ _ r (λ e. absurd (busy (sym k.idle ∙ e))) (Step.chosen p k.idle),
    record {
      idle = refl;
      count = k.count;
      here = ground arith;
      letters = k.letters;
      own = k.own;
      others = k.others;
      none_chooses = λ j. ground (arith, k.none_chooses j);
      before = λ j l. ground (arith, k.before j);
    },
  )
    where
      busy : {a : ℕ} → numbered a ≡ ready → ⊥
      busy e = absurd cc

  pub given : (p : ℕ) → Along (Choosing p (scanning p 0 0) 0) → Along (Alone p ticketed)
  given p c = ticket p (stored p (scanned p slots (omega arith) c))

-- The thread `p` moves, and nothing else changes.
moved :
    {b : System} {p : ℕ} {x y : Pc} {s : System}
    → Reach b s
    → Alone p x s
    → Walk s p x y
    → From b (Alone p y)
moved {p} r k w = (
  _,
  later r (Step.walk p k.here w),
  record {
    idle = k.idle;
    count = k.count;
    here = ground arith;
    letters = k.letters;
    own = k.own;
    others = k.others;
    none_chooses = k.none_chooses;
    before = λ j l. ground (arith, k.before j);
  },
)

-- The thread of the client `p` is started.
pub waited :
    (p : ℕ) (s : System)
    → Alone p ticketed s
    → Alone p (at_choosing 0) (record s { thread = update s.thread p (at_choosing 0) })
waited p s k = record {
  idle = k.idle;
  count = k.count;
  here = ground arith;
  letters = k.letters;
  own = k.own;
  others = k.others;
  none_chooses = k.none_chooses;
  before = λ j l. ground (arith, k.before j);
}

-- The round of its own slot: neither of the two tests holds.
own_round :
    {b : System} (p j : ℕ)
    → j ≡ p
    → From b (Alone p (at_zero j))
    → From b (Alone p (at_choosing (suc j)))
own_round p j e (s, r, k) =
    let (s₁, r₁, k₁) = moved r k (Walk.there (ground (arith, e, k.own))) in
    let (s₂, r₂, k₂) = moved r₁ k₁ (Walk.not_less (ground (arith, e))) in
    moved r₂ k₂ (Walk.not_before (omega arith))

round :
    {b : System} (p j : ℕ)
    → j < slots
    → From b (Alone p (at_choosing j))
    → From b (Alone p (at_choosing (suc j)))
round p j h (s, r, k) =
    let (s₁, r₁, k₁) = moved r k (Walk.chosen h (k.none_chooses j)) in
    elim (Bool-cases (j == p)) [
      | inl b ↦ own_round p j (ground arith) (s₁, r₁, k₁)
      | inr b ↦ moved r₁ k₁ (Walk.gone (k₁.others j (ground arith)))
    ]

rounds :
    {b : System} (p j : ℕ)
    → j ≤ slots
    → From b (Alone p (at_choosing 0))
    → From b (Alone p (at_choosing j))
rounds p zero h a = a
rounds p (suc j) h a = round p j (omega arith) (rounds p j (omega arith) a)

-- From the start of its thread to the critical section.
pub enters :
    {b : System} (p : ℕ) → p < slots → From b (Alone p (at_choosing 0)) → From b (Alone p taking)
enters p h k =
    let (s, r, a) = rounds p slots (omega arith) k in moved r a (Walk.enter (omega arith))

pub entered : {b : System} (p : ℕ) → p < slots → From b (IsServed p) → From b (Alone p taking)
entered {b} p h (s, r, k) =
    let (t, st, _, c) = claimed p s h k in
    let (u, q, a) = given (Reach b) (λ s t r n st. later r st) p (t, later r st, c) in
    enters p h (_, later q (Step.wait p a.idle a.here), waited p u a)
