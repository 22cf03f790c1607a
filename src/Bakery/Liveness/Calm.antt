-- ===== src/Bakery/Liveness/Calm.antt =====
-- What the arrays of 3/proc/bakery_server.c hold where no client takes a number.
use sem_os.Base.{ℕ, ◌≡◌, ◌≢◌, refl, true, Option, none, some, arith}
use sem_os.Bakery.System.{
  System, init, Reach, start, later, Step, claim, scan, store, wait, service, join, walk, put, wrap,
  keep, leave, Scan, Main, ready, scanning, raising, numbered, joining, Pc, Walk, started,
}
use sem_os.Bakery.Invariant.{Inv, Reach-Inv, at_main, Walk-pending}
use sem_os.Bakery.Letters.{finished}

-- The client that takes a number.
abbrev pub chooser : Main → Option ℕ
chooser ready = none
chooser (scanning ind i max) = some ind
chooser (raising ind i max) = some ind
chooser (numbered ind) = some ind
chooser (joining p) = none

pub record Calm (s : System) : Type 0 where
  pub chooses : (j : ℕ) → s.choosing j ≡ true → chooser s.main ≡ some j
  pub given_back : (j : ℕ) → finished (s.thread j) ≡ true → s.number j ≡ 0
  pub joins : (p : ℕ) → s.main ≡ joining p → started (s.thread p) ≡ true

Scan-chooser : {s : System} {m m' : Main} → Scan s m m' → chooser m ≡ chooser m'
Scan-chooser (Scan.low l h) = refl
Scan-chooser (Scan.high l h) = refl
Scan-chooser Scan.raise = refl

Scan-joining : {s : System} {m m' : Main} {p : ℕ} → Scan s m m' → m' ≢ joining p
Scan-joining (Scan.low l h) e = cc
Scan-joining (Scan.high l h) e = cc
Scan-joining Scan.raise e = cc

Walk-started : {s : System} {p : ℕ} {x y : Pc} → Walk s p x y → started y ≡ true
Walk-started (Walk.spin_choosing h e) = refl
Walk-started _ = refl

module _ {s : System} (inv : Inv s) (k : Calm s) where
  step-chooses : {t : System} → Step s t → (j : ℕ) → t.choosing j ≡ true → chooser t.main ≡ some j
  step-chooses (claim e h) j c = ground (arith, k.chooses j)
  step-chooses (scan e sc) j c = ground (arith, k.chooses j, Scan-chooser sc)
  step-chooses (store ind i max e h) j c = ground (arith, k.chooses j)
  step-chooses (Step.chosen ind e) j c = ground (arith, k.chooses j)
  step-chooses (service p e h) j c = ground (arith, k.chooses j)
  step-chooses (join p e h) j c = ground (arith, k.chooses j)
  step-chooses (wait p e h) j c = k.chooses j c
  step-chooses (walk p e w) j c = k.chooses j c
  step-chooses (put p v e) j c = k.chooses j c
  step-chooses (wrap p e h) j c = k.chooses j c
  step-chooses (keep p e h) j c = k.chooses j c
  step-chooses (leave p e) j c = k.chooses j c

  step-given_back :
      {t : System} → Step s t → (j : ℕ) → finished (t.thread j) ≡ true → t.number j ≡ 0
  step-given_back (claim e h) j f = k.given_back j f
  step-given_back (scan e sc) j f = k.given_back j f
  step-given_back (store ind i max e h) j f =
      ground (arith, k.given_back j, (at_main inv (scanning ind i max) e).1)
  step-given_back (Step.chosen ind e) j f = ground (arith, k.given_back j)
  step-given_back (service p e h) j f = k.given_back j f
  step-given_back (join p e h) j f = ground (arith, k.given_back j)
  step-given_back (wait p e h) j f = ground (arith, k.given_back j)
  step-given_back (walk p e w) j f = ground (arith, k.given_back j, Walk-pending w)
  step-given_back (put p v e) j f = ground (arith, k.given_back j)
  step-given_back (wrap p e h) j f = ground (arith, k.given_back j)
  step-given_back (keep p e h) j f = ground (arith, k.given_back j)
  step-given_back (leave p e) j f = ground (arith, k.given_back j)

  step-joins : {t : System} → Step s t → (p : ℕ) → t.main ≡ joining p → started (t.thread p) ≡ true
  step-joins (claim e h) p j = absurd cc
  step-joins (scan e sc) p j = absurd (Scan-joining sc j)
  step-joins (store ind i max e h) p j = absurd cc
  step-joins (Step.chosen ind e) p j = absurd cc
  step-joins (service q e h) p j = ground (arith, h)
  step-joins (join q e h) p j = absurd cc
  step-joins (wait q e h) p j = ground (arith, k.joins p)
  step-joins (walk q e w) p j = ground (arith, k.joins p, Walk-started w)
  step-joins (put q v e) p j = ground (arith, k.joins p)
  step-joins (wrap q e h) p j = ground (arith, k.joins p)
  step-joins (keep q e h) p j = ground (arith, k.joins p)
  step-joins (leave q e) p j = ground (arith, k.joins p)

pub Reach-Calm : {s : System} → Reach init s → Calm s
Reach-Calm start = record {
  chooses = λ j c. absurd cc;
  given_back = λ j f. refl;
  joins = λ p e. absurd cc;
}
Reach-Calm (later r st) = record {
  chooses = step-chooses (Reach-Inv r) (Reach-Calm r) st;
  given_back = step-given_back (Reach-Inv r) (Reach-Calm r) st;
  joins = step-joins (Reach-Inv r) (Reach-Calm r) st;
}
