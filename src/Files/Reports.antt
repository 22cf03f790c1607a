-- ===== src/Files/Reports.antt =====
-- The sizes that PRINT_STAT shows in 8/open_file/src/2_1_thread.c. The threads share one `statbuf`, so
-- that a line can have a size that the other thread has found, an older one included.
use sem_os.Base.{
  sizes, ℕ, suc, ◌+◌, ◌*◌, ◌≤◌, ◌<◌, ◌≡◌, refl, ap, Bool, true, false, List, [], ◌∷◌, ◌++◌, length,
  arith, ◌⊎◌, inl, inr, All,
}
use mathlib.Core.Path.{subst}
use sem_os.Files.Threads.{put}
use sem_os.Files.Appenders.{
  Stage, writing, stating, storing, printing, reporting, Writer, System, Step, Steps, stop, more,
  begin, letters_of, parity,
}

-- A size that the file has had since the first letter was written.
abbrev pub Fits : (old size n : ℕ) → Type 0
Fits old size n = (old < n) × (n ≤ size)

-- What is known of the sizes at each of the points of a thread.
abbrev Known : Stage → (old size statbuf : ℕ) → Type 0
Known writing old size statbuf = Unit {0}
Known stating old size statbuf = old < size
Known (storing n) old size statbuf = Fits old size n
Known printing old size statbuf = Fits old size statbuf
Known (reporting n) old size statbuf = Fits old size n

-- How many lines a thread has printed, and how many it has still to print.
abbrev pub lines_of : Bool → List (Bool × ℕ) → ℕ
lines_of i [] = 0
lines_of false ((false, n) ∷ out) = suc (lines_of false out)
lines_of false ((true, n) ∷ out) = lines_of false out
lines_of true ((false, n) ∷ out) = lines_of true out
lines_of true ((true, n) ∷ out) = suc (lines_of true out)

abbrev line_due : Stage → ℕ
line_due writing = 0
line_due stating = 1
line_due (storing n) = 1
line_due printing = 1
line_due (reporting n) = 1

abbrev pub lines_due : Writer → ℕ
lines_due w = length w.letters + line_due w.stage

-- `old` is the size of the file at the start, and `whole` has the number of the lines of a thread.
record Keeps (old : ℕ) (whole : Bool → ℕ) (s : System) : Type 0 where
  known : (i : Bool) → Known (s.writer i).stage old (length s.contents) s.statbuf
  longer : old ≤ length s.contents
  fit : All (λ l. Fits old (length s.contents) l.1) s.out
  lines : (i : Bool) → lines_of i s.out + lines_due (s.writer i) ≡ whole i

-- A longer file, and another size in `statbuf`, do not matter.
Known_later :
    (t : Stage) (old : ℕ) {size size' b b' : ℕ}
    → size ≤ size'
    → Fits old size' b' ⊎ (b ≡ b')
    → Known t old size b
    → Known t old size' b'
Known_later writing old h c k = tt
Known_later stating old h c k = omega arith
Known_later (storing n) old h c k = omega arith
Known_later printing old h c k = ground arith
Known_later (reporting n) old h c k = omega arith

fit_later :
    (old : ℕ) {size size' : ℕ} (out : List (Bool × ℕ))
    → size ≤ size'
    → All (λ l. Fits old size l.1) out
    → All (λ l. Fits old size' l.1) out
fit_later old [] h k = tt
fit_later old (l ∷ out) h k = (omega arith, fit_later old out h k.1)

-- One thread has moved to another point, and the other one has stayed.
put-Known :
    (i : Bool) (now : Writer) (w : Bool → Writer) (old : ℕ) {size size' b b' : ℕ}
    → size ≤ size'
    → Fits old size' b' ⊎ (b ≡ b')
    → ((j : Bool) → Known (w j).stage old size b)
    → Known now.stage old size' b'
    → (j : Bool) → Known (put i now w j).stage old size' b'
put-Known false now w old h c k m false = m
put-Known false now w old h c k m true = Known_later (w true).stage old h c (k true)
put-Known true now w old h c k m false = Known_later (w false).stage old h c (k false)
put-Known true now w old h c k m true = m

put-lines :
    (i : Bool) (now : Writer) (w : Bool → Writer) (out : List (Bool × ℕ)) (whole : Bool → ℕ)
    → ((j : Bool) → lines_of j out + lines_due (w j) ≡ whole j)
    → lines_due now ≡ lines_due (w i)
    → (j : Bool) → lines_of j out + lines_due (put i now w j) ≡ whole j
put-lines false now w out whole h e false = omega (arith, h false)
put-lines false now w out whole h e true = h true
put-lines true now w out whole h e false = h false
put-lines true now w out whole h e true = omega (arith, h true)

print-lines :
    (i : Bool) (n : ℕ) (now : Writer) (w : Bool → Writer) (out : List (Bool × ℕ)) (whole : Bool → ℕ)
    → ((j : Bool) → lines_of j out + lines_due (w j) ≡ whole j)
    → suc (lines_due now) ≡ lines_due (w i)
    → (j : Bool) → lines_of j ((i, n) ∷ out) + lines_due (put i now w j) ≡ whole j
print-lines false n now w out whole h e false = omega (arith, h false)
print-lines false n now w out whole h e true = h true
print-lines true n now w out whole h e false = h false
print-lines true n now w out whole h e true = omega (arith, h true)

-- What is known of a thread that is at a point.
known_at :
    (t : Stage) {old : ℕ} {whole : Bool → ℕ} {s : System}
    → Keeps old whole s
    → (i : Bool) → (s.writer i).stage ≡ t
    → Known t old (length s.contents) s.statbuf
known_at t {old} {s = s} k i e =
    subst (λ t. Known t old (length s.contents) s.statbuf) e (k.known i)

step-Keeps :
    {old : ℕ} {whole : Bool → ℕ} {s t : System} → Keeps old whole s → Step s t → Keeps old whole t
step-Keeps {old} {whole} {s} k (Step.write {c = c} {cs = cs} i e g) =
    let more_bytes : length (s.contents ++ (c ∷ [])) ≡ length s.contents + 1 = omega sizes in
    let h : length s.contents ≤ length (s.contents ++ (c ∷ [])) = omega (arith, more_bytes) in
    record {
      known =
          put-Known i (record { letters = cs; stage = stating }) s.writer old h (inr refl) k.known
            (omega (arith, more_bytes, k.longer));
      longer = omega (arith, h, k.longer);
      fit = fit_later old s.out h k.fit;
      lines =
          put-lines i (record { letters = cs; stage = stating }) s.writer s.out whole k.lines
            (omega (arith, ap length e, ap line_due g));
    }
step-Keeps {old} {whole} {s} k (Step.find i g) =
    let now : Writer = record {
      letters = (s.writer i).letters;
      stage = storing (length s.contents);
    } in
    record {
      known =
          put-Known i now s.writer old (omega arith) (inr refl) k.known
            (known_at stating k i g, omega arith);
      longer = k.longer;
      fit = k.fit;
      lines = put-lines i now s.writer s.out whole k.lines (omega (arith, ap line_due g));
    }
step-Keeps {old} {whole} {s} k (Step.store {n = n} i g) =
    let now : Writer = record { letters = (s.writer i).letters; stage = printing } in
    let fits = known_at (storing n) k i g in
    record {
      known = put-Known i now s.writer old (omega arith) (inl fits) k.known fits;
      longer = k.longer;
      fit = k.fit;
      lines = put-lines i now s.writer s.out whole k.lines (omega (arith, ap line_due g));
    }
step-Keeps {old} {whole} {s} k (Step.load i g) =
    let now : Writer = record { letters = (s.writer i).letters; stage = reporting s.statbuf } in
    record {
      known =
          put-Known i now s.writer old (omega arith) (inr refl) k.known (known_at printing k i g);
      longer = k.longer;
      fit = k.fit;
      lines = put-lines i now s.writer s.out whole k.lines (omega (arith, ap line_due g));
    }
step-Keeps {old} {whole} {s} k (Step.print {n = n} i g) =
    let now : Writer = record { letters = (s.writer i).letters; stage = writing } in
    record {
      known = put-Known i now s.writer old (omega arith) (inr refl) k.known tt;
      longer = k.longer;
      fit = (known_at (reporting n) k i g, k.fit);
      lines = print-lines i n now s.writer s.out whole k.lines (omega (arith, ap line_due g));
    }

steps-Keeps :
    {old : ℕ} {whole : Bool → ℕ} {s t : System} → Keeps old whole s → Steps s t → Keeps old whole t
steps-Keeps k stop = k
steps-Keeps k (more r st) = step-Keeps (steps-Keeps k r) st

-- How many steps a thread has before it.
abbrev stage_work : Stage → ℕ
stage_work writing = 0
stage_work stating = 4
stage_work (storing n) = 3
stage_work printing = 2
stage_work (reporting n) = 1

abbrev pub work : Writer → ℕ
work w = 5 * length w.letters + stage_work w.stage

put-work :
    (i : Bool) (now : Writer) (w : Bool → Writer)
    → work (put i now w false) + work (put i now w true) + work (w i)
      ≡ work now + work (w false) + work (w true)
put-work false now w = omega arith
put-work true now w = omega arith

abbrev pub total_work : System → ℕ
total_work s = work (s.writer false) + work (s.writer true)

step-work : {s t : System} → Step s t → total_work t + 1 ≡ total_work s
step-work {s} (Step.write {c = c} {cs = cs} i e g) = omega (
  arith,
  put-work i (record { letters = cs; stage = stating }) s.writer,
  ap length e,
  ap stage_work g,
)
step-work {s} (Step.find i g) = omega (
  arith,
  put-work i (record { letters = (s.writer i).letters; stage = storing (length s.contents) })
      s.writer,
  ap stage_work g,
)
step-work {s} (Step.store {n = n} i g) = omega (
  arith,
  put-work i (record { letters = (s.writer i).letters; stage = printing }) s.writer,
  ap stage_work g,
)
step-work {s} (Step.load i g) = omega (
  arith,
  put-work i (record { letters = (s.writer i).letters; stage = reporting s.statbuf }) s.writer,
  ap stage_work g,
)
step-work {s} (Step.print {n = n} i g) = omega (
  arith,
  put-work i (record { letters = (s.writer i).letters; stage = writing }) s.writer,
  ap stage_work g,
)

-- A thread that has work left can go on.
work_step :
    (s : System) (i : Bool) (cs : List ℕ) (t : Stage)
    → (s.writer i).letters ≡ cs
    → (s.writer i).stage ≡ t
    → (work (s.writer i) ≡ 0) ⊎ ((u : System) × Step s u)
work_step s i [] writing e g = inl (omega (arith, ap length e, ap stage_work g))
work_step s i (c ∷ cs) writing e g = inr (_, Step.write i e g)
work_step s i cs stating e g = inr (_, Step.find i g)
work_step s i cs (storing n) e g = inr (_, Step.store i g)
work_step s i cs printing e g = inr (_, Step.load i g)
work_step s i cs (reporting n) e g = inr (_, Step.print i g)

goes_on : (s : System) → (total_work s ≡ 0) ⊎ ((u : System) × Step s u)
goes_on s = elim (work_step s false (s.writer false).letters (s.writer false).stage refl refl) [
  | inr u ↦ inr u
  | inl e ↦ elim (work_step s true (s.writer true).letters (s.writer true).stage refl refl) [
    | inr u ↦ inr u
    | inl f ↦ inl (omega (arith, e, f))
  ]
]

begin-Keeps :
    (cs old : List ℕ) → Keeps (length old) (λ i. length (letters_of (parity i) cs)) (begin cs old)
begin-Keeps cs old = record {
  known = λ i. tt;
  longer = omega arith;
  fit = tt;
  lines = λ i. omega arith;
}

-- However the two threads write, stat and print, with one `statbuf` between them: each size that is
-- printed is one that the file has had since a letter was written, more than at the start and not
-- more than now; the lines that a thread has printed and those that it has before it are as many as
-- its letters; and each step brings the threads nearer to the end, where both have written and
-- printed everything, and before which one of them can go on.
pub reports_lem :
    (cs old : List ℕ) (s : System)
    → Steps (begin cs old) s
    → All (λ l. Fits (length old) (length s.contents) l.1) s.out
      × ((i : Bool) → lines_of i s.out + lines_due (s.writer i) ≡ length (letters_of (parity i) cs))
      × ((total_work s ≡ 0) ⊎ ((t : System) × Step s t))
      × ((t : System) → Step s t → total_work t + 1 ≡ total_work s)
reports_lem cs old s r =
    let k = steps-Keeps (begin-Keeps cs old) r in (k.fit, k.lines, goes_on s, λ t st. step-work st)
