-- ===== src/Files/Appenders.antt =====
-- 8/open_file/src/2_1.c and 2_1_thread.c: two descriptors with O_APPEND, for the letters with an even
-- and with an odd code. In 2_1.c they alternate, in 2_1_thread.c each has a thread of its own.
use sem_os.Base.{
  ℕ, ◌%◌, ◌≡◌, refl, sym, ◌∙◌, ap, Bool, true, false, List, [], ◌∷◌, ◌++◌, append_assoc, append-nil,
  length, ◌==◌, if◌then◌else◌, arith, Bool-cases, inl, inr, All, ne→==, ◌≢◌,
}
use mathlib.Core.Path.{subst}
use sem_os.Files.Threads.{put}

-- A thread is before its `write`; before the `stat` of PRINT_STAT, or has found the size there and not
-- stored it yet; before it reads `st_size` for its `fprintf`, or has read it and not printed it yet.
pub data Stage : Type 0 where
  writing : Stage
  stating : Stage
  storing : (size : ℕ) → Stage
  printing : Stage
  reporting : (size : ℕ) → Stage

-- What a thread has still to write, and where it is.
pub record Writer : Type 0 where
  pub letters : List ℕ
  pub stage : Stage

-- The threads, the file, the `st_size` of the one `statbuf`, and the lines that are printed, the last
-- one first, each with its thread and its size.
pub record System : Type 0 where
  pub writer : Bool → Writer
  pub contents : List ℕ
  pub statbuf : ℕ
  pub out : List (Bool × ℕ)

-- `write` with O_APPEND puts its byte to the end of the file, wherever the other one has written.
pub data Step : System → System → Type 0 where
  write :
      {s : System} {c : ℕ} {cs : List ℕ} (i : Bool)
      → (s.writer i).letters ≡ c ∷ cs
      → (s.writer i).stage ≡ writing
      → Step s (record s {
        writer = put i (record { letters = cs; stage = stating }) s.writer;
        contents = s.contents ++ (c ∷ []);
      })
  find :
      {s : System} (i : Bool)
      → (s.writer i).stage ≡ stating
      → Step s (record s {
        writer =
            put i
              (record { letters = (s.writer i).letters; stage = storing (length s.contents) })
              s.writer;
      })
  store :
      {s : System} {n : ℕ} (i : Bool)
      → (s.writer i).stage ≡ storing n
      → Step s (record s {
        writer = put i (record { letters = (s.writer i).letters; stage = printing }) s.writer;
        statbuf = n;
      })
  load :
      {s : System} (i : Bool)
      → (s.writer i).stage ≡ printing
      → Step s (record s {
        writer =
            put i (record { letters = (s.writer i).letters; stage = reporting s.statbuf }) s.writer;
      })
  print :
      {s : System} {n : ℕ} (i : Bool)
      → (s.writer i).stage ≡ reporting n
      → Step s (record s {
        writer = put i (record { letters = (s.writer i).letters; stage = writing }) s.writer;
        out = (i, n) ∷ s.out;
      })

pub data Steps : System → System → Type 0 where
  stop : {s : System} → Steps s s
  more : {s t u : System} → Steps s t → Step t u → Steps s u

-- The letters of a thread: those with `c % 2 == i`, in order.
abbrev pub letters_of : ℕ → List ℕ → List ℕ
letters_of i [] = []
letters_of i (c ∷ cs) = if c % 2 == i then c ∷ letters_of i cs else letters_of i cs

letters_of-append :
    (i : ℕ) (xs ys : List ℕ) → letters_of i (xs ++ ys) ≡ letters_of i xs ++ letters_of i ys
letters_of-append i [] ys = refl
letters_of-append i (x ∷ xs) ys = ground (arith, letters_of-append i xs ys)

-- The remainder of the letters of a thread.
abbrev pub parity : Bool → ℕ
parity false = 0
parity true = 1

-- The two threads before they start, with the letters `cs` to share.
abbrev pub begin : (cs contents : List ℕ) → System
begin cs contents = record {
  writer = λ i. record { letters = letters_of (parity i) cs; stage = writing };
  contents = contents;
  statbuf = 0;
  out = [];
}

letters_of-snoc :
    (i c : ℕ) (xs : List ℕ)
    → c % 2 ≡ i
    → letters_of i (xs ++ (c ∷ [])) ≡ letters_of i xs ++ (c ∷ [])
letters_of-snoc i c xs e = rw (letters_of-append i xs (c ∷ [])) (ground (arith, e))

letters_of-skip :
    (i c : ℕ) (xs : List ℕ) → c % 2 ≢ i → letters_of i (xs ++ (c ∷ [])) ≡ letters_of i xs
letters_of-skip i c xs ne = rw (letters_of-append i xs (c ∷ []), ne→== (c % 2) i ne) (append-nil _)

All-letters_of : (i : ℕ) (cs : List ℕ) → All (λ c. c % 2 ≡ i) (letters_of i cs)
All-letters_of i [] = tt
All-letters_of i (c ∷ cs) = elim (Bool-cases (c % 2 == i)) [
  | inl h ↦ rw h (ground arith, All-letters_of i cs)
  | inr h ↦ rw h (All-letters_of i cs)
]

-- A thread has letters of its own kind, and they and those of its kind in the file are what they were.
record HasWritten (whole : List ℕ) (k : ℕ) (contents : List ℕ) (w : Writer) : Type 0 where
  own : All (λ c. c % 2 ≡ k) w.letters
  kept : letters_of k contents ++ w.letters ≡ whole

abbrev HaveWritten : (Bool → List ℕ) → System → Type 0
HaveWritten whole s = (i : Bool) → HasWritten (whole i) (parity i) s.contents (s.writer i)

own-write :
    {whole : List ℕ} {k c : ℕ} {contents cs : List ℕ} {w : Writer}
    → HasWritten whole k contents w
    → w.letters ≡ c ∷ cs
    → HasWritten whole k (contents ++ (c ∷ [])) (record { letters = cs; stage = stating })
own-write {whole} {k} {c} {contents} {cs} h e =
    let mine : All (λ c. c % 2 ≡ k) (c ∷ cs) = subst (All (λ c. c % 2 ≡ k)) e h.own in
    record {
      own = mine.1;
      kept =
          ap (λ l. l ++ cs) (letters_of-snoc k c contents mine.0)
          ∙ append_assoc (letters_of k contents) (c ∷ []) cs
          ∙ ap (λ l. letters_of k contents ++ l) (sym e)
          ∙ h.kept;
    }

-- A letter of the other thread.
other-write :
    (c : ℕ) {whole : List ℕ} {k : ℕ} {contents : List ℕ} {w : Writer}
    → HasWritten whole k contents w
    → c % 2 ≢ k
    → HasWritten whole k (contents ++ (c ∷ [])) w
other-write c {k = k} {contents = contents} {w = w} h ne = record {
  own = h.own;
  kept = ap (λ l. l ++ w.letters) (letters_of-skip k c contents ne) ∙ h.kept;
}

first_own :
    {whole : List ℕ} {k c : ℕ} {contents cs : List ℕ} {w : Writer}
    → HasWritten whole k contents w
    → w.letters ≡ c ∷ cs
    → c % 2 ≡ k
first_own {k = k} h e = (subst (All (λ c. c % 2 ≡ k)) e h.own).0

same-letters :
    {whole : List ℕ} {k : ℕ} {contents : List ℕ} {w : Writer} (t : Stage)
    → HasWritten whole k contents w
    → HasWritten whole k contents (record { letters = w.letters; stage = t })
same-letters t h = record { own = h.own; kept = h.kept }

step-HaveWritten :
    (whole : Bool → List ℕ) {s t : System} → HaveWritten whole s → Step s t → HaveWritten whole t
step-HaveWritten whole h (Step.write false e g) false = own-write (h false) e
step-HaveWritten whole h (Step.write false e g) true =
    other-write _ (h true) (λ o. absurd (omega (arith, first_own (h false) e, o)))
step-HaveWritten whole h (Step.write true e g) true = own-write (h true) e
step-HaveWritten whole h (Step.write true e g) false =
    other-write _ (h false) (λ o. absurd (omega (arith, first_own (h true) e, o)))
step-HaveWritten whole h (Step.find false g) false = same-letters (storing _) (h false)
step-HaveWritten whole h (Step.find false g) true = h true
step-HaveWritten whole h (Step.find true g) true = same-letters (storing _) (h true)
step-HaveWritten whole h (Step.find true g) false = h false
step-HaveWritten whole h (Step.store false g) false = same-letters printing (h false)
step-HaveWritten whole h (Step.store false g) true = h true
step-HaveWritten whole h (Step.store true g) true = same-letters printing (h true)
step-HaveWritten whole h (Step.store true g) false = h false
step-HaveWritten whole h (Step.load false g) false = same-letters (reporting _) (h false)
step-HaveWritten whole h (Step.load false g) true = h true
step-HaveWritten whole h (Step.load true g) true = same-letters (reporting _) (h true)
step-HaveWritten whole h (Step.load true g) false = h false
step-HaveWritten whole h (Step.print false g) false = same-letters writing (h false)
step-HaveWritten whole h (Step.print false g) true = h true
step-HaveWritten whole h (Step.print true g) true = same-letters writing (h true)
step-HaveWritten whole h (Step.print true g) false = h false

steps-HaveWritten :
    (whole : Bool → List ℕ) {s t : System} → HaveWritten whole s → Steps s t → HaveWritten whole t
steps-HaveWritten whole h stop = h
steps-HaveWritten whole h (more r st) = step-HaveWritten whole (steps-HaveWritten whole h r) st

-- No letter is lost and none is written twice, in whatever order the two write, stat and print: of a
-- thread that is through, the file has the letters in their order, behind those that it had before.
pub appends_lem :
    (cs old : List ℕ) (s : System) (i : Bool)
    → Steps (begin cs old) s
    → (s.writer i).letters ≡ []
    → letters_of (parity i) s.contents ≡ letters_of (parity i) old ++ letters_of (parity i) cs
appends_lem cs old s i r e =
    let all =
      steps-HaveWritten (λ i. letters_of (parity i) old ++ letters_of (parity i) cs)
        (λ i. record { own = All-letters_of (parity i) cs; kept = refl }) r in
    sym (ap (λ l. letters_of (parity i) s.contents ++ l) e ∙ append-nil _) ∙ (all i).kept
