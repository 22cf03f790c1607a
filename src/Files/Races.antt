-- ===== src/Files/Races.antt =====
-- The two threads of 8/open_file/src/2_thread.c do not disturb each other: each writes the whole file.
use mathlib.Core.Path.{subst}
use sem_os.Base.{
  sizes, ℕ, ◌+◌, ◌-◌, ◌*◌, ◌≡◌, refl, sym, ◌∙◌, ap, ◌⊎◌, inl, inr, Bool, true, false, Option, none,
  some, length-append, List, [], ◌∷◌, ◌++◌, append-nil, length, arith,
}
use sem_os.Files.Readers.{read}
use sem_os.Files.Threads.{put}
use sem_os.Files.Racers.{
  State, reading, holding, returned, Thread, System, begin, Step, Steps, start, later,
}
use sem_os.Files.Tracks.{
  written, written-own, written-other, pending, Tracks, read_next, read_past, between, read_there,
  read-Tracks, end-Tracks, write-Tracks,
}

abbrev Keeps : List ℕ → System → Type 0
Keeps contents s = (i : Bool) → Tracks contents (written i s.out) (s.thread i)

same_done :
    {contents d d' : List ℕ} {t : Thread} → d ≡ d' → Tracks contents d t → Tracks contents d' t
same_done {contents} {t = t} e k = subst (λ d. Tracks contents d t) e k

put-Tracks :
    (contents : List ℕ) (i : Bool) (now : Thread) (f : Bool → Thread) (done : Bool → List ℕ)
    → ((j : Bool) → Tracks contents (done j) (f j))
    → Tracks contents (done i) now
    → (j : Bool) → Tracks contents (done j) (put i now f j)
put-Tracks contents false now f done k n false = n
put-Tracks contents false now f done k n true = k true
put-Tracks contents true now f done k n false = k false
put-Tracks contents true now f done k n true = n

write-Keeps :
    (contents : List ℕ) (i : Bool) (c : ℕ) (s : System)
    → Keeps contents s
    → (s.thread i).state ≡ holding c
    → (j : Bool)
    → Tracks contents
        (written j (s.out ++ ((i, c) ∷ [])))
        (put i (record { offset = (s.thread i).offset; state = reading }) s.thread j)
write-Keeps contents false c s k e false =
    same_done (sym (written-own false c s.out)) (write-Tracks (k false) e)
write-Keeps contents false c s k e true = same_done (sym (written-other false c s.out)) (k true)
write-Keeps contents true c s k e false = same_done (sym (written-other true c s.out)) (k false)
write-Keeps contents true c s k e true =
    same_done (sym (written-own true c s.out)) (write-Tracks (k true) e)

step-Keeps :
    {contents : List ℕ} {s t : System} → Keeps contents s → Step contents s t → Keeps contents t
step-Keeps {contents} {s} k (Step.read_byte i e g) =
    put-Tracks contents i _ s.thread (λ j. written j s.out) k (read-Tracks (k i) e g)
step-Keeps {contents} {s} k (Step.write_byte {c = c} i e) = write-Keeps contents i c s k e
step-Keeps {contents} {s} k (Step.end i e g) =
    put-Tracks contents i _ s.thread (λ j. written j s.out) k (end-Tracks (k i) e g)

steps-Keeps :
    {contents : List ℕ} {s t : System} → Keeps contents s → Steps contents s t → Keeps contents t
steps-Keeps k start = k
steps-Keeps k (later r st) = step-Keeps (steps-Keeps k r) st

-- How many steps a thread has before it.
abbrev state_left : State → ℕ
state_left reading = 1
state_left (holding c) = 2
state_left returned = 0

abbrev thread_left : List ℕ → Thread → ℕ
thread_left contents t = 2 * (length contents - t.offset) + state_left t.state

abbrev pub left : List ℕ → System → ℕ
left contents s = thread_left contents (s.thread false) + thread_left contents (s.thread true)

put-left :
    (contents : List ℕ) (i : Bool) (now : Thread) (f : Bool → Thread)
    → thread_left contents (put i now f false)
        + thread_left contents (put i now f true)
        + thread_left contents (f i)
      ≡ thread_left contents now + thread_left contents (f false) + thread_left contents (f true)
put-left contents false now f = omega arith
put-left contents true now f = omega arith

step-left :
    {contents : List ℕ} {s t : System}
    → Keeps contents s
    → Step contents s t
    → left contents t + 1 ≡ left contents s
step-left {contents} {s} k (Step.read_byte {c = c} {o = o} i e g) =
    let (w, a) = between (k i) e in
    let (r, p, n) = read_next (written i s.out) (k i).rest (read_there (k i) e g) in
    omega (
      sizes,
      ap state_left e,
      a,
      n,
      ap length w,
      ap length p,
      length-append (written i s.out) (k i).rest,
      put-left contents i (record { offset = o; state = holding c }) s.thread,
    )
step-left {contents} {s} k (Step.write_byte i e) = omega (
  arith,
  ap state_left e,
  put-left contents i (record { offset = (s.thread i).offset; state = reading }) s.thread,
)
step-left {contents} {s} k (Step.end {o = o} i e g) =
    let (w, a) = between (k i) e in
    let (p, n) = read_past (written i s.out) (k i).rest (read_there (k i) e g) in
    omega (
      arith,
      ap state_left e,
      a,
      n,
      put-left contents i (record { offset = o; state = returned }) s.thread,
    )

-- A thread that has not returned can go on.
thread_step :
    (contents : List ℕ) (s : System) (i : Bool) (t : State)
    → (s.thread i).state ≡ t
    → ((s.thread i).state ≡ returned) ⊎ ((u : System) × Step contents s u)
thread_step contents s i returned e = inl e
thread_step contents s i (holding c) e = inr (_, Step.write_byte i e)
thread_step contents s i reading e = read_step (read contents (s.thread i).offset) refl
  where
    read_step :
        (g : Option ℕ × ℕ)
        → read contents (s.thread i).offset ≡ g
        → ((s.thread i).state ≡ returned) ⊎ ((u : System) × Step contents s u)
    read_step (none, o) g = inr (_, Step.end i e g)
    read_step (some c, o) g = inr (_, Step.read_byte i e g)

written_all :
    {contents : List ℕ} (s : System) (i : Bool)
    → Keeps contents s
    → (s.thread i).state ≡ returned
    → written i s.out ≡ contents
written_all s i k e = sym (
    (k i).whole
    ∙ ap (λ p. written i s.out ++ (pending p ++ (k i).rest)) e
    ∙ ap (λ r. written i s.out ++ r) ((k i).finished e)
    ∙ append-nil (written i s.out))

begin-Keeps : (contents : List ℕ) → Keeps contents begin
begin-Keeps contents i = record {
  rest = contents;
  whole = whole i;
  at = at i;
  finished = λ h. absurd cc;
}
  where
    whole : (i : Bool) → contents ≡ written i [] ++ contents
    whole false = refl
    whole true = refl

    at : (i : Bool) → 0 ≡ length (written i [] ++ [])
    at false = refl
    at true = refl

-- Both threads have returned, and each has written the file.
pub record HaveWritten (contents : List ℕ) (s : System) : Type 0 where
  pub returned_all : (i : Bool) → (s.thread i).state ≡ returned
  pub same : (i : Bool) → written i s.out ≡ contents

-- In every state that the two threads come to, either both have returned, and the bytes that each has
-- written are the file, in its order, whatever the other one has written between them, or one of
-- them can go on; and each step brings them nearer to the end, of which the start is four steps for each byte
-- and two more away.
pub races-write :
    (contents : List ℕ) (s : System)
    → Steps contents begin s
    → (HaveWritten contents s ⊎ ((t : System) × Step contents s t))
      × ((t : System) → Step contents s t → left contents t + 1 ≡ left contents s)
      × (left contents begin ≡ 4 * length contents + 2)
races-write contents s r =
    let k : Keeps contents s = steps-Keeps (begin-Keeps contents) r in
    (
      elim (thread_step contents s false (s.thread false).state refl) [
        | inr u ↦ inr u
        | inl f ↦ elim (thread_step contents s true (s.thread true).state refl) [
          | inr u ↦ inr u
          | inl t ↦
              let all : (i : Bool) → (s.thread i).state ≡ returned =
                λ i. elim i as (λ i. (s.thread i).state ≡ returned) [ false ↦ f | true ↦ t ] in
              inl (record { returned_all = all; same = λ i. written_all s i k (all i) })
        ]
      ],
      (λ t st. step-left k st),
      omega arith,
    )
