-- ===== src/Files/Counts.antt =====
-- What the two threads of 8/open_file/src/1_thread.c print, by how often each byte is in it.
use sem_os.Base.{
  ℕ, zero, suc, ◌+◌, ◌<◌, ◌≡◌, refl, sym, ◌∙◌, ap, ◌==◌, if◌then◌else◌, Bool, true, false, Option,
  none, some, List, [], ◌∷◌, ◌++◌, take, drop, arith, take-append-drop,
}
use sem_os.Files.Shared.{getc}
use sem_os.Files.Threads.{
  State, scanning, holding, returned, Thread, System, begin, put, Step, Steps, start, later,
}

-- How often a byte stands in a list, and in the lines of the output.
abbrev pub count : ℕ → List ℕ → ℕ
count c [] = 0
count c (x ∷ xs) = (if x == c then 1 else 0) + count c xs

abbrev pub printed_count : ℕ → List (Bool × ℕ) → ℕ
printed_count c [] = 0
printed_count c ((i, x) ∷ out) = (if x == c then 1 else 0) + printed_count c out

abbrev seen : ℕ → Option ℕ → ℕ
seen c none = 0
seen c (some x) = if x == c then 1 else 0

abbrev held : ℕ → State → ℕ
held c (holding x) = if x == c then 1 else 0
held c _ = 0

pub count-append : (c : ℕ) (xs ys : List ℕ) → count c (xs ++ ys) ≡ count c xs + count c ys
count-append c [] ys = omega arith
count-append c (x ∷ xs) ys = omega (arith, count-append c xs ys)

printed_count-snoc :
    (c x : ℕ) (i : Bool) (out : List (Bool × ℕ))
    → printed_count c (out ++ ((i, x) ∷ [])) ≡ printed_count c out + seen c (some x)
printed_count-snoc c x i [] = omega arith
printed_count-snoc c x i ((j, y) ∷ out) = omega (arith, printed_count-snoc c x i out)

-- `getc` neither loses a byte nor makes one.
getc-count :
    (size c : ℕ) (b r : List ℕ)
    → let g = getc size b r in seen c g.0 + count c g.1 + count c g.2 ≡ count c b + count c r
unfolding getc
getc-count size c (x ∷ b) r = refl
getc-count zero c [] r = refl
getc-count (suc size) c [] [] = refl
getc-count (suc size) c [] (x ∷ r) =
    let whole : count c (take size r ++ drop size r) ≡ count c r =
      ap (count c) (take-append-drop size r) in
    omega (arith, whole, count-append c (take size r) (drop size r))

-- At the end of the file, with an empty buffer, it has nothing left.
getc_end :
    (size : ℕ) (b r : List ℕ)
    → 0 < size
    → (getc size b r).0 ≡ none
    → ((getc size b r).1 ≡ []) × ((getc size b r).2 ≡ [])
unfolding getc
getc_end size (x ∷ b) r p e = absurd cc
getc_end zero [] r p e = absurd (omega arith)
getc_end (suc size) [] [] p e = (refl, refl)
getc_end (suc size) [] (x ∷ r) p e = absurd cc

getc_counted :
    (size c : ℕ) (b r : List ℕ) {o : Option ℕ} {b' r' : List ℕ}
    → getc size b r ≡ (o, b', r')
    → seen c o + count c b' + count c r' ≡ count c b + count c r
getc_counted size c b r e =
    ap (λ g. seen c g.0 + count c g.1 + count c g.2) (sym e) ∙ getc-count size c b r

getc_finished :
    (size : ℕ) (b r : List ℕ) {b' r' : List ℕ}
    → 0 < size
    → getc size b r ≡ (none, b', r')
    → (b' ≡ []) × (r' ≡ [])
getc_finished size b r p e =
    let (x, y) = getc_end size b r p (ap (λ g. g.0) e) in
    (sym (ap (λ g. g.1) e) ∙ x, sym (ap (λ g. g.2) e) ∙ y)

-- The bytes that a thread has read from the descriptor and not printed.
abbrev inside : ℕ → Thread → ℕ
inside c t = held c t.state + count c t.buffer

abbrev total : ℕ → System → ℕ
total c s =
    printed_count c s.out + inside c (s.thread false) + inside c (s.thread true) + count c s.rest

inside-put :
    (c : ℕ) (i : Bool) (t : Thread) (f : Bool → Thread)
    → inside c (put i t f false) + inside c (put i t f true) + inside c (f i)
      ≡ inside c t + inside c (f false) + inside c (f true)
inside-put c false t f = omega arith
inside-put c true t f = omega arith

-- No step changes how often a byte is in the file, in the buffers, with the threads and in the
-- output together.
step-total : {size : ℕ} {s t : System} (c : ℕ) → Step size s t → total c t ≡ total c s
step-total {size} {s} c (Step.scan {c = x} {b = b} {r = r} i e g) =
    let now : Thread = record { buffer = b; state = holding x } in
    omega (
      arith,
      ap (held c) e,
      getc_counted size c (s.thread i).buffer s.rest g,
      inside-put c i now s.thread,
    )
step-total {size} {s} c (Step.print {c = x} i e) =
    let now : Thread = record { buffer = (s.thread i).buffer; state = scanning } in
    omega (arith, ap (held c) e, printed_count-snoc c x i s.out, inside-put c i now s.thread)
step-total {size} {s} c (Step.end {b = b} {r = r} i e g) =
    let now : Thread = record { buffer = b; state = returned } in
    omega (
      arith,
      ap (held c) e,
      getc_counted size c (s.thread i).buffer s.rest g,
      inside-put c i now s.thread,
    )

-- A thread that has returned has left nothing behind, in its buffer or in the file.
abbrev IsFinished : List ℕ → Thread → Type 0
IsFinished rest t = t.state ≡ returned → (t.buffer ≡ []) × (rest ≡ [])

abbrev AreFinished : System → Type 0
AreFinished s = (i : Bool) → IsFinished s.rest (s.thread i)

put-IsFinished :
    (rest r : List ℕ) (i : Bool) (now : Thread) (f : Bool → Thread)
    → ((j : Bool) → IsFinished rest (f j))
    → (rest ≡ [] → r ≡ [])
    → IsFinished r now
    → (j : Bool) → IsFinished r (put i now f j)
put-IsFinished rest r false now f k stays n false = n
put-IsFinished rest r false now f k stays n true = λ e. ((k true e).0, stays (k true e).1)
put-IsFinished rest r true now f k stays n false = λ e. ((k false e).0, stays (k false e).1)
put-IsFinished rest r true now f k stays n true = n

getc_empty : (size : ℕ) (b : List ℕ) → (getc size b []).2 ≡ []
unfolding getc
getc_empty size (x ∷ b) = refl
getc_empty zero [] = refl
getc_empty (suc size) [] = refl

getc_stays :
    (size : ℕ) (b rest : List ℕ) {o : Option ℕ} {b' r : List ℕ}
    → getc size b rest ≡ (o, b', r)
    → rest ≡ []
    → r ≡ []
getc_stays size b rest g e =
    sym (ap (λ x. x.2) g) ∙ ap (λ x. (getc size b x).2) e ∙ getc_empty size b

step-AreFinished :
    {size : ℕ} {s t : System} → 0 < size → Step size s t → AreFinished s → AreFinished t
step-AreFinished {size} {s} p (Step.scan {b = b} {r = r} i e g) k =
    put-IsFinished s.rest r i _ s.thread k (getc_stays size _ _ g) (λ h. absurd cc)
step-AreFinished {size} {s} p (Step.print i e) k =
    put-IsFinished s.rest s.rest i _ s.thread k (λ h. h) (λ h. absurd cc)
step-AreFinished {size} {s} p (Step.end {b = b} {r = r} i e g) k =
    put-IsFinished s.rest r i _ s.thread k (getc_stays size _ _ g) (λ h. getc_finished size _ _ p g)

steps-total : {size : ℕ} {s t : System} (c : ℕ) → Steps size s t → total c t ≡ total c s
steps-total c start = refl
steps-total c (later k h) = step-total c h ∙ steps-total c k

steps-AreFinished :
    {size : ℕ} {s t : System} → 0 < size → Steps size s t → AreFinished s → AreFinished t
steps-AreFinished p start k = k
steps-AreFinished p (later l h) k = step-AreFinished p h (steps-AreFinished p l k)

-- When both threads have returned, each byte of the file has been printed as often as it is in the
-- file, whatever the order in which the threads read and print, with buffers of at least one byte.
pub threads-count :
    (size : ℕ) (contents : List ℕ) (s : System)
    → 0 < size
    → Steps size (begin contents) s
    → (s.thread false).state ≡ returned
    → (s.thread true).state ≡ returned
    → (c : ℕ) → printed_count c s.out ≡ count c contents
threads-count size contents s p l f t c =
    let k = steps-AreFinished p l (λ i e. absurd cc) in
    let first = k false f in
    let second = k true t in
    omega (
      arith,
      steps-total c l,
      ap (count c) first.0,
      ap (count c) second.0,
      ap (count c) first.1,
      ap (held c) f,
      ap (held c) t,
    )
