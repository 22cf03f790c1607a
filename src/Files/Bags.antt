-- ===== src/Files/Bags.antt =====
-- The output of the two threads of 8/open_file/src/1_thread.c as a multiset, which forgets the order in
-- which they print.
use mathlib.Core.List.Perm
use mathlib.Core.List.{Perm, perm_middle}
use mathlib.Core.Path.{subst}
use mathlib.Core.Quot
use mathlib.Mathlib.Data.Multiset.Defs.{Multiset, of_list}
use sem_os.Base.{
  sizes, ℕ, zero, suc, ◌+◌, ◌*◌, ◌<◌, ◌≡◌, refl, sym, ◌∙◌, ap, ◌⊎◌, Option, none, some, length,
  take, drop, take-append-drop, length-append, ◌==◌, if◌then◌else◌, Bool, true, false, List, [],
  ◌∷◌, ◌++◌, arith, Bool-cases, inl, inr,
}
use sem_os.Files.Shared.{getc}
use sem_os.Files.Threads.{
  State, scanning, holding, returned, Thread, System, begin, put, Step, Steps,
}
use sem_os.Files.Counts.{count, printed_count, count-append, threads-count}

-- The bytes of the lines.
abbrev pub bytes : List (Bool × ℕ) → List ℕ
bytes [] = []
bytes ((i, c) ∷ out) = c ∷ bytes out

count-bytes : (c : ℕ) (out : List (Bool × ℕ)) → count c (bytes out) ≡ printed_count c out
count-bytes c [] = refl
count-bytes c ((i, x) ∷ out) = omega (arith, count-bytes c out)

-- A byte that is counted stands somewhere.
split_at :
    (c : ℕ) (ys : List ℕ) → 0 < count c ys → (l : List ℕ) × (r : List ℕ) × (ys ≡ l ++ (c ∷ r))
split_at c [] h = absurd (omega arith)
split_at c (y ∷ ys) h = elim (Bool-cases (y == c)) [
  | inl e ↦ ([], ys, ap (λ x. x ∷ ys) (ground arith))
  | inr e ↦ (let (l, r, s) = split_at c ys (ground arith) in (y ∷ l, r, ap (λ x. y ∷ x) s))
]

count-middle :
    (c x : ℕ) (l r : List ℕ) → count c (l ++ (x ∷ r)) ≡ (if x == c then 1 else 0) + count c (l ++ r)
count-middle c x l r = omega (arith, count-append c l (x ∷ r), count-append c l r)

-- Lists with the same bytes, each as often, are permutations of each other.
perm_of_count : (xs ys : List ℕ) → ((c : ℕ) → count c xs ≡ count c ys) → Perm xs ys
perm_of_count [] [] h = Perm.refl []
perm_of_count [] (y ∷ ys) h = absurd (ground (arith, h y))
perm_of_count (x ∷ xs) ys h =
    let (l, r, s) = split_at x ys (ground (arith, h x)) in
    let rest =
      perm_of_count xs (l ++ r) (λ c. omega (arith, h c, ap (count c) s, count-middle c x l r)) in
    subst (λ z. Perm (x ∷ xs) z) (sym s)
      (Perm.trans (Perm.cons x rest) (Perm.symm (perm_middle l r)))

-- How many steps a thread has before it, and both, with the bytes that are left in the file.
abbrev state_left : State → ℕ
state_left scanning = 1
state_left (holding c) = 2
state_left returned = 0

abbrev thread_left : Thread → ℕ
thread_left t = 2 * length t.buffer + state_left t.state

abbrev pub left : System → ℕ
left s = thread_left (s.thread false) + thread_left (s.thread true) + 2 * length s.rest

put-left :
    (i : Bool) (now : Thread) (f : Bool → Thread)
    → thread_left (put i now f false) + thread_left (put i now f true) + thread_left (f i)
      ≡ thread_left now + thread_left (f false) + thread_left (f true)
put-left false now f = omega arith
put-left true now f = omega arith

abbrev got : Option ℕ → ℕ
got none = 0
got (some c) = 1

length-getc :
    (size : ℕ) (b r : List ℕ)
    → let g = getc size b r in got g.0 + length g.1 + length g.2 ≡ length b + length r
unfolding getc
length-getc size (x ∷ b) r = omega arith
length-getc zero [] r = refl
length-getc (suc size) [] [] = refl
length-getc (suc size) [] (x ∷ r) =
    omega (sizes, ap length (take-append-drop size r), length-append (take size r) (drop size r))

getc_keeps :
    (size : ℕ) (b r : List ℕ) {o : Option ℕ} {b' r' : List ℕ}
    → getc size b r ≡ (o, b', r')
    → got o + length b' + length r' ≡ length b + length r
getc_keeps size b r e = ap (λ g. got g.0 + length g.1 + length g.2) (sym e) ∙ length-getc size b r

step-left : {size : ℕ} {s t : System} → Step size s t → left t + 1 ≡ left s
step-left {size} {s} (Step.scan {c = c} {b = b} {r = r} i e g) = omega (
  arith,
  ap state_left e,
  getc_keeps size (s.thread i).buffer s.rest g,
  put-left i (record { buffer = b; state = holding c }) s.thread,
)
step-left {size} {s} (Step.print i e) = omega (
  arith,
  ap state_left e,
  put-left i (record { buffer = (s.thread i).buffer; state = scanning }) s.thread,
)
step-left {size} {s} (Step.end {b = b} i e g) = omega (
  arith,
  ap state_left e,
  getc_keeps size (s.thread i).buffer s.rest g,
  put-left i (record { buffer = b; state = returned }) s.thread,
)

-- A thread that has not returned can go on.
thread_step :
    (size : ℕ) (s : System) (i : Bool) (t : State)
    → (s.thread i).state ≡ t
    → ((s.thread i).state ≡ returned) ⊎ ((u : System) × Step size s u)
thread_step size s i returned e = inl e
thread_step size s i (holding c) e = inr (_, Step.print i e)
thread_step size s i scanning e = scan_step (getc size (s.thread i).buffer s.rest) refl
  where
    scan_step :
        (g : Option ℕ × List ℕ × List ℕ)
        → getc size (s.thread i).buffer s.rest ≡ g
        → ((s.thread i).state ≡ returned) ⊎ ((u : System) × Step size s u)
    scan_step (none, b, r) g = inr (_, Step.end i e g)
    scan_step (some c, b, r) g = inr (_, Step.scan i e g)

-- When both threads have returned, what they have printed is, but for the order, the file.
bag_of_file :
    (size : ℕ) (contents : List ℕ) (s : System)
    → 0 < size
    → Steps size (begin contents) s
    → (s.thread false).state ≡ returned
    → (s.thread true).state ≡ returned
    → ◌≡◌ {A = Multiset ℕ} (of_list (bytes s.out)) (of_list contents)
bag_of_file size contents s p l f t = Quot.sound (
    perm_of_count (bytes s.out) contents
      (λ c. count-bytes c s.out ∙ threads-count size contents s p l f t c))

-- Both threads have returned, and have printed the bytes of the file.
pub record HasPrinted (contents : List ℕ) (s : System) : Type 0 where
  pub first_returned : (s.thread false).state ≡ returned
  pub second_returned : (s.thread true).state ≡ returned
  pub same : ◌≡◌ {A = Multiset ℕ} (of_list (bytes s.out)) (of_list contents)

-- Two threads that read one file through two streams, with buffers of at least one byte: in every state
-- that they come to, either both have returned, and what they have printed is the file, as a
-- multiset of bytes, or one of them can go on; and each step brings them nearer to the end, of which
-- the start is two steps for each byte and two more away.
pub threads-print :
    (size : ℕ) (contents : List ℕ) (s : System)
    → 0 < size
    → Steps size (begin contents) s
    → (HasPrinted contents s ⊎ ((t : System) × Step size s t))
      × ((t : System) → Step size s t → left t + 1 ≡ left s)
      × (left (begin contents) ≡ 2 * length contents + 2)
threads-print size contents s p l = (
  elim (thread_step size s false (s.thread false).state refl) [
    | inr u ↦ inr u
    | inl f ↦ elim (thread_step size s true (s.thread true).state refl) [
      | inr u ↦ inr u
      | inl t ↦ inl (record {
        first_returned = f;
        second_returned = t;
        same = bag_of_file size contents s p l f t;
      })
    ]
  ],
  (λ t st. step-left st),
  omega arith,
)
