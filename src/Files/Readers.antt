-- ===== src/Files/Readers.antt =====
-- 8/open_file/src/2.c and 2_thread.c: two descriptors of one file, with an offset each, that are read
-- in turn or by a thread each.
use sem_os.Base.{
  ℕ, zero, suc, ◌+◌, ◌<◌, ◌≡◌, refl, Option, none, some, List, [], ◌∷◌, ◌++◌, append_assoc, length,
  length-append, get_elem?, arith,
}
use mathlib.Core.Option

-- `read` of one byte at an offset: the byte, if there is one, and the new offset.
unfoldable pub read : List ℕ → ℕ → Option ℕ × ℕ
read contents offset = elim (get_elem? contents offset) [
  | none ↦ (none, offset)
  | some c ↦ (some c, offset + 1)
]

-- The loop of `main`, for at most so many rounds: what it writes, `none` if it goes on.
unfoldable pub copy_loop : ℕ → List ℕ → ℕ → ℕ → Option (List ℕ)
unfolding read
copy_loop zero contents o₁ o₂ = none
copy_loop (suc n) contents o₁ o₂ =
    let (x, o₁') = read contents o₁ in
    let (y, o₂') = read contents o₂ in
    let rest = copy_loop n contents o₁' o₂' in
    elim x [
      | none ↦ some []
      | some a ↦ elim y [ none ↦ some (a ∷ []) | some b ↦ Option.map (λ out. a ∷ b ∷ out) rest ]
    ]

-- Each byte twice.
abbrev pub doubled : List ℕ → List ℕ
doubled [] = []
doubled (c ∷ cs) = c ∷ c ∷ doubled cs

pub get_elem?-here :
    (before : List ℕ) (c : ℕ) (after : List ℕ)
    → get_elem? (before ++ (c ∷ after)) (length before) ≡ some c
get_elem?-here [] c after = refl
get_elem?-here (x ∷ before) c after = get_elem?-here before c after

get_elem?-end : (before : List ℕ) → get_elem? (before ++ []) (length before) ≡ none
get_elem?-end [] = refl
get_elem?-end (x ∷ before) = get_elem?-end before

pub read-here :
    (before : List ℕ) (c : ℕ) (after : List ℕ)
    → read (before ++ (c ∷ after)) (length before) ≡ (some c, length before + 1)
unfolding read
read-here before c after = rw (read, get_elem?-here before c after) refl

copy_from :
    (n : ℕ) (before after : List ℕ)
    → length after < n
    → copy_loop n (before ++ after) (length before) (length before) ≡ some (doubled after)
unfolding copy_loop
copy_from zero before after h = absurd (omega arith)
copy_from (suc n) before [] h = rw (copy_loop, read, get_elem?-end before) refl
copy_from (suc n) before (c ∷ after) h =
    let moved : copy_loop n (before ++ (c ∷ after)) (length before + 1) (length before + 1)
        ≡ some (doubled after) =
      rw (append_assoc before (c ∷ []), length-append before) at
        (copy_from n (before ++ (c ∷ [])) after (omega arith)) in
    rw
      (
        copy_loop,
        read-here before c after,
        read-here before c after,
        read-here before c after,
        moved,
      )
      refl

-- The program ends after at most one round more than the file has bytes, and writes each byte of
-- the file twice in a row: the two descriptors have offsets of their own.
pub copy_loop-doubled :
    (n : ℕ) (contents : List ℕ)
    → length contents < n
    → copy_loop n contents 0 0 ≡ some (doubled contents)
copy_loop-doubled n contents h = copy_from n [] contents h

-- `thread_start` of 8/open_file/src/2_thread.c, for at most so many rounds.
unfoldable pub thread_start : ℕ → List ℕ → ℕ → Option (List ℕ)
thread_start zero contents offset = none
thread_start (suc n) contents offset =
    let (x, offset') = read contents offset in
    let rest = thread_start n contents offset' in
    elim x [ none ↦ some [] | some c ↦ Option.map (λ out. c ∷ out) rest ]

pub read-end : (before : List ℕ) → read (before ++ []) (length before) ≡ (none, length before)
unfolding read
read-end before = rw (read, get_elem?-end before) refl

thread_from :
    (n : ℕ) (before after : List ℕ)
    → length after < n
    → thread_start n (before ++ after) (length before) ≡ some after
unfolding thread_start
thread_from zero before after h = absurd (omega arith)
thread_from (suc n) before [] h = rw (thread_start, read-end before) refl
thread_from (suc n) before (c ∷ after) h =
    let moved : thread_start n (before ++ (c ∷ after)) (length before + 1) ≡ some after =
      rw (append_assoc before (c ∷ []), length-append before) at
        (thread_from n (before ++ (c ∷ [])) after (omega arith)) in
    rw (thread_start, read-here before c after, read-here before c after, moved) refl

-- A thread ends after at most one round more than the file has bytes, and writes the whole file in
-- order, since no other thread moves its offset.
pub thread_start_lem :
    (n : ℕ) (contents : List ℕ) → length contents < n → thread_start n contents 0 ≡ some contents
thread_start_lem n contents h = thread_from n [] contents h
