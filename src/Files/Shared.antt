-- ===== src/Files/Shared.antt =====
-- 8/open_file/src/1.c: two buffered streams over one descriptor, so with one offset.
use sem_os.Base.{
  sizes, drop_all, ℕ, zero, suc, ◌+◌, ◌*◌, ◌≤◌, ◌<◌, ◌≡◌, refl, Bool, true, false, Option, none,
  some, List, [], ◌∷◌, ◌++◌, if◌then◌else◌, arith, length, take, drop, take_all,
}
use mathlib.Core.Option

-- `fscanf(fs, "%c", &c)`: an empty buffer takes up to `size` bytes of what the descriptor has left.
-- The result is the byte, the buffer, and what is left.
unfoldable pub getc : (size : ℕ) → (buffer rest : List ℕ) → Option ℕ × List ℕ × List ℕ
getc size (c ∷ buffer) rest = (some c, buffer, rest)
getc size [] rest = elim (take size rest) [
  | [] ↦ (none, [], rest)
  | c ∷ buffer ↦ (some c, buffer, drop size rest)
]

-- One round of the loop of `main`: what it prints, and whether it goes on.
abbrev pub printed : Option ℕ → Option ℕ → List ℕ
printed none none = []
printed (some a) none = a ∷ []
printed none (some b) = b ∷ []
printed (some a) (some b) = a ∷ b ∷ []

abbrev pub goes_on : Option ℕ → Option ℕ → Bool
goes_on none none = false
goes_on _ _ = true

-- The loop, for at most so many rounds.
unfoldable pub read_both : (size fuel : ℕ) → (rest first second : List ℕ) → Option (List ℕ)
unfolding getc
read_both size zero rest first second = none
read_both size (suc n) rest first second =
    let (x, first', rest') = getc size first rest in
    let (y, second', rest'') = getc size second rest' in
    let next = read_both size n rest'' first' second' in
    if goes_on x y then Option.map (λ out. printed x y ++ out) next else some []

-- The bytes of two lists in turn, and then those of the longer one.
abbrev pub interleave : List ℕ → List ℕ → List ℕ
interleave [] ys = ys
interleave (x ∷ xs) [] = x ∷ xs
interleave (x ∷ xs) (y ∷ ys) = x ∷ y ∷ interleave xs ys

interleave-nil : (xs : List ℕ) → interleave xs [] ≡ xs
interleave-nil [] = refl
interleave-nil (x ∷ xs) = refl

-- With the file read to its end.
read_buffers :
    (size n : ℕ) (xs ys : List ℕ)
    → 0 < size
    → length xs + length ys < n
    → read_both size n [] xs ys ≡ some (interleave xs ys)
unfolding read_both getc
read_buffers size zero xs ys p h = absurd (omega arith)
read_buffers zero (suc n) xs ys p h = absurd (omega arith)
read_buffers (suc size) (suc n) [] [] p h = refl
read_buffers (suc size) (suc n) [] (y ∷ ys) p h =
    rw (read_buffers (suc size) n [] ys p (omega arith)) refl
read_buffers (suc size) (suc n) (x ∷ xs) [] p h =
    rw (read_buffers (suc size) n xs [] p (omega arith), interleave-nil xs) refl
read_buffers (suc size) (suc n) (x ∷ xs) (y ∷ ys) p h =
    rw (read_buffers (suc size) n xs ys p (omega arith)) refl

-- A round in which the second stream has to read what is left.
second_reads :
    (k n x : ℕ) (xs rest : List ℕ)
    → length rest ≤ suc k
    → length xs + length rest < n
    → Option.map
        (λ out. printed (some x) (getc (suc k) [] rest).0 ++ out)
        (read_both (suc k) n (getc (suc k) [] rest).2 xs (getc (suc k) [] rest).1)
      ≡ some (interleave (x ∷ xs) rest)
unfolding getc
second_reads k n x xs [] l h =
    rw (read_buffers (suc k) n xs [] (omega arith) (omega arith), interleave-nil xs) refl
second_reads k n x xs (r ∷ rs) l h =
    rw
      (
        drop_all k rs (omega arith),
        take_all rs k (omega arith),
        read_buffers (suc k) n xs rs (omega arith) (omega arith),
      )
      refl

-- A file of at most two buffers is printed with its two halves interleaved: the first stream takes
-- the first `size` bytes, and leaves the second one only what is behind them. The loop ends after at
-- most one round more than the file has bytes.
pub read_both_lem :
    (size n : ℕ) (contents : List ℕ)
    → 0 < size
    → length contents ≤ 2 * size
    → length contents < n
    → read_both size n contents [] [] ≡ some (interleave (take size contents) (drop size contents))
unfolding read_both getc
read_both_lem size zero contents p l h = absurd (omega arith)
read_both_lem zero (suc n) contents p l h = absurd (omega arith)
read_both_lem (suc k) (suc n) [] p l h = refl
read_both_lem (suc k) (suc n) (x ∷ contents) p l h =
    second_reads k n x (take k contents) (drop k contents) (omega sizes) (omega sizes)
