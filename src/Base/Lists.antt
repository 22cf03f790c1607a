-- ===== src/Base/Lists.antt =====
-- C arrays as lists, measured and indexed by native numbers, with stores that may fault.
use Prim.Native.Nat.{ℕ, zero, suc, ◌+◌, ◌-◌, ◌≤◌, ◌<◌, min}
use mathlib.Core.Path.{◌≡◌, refl, ap, sym, ◌∙◌}
use mathlib.Core.Logic.{◌≢◌}
use mathlib.Core.Bool.{true}
use mathlib.Core.List.{List, [], ◌∷◌, ◌++◌, append_assoc}
use mathlib.Core.Option.{Option, none, some}
use native.Mathlib.Omega.{arith}
use sem_os.Base.Tests.{leb, le→leb, lt→leb, if◌then◌else◌}

module _ {ℓ} {A : Type ℓ} where
  abbrev pub length : List A → ℕ
  length [] = 0
  length (x ∷ xs) = suc (length xs)

  abbrev pub get_elem? : List A → ℕ → Option A
  get_elem? [] i = none
  get_elem? (x ∷ xs) zero = some x
  get_elem? (x ∷ xs) (suc i) = get_elem? xs i

  abbrev pub take : ℕ → List A → List A
  take zero xs = []
  take (suc n) [] = []
  take (suc n) (x ∷ xs) = x ∷ take n xs

  abbrev pub drop : ℕ → List A → List A
  drop zero xs = xs
  drop (suc n) [] = []
  drop (suc n) (x ∷ xs) = drop n xs

  abbrev pub replicate : ℕ → A → List A
  replicate zero a = []
  replicate (suc n) a = a ∷ replicate n a

  pub length-append : (xs ys : List A) → length (xs ++ ys) ≡ length xs + length ys
  length-append [] ys = omega arith
  length-append (x ∷ xs) ys = omega (arith, length-append xs ys)

  pub length-take : (n : ℕ) (xs : List A) → length (take n xs) ≡ min n (length xs)
  length-take zero xs = omega arith
  length-take (suc n) [] = omega arith
  length-take (suc n) (x ∷ xs) = omega (arith, length-take n xs)

  pub length-drop : (n : ℕ) (xs : List A) → length (drop n xs) ≡ length xs - n
  length-drop zero xs = omega arith
  length-drop (suc n) [] = omega arith
  length-drop (suc n) (x ∷ xs) = omega (arith, length-drop n xs)

  pub length-replicate : (n : ℕ) (a : A) → length (replicate n a) ≡ n
  length-replicate zero a = refl
  length-replicate (suc n) a = ap suc (length-replicate n a)

  pub drop-append : (xs ys : List A) (n : ℕ) → n ≡ length xs → drop n (xs ++ ys) ≡ ys
  drop-append [] ys zero e = refl
  drop-append [] ys (suc n) e = absurd (omega arith)
  drop-append (x ∷ xs) ys zero e = absurd (omega arith)
  drop-append (x ∷ xs) ys (suc n) e = drop-append xs ys n (omega arith)

  pub take-append : (xs ys : List A) (n : ℕ) → n ≡ length xs → take n (xs ++ ys) ≡ xs
  take-append [] ys zero e = refl
  take-append [] ys (suc n) e = absurd (omega arith)
  take-append (x ∷ xs) ys zero e = absurd (omega arith)
  take-append (x ∷ xs) ys (suc n) e = ap (λ t. x ∷ t) (take-append xs ys n (omega arith))

  pub take_all : (xs : List A) (n : ℕ) → length xs ≤ n → take n xs ≡ xs
  take_all [] zero h = refl
  take_all [] (suc n) h = refl
  take_all (x ∷ xs) zero h = absurd (omega arith)
  take_all (x ∷ xs) (suc n) h = ap (λ t. x ∷ t) (take_all xs n (omega arith))

  pub drop_all : (k : ℕ) (xs : List A) → length xs ≤ k → drop k xs ≡ []
  drop_all zero [] h = refl
  drop_all zero (x ∷ xs) h = absurd (omega arith)
  drop_all (suc k) [] h = refl
  drop_all (suc k) (x ∷ xs) h = drop_all k xs (omega arith)

  pub take-append-drop : (n : ℕ) (xs : List A) → take n xs ++ drop n xs ≡ xs
  take-append-drop zero xs = refl
  take-append-drop (suc n) [] = refl
  take-append-drop (suc n) (x ∷ xs) = ap (λ t. x ∷ t) (take-append-drop n xs)

  pub get_elem?-ne_none : (xs : List A) (i : ℕ) → i < length xs → get_elem? xs i ≢ none
  get_elem?-ne_none [] i h = absurd (omega arith)
  get_elem?-ne_none (x ∷ xs) zero h = λ e. cc
  get_elem?-ne_none (x ∷ xs) (suc i) h = get_elem?-ne_none xs i (omega arith)

  -- A copy of `src` to `buf[i ..]`; `none` is a store past the end of the array.
  unfoldable pub store : List A → ℕ → List A → Option (List A)
  store buf i src =
      if leb (i + length src) (length buf)
      then some (take i buf ++ (src ++ drop (i + length src) buf))
      else none

  pub store-append :
      (xs old src rest : List A) (i : ℕ)
      → i ≡ length xs
      → length old ≡ length src
      → store (xs ++ (old ++ rest)) i src ≡ some (xs ++ (src ++ rest))
  unfolding store
  store-append xs old src rest i e h = rw (
    lt-room,
    take-append xs (old ++ rest) i e,
    ← append_assoc xs old rest,
    drop-append (xs ++ old) rest (i + length src) (omega (arith, length-append xs old)),
  )
    where
      lt-room : leb (i + length src) (length (xs ++ (old ++ rest))) ≡ true
      lt-room = le→leb _ _ (omega (arith, length-append xs (old ++ rest), length-append old rest))

module _ {ℓ} {A : Type ℓ} where
  pub store-pad :
      (used src pad : List A) (i : ℕ)
      → i ≡ length used
      → length src ≤ length pad
      → store (used ++ pad) i src ≡ some (used ++ (src ++ drop (length src) pad))
  store-pad used src pad i e h =
      ap (λ p. store (used ++ p) i src) (sym (take-append-drop (length src) pad))
      ∙ store-append used (take (length src) pad) src (drop (length src) pad) i e
          (omega (arith, length-take (length src) pad))

  pub store-out_of_range :
      (buf src : List A) (i : ℕ) → length buf < i + length src → store buf i src ≡ none
  unfolding store
  store-out_of_range buf src i h = rw (lt→leb (length buf) (i + length src) h)

  -- A store of nothing at the start.
  pub store-nil : (buf : List A) → store buf 0 [] ≡ some buf
  unfolding store
  store-nil buf = rw (le→leb 0 (length buf) (omega arith))

-- Every element meets `P`.
abbrev pub All {ℓ κ} : {A : Type ℓ} → (A → Type κ) → List A → Type κ
All P [] = Unit
All P (x ∷ xs) = P x × All P xs

pub All-map {ℓ κ μ} :
    {A : Type ℓ} (P : A → Type κ) (Q : A → Type μ) (xs : List A)
    → ((a : A) → P a → Q a)
    → All P xs
    → All Q xs
All-map P Q [] f h = tt
All-map P Q (x ∷ xs) f h = (f x h.0, All-map P Q xs f h.1)

pub All-append {ℓ κ} :
    {A : Type ℓ} (P : A → Type κ) (xs ys : List A) → All P xs → All P ys → All P (xs ++ ys)
All-append P [] ys hx hy = hy
All-append P (x ∷ xs) ys hx hy = (hx.0, All-append P xs ys hx.1 hy)

-- The lengths of byte strings, for `omega`.
pub length-append_bytes : (xs ys : List ℕ) → length (xs ++ ys) ≡ length xs + length ys
length-append_bytes xs ys = length-append xs ys

pub length-take_bytes : (n : ℕ) (xs : List ℕ) → length (take n xs) ≡ min n (length xs)
length-take_bytes n xs = length-take n xs

pub length-drop_bytes : (n : ℕ) (xs : List ℕ) → length (drop n xs) ≡ length xs - n
length-drop_bytes n xs = length-drop n xs

pub ruleset sizes = (arith, length-append_bytes, length-take_bytes, length-drop_bytes)
