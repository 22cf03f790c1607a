-- ===== src/Memory.antt =====
-- What the /proc files of 6/fortunka and 6/seq_files do with their page of memory: a copy from the
-- user with its test for space, the final NUL byte, and the text up to it.
use mathlib.Core.Option
use sem_os.Base.{
  sizes, ℕ, ◌+◌, ◌-◌, ◌%◌, ◌^◌, ◌≤◌, ◌≡◌, ◌∙◌, ap, ◌≢◌, Option, none, some, List, [], ◌∷◌, ◌++◌,
  ◌==◌, if◌then◌else◌, length, drop, store, arith, append_assoc, length-append, store-append,
  store-pad, All, ne→==, refl,
}

-- `copy_from_user`, of the kernel: the bytes that it leaves at the destination, and how many bytes
-- it could not copy. If none, it has copied the user's bytes; it never writes more than asked for.
pub record CopyIn : Type 0 where
  pub stored : List ℕ → List ℕ
  pub left : List ℕ → ℕ
  pub copied : (buf : List ℕ) → left buf ≡ 0 → stored buf ≡ buf
  pub fits : (buf : List ℕ) → length (stored buf) ≤ length buf

infixl 5 ◌>>=◌
abbrev pub ◌>>=◌ {ℓ κ} : {A : Type ℓ} {B : Type κ} → Option A → (A → Option B) → Option B
none >>= f = none
some a >>= f = f a

-- `COOKIE_POT_SIZE - writeInd + 1`, in `unsigned long`.
abbrev pub room : ℕ → ℕ → ℕ
room page_size w = (page_size + 2 ^ 64 - w + 1) % 2 ^ 64

-- `buf[n - 1] = '\0'`
unfoldable pub put_nul : List ℕ → ℕ → Option (List ℕ)
put_nul buf n = if n == 0 then none else store buf (n - 1) (0 ∷ [])

-- The C string at the start of a buffer; `none` if it runs past the end.
unfoldable pub c_string : List ℕ → Option (List ℕ)
c_string [] = none
c_string (x ∷ xs) =
    let rest = c_string xs in if x == 0 then some [] else Option.map (λ s. x ∷ s) rest

-- A text holds no NUL byte.
abbrev pub IsText : List ℕ → Type 0
IsText m = All (λ x. x ≢ 0) m

pub c_string-text : (m rest : List ℕ) → IsText m → c_string (m ++ (0 ∷ rest)) ≡ some m
unfolding c_string
c_string-text [] rest t = refl
c_string-text (x ∷ m) rest t = rw (ne→== x 0 t.0, c_string-text m rest t.1)

module _ (used m pad : List ℕ) (x w : ℕ) (e : w ≡ length used) (h : length m + 1 ≤ length pad) where
  abbrev pub unused : List ℕ
  unused = drop (length m + 1) pad

  -- The copy of a user's bytes over the unused rest of the pot.
  pub store-user : store (used ++ pad) w (m ++ (x ∷ [])) ≡ some ((used ++ m) ++ (x ∷ unused))
  store-user =
      store-pad used (m ++ (x ∷ [])) pad w e (omega sizes)
      ∙ ap some (rw (length-append m (x ∷ []), append_assoc m (x ∷ []), append_assoc used m))

  -- The NUL byte over the last of them.
  pub put_nul-last :
      put_nul ((used ++ m) ++ (x ∷ unused)) (w + length (m ++ (x ∷ [])))
      ≡ some (used ++ (m ++ (0 ∷ unused)))
  unfolding put_nul
  put_nul-last = ground (
    arith,
    length-append used m,
    length-append m (x ∷ []),
    append_assoc used m (0 ∷ unused),
    store-append (used ++ m) (x ∷ []) (0 ∷ []) unused (w + length (m ++ (x ∷ [])) - 1),
  )
