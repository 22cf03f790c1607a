-- ===== src/ProcInfo/Tokens.antt =====
-- `strtok` as 3/proc/main.c uses it, with one delimiter.
use sem_os.Base.{
  ℕ, ◌≡◌, ◌≢◌, refl, ◌==◌, if◌then◌else◌, Option, none, some, List, [], ◌∷◌, ◌++◌, All, ne→==,
  ==-refl,
}

-- The next token, and what it leaves behind it.
unfoldable pub skip : ℕ → List ℕ → List ℕ
skip d [] = []
skip d (c ∷ s) = let rest = skip d s in if c == d then rest else c ∷ s

unfoldable pub token : ℕ → List ℕ → List ℕ
token d [] = []
token d (c ∷ s) = let rest = token d s in if c == d then [] else c ∷ rest

unfoldable pub behind : ℕ → List ℕ → List ℕ
behind d [] = []
behind d (c ∷ s) = let rest = behind d s in if c == d then s else rest

abbrev split_at : ℕ → List ℕ → Option (List ℕ × List ℕ)
split_at d [] = none
split_at d (c ∷ s) = some (token d (c ∷ s), behind d (c ∷ s))

unfoldable pub strtok : ℕ → List ℕ → Option (List ℕ × List ℕ)
unfolding skip token behind
strtok d s = split_at d (skip d s)

-- Not empty, and without the delimiter.
abbrev pub IsWord : ℕ → List ℕ → Type 0
IsWord d w = (w ≢ []) × All (λ c. c ≢ d) w

token-word :
    (d : ℕ) (w rest : List ℕ)
    → All (λ c. c ≢ d) w
    → (token d (w ++ (d ∷ rest)) ≡ w) × (behind d (w ++ (d ∷ rest)) ≡ rest)
unfolding token behind
token-word d [] rest h = rw (==-refl d) (refl, refl)
token-word d (c ∷ w) rest h =
    let (t, b) = token-word d w rest h.1 in rw (ne→== c d h.0, t, b) (refl, refl)

token_last : (d : ℕ) (w : List ℕ) → All (λ c. c ≢ d) w → (token d w ≡ w) × (behind d w ≡ [])
unfolding token behind
token_last d [] h = (refl, refl)
token_last d (c ∷ w) h = let (t, b) = token_last d w h.1 in rw (ne→== c d h.0, t, b) (refl, refl)

-- A word before a delimiter, and one at the end.
pub strtok-word :
    (d : ℕ) (w rest : List ℕ) → IsWord d w → strtok d (w ++ (d ∷ rest)) ≡ some (w, rest)
unfolding strtok
strtok-word d [] rest f = absurd (f.0 refl)
strtok-word d (c ∷ w) rest f =
    let (t, b) = token-word d (c ∷ w) rest f.1 in rw (ne→== c d f.1.0, t, b) refl

pub strtok_last : (d : ℕ) (w : List ℕ) → IsWord d w → strtok d w ≡ some (w, [])
unfolding strtok
strtok_last d [] f = absurd (f.0 refl)
strtok_last d (c ∷ w) f = let (t, b) = token_last d (c ∷ w) f.1 in rw (ne→== c d f.1.0, t, b) refl
