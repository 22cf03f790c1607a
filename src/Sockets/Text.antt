-- ===== src/Sockets/Text.antt =====
-- What the programs of 2 do with their arrays of bytes: `sprintf`, "%d", and a message that is read.
use sem_os.Base.{
  sizes, false, ℕ, zero, suc, ◌+◌, ◌-◌, ◌*◌, ◌/◌, ◌%◌, ◌^◌, ◌≤◌, ◌<◌, ◌≡◌, ◌≢◌, refl, ◌∙◌, ap, ltb,
  ne→==, if◌then◌else◌, Option, some, List, [], ◌∷◌, ◌++◌, take, drop, store, store-pad, length,
  length-append, arith, All-append, Bool-cases, inl, inr,
}
use sem_os.Memory.{IsText, c_string}

-- The last `k` digits of a number, without zeros before them, and "%d" of a number with at most ten.
unfoldable pub digits : (k n : ℕ) → List ℕ
digits zero n = []
digits (suc k) n =
    let rest = digits k (n / 10) in
    if ltb n 10 then (48 + n) ∷ [] else (rest ++ ((48 + n % 10) ∷ []))

unfoldable pub decimal : ℕ → List ℕ
unfolding digits
decimal n = digits 10 n

-- `sprintf(buf, …)` of a text, with its NUL byte; `none` is a write past the end.
abbrev pub sprintf : List ℕ → List ℕ → Option (List ℕ)
sprintf buf s = store buf 0 (s ++ (0 ∷ []))

-- A message that is read to the start of an array, at most `size` bytes of it.
abbrev pub receive : ℕ → List ℕ → List ℕ → List ℕ
receive size msg buf = take size msg ++ drop (length (take size msg)) buf

length-digits : (k n : ℕ) → length (digits k n) ≤ k
unfolding digits
length-digits zero n = omega arith
length-digits (suc k) n =
    ground (arith, length-digits k (n / 10), length-append (digits k (n / 10)) ((48 + n % 10) ∷ []))

pub length-decimal : (n : ℕ) → length (decimal n) ≤ 10
unfolding decimal
length-decimal n = length-digits 10 n

length-digits-below : (k j n : ℕ) → n < 10 ^ suc j → (length (digits k n) ≤ suc j)
unfolding digits
length-digits-below zero j n h = omega arith
length-digits-below (suc k) zero n h = ground arith
length-digits-below (suc k) (suc j) n h =
    let rest = length-digits-below k j (n / 10) (grind arith) in
    ground (arith, rest, length-append (digits k (n / 10)) ((48 + n % 10) ∷ []))

pub length-decimal-below : (j n : ℕ) → n < 10 ^ suc j → length (decimal n) ≤ suc j
unfolding decimal
length-decimal-below j n h = length-digits-below 10 j n h

length-digits-above : (k j n : ℕ) → 10 ^ j ≤ n → j < k → j < length (digits k n)
unfolding digits
length-digits-above zero j n h l = absurd (omega arith)
length-digits-above (suc k) zero n h l =
    ground (arith, length-append (digits k (n / 10)) ((48 + n % 10) ∷ []))
length-digits-above (suc k) (suc j) n h l =
    let rest = length-digits-above k j (n / 10) (grind arith) (omega arith) in
    let large : ltb n 10 ≡ false = ground (arith, ten j) in rw large (omega (sizes, rest))
  where
    ten : (j : ℕ) → 10 ≤ 10 ^ suc j
    ten zero = omega arith
    ten (suc j) = grind (arith, ten j)

pub length-decimal-above : (j n : ℕ) → 10 ^ j ≤ n → j < 10 → j < length (decimal n)
unfolding decimal
length-decimal-above j n h l = length-digits-above 10 j n h l

digits-IsText : (k n : ℕ) → IsText (digits k n)
unfolding digits
digits-IsText zero n = tt
digits-IsText (suc k) n = elim (Bool-cases (ltb n 10)) [
  | inl e ↦ rw e ((λ h. absurd (omega arith)), tt)
  | inr e ↦ rw e (
      All-append (λ c. c ≢ 0) (digits k (n / 10)) ((48 + n % 10) ∷ []) (digits-IsText k (n / 10))
        ((λ h. absurd (omega arith)), tt))
]

pub decimal-IsText : (n : ℕ) → IsText (decimal n)
unfolding decimal
decimal-IsText n = digits-IsText 10 n

-- The number that digits spell, as `atoi` reads it.
abbrev pub value_from : ℕ → List ℕ → ℕ
value_from n [] = n
value_from n (c ∷ s) = value_from (n * 10 + (c - 48)) s

value_from-snoc :
    (n c : ℕ) (s : List ℕ) → value_from n (s ++ (c ∷ [])) ≡ value_from n s * 10 + (c - 48)
value_from-snoc n c [] = refl
value_from-snoc n c (d ∷ s) = value_from-snoc (n * 10 + (d - 48)) c s

digits-value : (k n : ℕ) → n < 10 ^ k → value_from 0 (digits k n) ≡ n
unfolding digits
digits-value zero n h = omega arith
digits-value (suc k) n h = elim (Bool-cases (ltb n 10)) [
  | inl e ↦ rw e (omega arith)
  | inr e ↦
      let IH = digits-value k (n / 10) (grind arith) in
      rw (e, value_from-snoc 0 (48 + n % 10) (digits k (n / 10)), IH) (omega arith)
]

-- "%d" is read back.
pub decimal-value : (n : ℕ) → n < 10 ^ 10 → value_from 0 (decimal n) ≡ n
unfolding decimal
decimal-value n h = digits-value 10 n h

-- `sprintf` to an array with room.
pub sprintf-fits :
    (buf s : List ℕ)
    → length s < length buf
    → sprintf buf s ≡ some (s ++ (0 ∷ drop (length s + 1) buf))
sprintf-fits buf s h =
    store-pad [] (s ++ (0 ∷ [])) buf 0 refl (omega sizes)
    ∙ ap some (rw (length-append s (0 ∷ [])) (append_one s 0 (drop (length s + 1) buf)))
  where
    append_one : (s : List ℕ) (c : ℕ) (rest : List ℕ) → (s ++ (c ∷ [])) ++ rest ≡ s ++ (c ∷ rest)
    append_one [] c rest = refl
    append_one (d ∷ s) c rest = ap (λ t. d ∷ t) (append_one s c rest)

-- A text that ends within an array is found.
pub c_string-found : (p rest : List ℕ) → (s : List ℕ) × (c_string (p ++ (0 ∷ rest)) ≡ some s)
unfolding c_string
c_string-found [] rest = ([], refl)
c_string-found (zero ∷ p) rest = ([], refl)
c_string-found (suc c ∷ p) rest =
    let (s, e) = c_string-found p rest in
    (suc c ∷ s, rw (ne→== (suc c) 0 (λ h. absurd (omega arith)), e) refl)
