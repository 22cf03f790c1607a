-- ===== src/TimedBakery/Server.antt =====
-- 3/proc/bakery2/bakery_server.c. It has one thread, which answers one call at a time.
use sem_os.Base.{
  ℕ, zero, suc, ◌+◌, Bool, not, ◌&&◌, ◌||◌, List, [], ◌∷◌, if◌then◌else◌, ltb, ◌==◌, replicate,
}

-- `choosing`, `number`, `num` and `c`
pub record Server : Type 0 where
  pub choosing : List ℕ
  pub number : List ℕ
  pub num : ℕ
  pub c : ℕ

abbrev pub slots : ℕ
slots = 32

abbrev pub init : Server
init = record { choosing = replicate slots 0; number = replicate slots 0; num = 0; c = 97 }

-- What a call comes to: a result, an access outside the arrays, a loop without end, or a loop that
-- has rounds left.
pub data Call (A : Type 0) : Type 0 where
  returned : A → Call A
  out_of_bounds : Call A
  endless : Call A
  unfinished : Call A

infixl 5 ◌>>=◌
abbrev pub ◌>>=◌ : {A B : Type 0} → Call A → (A → Call B) → Call B
returned a >>= f = f a
out_of_bounds >>= f = out_of_bounds
endless >>= f = endless
unfinished >>= f = unfinished

-- `a[i]` and `a[i] = v`
abbrev pub at : List ℕ → ℕ → Call ℕ
at [] i = out_of_bounds
at (x ∷ xs) zero = returned x
at (x ∷ xs) (suc i) = at xs i

abbrev pub put : List ℕ → ℕ → ℕ → Call (List ℕ)
put [] i v = out_of_bounds
put (x ∷ xs) zero v = returned (v ∷ xs)
put (x ∷ xs) (suc i) v = put xs i v >>= λ ys. returned (x ∷ ys)

-- `if (number[i] > max) max = number[i];` for all `i`
unfoldable pub largest : List ℕ → ℕ → ℕ
largest [] max = max
largest (x ∷ xs) max = largest xs (if ltb max x then x else max)

unfoldable pub get_number : Server → Call ((ℕ × ℕ) × Server)
unfolding largest
get_number s = do
  let ind = s.num
  choosing ← put s.choosing ind 1
  let max = largest s.number 0
  number ← put s.number ind (max + 1)
  choosing' ← put choosing ind 0
  returned ((ind, max + 1), record s { choosing = choosing'; number = number; num = s.num + 1 })

-- `number[j] != 0 && (number[j] < argp->num || (number[j] == argp->num && j < argp->pid))`
abbrev pub is_before : (pid num : ℕ) → (j number_j : ℕ) → Bool
is_before pid num j number_j =
    not (number_j == 0) && (ltb number_j num || (number_j == num && ltb j pid))

-- The wait at one slot, for at most so many readings of the clock: `late k` says whether a second
-- has passed at the reading `k`. No other thread changes `number[j]` meanwhile. The result counts
-- the waits that were given up.
unfoldable pub wait_turn : (late : ℕ → Bool) → (fuel k : ℕ) → Bool → Call ℕ
wait_turn late zero k blocked = unfinished
wait_turn late (suc n) k blocked =
    let rest = wait_turn late n (suc k) blocked in
    if not blocked then returned 0 else if late k then returned 1 else rest

-- The loop over the slots from `j` on; `late j` is the clock at the slot `j`.
unfoldable pub wait_all :
    (late : ℕ → ℕ → Bool) → (fuel pid num j : ℕ) → (choosing number : List ℕ) → Call ℕ
unfolding wait_turn
wait_all late fuel pid num j [] number = returned 0
wait_all late fuel pid num j (c ∷ cs) [] = returned 0
wait_all late fuel pid num j (c ∷ cs) (x ∷ xs) =
    let rest = wait_all late fuel pid num (suc j) cs xs in
    if not (c == 0)
    then endless
    else (wait_turn (late j) fuel 0 (is_before pid num j x) >>= λ t.
        rest >>= λ ts. returned (t + ts))

-- A reply: the letter, and how many waits were given up.
pub record Reply : Type 0 where
  pub res : ℕ
  pub given_up : ℕ
  pub server : Server

unfoldable pub bakery_service : (late : ℕ → ℕ → Bool) → (fuel pid num : ℕ) → Server → Call Reply
unfolding wait_all
bakery_service late fuel pid num s = do
  given_up ← wait_all late fuel pid num 0 s.choosing s.number
  let c = s.c + 1
  number ← put s.number pid 0
  returned (record {
    res = s.c;
    given_up = given_up;
    server = record s { number = number; c = if ltb 122 c then 97 else c };
  })
