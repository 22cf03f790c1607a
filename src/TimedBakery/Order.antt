-- ===== src/TimedBakery/Order.antt =====
-- What the calls of 3/proc/bakery2/bakery_server.c promise, in whatever order they come.
use sem_os.Base.{
  ℕ, zero, suc, ◌+◌, ◌%◌, ◌≤◌, ◌<◌, ◌≡◌, refl, ap, sym, ◌∙◌, Bool, true, false, List, [], ◌∷◌,
  if◌then◌else◌, ltb, length, arith, All, All-map, Bool-cases, inl, inr,
}
use sem_os.TimedBakery.Server.{
  Server, slots, Call, returned, out_of_bounds, ◌>>=◌, at, put, largest, get_number, is_before,
  wait_turn, wait_all, bakery_service,
}

-- Between two calls: nobody chooses, and the letter is one.
pub record IsIdle (s : Server) : Type 0 where
  pub none_chooses : All (λ c. c ≡ 0) s.choosing
  pub choosing_slots : length s.choosing ≡ slots
  pub number_slots : length s.number ≡ slots
  pub letter_low : 97 ≤ s.c
  pub letter_high : s.c ≤ 122

-- A write inside an array.
pub put_lem :
    (xs : List ℕ) (i v : ℕ)
    → i < length xs
    → (ys : List ℕ) × (put xs i v ≡ returned ys) × (length ys ≡ length xs) × (at ys i ≡ returned v)
put_lem [] i v h = absurd (omega arith)
put_lem (x ∷ xs) zero v h = (v ∷ xs, refl, refl, refl)
put_lem (x ∷ xs) (suc i) v h =
    let (ys, e, l, a) = put_lem xs i v (omega arith) in (x ∷ ys, rw e refl, omega (arith, l), a)

put_out : (xs : List ℕ) (i v : ℕ) → length xs ≤ i → put xs i v ≡ out_of_bounds
put_out [] i v h = refl
put_out (x ∷ xs) zero v h = absurd (omega arith)
put_out (x ∷ xs) (suc i) v h = rw (put_out xs i v (omega arith)) refl

-- `choosing[i] = 1;` and then `choosing[i] = 0;`
pub put_twice :
    (xs : List ℕ) (i : ℕ)
    → All (λ c. c ≡ 0) xs
    → i < length xs
    → (ys : List ℕ) × (put xs i 1 ≡ returned ys) × (put ys i 0 ≡ returned xs)
put_twice [] i h l = absurd (omega arith)
put_twice (x ∷ xs) zero h l = (1 ∷ xs, refl, rw h.0 refl)
put_twice (x ∷ xs) (suc i) h l =
    let (ys, e, f) = put_twice xs i h.1 (omega arith) in (x ∷ ys, rw e refl, rw f refl)

largest_bounds : (xs : List ℕ) (m : ℕ) → All (λ x. x ≤ largest xs m) xs × (m ≤ largest xs m)
unfolding largest
largest_bounds [] m = (tt, omega arith)
largest_bounds (x ∷ xs) m =
    let (above, here) = largest_bounds xs (if ltb m x then x else m) in
    ((ground arith, above), ground arith)

-- A call of `get_number` while there is a slot left gives the next pid, with a number above every
-- number that is held, which the server keeps in the slot of the pid.
pub get_number_lem :
    (s : Server)
    → IsIdle s
    → s.num < slots
    → (m : ℕ) × (s' : Server) × (get_number s ≡ returned ((s.num, m), s'))
      × All (λ x. x < m) s.number
      × (at s'.number s.num ≡ returned m)
      × (s'.num ≡ s.num + 1)
      × (s'.c ≡ s.c)
      × IsIdle s'
unfolding get_number
get_number_lem s k h =
    let (ys, one, back) =
      put_twice s.choosing s.num k.none_chooses (omega (arith, k.choosing_slots)) in
    let (number, e, l, a) =
      put_lem s.number s.num (largest s.number 0 + 1) (omega (arith, k.number_slots)) in
    let (above, _) = largest_bounds s.number 0 in
    (
      largest s.number 0 + 1,
      record s { number = number; num = s.num + 1 },
      rw (one, e, back) refl,
      All-map (λ x. x ≤ largest s.number 0) (λ x. x < largest s.number 0 + 1) s.number
          (λ x b. omega arith) above,
      a,
      refl,
      refl,
      record {
        none_chooses = k.none_chooses;
        choosing_slots = k.choosing_slots;
        number_slots = l ∙ k.number_slots;
        letter_low = k.letter_low;
        letter_high = k.letter_high;
      },
    )

-- The number of the caller is one above the largest that is held.
pub get_number-largest :
    (s s' : Server) (p m : ℕ)
    → IsIdle s
    → s.num < slots
    → get_number s ≡ returned ((p, m), s')
    → m ≡ largest s.number 0 + 1
unfolding get_number
get_number-largest s s' p m k h e =
    let (ys, one, back) =
      put_twice s.choosing s.num k.none_chooses (omega (arith, k.choosing_slots)) in
    let (number, f, l, a) =
      put_lem s.number s.num (largest s.number 0 + 1) (omega (arith, k.number_slots)) in
    let made = rw (one, f, back) at e in sym (cc made)

-- The 33rd client writes outside the arrays.
pub get_number-overflows : (s : Server) → IsIdle s → slots ≤ s.num → get_number s ≡ out_of_bounds
unfolding get_number
get_number-overflows s k h = rw (put_out s.choosing s.num 1 (omega (arith, k.choosing_slots))) refl

-- The clock runs on: at some of the readings that the fuel allows, a second has passed.
abbrev pub Passes : (ℕ → Bool) → ℕ → Type 0
Passes late fuel = (m : ℕ) × (m < fuel) × (late m ≡ true)

wait_turn_from :
    (late : ℕ → Bool) (n k m : ℕ) (blocked : Bool)
    → m < n
    → late (k + m) ≡ true
    → wait_turn late n k blocked ≡ returned (if blocked then 1 else 0)
unfolding wait_turn
wait_turn_from late zero k m blocked h e = absurd (omega arith)
wait_turn_from late (suc n) k m false h e = refl
wait_turn_from late (suc n) k zero true h e =
    let now : late k ≡ true = ap late {x = k} (omega arith) ∙ e in rw now refl
wait_turn_from late (suc n) k (suc m) true h e = elim (Bool-cases (late k)) [
  | inl now ↦ rw now refl
  | inr later ↦ rw later (
      wait_turn_from late n (suc k) m true (omega arith)
        (ap late {x = suc k + m} (omega arith) ∙ e))
]

-- The slots that a client finds before it.
unfoldable pub blockers : (pid num j : ℕ) → List ℕ → ℕ
blockers pid num j [] = 0
blockers pid num j (x ∷ xs) = (if is_before pid num j x then 1 else 0) + blockers pid num (suc j) xs

wait_all_lem :
    (late : ℕ → ℕ → Bool) (fuel pid num j : ℕ) (choosing number : List ℕ)
    → ((i : ℕ) → Passes (late i) fuel)
    → All (λ c. c ≡ 0) choosing
    → length choosing ≡ length number
    → wait_all late fuel pid num j choosing number ≡ returned (blockers pid num j number)
unfolding wait_all blockers
wait_all_lem late fuel pid num j [] [] p h l = refl
wait_all_lem late fuel pid num j [] (x ∷ xs) p h l = absurd (omega arith)
wait_all_lem late fuel pid num j (c ∷ cs) [] p h l = absurd (omega arith)
wait_all_lem late fuel pid num j (c ∷ cs) (x ∷ xs) p h l =
    let (m, lt, e) = p j in
    let now =
      wait_turn_from (late j) fuel 0 m (is_before pid num j x) lt
        (ap (late j) {x = 0 + m} (omega arith) ∙ e) in
    rw (h.0, now, wait_all_lem late fuel pid num (suc j) cs xs p h.1 (omega arith)) refl

-- 'a' again after 'z'.
abbrev pub letter_after : ℕ → ℕ
letter_after c = if ltb 122 (c + 1) then 97 else c + 1

-- If the server is idle and the clock runs on, a call of `bakery_service` for a slot of the arrays
-- always returns, with the next letter, and clears the slot; it has given up one wait for each
-- client that stood before the caller, and has served the caller all the same.
pub bakery_service_lem :
    (late : ℕ → ℕ → Bool) (fuel pid num : ℕ) (s : Server)
    → IsIdle s
    → pid < slots
    → ((i : ℕ) → Passes (late i) fuel)
    → (s' : Server) × (bakery_service late fuel pid num s
        ≡ returned (record { res = s.c; given_up = blockers pid num 0 s.number; server = s' }))
      × (at s'.number pid ≡ returned 0)
      × (s'.c ≡ letter_after s.c)
      × (s'.num ≡ s.num)
      × IsIdle s'
unfolding bakery_service
bakery_service_lem late fuel pid num s k h p =
    let waits =
      wait_all_lem late fuel pid num 0 s.choosing s.number p k.none_chooses
        (k.choosing_slots ∙ sym k.number_slots) in
    let (number, e, l, a) = put_lem s.number pid 0 (omega (arith, k.number_slots)) in
    (
      record s { number = number; c = letter_after s.c },
      rw (waits, e) refl,
      a,
      refl,
      refl,
      record {
        none_chooses = k.none_chooses;
        choosing_slots = k.choosing_slots;
        number_slots = l ∙ k.number_slots;
        letter_low = ground (arith, k.letter_low);
        letter_high = ground (arith, k.letter_high);
      },
    )

-- The letters of many calls, each with a pid and a number.
unfoldable pub serve : (late : ℕ → ℕ → Bool) (fuel : ℕ) → List (ℕ × ℕ) → Server → Call (List ℕ)
serve late fuel [] s = returned []
serve late fuel ((pid, num) ∷ calls) s = bakery_service late fuel pid num s >>= λ r.
    serve late fuel calls r.server >>= λ letters. returned (r.res ∷ letters)

abbrev pub letters_from : (k : ℕ) → List (ℕ × ℕ) → List ℕ
letters_from k [] = []
letters_from k (call ∷ calls) = (97 + k % 26) ∷ letters_from (k + 1) calls

-- Whoever calls, with a pid of the 32 slots and any number, the letters of a server that is idle
-- and whose clock runs on go out in the order of the alphabet, and from the start again after the
-- last.
pub serve-letters :
    (late : ℕ → ℕ → Bool) (fuel k : ℕ) (calls : List (ℕ × ℕ)) (s : Server)
    → IsIdle s
    → s.c ≡ 97 + k % 26
    → All (λ call. call.0 < slots) calls
    → ((i : ℕ) → Passes (late i) fuel)
    → serve late fuel calls s ≡ returned (letters_from k calls)
unfolding serve
serve-letters late fuel k [] s i e h p = refl
serve-letters late fuel k ((pid, num) ∷ calls) s i e h p =
    let (s', r, _, c, _, i') = bakery_service_lem late fuel pid num s i h.0 p in
    let c' : s'.c ≡ 97 + (k + 1) % 26 = ground (arith, c, e) in
    rw (r, serve-letters late fuel (k + 1) calls s' i' c' h.1 p, e) refl
