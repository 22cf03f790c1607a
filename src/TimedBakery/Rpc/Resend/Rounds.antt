-- ===== src/TimedBakery/Rpc/Resend/Rounds.antt =====
-- One copy of a request after another, for the client of 3/proc/bakery2.
use mathlib.Core.Path.{subst}
use mathlib.Core.Option
use sem_os.Base.{
  ℕ, zero, suc, ◌+◌, ◌-◌, ◌^◌, ◌≤◌, ◌<◌, ◌≡◌, refl, ap, sym, ◌∙◌, Bool, true, false, if◌then◌else◌,
  Option, none, some, List, [], ◌∷◌, append-nil, arith, All, All-map, length, ltb,
}
use sem_os.TimedBakery.Server.{Server, slots, Call, returned, get_number, largest, put}
use sem_os.TimedBakery.Order.{
  IsIdle, Passes, put_twice, get_number_lem, bakery_service_lem, get_number-largest,
}
use sem_os.TimedBakery.Rpc.Xdr.{Bakery, Codec, encode, decode, IsBakery, decode-encode}
use sem_os.TimedBakery.Rpc.Dispatch.{
  result, get_number_no, bakery_service_no, local, run_local, bakery_prog_1,
}
use sem_os.TimedBakery.Rpc.Wire.{opened, Sent, times, repeated, ask, letter_call}

abbrev pub HoldsFor : {R : Type 0} → (R → Type 0) → Option R → Type 0
HoldsFor Q none = Unit
HoldsFor Q (some r) = Q r

-- Two calls that do the same to the server, as long as `I` allows more rounds.
module _ {A R : Type 0} (f : Server → Call (A × Server)) (g : Server → Call (R × Server))
    (h : R → A) (I : ℕ → Server → Type 0) (Q : R → Type 0)
    (round : (n : ℕ) (s : Server)
      → I (suc n) s
      → (r : R) × (t : Server) × (g s ≡ returned (r, t))
        × (f s ≡ returned (h r, t))
        × Q r
        × I n t) where
  times-same :
      (n m : ℕ) (s : Server)
      → I (n + m) s
      → (t : Server) × (times g n s ≡ returned t) × (times f n s ≡ returned t) × I m t
  times-same zero m s k = (s, refl, refl, subst (λ j. I j s) (omega arith) k)
  times-same (suc n) m s k =
      let (r, t, e, e', _, k') = round (n + m) s (subst (λ j. I j s) (omega arith) k) in
      let (u, a, b, i) = times-same n m t k' in (u, rw e a, rw e' b, i)

  pub repeated-same :
      (c : Sent) (s : Server)
      → I (c.ahead + suc c.behind) s
      → (o : Option R) × (t : Server) × (repeated g c s ≡ returned (o, t))
        × (repeated f c s ≡ returned (Option.map h o, t))
        × HoldsFor Q o
        × ((n : ℕ) × I n t)
  repeated-same c s k =
      let (t, a, b, i) = times-same c.ahead (suc c.behind) s k in
      let (r, u, e, e', q, i') = round c.behind t i in
      let (v, a', b', j) = times-same c.behind 0 u (subst (λ n. I n u) (omega arith) i') in
      go c.arrives t a b i r u e e' q v a' b' j
    where
      go :
          (arrives : Bool) (t : Server)
          → times g c.ahead s ≡ returned t
          → times f c.ahead s ≡ returned t
          → I (suc c.behind) t
          → (r : R) (u : Server) → g t ≡ returned (r, u)
          → f t ≡ returned (h r, u)
          → Q r
          → (v : Server) → times g c.behind u ≡ returned v
          → times f c.behind u ≡ returned v
          → I 0 v
          → let d : Sent = record c { arrives = arrives } in
            (o : Option R) × (w : Server) × (repeated g d s ≡ returned (o, w))
            × (repeated f d s ≡ returned (Option.map h o, w))
            × HoldsFor Q o
            × ((n : ℕ) × I n w)
      go true t a b i r u e e' q v a' b' j =
          (some r, v, rw (a, e, a') refl, rw (b, e', b') refl, q, (0, j))
      go false t a b i r u e e' q v a' b' j = (none, t, rw a refl, rw b refl, tt, (suc c.behind, i))

pub opened_result : (x : Codec) (t : Bakery) → IsBakery t → opened x (result (encode x t)) ≡ some t
unfolding opened
opened_result x t k =
    let back = ap (decode x) (sym (append-nil (encode x t))) ∙ decode-encode x t [] k in
    rw back refl

-- No number that is held comes near the largest `int`, for so many more calls.
abbrev pub HasRoom : ℕ → Server → Type 0
HasRoom n s = IsIdle s × (s.num + n ≤ slots) × All (λ v. v + n < 2 ^ 31) s.number

put-All :
    (n : ℕ) (xs : List ℕ) (i v : ℕ)
    → i < length xs
    → All (λ w. w + n < 2 ^ 31) xs
    → v + n < 2 ^ 31
    → (ys : List ℕ) × (put xs i v ≡ returned ys) × All (λ w. w + n < 2 ^ 31) ys
put-All n [] i v h a b = absurd (omega arith)
put-All n (x ∷ xs) zero v h a b = (v ∷ xs, refl, (b, a.1))
put-All n (x ∷ xs) (suc i) v h a b =
    let (ys, e, c) = put-All n xs i v (omega arith) a.1 b in (x ∷ ys, rw e refl, (a.0, c))

largest-le :
    (bound : ℕ) (xs : List ℕ) (m : ℕ) → All (λ v. v ≤ bound) xs → m ≤ bound → largest xs m ≤ bound
unfolding largest
largest-le bound [] m h k = k
largest-le bound (v ∷ xs) m h k =
    largest-le bound xs (if ltb m v then v else m) h.1 (ground (arith, h.0))

numbers_after :
    (n : ℕ) (s s' : Server) (p m : ℕ)
    → IsIdle s
    → s.num < slots
    → get_number s ≡ returned ((p, m), s')
    → All (λ v. v + n < 2 ^ 31) s.number
    → m + n < 2 ^ 31
    → All (λ v. v + n < 2 ^ 31) s'.number
unfolding get_number
numbers_after n s s' p m k h e a b =
    let (ys, one, back) =
      put_twice s.choosing s.num k.none_chooses (omega (arith, k.choosing_slots)) in
    let top = get_number-largest s s' p m k h e in
    let (number, f, c) =
      put-All n s.number s.num (largest s.number 0 + 1) (omega (arith, k.number_slots)) a
        (omega (arith, top)) in
    let made = rw (one, f, back) at e in
    let same : number ≡ s'.number = cc made in subst (All (λ v. v + n < 2 ^ 31)) same c

pub number_round :
    (x : Codec) (late : ℕ → ℕ → Bool) (fuel : ℕ) (b : Bakery)
    → IsBakery b
    → (n : ℕ) (s : Server) → HasRoom (suc n) s
    → (r : ℕ × ℕ) × (t : Server) × (get_number s ≡ returned (r, t))
      × (ask x late fuel get_number_no b s
          ≡ returned (result (encode x (record { num = r.1; pid = r.0; res = 0 })), t))
      × ((r.0 < slots) × (r.1 < 2 ^ 31))
      × HasRoom n t
unfolding ask bakery_prog_1 run_local local
number_round x late fuel b k n s (i, few, low) =
    let (m, t, e, _, _, c, _, i') = get_number_lem s i (omega arith) in
    let top = get_number-largest s t s.num m i (omega arith) e in
    let below =
      All-map (λ v. v + suc n < 2 ^ 31) (λ v. v ≤ 2 ^ 31 - suc (suc n)) s.number
        (λ v l. omega arith) low in
    let bound = largest-le (2 ^ 31 - suc (suc n)) s.number 0 below (omega arith) in
    let fits : m + n < 2 ^ 31 = omega (arith, top, bound) in
    let lower =
      All-map (λ v. v + suc n < 2 ^ 31) (λ v. v + n < 2 ^ 31) s.number (λ v l. omega arith) low in
    let there = ap (decode x) (sym (append-nil (encode x b))) ∙ decode-encode x b [] k in
    (
      (s.num, m),
      t,
      e,
      rw (there, e) refl,
      (omega arith, omega (arith, fits)),
      (i', omega (arith, c), numbers_after n s t s.num m i (omega arith) e lower fits),
    )

pub service_round :
    (x : Codec) (late : ℕ → ℕ → Bool) (fuel : ℕ) (b : Bakery)
    → IsBakery b
    → b.pid < slots
    → ((i : ℕ) → Passes (late i) fuel)
    → (n : ℕ) (s : Server) → IsIdle s
    → (r : ℕ) × (t : Server) × (letter_call late fuel b.pid b.num s ≡ returned (r, t))
      × (ask x late fuel bakery_service_no b s
          ≡ returned (result (encode x (record { num = 0; pid = 0; res = r })), t))
      × (r < 2 ^ 8)
      × IsIdle t
unfolding ask bakery_prog_1 run_local local
service_round x late fuel b k p l n s i =
    let (t, e, _, _, _, i') = bakery_service_lem late fuel b.pid b.num s i p l in
    let there = ap (decode x) (sym (append-nil (encode x b))) ∙ decode-encode x b [] k in
    (s.c, t, rw e refl, rw (there, e) refl, omega (arith, i.letter_high), i')
