-- ===== src/Kernel.antt =====
-- What a kernel module holds: a ledger of the objects that it has taken from the kernel and not
-- given back, and its static pointers. The kernel's calls are not part of the repository: whether
-- each succeeds is an argument, and only the ledger records what they did.
use sem_os.Base.{
  ℕ, ◌+◌, ◌≡◌, refl, arith, ==-refl, Bool, true, false, List, [], ◌∷◌, ◌==◌, if◌then◌else◌, ℤ, pos,
  negsuc,
}

abbrev pub is_zero : ℤ → Bool
is_zero (pos n) = n == 0
is_zero (negsuc n) = false

-- The kinds of objects of a module, told apart by a number.
pub record Resource (R : Type 0) : Type 0 where
  pub tag : R → ℕ
  pub tag_injective : (a b : R) → tag a ≡ tag b → a ≡ b

pub record World (R : Type 0) : Type 0 where
  pub held : List R  -- taken and not given back, the latest first
  pub faults : ℕ  -- how often an object was given back that was not held
  pub pointer : R → Bool  -- which static pointers are not NULL

abbrev pub M : Type 0 → Type 0 → Type 0
M R A = World R → A × World R

module _ {R : Type 0} where
  abbrev pub pure : {A : Type 0} → A → M R A
  pure a w = (a, w)

  infixl 5 ◌>>=◌ ◌>>◌
  abbrev pub ◌>>=◌ : {A B : Type 0} → M R A → (A → M R B) → M R B
  ◌>>=◌ m f w = let (a, w') = m w in f a w'

  abbrev pub ◌>>◌ : {B : Type 0} → M R (Unit {0}) → M R B → M R B
  m >> k = m >>= λ _. k

  abbrev pub when : Bool → M R (Unit {0}) → M R (Unit {0})
  when true m = m
  when false m = pure tt

  -- A module image as it is loaded: nothing held, every pointer NULL.
  abbrev pub unloaded : World R
  unloaded = record { held = []; faults = 0; pointer = λ _. false }

  -- Nothing is held, and nothing was given back that was not held.
  abbrev pub IsClean : World R → Type 0
  IsClean w = (w.held ≡ []) × (w.faults ≡ 0)

  abbrev pub points : R → M R Bool
  points r w = (w.pointer r, w)

  -- The kernel calls `exit` only of a module whose `init` has returned 0.
  unfoldable pub load_unload : M R ℤ → M R (Unit {0}) → World R
  load_unload init exit = let (ret, w) = init unloaded in if is_zero ret then (exit w).1 else w

  -- What the world holds is `os`, and nothing was given back that was not held.
  pub record Keeps (os : List R) (w : World R) : Type 0 where
    pub holding : w.held ≡ os
    pub sound : w.faults ≡ 0

module _ {R : Type 0} ⦃res : Resource R⦄ where
  -- `p = call(...)`: what the pointer is not NULL afterwards, and the object held, if it succeeds.
  unfoldable pub acquire : Bool → R → M R Bool
  acquire ok r w = (
    ok,
    record w {
      held = if ok then r ∷ w.held else w.held;
      pointer = λ q. if res.tag q == res.tag r then ok else w.pointer q;
    },
  )

  abbrev pub holds : List R → R → Bool
  holds [] r = false
  holds (x ∷ xs) r = if res.tag x == res.tag r then true else holds xs r

  abbrev pub drop_one : List R → R → List R
  drop_one [] r = []
  drop_one (x ∷ xs) r = if res.tag x == res.tag r then xs else x ∷ drop_one xs r

  -- A call that gives the object back.
  unfoldable pub release : R → M R (Unit {0})
  release r w = (
    tt,
    if holds w.held r
        then record w { held = drop_one w.held r }
        else record w { faults = w.faults + 1 },
  )

  -- `kfree` and `vfree`, which do nothing to NULL.
  unfoldable pub free : R → M R (Unit {0})
  free r = do p ← points r; when p (release r)

  pub release-Keeps :
      (r : R) (os : List R) (w : World R)
      → holds os r ≡ true
      → Keeps os w
      → Keeps (drop_one os r) (release r w).1
  unfolding release
  release-Keeps r os w h k = rw (k.holding, h) (record { holding = refl; sound = k.sound })

  -- A release leaves the pointers as they are.
  pub pointer-release : (r : R) (w : World R) → (release r w).1.pointer ≡ w.pointer
  unfolding release
  pointer-release r w = ground arith

  -- An object on top, with its pointer set, is given back.
  pub free-Keeps :
      (r : R) (os : List R) (w : World R)
      → w.pointer r ≡ true
      → Keeps (r ∷ os) w
      → Keeps os (free r w).1
  unfolding free release
  free-Keeps r os w p k =
      rw (p, k.holding, ==-refl (res.tag r)) (record { holding = refl; sound = k.sound })

  pub pointer-free : (r : R) (w : World R) → (free r w).1.pointer ≡ w.pointer
  unfolding free release
  pointer-free r w = ground arith
