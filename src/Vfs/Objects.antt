-- ===== src/Vfs/Objects.antt =====
-- The two loops of 7/vfs/main.c over the objects of the slab cache.
use mathlib.Core.Path.{subst}
use mathlib.Core.Bool.{false≢true}
use native.Mathlib.Nat.{zero-add}
use native.Mathlib.Numerals.{add-one}
use sem_os.Base.{
  ℕ, zero, suc, ◌+◌, ◌≡◌, refl, ap, ◌∙◌, Bool, true, false, List, [], ◌∷◌, if◌then◌else◌, pos,
  enomem, arith, Bool-cases, inl, inr,
}
use sem_os.Kernel.{
  World, ◌>>◌, acquire, release, free, holds, drop_one, Keeps, release-Keeps, pointer-release,
  free-Keeps, pointer-free,
}
use sem_os.Vfs.Module.{
  Object, object, filesystem, slab, cache, free_objects, alloc_objects, alloc_failed,
  object_resource,
}

-- `object (j + n - 1) ∷ … ∷ object j ∷ base`, as the loop stacks them.
abbrev pub objects : (j n : ℕ) → List Object → List Object
objects j zero base = base
objects j (suc n) base = object (j + n) ∷ objects j n base

-- The lowest object is held, and its removal leaves those above it.
holds-objects : (j n : ℕ) (base : List Object) → holds (objects j (suc n) base) (object j) ≡ true
holds-objects j zero base = ground arith
holds-objects j (suc n) base = ground (arith, holds-objects j n base)

drop_one-objects :
    (j n : ℕ) (base : List Object)
    → drop_one (objects j (suc n) base) (object j) ≡ objects (j + 1) n base
drop_one-objects j zero base = ground arith
drop_one-objects j (suc n) base = ground (arith, drop_one-objects j n base)

pub free_objects-Keeps :
    (n j : ℕ) (base : List Object) (w : World Object)
    → Keeps (objects j n base) w
    → Keeps base (free_objects n j w).1
unfolding free_objects
free_objects-Keeps zero j base w k = k
free_objects-Keeps (suc n) j base w k = free_objects-Keeps n (j + 1) base (release (object j) w).1 (
    rw (drop_one-objects j n base) at
      (release-Keeps (object j) (objects j (suc n) base) w (holds-objects j n base) k))

pub pointer-free_objects : (n j : ℕ) (w : World Object) → (free_objects n j w).1.pointer ≡ w.pointer
unfolding free_objects
pointer-free_objects zero j w = refl
pointer-free_objects (suc n) j w =
    pointer-free_objects n (j + 1) (release (object j) w).1 ∙ pointer-release (object j) w

-- Whether the rounds `i`, …, `i + n - 1` of the loop all get their object.
unfoldable pub all_ok : (ℕ → Bool) → (n i : ℕ) → Bool
all_ok ok zero i = true
all_ok ok (suc n) i = if ok i then all_ok ok n (i + 1) else false

abbrev pub base : List Object
base = cache ∷ slab ∷ filesystem ∷ []

-- The state of `myfs_init` in its loop: `i` objects on top of the cache, the array and the type.
pub record Stacked (i : ℕ) (w : World Object) : Type 0 where
  pub keeps : Keeps (objects 0 i base) w
  pub cache_set : w.pointer cache ≡ true
  pub slab_set : w.pointer slab ≡ true

-- The objects, the cache and the array are given back, from the top of the stack to the bottom.
pub free_stack :
    (i : ℕ) (w : World Object)
    → Stacked i w
    → Keeps (filesystem ∷ []) ((free_objects i 0 >> (free cache >> free slab)) w).1
free_stack i w s =
    free-Keeps slab (filesystem ∷ []) (free cache freed).1
      (ap (λ (p : Object → Bool). p slab) (pointer-free cache freed ∙ same) ∙ s.slab_set)
      (free-Keeps cache (slab ∷ filesystem ∷ []) freed
        (ap (λ (p : Object → Bool). p cache) same ∙ s.cache_set)
        (free_objects-Keeps i 0 base w s.keeps))
  where
    freed : World Object
    freed = (free_objects i 0 w).1

    same : freed.pointer ≡ w.pointer
    same = pointer-free_objects i 0 w

-- A round that gets its object.
stack_one : (i : ℕ) (w : World Object) → Stacked i w → Stacked (i + 1) (acquire true (object i) w).1
unfolding acquire
stack_one i w s = record {
  keeps = record { holding = rw (s.keeps.holding, add-one i, zero-add i); sound = s.keeps.sound };
  cache_set = ground (arith, s.cache_set);
  slab_set = ground (arith, s.slab_set);
}

-- A round that does not.
stack_none : (i : ℕ) (w : World Object) → Stacked i w → Stacked i (acquire false (object i) w).1
unfolding acquire
stack_none i w s = record {
  keeps = record { holding = s.keeps.holding; sound = s.keeps.sound };
  cache_set = ground (arith, s.cache_set);
  slab_set = ground (arith, s.slab_set);
}

pub alloc_objects-Stacked :
    (ok : ℕ → Bool) (n i e : ℕ) (w : World Object)
    → i + n ≡ e
    → Stacked i w
    → all_ok ok n i ≡ true
    → ((alloc_objects ok n i w).0 ≡ pos 0) × Stacked e (alloc_objects ok n i w).1
unfolding alloc_objects all_ok acquire
alloc_objects-Stacked ok zero i e w h s a =
    let same : i ≡ e = omega arith in (refl, subst (λ k. Stacked k w) same s)
alloc_objects-Stacked ok (suc n) i e w h s a = elim (Bool-cases (ok i)) [
  | inl p ↦ rw p (
      alloc_objects-Stacked ok n (i + 1) e (acquire true (object i) w).1 (omega arith)
        (stack_one i w s) (rw p at a))
  | inr p ↦ absurd (false≢true (rw p at a))
]

-- If a round gets no object, everything but the registration of the type is given back.
pub alloc_objects-Keeps :
    (ok : ℕ → Bool) (n i : ℕ) (w : World Object)
    → Stacked i w
    → all_ok ok n i ≡ false
    → ((alloc_objects ok n i w).0 ≡ enomem) × Keeps (filesystem ∷ []) (alloc_objects ok n i w).1
unfolding alloc_objects all_ok alloc_failed acquire
alloc_objects-Keeps ok zero i w s a = cc
alloc_objects-Keeps ok (suc n) i w s a = elim (Bool-cases (ok i)) [
  | inl p ↦
      rw p (
        alloc_objects-Keeps ok n (i + 1) (acquire true (object i) w).1 (stack_one i w s)
          (rw p at a))
  | inr p ↦ rw p (refl, free_stack i (acquire false (object i) w).1 (stack_none i w s))
]
