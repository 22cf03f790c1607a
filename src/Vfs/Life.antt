-- ===== src/Vfs/Life.antt =====
-- Loading and unloading the module of 7/vfs/main.c.
use sem_os.Base.{
  ◌≡◌, refl, Bool, true, false, ◌&&◌, [], ◌∷◌, pos, enomem, arith, Bool-cases, inl, inr,
}
use sem_os.Kernel.{
  World, acquire, release, free, unloaded, IsClean, load_unload, is_zero, Keeps, release-Keeps,
}
use sem_os.Vfs.Module.{
  Object, filesystem, slab, cache, Outcomes, number, alloc_objects, myfs_init, myfs_exit,
  object_resource,
}
use sem_os.Vfs.Objects.{Stacked, all_ok, alloc_objects-Stacked, alloc_objects-Keeps, free_stack}

-- Whether all allocations of `myfs_init` succeed.
abbrev pub allocates : Outcomes → Bool
allocates o = o.kmalloc && o.cache_create && all_ok o.cache_alloc number 0

-- The world at the start of the loop.
before_loop : World Object
before_loop = (acquire true cache (acquire true slab (acquire true filesystem unloaded).1).1).1

before_loop-Stacked : Stacked 0 before_loop
unfolding before_loop acquire
before_loop-Stacked = record {
  keeps = record { holding = refl; sound = refl };
  cache_set = refl;
  slab_set = refl;
}

-- Where the first allocations succeed, the rest of `myfs_init` is its loop.
myfs_init-eq_loop :
    (o : Outcomes)
    → is_zero o.register ≡ true
    → o.kmalloc ≡ true
    → o.cache_create ≡ true
    → myfs_init o unloaded ≡ alloc_objects o.cache_alloc number 0 before_loop
unfolding myfs_init acquire before_loop
myfs_init-eq_loop o r k c = rw (r, k, c)

-- If everything succeeds, `myfs_init` returns 0 with the type, the array, the cache and its 128
-- objects.
pub myfs_init-Stacked :
    (o : Outcomes)
    → is_zero o.register ≡ true
    → allocates o ≡ true
    → ((myfs_init o unloaded).0 ≡ pos 0) × Stacked number (myfs_init o unloaded).1
myfs_init-Stacked o r a = rw (myfs_init-eq_loop o r (ground arith) (ground arith)) (
    alloc_objects-Stacked o.cache_alloc number 0 number before_loop refl before_loop-Stacked
      (ground arith))

-- If the type is registered and an allocation fails, `myfs_init` returns -ENOMEM and gives back all
-- that it has allocated, but leaves the type registered.
pub myfs_init-leaks :
    (o : Outcomes)
    → is_zero o.register ≡ true
    → allocates o ≡ false
    → ((myfs_init o unloaded).0 ≡ enomem) × Keeps (filesystem ∷ []) (myfs_init o unloaded).1
unfolding myfs_init acquire free release
myfs_init-leaks o r a = elim (Bool-cases o.kmalloc) [
  | inr k ↦ rw (r, k) (refl, record { holding = refl; sound = refl })
  | inl k ↦ elim (Bool-cases o.cache_create) [
    | inr c ↦ rw (r, k, c) (refl, record { holding = refl; sound = refl })
    | inl c ↦ rw (myfs_init-eq_loop o r k c) (
        alloc_objects-Keeps o.cache_alloc number 0 before_loop before_loop-Stacked (rw (k, c) at a))
  ]
]

myfs_exit-Keeps :
    (o : Outcomes) (w : World Object)
    → is_zero o.unregister ≡ true
    → Stacked number w
    → Keeps [] (myfs_exit o w).1
unfolding myfs_exit
myfs_exit-Keeps o w u s =
    rw u (release-Keeps filesystem (filesystem ∷ []) _ refl (free_stack number w s))

-- Everything that a loaded module holds is given back when it is unloaded, each object once, if
-- `unregister_filesystem` succeeds.
pub myfs_exit-IsClean :
    (o : Outcomes)
    → is_zero o.register ≡ true
    → allocates o ≡ true
    → is_zero o.unregister ≡ true
    → IsClean (load_unload (myfs_init o) (myfs_exit o))
unfolding load_unload
myfs_exit-IsClean o r a u =
    let (ret, s) = myfs_init-Stacked o r a in
    let k = myfs_exit-Keeps o (myfs_init o unloaded).1 u s in rw ret (k.holding, k.sound)
