-- ===== src/Vfs/Module.antt =====
-- `myfs_init` and `myfs_exit` of 7/vfs/main.c.
use sem_os.Base.{
  ℕ, zero, suc, ◌+◌, ◌≡◌, Bool, true, false, not, if◌then◌else◌, ℤ, pos, enomem, arith,
}
use sem_os.Kernel.{Resource, M, pure, ◌>>=◌, ◌>>◌, acquire, release, free, is_zero}

-- `object i` is `slab[i]`.
pub data Object : Type 0 where
  filesystem slab cache : Object
  object : ℕ → Object

abbrev pub tag : Object → ℕ
tag filesystem = 0
tag slab = 1
tag cache = 2
tag (object i) = 3 + i

pub tag_injective : (a b : Object) → tag a ≡ tag b → a ≡ b
tag_injective a b e = ground arith

instance abbrev pub object_resource : Resource Object
object_resource = record { tag = tag; tag_injective = tag_injective }

-- What `register_filesystem` and `unregister_filesystem` return, and which of the allocations in
-- `myfs_init` succeed.
pub record Outcomes : Type 0 where
  pub register : ℤ
  pub unregister : ℤ
  pub kmalloc : Bool
  pub cache_create : Bool
  pub cache_alloc : ℕ → Bool

abbrev pub number : ℕ
number = 128

-- `for (; j < j + n; j++) kmem_cache_free(cache, slab[j]);`
unfoldable pub free_objects : (n j : ℕ) → M Object (Unit {0})
free_objects zero j = pure tt
free_objects (suc n) j = release (object j) >> free_objects n (j + 1)

-- The error path of the loop in `myfs_init`, at `slab[i]`.
unfoldable pub alloc_failed : ℕ → M Object ℤ
alloc_failed i = do free_objects i 0; free cache; free slab; pure enomem

-- The loop over `slab[i ..]`, with `n` rounds left.
unfoldable pub alloc_objects : (ℕ → Bool) → (n i : ℕ) → M Object ℤ
alloc_objects ok zero i = pure (pos 0)
alloc_objects ok (suc n) i = do
  p ← acquire (ok i) (object i)
  elim p [ true ↦ alloc_objects ok n (i + 1) | false ↦ alloc_failed i ]

-- `kfree` and `kmem_cache_destroy` do nothing to NULL.
unfoldable pub myfs_init : Outcomes → M Object ℤ
myfs_init o = do
  ok ← acquire (is_zero o.register) filesystem
  if not ok then pure o.register else do
    s ← acquire o.kmalloc slab
    if not s then (do free slab; pure enomem) else do
      c ← acquire o.cache_create cache
      if not c
          then (do free cache; free slab; pure enomem)
          else alloc_objects o.cache_alloc number 0

-- The result of `unregister_filesystem` is only printed; a failure leaves the type registered.
unfoldable pub myfs_exit : Outcomes → M Object (Unit {0})
myfs_exit o = do
  free_objects number 0
  free cache
  free slab
  if is_zero o.unregister then release filesystem else pure tt
