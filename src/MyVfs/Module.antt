-- ===== src/MyVfs/Module.antt =====
-- `my_vfs_init` and `my_vfs_exit` of 7/vfs/myvfs.c.
use sem_os.Base.{
  ℕ, ◌≡◌, Bool, true, false, not, ◌&&◌, [], ◌∷◌, if◌then◌else◌, ℤ, pos, enomem, arith,
}
use sem_os.Kernel.{
  Resource, M, pure, ◌>>=◌, ◌>>◌, acquire, release, free, unloaded, is_zero, load_unload, IsClean,
}

pub data Object : Type 0 where
  filesystem cache_mem_area cache cache_object : Object

abbrev pub tag : Object → ℕ
tag filesystem = 0
tag cache_mem_area = 1
tag cache = 2
tag cache_object = 3

pub tag_injective : (a b : Object) → tag a ≡ tag b → a ≡ b
tag_injective a b e = ground arith

instance abbrev pub object_resource : Resource Object
object_resource = record { tag = tag; tag_injective = tag_injective }

-- What `register_filesystem` and `unregister_filesystem` return, and which allocations succeed.
pub record Outcomes : Type 0 where
  pub register : ℤ
  pub unregister : ℤ
  pub kmalloc : Bool
  pub cache_create : Bool
  pub cache_alloc : Bool

-- `kfree` and `kmem_cache_destroy` do nothing to NULL; `kmem_cache_free` wants an object.
unfoldable pub my_vfs_init : Outcomes → M Object ℤ
my_vfs_init o = do
  ok ← acquire (is_zero o.register) filesystem
  if not ok then pure o.register else do
    area ← acquire o.kmalloc cache_mem_area
    if not area then (do free cache_mem_area; pure enomem) else do
      c ← acquire o.cache_create cache
      if not c then (do free cache; free cache_mem_area; pure enomem) else do
        p ← acquire o.cache_alloc cache_object
        if not p
            then (do release cache_object; free cache; free cache_mem_area; pure enomem)
            else pure (pos 0)

-- The result of `unregister_filesystem` is only printed.
unfoldable pub my_vfs_exit : Outcomes → M Object (Unit {0})
my_vfs_exit o = do
  release cache_object
  free cache
  free cache_mem_area
  if is_zero o.unregister then release filesystem else pure tt

-- A loaded module holds nothing once it is unloaded, and has given back nothing that it did not
-- hold, if `unregister_filesystem` succeeds.
pub my_vfs_exit-IsClean :
    (o : Outcomes)
    → (my_vfs_init o unloaded).0 ≡ pos 0
    → is_zero o.unregister ≡ true
    → IsClean (load_unload (my_vfs_init o) (my_vfs_exit o))
unfolding load_unload my_vfs_init my_vfs_exit acquire release free
my_vfs_exit-IsClean o h u = ground arith

-- If the type is registered and an allocation fails, `my_vfs_init` returns -ENOMEM with the type
-- still registered, and nothing else held; where it is the object that cannot be allocated, the
-- error path has also given NULL back to the cache.
pub my_vfs_init-leaks :
    (o : Outcomes)
    → is_zero o.register ≡ true
    → (o.kmalloc && o.cache_create && o.cache_alloc) ≡ false
    → ((my_vfs_init o unloaded).0 ≡ enomem)
      × ((my_vfs_init o unloaded).1.held ≡ filesystem ∷ [])
      × ((my_vfs_init o unloaded).1.faults ≡ (if o.kmalloc && o.cache_create then 1 else 0))
unfolding my_vfs_init acquire release free
my_vfs_init-leaks o r a = ground arith
