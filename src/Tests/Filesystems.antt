-- ===== src/Tests/Filesystems.antt =====
-- The modules of 7/vfs.
use sem_os.Base.{refl, pos, true}
use sem_os.Kernel.{IsClean, load_unload}
use sem_os.Vfs.Module as V
use sem_os.Vfs.Objects.{all_ok}
use sem_os.Vfs.Life.{myfs_exit-IsClean}

abbrev all_made : V.Outcomes
all_made = record {
  register = pos 0;
  unregister = pos 0;
  kmalloc = true;
  cache_create = true;
  cache_alloc = λ i. true;
}

myfs_exit-IsClean_example : IsClean (load_unload (V.myfs_init all_made) (V.myfs_exit all_made))
unfolding all_ok
myfs_exit-IsClean_example = myfs_exit-IsClean all_made refl refl refl
