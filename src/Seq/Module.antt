-- ===== src/Seq/Module.antt =====
-- `ct_init`, `ct_exit` and `free_all` of 6/seq_files/seq_file.c.
use sem_os.Base.{ℕ, ◌≡◌, Bool, not, if◌then◌else◌, ℤ, pos, enomem, arith}
use sem_os.Kernel.{
  Resource, M, pure, ◌>>=◌, ◌>>◌, when, points, acquire, release, IsClean, load_unload,
}

pub data Object : Type 0 where
  seq_dir seq_file seq_symlink : Object

abbrev pub tag : Object → ℕ
tag seq_dir = 0
tag seq_file = 1
tag seq_symlink = 2

pub tag_injective : (a b : Object) → tag a ≡ tag b → a ≡ b
tag_injective a b e = ground arith

instance abbrev pub object_resource : Resource Object
object_resource = record { tag = tag; tag_injective = tag_injective }

-- Which of the calls in `ct_init` succeed.
pub record Outcomes : Type 0 where
  pub proc_mkdir : Bool
  pub proc_create : Bool
  pub proc_symlink : Bool

unfoldable pub free_all : M Object (Unit {0})
unfolding release
free_all = do
  link ← points seq_symlink
  when link (release seq_symlink)
  file ← points seq_file
  when file (release seq_file)
  dir ← points seq_dir
  when dir (release seq_dir)

unfoldable pub ct_init : Outcomes → M Object ℤ
unfolding acquire free_all
ct_init o = do
  dir ← acquire o.proc_mkdir seq_dir
  if not dir then (do free_all; pure enomem) else do
    file ← acquire o.proc_create seq_file
    if not file then (do free_all; pure enomem) else do
      link ← acquire o.proc_symlink seq_symlink
      if not link then (do free_all; pure enomem) else pure (pos 0)

unfoldable pub ct_exit : M Object (Unit {0})
unfolding free_all
ct_exit = free_all

-- Whatever call fails, the module holds nothing once it is unloaded or has failed to load, and has
-- given back nothing that it did not hold.
pub seq_load_unload-IsClean : (o : Outcomes) → IsClean (load_unload (ct_init o) ct_exit)
unfolding load_unload ct_init ct_exit
seq_load_unload-IsClean o = ground arith
