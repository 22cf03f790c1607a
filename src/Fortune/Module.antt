-- ===== src/Fortune/Module.antt =====
-- `md_init`, `md_exit` and `freeMemory` of 6/fortunka/fortune.c.
use sem_os.Base.{ℕ, ◌≡◌, Bool, not, ◌&&◌, List, [], ◌∷◌, if◌then◌else◌, ℤ, pos, enomem, arith}
use sem_os.Kernel.{
  Resource, M, pure, ◌>>=◌, ◌>>◌, when, points, acquire, release, free, unloaded, IsClean,
  load_unload,
}

pub data Object : Type 0 where
  cookie_pot fortune_dir fortune_file fortune_link : Object

abbrev pub tag : Object → ℕ
tag cookie_pot = 0
tag fortune_dir = 1
tag fortune_file = 2
tag fortune_link = 3

pub tag_injective : (a b : Object) → tag a ≡ tag b → a ≡ b
tag_injective a b e = ground arith

instance abbrev pub object_resource : Resource Object
object_resource = record { tag = tag; tag_injective = tag_injective }

-- Which of the calls in `md_init` succeed.
pub record Outcomes : Type 0 where
  pub vmalloc : Bool
  pub proc_mkdir : Bool
  pub proc_create : Bool
  pub proc_symlink : Bool

unfoldable pub free_memory : M Object (Unit {0})
unfolding release free
free_memory = do
  link ← points fortune_link
  when link (release fortune_link)
  file ← points fortune_file
  when file (release fortune_file)
  dir ← points fortune_dir
  when dir (release fortune_dir)
  free cookie_pot

unfoldable pub md_init : Outcomes → M Object ℤ
unfolding acquire free_memory
md_init o = do
  pot ← acquire o.vmalloc cookie_pot
  if not pot then pure enomem else do
    dir ← acquire o.proc_mkdir fortune_dir
    if not dir then (do free_memory; pure enomem) else do
      file ← acquire o.proc_create fortune_file
      if not file then (do free_memory; pure enomem) else do
        link ← acquire o.proc_symlink fortune_link
        if not link then (do free_memory; pure enomem) else pure (pos 0)

unfoldable pub md_exit : M Object (Unit {0})
unfolding free_memory
md_exit = free_memory

abbrev pub all_succeed : Outcomes → Bool
all_succeed o = o.vmalloc && o.proc_mkdir && o.proc_create && o.proc_symlink

abbrev pub init_result : Outcomes → ℤ × List Object
init_result o =
    if all_succeed o
    then (pos 0, fortune_link ∷ fortune_file ∷ fortune_dir ∷ cookie_pot ∷ [])
    else (enomem, [])

-- If all four calls succeed `md_init` returns 0 and the module holds the four objects; if any fails
-- it returns -ENOMEM and the module holds nothing.
pub md_init_lem :
    (o : Outcomes) → ((md_init o unloaded).0, (md_init o unloaded).1.held) ≡ init_result o
unfolding md_init
md_init_lem o = ground arith

-- Whatever call fails, a module that was loaded and unloaded, or failed to load, holds nothing, and
-- has given back nothing that it did not hold.
pub load_unload-IsClean : (o : Outcomes) → IsClean (load_unload (md_init o) md_exit)
unfolding load_unload md_init md_exit
load_unload-IsClean o = ground arith
