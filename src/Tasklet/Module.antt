-- ===== src/Tasklet/Module.antt =====
-- `my_init` and `my_exit` of 9/interrupts/tasklet/tasklet.c.
use sem_os.Base.{ℕ, ◌≡◌, Bool, not, ◌||◌, List, [], ◌∷◌, if◌then◌else◌, ℤ, pos, enomem, arith}
use sem_os.Kernel.{
  Resource, M, pure, ◌>>=◌, ◌>>◌, acquire, release, free, unloaded, load_unload, is_zero,
}

pub data Object : Type 0 where
  irq tasklet buffer proc_file proc_dir proc_link : Object

abbrev pub tag : Object → ℕ
tag irq = 0
tag tasklet = 1
tag buffer = 2
tag proc_file = 3
tag proc_dir = 4
tag proc_link = 5

pub tag_injective : (a b : Object) → tag a ≡ tag b → a ≡ b
tag_injective a b e = ground arith

instance abbrev pub object_resource : Resource Object
object_resource = record { tag = tag; tag_injective = tag_injective }

-- What `request_irq` returns, and which of the other calls in `my_init` succeed.
pub record Outcomes : Type 0 where
  pub request_irq : ℤ
  pub kmalloc : Bool
  pub vmalloc : Bool
  pub proc_create_data : Bool
  pub proc_mkdir : Bool
  pub proc_symlink : Bool

unfoldable pub my_init : Outcomes → M Object ℤ
unfolding acquire release free
my_init o = do
  ok ← acquire (is_zero o.request_irq) irq
  if not ok then pure o.request_irq else do
    t ← acquire o.kmalloc tasklet
    if not t then (do release irq; pure enomem) else do
      b ← acquire o.vmalloc buffer
      if not b then pure enomem else do
        file ← acquire o.proc_create_data proc_file
        if not file then (do free buffer; pure enomem) else do
          dir ← acquire o.proc_mkdir proc_dir
          link ← acquire o.proc_symlink proc_link
          if not dir || not link then (do free buffer; pure enomem) else pure (pos 0)

-- `proc_remove` and `kfree` do nothing to NULL.
unfoldable pub my_exit : M Object (Unit {0})
unfolding release free
my_exit = do free proc_file; free proc_dir; free proc_link; free tasklet; release irq

-- What `my_init` returns, and what the module holds then, on every path.
abbrev pub init_result : Outcomes → ℤ × List Object
init_result o =
    if not (is_zero o.request_irq)
    then (o.request_irq, [])
    else if not o.kmalloc
    then (enomem, [])
    else if not o.vmalloc
    then (enomem, tasklet ∷ irq ∷ [])
    else if not o.proc_create_data
    then (enomem, tasklet ∷ irq ∷ [])
    else if not o.proc_mkdir
    then (
      enomem,
      if o.proc_symlink
          then proc_link ∷ proc_file ∷ tasklet ∷ irq ∷ []
          else proc_file ∷ tasklet ∷ irq ∷ [],
    )
    else if not o.proc_symlink
    then (enomem, proc_dir ∷ proc_file ∷ tasklet ∷ irq ∷ [])
    else (pos 0, proc_link ∷ proc_dir ∷ proc_file ∷ buffer ∷ tasklet ∷ irq ∷ [])

-- `my_init` fails cleanly only if `request_irq` or `kmalloc` fails: a later failure leaves the
-- interrupt handler and the tasklet behind, and the /proc entries that were made.
pub my_init_lem :
    (o : Outcomes) → ((my_init o unloaded).0, (my_init o unloaded).1.held) ≡ init_result o
unfolding my_init
my_init_lem o = ground arith

-- A module that was loaded is left, when it is unloaded, with the buffer that `my_exit` never frees,
-- and with nothing else; nothing is given back that was not held.
pub my_exit-leaks :
    (o : Outcomes)
    → (my_init o unloaded).0 ≡ pos 0
    → ((load_unload (my_init o) my_exit).held ≡ buffer ∷ [])
      × ((load_unload (my_init o) my_exit).faults ≡ 0)
unfolding load_unload my_init my_exit
my_exit-leaks o h = ground arith
