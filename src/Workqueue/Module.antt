-- ===== src/Workqueue/Module.antt =====
-- `mywq_init` and `mywq_exit` of 9/interrupts/workqueue/mywq.c.
use sem_os.Base.{ℕ, ◌≡◌, Bool, not, ◌||◌, List, [], ◌∷◌, if◌then◌else◌, ℤ, pos, enomem, arith}
use sem_os.Kernel.{
  Resource, M, pure, ◌>>=◌, ◌>>◌, acquire, release, free, unloaded, IsClean, load_unload, is_zero,
}

pub data Object : Type 0 where
  irq mywq_1 mywq_2 work_1 work_2 proc_file proc_dir proc_link : Object

abbrev pub tag : Object → ℕ
tag irq = 0
tag mywq_1 = 1
tag mywq_2 = 2
tag work_1 = 3
tag work_2 = 4
tag proc_file = 5
tag proc_dir = 6
tag proc_link = 7

pub tag_injective : (a b : Object) → tag a ≡ tag b → a ≡ b
tag_injective a b e = ground arith

instance abbrev pub object_resource : Resource Object
object_resource = record { tag = tag; tag_injective = tag_injective }

-- What `request_irq` returns, and which of the other calls in `mywq_init` succeed.
pub record Outcomes : Type 0 where
  pub request_irq : ℤ
  pub alloc_workqueue_1 : Bool
  pub alloc_workqueue_2 : Bool
  pub kmalloc_1 : Bool
  pub kmalloc_2 : Bool
  pub proc_create_data : Bool
  pub proc_mkdir : Bool
  pub proc_symlink : Bool

-- The /proc entries, the last part of `mywq_init`.
unfoldable pub make_entries : Outcomes → M Object ℤ
unfolding acquire
make_entries o = do
  file ← acquire o.proc_create_data proc_file
  if not file then pure enomem else do
    dir ← acquire o.proc_mkdir proc_dir
    link ← acquire o.proc_symlink proc_link
    if not dir || not link then pure enomem else pure (pos 0)

unfoldable pub mywq_init : Outcomes → M Object ℤ
unfolding acquire release make_entries
mywq_init o = do
  ok ← acquire (is_zero o.request_irq) irq
  if not ok then pure o.request_irq else do
    q₁ ← acquire o.alloc_workqueue_1 mywq_1
    if not q₁ then (do release irq; pure enomem) else do
      q₂ ← acquire o.alloc_workqueue_2 mywq_2
      if not q₂ then (do release irq; pure enomem) else do
        w₁ ← acquire o.kmalloc_1 work_1
        if not w₁ then (do release irq; pure enomem) else do
          w₂ ← acquire o.kmalloc_2 work_2
          if not w₂ then (do release irq; release work_1; pure enomem) else make_entries o

-- `proc_remove` and `kfree` do nothing to NULL; `flush_workqueue` gives nothing back.
unfoldable pub mywq_exit : M Object (Unit {0})
unfolding release free
mywq_exit = do
  free proc_file
  free proc_dir
  free proc_link
  release mywq_1
  release mywq_2
  release irq
  free work_1
  free work_2

-- A module that was loaded holds nothing once it is unloaded, and has given back nothing that it
-- did not hold.
pub mywq_exit-IsClean :
    (o : Outcomes)
    → (mywq_init o unloaded).0 ≡ pos 0
    → IsClean (load_unload (mywq_init o) mywq_exit)
unfolding load_unload mywq_init mywq_exit
mywq_exit-IsClean o h = ground arith

-- What the last part of `mywq_init` returns and adds to the objects `os` that are held.
abbrev entries_result : Outcomes → List Object → ℤ × List Object
entries_result o os =
    if not o.proc_create_data
    then (enomem, os)
    else if not o.proc_mkdir
    then (enomem, if o.proc_symlink then proc_link ∷ proc_file ∷ os else proc_file ∷ os)
    else if not o.proc_symlink
    then (enomem, proc_dir ∷ proc_file ∷ os)
    else (pos 0, proc_link ∷ proc_dir ∷ proc_file ∷ os)

abbrev pub init_result : Outcomes → ℤ × List Object
init_result o =
    if not (is_zero o.request_irq)
    then (o.request_irq, [])
    else if not o.alloc_workqueue_1
    then (enomem, [])
    else if not o.alloc_workqueue_2
    then (enomem, mywq_1 ∷ [])
    else if not o.kmalloc_1 || not o.kmalloc_2
    then (enomem, mywq_2 ∷ mywq_1 ∷ [])
    else entries_result o (work_2 ∷ work_1 ∷ mywq_2 ∷ mywq_1 ∷ irq ∷ [])

-- What `mywq_init` returns and what the module holds then, on every path: a failure behind the
-- first queue leaves the queues allocated, and one of the /proc entries leaves everything.
pub mywq_init_lem :
    (o : Outcomes) → ((mywq_init o unloaded).0, (mywq_init o unloaded).1.held) ≡ init_result o
unfolding mywq_init
mywq_init_lem o = ground arith
