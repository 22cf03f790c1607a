-- ===== src/Single/Device.antt =====
-- The file operations of 6/seq_files/single_file.c. A result `none` is an access outside the
-- buffer, which the C code does not check.
use sem_os.Base.{
  ℕ, ◌+◌, Option, none, some, List, ltb, ◌==◌, if◌then◌else◌, length, store, ℤ, pos, enospc, efault,
}
use sem_os.Memory.{CopyIn, ◌>>=◌, room, put_nul, c_string}

-- `cookie_buf`, and how many references to tasks the module has taken and not put back.
pub record Single : Type 0 where
  pub cookie_buf : List ℕ
  pub task_refs : ℕ

-- `write_index`, which the module sets to 0 and never changes.
abbrev pub write_index : ℕ
write_index = 0

unfoldable pub ct_seq_write : CopyIn → ℕ → List ℕ → Single → Option (ℤ × Single)
ct_seq_write user page_size buf d =
    if ltb (room page_size write_index) (length buf) then some (enospc, d) else do
      b ← store d.cookie_buf write_index (user.stored buf)
      if user.left buf == 0
          then (do
            b' ← put_nul b (length buf)
            some (pos (length buf), record d { cookie_buf = b' }))
          else some (efault, record d { cookie_buf = b })

-- The kernel's part of a read: `kstrtoint`, and `get_pid_task` of the process number that it gives.
pub record Tasks (Task : Type 0) : Type 0 where
  pub kstrtoint : List ℕ → Option ℤ
  pub get_pid_task : ℤ → Option Task

-- What is shown: the text that is no number, a number that is no task's, or a task.
pub data Shown (Task : Type 0) : Type 0 where
  not_integer : List ℕ → Shown Task
  no_task : ℤ → Shown Task
  task_info : ℤ → Task → Shown Task

module _ {Task : Type 0} (tasks : Tasks Task) where
  unfoldable pub show_pid : ℤ → Single → Shown Task × Single
  show_pid pid d = elim (tasks.get_pid_task pid) [
    | none ↦ (no_task pid, d)
    | some task ↦ (task_info pid task, record d { task_refs = d.task_refs + 1 })
  ]

  -- `get_pid_task` takes a reference to the task, and nothing puts it back.
  unfoldable pub ct_seq_show : Single → Option (Shown Task × Single)
  unfolding show_pid
  ct_seq_show d = do
    text ← c_string d.cookie_buf
    some (elim (tasks.kstrtoint text) [ none ↦ (not_integer text, d) | some pid ↦ show_pid pid d ])

  -- What a read is to show of a text.
  unfoldable pub describe : List ℕ → Shown Task
  describe text = elim (tasks.kstrtoint text) [
    | none ↦ not_integer text
    | some pid ↦ elim (tasks.get_pid_task pid) [
      | none ↦ no_task pid
      | some task ↦ task_info pid task
    ]
  ]

  -- Whether a read of a text takes a reference.
  unfoldable pub finds_task : List ℕ → ℕ
  finds_task text = elim (tasks.kstrtoint text) [
    | none ↦ 0
    | some pid ↦ elim (tasks.get_pid_task pid) [ none ↦ 0 | some task ↦ 1 ]
  ]
