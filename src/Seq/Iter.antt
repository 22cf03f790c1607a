-- ===== src/Seq/Iter.antt =====
-- The iterator of 6/seq_files/seq_file.c: its four operations, and any sequence of calls of them.
use mathlib.Core.Option
use sem_os.Base.{ℕ, ◌+◌, ◌-◌, Bool, Option, none, some, List, [], ◌∷◌, ◌++◌, if◌then◌else◌, leb}

-- `*pos`, and how many positions of `kmalloc` are not freed.
pub record Iter : Type 0 where
  pub pos : ℕ
  pub live : ℕ

-- A position `v`, `NULL` or the value that `*v` holds.
abbrev pub Cursor : Type 0
Cursor = Option ℕ

-- What is shown of the process that reads.
pub record Current : Type 0 where
  pub comm : List ℕ
  pub pid : ℕ
  pub parent_comm : List ℕ
  pub ppid : ℕ
  pub state : ℕ
  pub on_cpu : ℕ
  pub flags : ℕ
  pub prio : ℕ
  pub policy : ℕ
  pub exit_state : ℕ
  pub exit_code : ℕ
  pub in_execve : ℕ
  pub utime : ℕ

-- A record of the output.
pub record Shown : Type 0 where
  pub position : ℕ
  pub current : Current

-- `kmalloc` succeeds or not.
unfoldable pub ct_seq_start : (limit : ℕ) → Bool → Iter → Cursor × Iter
ct_seq_start limit kmalloc it =
    if leb limit it.pos
    then (none, it)
    else if kmalloc
    then (some it.pos, record it { live = it.live + 1 })
    else (none, it)

unfoldable pub ct_seq_show : Current → ℕ → Shown
ct_seq_show current v = record { position = v; current = current }

unfoldable pub ct_seq_next : (limit : ℕ) → ℕ → Iter → Cursor × Iter
ct_seq_next limit v it =
    (if leb limit (v + 1) then none else some (v + 1), record it { pos = v + 1 })

-- `kfree`, which does nothing to NULL.
unfoldable pub ct_seq_stop : Cursor → Iter → Iter
ct_seq_stop none it = it
ct_seq_stop (some v) it = record it { live = it.live - 1 }

-- A call of an operation by the reader of the file, or its return to the start.
pub data Call : Type 0 where
  start : (kmalloc : Bool) → Call
  show : Current → Call
  next : Call
  stop : Call
  rewind : Call

-- The iterator, the position that the last call has returned, and the output.
pub record Reader : Type 0 where
  pub iter : Iter
  pub cursor : Cursor
  pub shown : List Shown

-- `none` is a use of NULL: `show` and `next` are given a position.
unfoldable pub call : (limit : ℕ) → Call → Reader → Option Reader
unfolding ct_seq_start ct_seq_show ct_seq_next ct_seq_stop
call limit (start kmalloc) r =
    let (v, it) = ct_seq_start limit kmalloc r.iter in some (record r { iter = it; cursor = v })
call limit (show current) r =
    Option.map (λ v. record r { shown = r.shown ++ (ct_seq_show current v ∷ []) }) r.cursor
call limit next r =
    Option.map
      (λ v. let (v', it) = ct_seq_next limit v r.iter in record r { iter = it; cursor = v' })
      r.cursor
call limit stop r = some (record r { iter = ct_seq_stop r.cursor r.iter; cursor = none })
call limit rewind r = some (record r { iter = record r.iter { pos = 0 } })

abbrev pub then_run : Option Reader → (Reader → Option Reader) → Option Reader
then_run none k = none
then_run (some r) k = k r

unfoldable pub run : (limit : ℕ) → List Call → Reader → Option Reader
unfolding call
run limit [] r = some r
run limit (c ∷ cs) r = then_run (call limit c r) (run limit cs)
