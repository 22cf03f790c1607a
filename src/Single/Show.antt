-- ===== src/Single/Show.antt =====
-- Writes and reads of 6/seq_files/single_file.c together.
use native.Mathlib.Nat.{zero-add}
use sem_os.Base.{
  sizes, ℕ, ◌+◌, ◌≤◌, ◌<◌, ◌^◌, ◌≡◌, none, some, List, [], ◌∷◌, ◌++◌, length, drop, pos, arith,
  refl, le→ltb, store-out_of_range, store-nil, length-append, ap, sym, ◌∙◌, Option-cases, inl, inr,
}
use sem_os.Memory.{CopyIn, room, put_nul, c_string, IsText, c_string-text, store-user, put_nul-last}
use sem_os.Single.Device.{Single, ct_seq_write, Tasks, ct_seq_show, describe, finds_task}

show_text :
    {Task : Type 0} (tasks : Tasks Task) (m : List ℕ) (d : Single)
    → c_string d.cookie_buf ≡ some m
    → (d' : Single) × (ct_seq_show tasks d ≡ some (describe tasks m, d'))
      × (d'.task_refs ≡ d.task_refs + finds_task tasks m)
unfolding ct_seq_show describe finds_task
show_text tasks m d c = (
  record d { task_refs = d.task_refs + finds_task tasks m },
  elim (Option-cases (tasks.kstrtoint m)) [
    | inl bad ↦ ground (arith, c, bad)
    | inr (pid, good) ↦ elim (Option-cases (tasks.get_pid_task pid)) [
      | inl gone ↦ ground (arith, c, good, gone)
      | inr (task, found) ↦ ground (arith, c, good, found)
    ]
  ],
  refl,
)

-- What a complete write that fits leaves in the buffer.
write_lem :
    (user : CopyIn) (page_size : ℕ) (m : List ℕ) (x : ℕ) (d : Single)
    → length d.cookie_buf ≡ page_size
    → page_size < 2 ^ 31
    → user.left (m ++ (x ∷ [])) ≡ 0
    → length m + 1 ≤ page_size
    → ct_seq_write user page_size (m ++ (x ∷ [])) d
      ≡ some (
        pos (length (m ++ (x ∷ []))),
        record d { cookie_buf = m ++ (0 ∷ drop (length m + 1) d.cookie_buf) },
      )
unfolding ct_seq_write
write_lem user page_size m x d size small whole fits = rw (
  le→ltb (length (m ++ (x ∷ []))) (room page_size 0) (omega sizes),
  user.copied (m ++ (x ∷ [])) whole,
  store-user [] m d.cookie_buf x 0 refl (omega arith),
  whole,
  nul,
)
  where
    rest : List ℕ
    rest = drop (length m + 1) d.cookie_buf

    nul : put_nul (m ++ (x ∷ rest)) (length (m ++ (x ∷ []))) ≡ some (m ++ (0 ∷ rest))
    nul =
        ap (λ k. put_nul (m ++ (x ∷ rest)) k) (sym (zero-add (length (m ++ (x ∷ [])))))
        ∙ put_nul-last [] m d.cookie_buf x 0 refl (omega arith)

-- A read after a complete write that fits shows what the new text stands for, whatever the buffer
-- held before: its task, or that it is no number or no task's. It keeps a reference to the task.
pub ct_seq_show-write :
    {Task : Type 0} (tasks : Tasks Task) (user : CopyIn) (page_size : ℕ) (m : List ℕ) (x : ℕ)
    (d : Single)
    → IsText m
    → length d.cookie_buf ≡ page_size
    → page_size < 2 ^ 31
    → user.left (m ++ (x ∷ [])) ≡ 0
    → length m + 1 ≤ page_size
    → (d' : Single) × (ct_seq_write user page_size (m ++ (x ∷ [])) d
        ≡ some (pos (length m + 1), d'))
      × (length d'.cookie_buf ≡ page_size)
      × ((d'' : Single) × (ct_seq_show tasks d' ≡ some (describe tasks m, d''))
          × (d''.task_refs ≡ d.task_refs + finds_task tasks m))
ct_seq_show-write tasks user page_size m x d text size small whole fits = (
  written,
  write_lem user page_size m x d size small whole fits
      ∙ ap (λ n. some (pos n, written)) (length-append m (x ∷ [])),
  rw (length-append m) (omega sizes),
  show_text tasks m written (c_string-text m (drop (length m + 1) d.cookie_buf) text),
)
  where
    written : Single
    written = record d { cookie_buf = m ++ (0 ∷ drop (length m + 1) d.cookie_buf) }

-- As in fortune.c, a write of one byte too many passes the test and stores past the end.
pub ct_seq_write-overflows :
    (user : CopyIn) (page_size : ℕ) (buf : List ℕ) (d : Single)
    → length d.cookie_buf ≡ page_size
    → page_size < 2 ^ 31
    → user.left buf ≡ 0
    → length buf ≡ page_size + 1
    → ct_seq_write user page_size buf d ≡ none
unfolding ct_seq_write
ct_seq_write-overflows user page_size buf d size small whole e = rw (
  le→ltb (length buf) (room page_size 0) (omega arith),
  user.copied buf whole,
  store-out_of_range d.cookie_buf buf 0 (omega arith),
)

-- A write of no bytes always stores its NUL byte before the start of the buffer.
pub ct_seq_write-underflows :
    (user : CopyIn) (page_size : ℕ) (d : Single)
    → user.left [] ≡ 0
    → ct_seq_write user page_size [] d ≡ none
unfolding ct_seq_write put_nul
ct_seq_write-underflows user page_size d whole =
    ground (arith, user.copied [] whole, store-nil d.cookie_buf)
