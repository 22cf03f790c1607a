-- ===== src/Tests/Proc.antt =====
-- The /proc files of 6/seq_files.
use sem_os.Base.{
  ℕ, ◌+◌, ◌-◌, ◌==◌, if◌then◌else◌, ◌≡◌, refl, arith, List, [], ◌∷◌, ◌++◌, none, some, length,
  replicate, pos,
}
use sem_os.Memory.{CopyIn}
use sem_os.Seq.Iter.{Current, run}
use sem_os.Seq.Passes.{passes, all_records, passes-leak}
use sem_os.Single.Device.{Single, Tasks, ct_seq_write, ct_seq_show, describe, finds_task}
use sem_os.Single.Show.{ct_seq_show-write}

abbrev reading : Current
reading = record {
  comm = 99 ∷ [];
  pid = 9;
  parent_comm = 115 ∷ [];
  ppid = 1;
  state = 0;
  on_cpu = 1;
  flags = 0;
  prio = 120;
  policy = 0;
  exit_state = 0;
  exit_code = 0;
  in_execve = 0;
  utime = 5;
}

passes-leak_example :
    run 3
      (passes reading 3 2)
      (record { iter = record { pos = 0; live = 0 }; cursor = none; shown = [] })
    ≡ some (record {
      iter = record { pos = 0; live = 2 };
      cursor = none;
      shown = [] ++ all_records reading 3 2;
    })
passes-leak_example = passes-leak 3 2 0 reading [] (omega arith)

-- A kernel with one task, of number 7, and a parser of one digit.
abbrev tasks : Tasks ℕ
tasks = record {
  kstrtoint = λ text. elim text [ [] ↦ none | (x ∷ xs) ↦ some (pos (x - 48)) ];
  get_pid_task = λ pid. elim pid [ pos n ↦ (if n == 7 then some 7 else none) | _ ↦ none ];
}

abbrev copies : CopyIn
copies = record {
  stored = λ buf. buf;
  left = λ buf. 0;
  copied = λ buf e. refl;
  fits = λ buf. omega arith;
}

abbrev empty : Single
empty = record { cookie_buf = replicate 8 0; task_refs = 0 }

-- "7"
abbrev seven : List ℕ
seven = 55 ∷ []

ct_seq_show-write_example :
    (d' : Single) × (ct_seq_write copies 8 (seven ++ (10 ∷ [])) empty
      ≡ some (pos (length seven + 1), d'))
    × (length d'.cookie_buf ≡ 8)
    × ((d'' : Single) × (ct_seq_show tasks d' ≡ some (describe tasks seven, d''))
        × (d''.task_refs ≡ 0 + finds_task tasks seven))
ct_seq_show-write_example =
    ct_seq_show-write tasks copies 8 seven 10 empty (λ e. absurd (omega arith), tt) refl
      (omega arith) refl (omega arith)
