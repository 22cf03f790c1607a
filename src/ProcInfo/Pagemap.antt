-- ===== src/ProcInfo/Pagemap.antt =====
-- `fprintf_pagemap_info` of 3/proc/main.c: a line for every page of every range of /proc/<pid>/maps.
use mathlib.Core.List.{map}
use sem_os.Base.{
  ℕ, zero, suc, ◌==◌, if◌then◌else◌, Option, none, some, List, [], ◌++◌, take, drop, length,
}
use sem_os.ProcInfo.Run.{buf_size, Files, proc_path, until_nul}
use sem_os.ProcInfo.Chunks.{newline_for_nul}
use sem_os.ProcInfo.Tokens.{strtok}
use sem_os.ProcInfo.Maps.{Page, print_pages}

-- The pages that are written behind the two lines of the title, a use of NULL, or rounds left.
pub data Table : Type 0 where
  rows : List Page → Table
  crashed : Table
  unfinished : Table

infixl 5 ◌>>◌
abbrev pub ◌>>◌ : Table → Table → Table
rows xs >> rows ys = rows (xs ++ ys)
rows xs >> crashed = crashed
rows xs >> unfinished = unfinished
crashed >> t = crashed
unfinished >> t = unfinished

abbrev pub table : Option (List Page) → Table
table none = unfinished
table (some pages) = rows pages

-- `strtoul(…, NULL, 16)` and the `pread` of an entry of 8 bytes at an offset; a page of the system
-- has `page_size` bytes.
pub record Kernel : Type 0 where
  pub strtoul : List ℕ → ℕ
  pub pread : ℕ → ℕ
  pub page_size : ℕ

-- A line of `maps`: the addresses are up to the first space, with a `-` between them. Without two of
-- them nothing is written. There are at most `fuel` pages.
unfoldable pub print_row : Kernel → (fuel : ℕ) → List ℕ → Table
print_row k fuel row = elim (strtok 32 row) [
  | none ↦ rows []
  | some (addresses, _) ↦ elim (strtok 45 addresses) [
    | none ↦ rows []
    | some (start_str, more) ↦ elim (strtok 45 more) [
      | none ↦ rows []
      | some (end_str, _) ↦
          table (print_pages k.pread k.page_size fuel (k.strtoul start_str) (k.strtoul end_str))
    ]
  ]
]

-- The lines of a chunk, at most `n` of them.
unfoldable pub print_rows : Kernel → (fuel n : ℕ) → List ℕ → Table
unfolding print_row
print_rows k fuel zero s = unfinished
print_rows k fuel (suc n) s = elim (strtok 10 s) [
  | none ↦ rows []
  | some (row, rest) ↦ print_row k fuel row >> print_rows k fuel n rest
]

-- The chunks of the file, at most `m` of them.
unfoldable pub print_chunks : Kernel → (fuel n m : ℕ) → List ℕ → Table
unfolding print_rows
print_chunks k fuel n zero f = unfinished
print_chunks k fuel n (suc m) f =
    let chunk = take buf_size f in
    let next = print_chunks k fuel n m (drop buf_size f) in
    if length chunk == 0
    then rows []
    else (print_rows k fuel n (until_nul (map newline_for_nul chunk)) >> next)

unfoldable pub fprintf_pagemap_info : Kernel → (fuel n m : ℕ) → Files → List ℕ → Table
unfolding print_chunks
fprintf_pagemap_info k fuel n m fs proc = elim (fs.file (proc_path proc "/maps")) [
  | none ↦ crashed
  | some f ↦ print_chunks k fuel n m f
]
