-- ===== src/Tests/ProcInfo.antt =====
-- Reports on processes with a few files.
use sem_os.Base.{
  length, ◌*◌, ℕ, ◌≡◌, refl, ◌==◌, if◌then◌else◌, arith, List, [], ◌∷◌, ◌++◌, none, some, true, All,
}
use sem_os.Memory.{c_string}
use sem_os.ProcInfo.Run.{codes, Files, proc_path, text, size_bytes, size_pages, wrote, ◌>>◌, print}
use sem_os.ProcInfo.Chunks.{fprintf_environ}
use sem_os.ProcInfo.Stat.{stats, IsField, spaced, report, fprintf_stat, fprintf_stat_lem}
use sem_os.ProcInfo.Links.{
  IsLink, Entry, here, up, link, names_of, shown_links, fprintf_fd, fprintf_fd_lem,
}
use sem_os.ProcInfo.Maps.{
  lines, rows, maps_title, total_bytes, total_pages, fprintf_maps, fprintf_maps_lem, print_ranges,
}
use sem_os.ProcInfo.Chunks.{copy_chunks, fprintf_cmdline, fprintf_io, fprintf_comm}
use sem_os.ProcInfo.Stat.{print_fields}
use sem_os.ProcInfo.Tokens.{strtok, skip, token, behind}
use sem_os.ProcInfo.Links.{
  print_links, print_link, fprintf_sym_cwd, fprintf_sym_exe, fprintf_sym_root, readlink,
  fprintf_task, print_names,
}
use sem_os.ProcInfo.Maps.{print_ranges}
use sem_os.ProcInfo.Pagemap.{Kernel, fprintf_pagemap_info}
use sem_os.ProcInfo.Pages.{Row, IsRow, maps_text, pages_of, fprintf_pagemap_info_lem}
use sem_os.ProcInfo.Pagemap
use sem_os.ProcInfo.Report.{IsOpen, HasWritten, main, main-IsOpen}
use sem_os.TaskInfo.{Tasks, IsRing, HasLogged, md_init, md_init_once}

-- A process whose files all hold `f`.
abbrev holding : List ℕ → Files
holding f = record { file = λ path. some f; directory = λ path. some []; link = λ path. none }

-- "1 (sh)"
abbrev fields : List (List ℕ)
fields = (49 ∷ []) ∷ (40 ∷ 115 ∷ 104 ∷ 41 ∷ []) ∷ []

fields-IsField : All IsField fields
fields-IsField = ground arith

fprintf_stat_lem_example :
    fprintf_stat 3 (holding (spaced fields)) (49 ∷ [])
    ≡ (print (codes "===========\nSTAT\n") >> report stats fields)
fprintf_stat_lem_example =
    fprintf_stat_lem 3 (holding (spaced fields)) (49 ∷ []) fields refl fields-IsField (omega arith)
      (omega arith)

abbrev last_of : List ℕ → ℕ
last_of [] = 0
last_of (c ∷ []) = c
last_of (c ∷ d ∷ s) = last_of (d ∷ s)

-- "." and "..", and the descriptors 3 and 4, which lead to "/ab" and "/".
abbrev links : List Entry
links = here ∷ up ∷ link (51 ∷ []) (47 ∷ 97 ∷ 98 ∷ []) ∷ link (52 ∷ []) (47 ∷ []) ∷ []

abbrev two_links : Files
two_links = record {
  file = λ path. none;
  directory = λ path. some (names_of links);
  link = λ path. if last_of path == 51 then some (47 ∷ 97 ∷ 98 ∷ []) else some (47 ∷ []);
}

first-IsLink : IsLink two_links (proc_path (49 ∷ []) "/fd") (51 ∷ []) (47 ∷ 97 ∷ 98 ∷ [])
first-IsLink = record {
  not_here = λ e. cc;
  not_up = λ e. cc;
  found = refl;
  target_text = ground arith;
  short = omega arith;
}

second-IsLink : IsLink two_links (proc_path (49 ∷ []) "/fd") (52 ∷ []) (47 ∷ [])
second-IsLink = record {
  not_here = λ e. cc;
  not_up = λ e. cc;
  found = refl;
  target_text = ground arith;
  short = omega arith;
}

fprintf_fd_lem_example :
    fprintf_fd two_links (49 ∷ []) ≡ wrote (text (codes "FD\n") ∷ shown_links [] links)
fprintf_fd_lem_example =
    fprintf_fd_lem two_links (49 ∷ []) links refl (first-IsLink, (second-IsLink, tt))

-- A line for two pages.
abbrev ranges : List ℕ
ranges = 48 ∷ 10 ∷ []

abbrev addresses : List ℕ → ℕ × ℕ → ℕ × ℕ
addresses line before = (4096, 12288)

fprintf_maps_lem_example :
    fprintf_maps addresses (0, 0) (holding ranges) (49 ∷ [])
    ≡ wrote (
        text (codes "MAPS\n")
        ∷ text (codes maps_title)
        ∷ (rows addresses (lines ranges) (0, 0)
            ++ (size_bytes (total_bytes (rows addresses (lines ranges) (0, 0)))
                ∷ (size_pages (total_pages (rows addresses (lines ranges) (0, 0))) ∷ []))))
unfolding lines
fprintf_maps_lem_example =
    fprintf_maps_lem addresses (0, 0) (holding ranges) (49 ∷ []) ranges refl (ground arith)
      (omega arith)

empty_report : HasWritten (main 2 addresses (0, 0) (holding []) (49 ∷ []) true)
unfolding main fprintf_environ copy_chunks fprintf_stat print_fields strtok skip token behind
    fprintf_cmdline fprintf_fd print_links print_link fprintf_sym_cwd c_string readlink
    fprintf_sym_exe fprintf_sym_root fprintf_maps lines print_ranges fprintf_io fprintf_comm
    fprintf_task print_names
empty_report = tt

main-IsOpen_example : (true ≡ true) × IsOpen (holding []) (49 ∷ [])
main-IsOpen_example = main-IsOpen 2 addresses (0, 0) (holding []) (49 ∷ []) true empty_report

-- Two tasks, of which the second is exiting.
abbrev two_tasks : Tasks
two_tasks = record {
  at = λ t. record {
    comm = 115 ∷ [];
    pid = t;
    parent = 0;
    state = 0;
    flags = 0;
    prio = 120;
    policy = 0;
    fs = if t == 0 then some (record { root = 47 ∷ []; pwd = 47 ∷ [] }) else none;
  };
  next_task = λ t. if t == 0 then 1 else 0;
  init_task = 0;
  current = 1;
}

two_tasks-IsRing : IsRing two_tasks 0 (1 ∷ [])
two_tasks-IsRing = (refl, (λ e. absurd (omega arith)), refl)

md_init_once_example : HasLogged two_tasks (0 ∷ 1 ∷ 1 ∷ []) (md_init two_tasks 2)
md_init_once_example = md_init_once two_tasks 2 (1 ∷ []) two_tasks-IsRing (omega arith)

-- "1-22 a", a range of one page, with an address for each length.
abbrev line : Row
line = record { start_str = 49 ∷ []; end_str = 50 ∷ 50 ∷ []; rest = 97 ∷ [] }

abbrev kernel : Kernel
kernel = record { strtoul = λ s. 4096 * length s; pread = λ offset. offset; page_size = 4096 }

line-IsRow : IsRow kernel 2 line
line-IsRow = record {
  count = 1;
  start_some = λ e. absurd cc;
  end_some = λ e. absurd cc;
  start_digits = ground arith;
  end_digits = ground arith;
  rest_text = ground arith;
  apart = refl;
  below = omega arith;
  enough = omega arith;
}

fprintf_pagemap_info_lem_example :
    fprintf_pagemap_info kernel 2 8 2 (holding (maps_text (line ∷ []))) (49 ∷ [])
    ≡ Pagemap.rows (pages_of kernel 2 (line ∷ []) (line-IsRow, tt))
fprintf_pagemap_info_lem_example =
    fprintf_pagemap_info_lem kernel 2 8 2 (holding (maps_text (line ∷ []))) (49 ∷ []) (line ∷ [])
      (line-IsRow, tt) refl (omega arith) (omega arith) (omega arith) (omega arith)
