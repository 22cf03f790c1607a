-- ===== src/ProcInfo/Report.antt =====
-- `main` of 3/proc/main.c.
use sem_os.Base.{ℕ, ◌≡◌, refl, ◌≢◌, Bool, true, false, if◌then◌else◌, Option, none, some, List}
use sem_os.ProcInfo.Run.{Files, proc_path, Run, wrote, crashed, unfinished, ◌>>◌, print, opened}
use sem_os.ProcInfo.Chunks.{fprintf_environ, fprintf_io, fprintf_cmdline, fprintf_comm}
use sem_os.ProcInfo.Stat.{fprintf_stat}
use sem_os.ProcInfo.Links.{
  fprintf_fd, fprintf_sym_cwd, fprintf_sym_exe, fprintf_sym_root, fprintf_task,
}
use sem_os.ProcInfo.Maps.{fprintf_maps}

-- The output file opens or not; without one the first write uses NULL.
unfoldable pub main :
    (fuel : ℕ) (sscanf : List ℕ → ℕ × ℕ → ℕ × ℕ) (unset : ℕ × ℕ)
    → Files
    → (pid : List ℕ) (out_opens : Bool) → Run
main fuel sscanf unset fs pid out_opens =
    if out_opens
    then (fprintf_environ fuel fs pid
        >> fprintf_stat fuel fs pid
        >> fprintf_cmdline fs pid
        >> fprintf_fd fs pid
        >> fprintf_sym_cwd fs pid
        >> fprintf_sym_exe fs pid
        >> fprintf_sym_root fs pid
        >> fprintf_maps sscanf unset fs pid
        >> fprintf_io fuel fs pid
        >> fprintf_comm fs pid
        >> fprintf_task fs pid)
    else crashed

-- The end of a run that has neither crashed nor rounds left.
abbrev pub HasWritten : Run → Type 0
HasWritten (wrote items) = Unit
HasWritten crashed = ⊥
HasWritten unfinished = ⊥

both_written : (a b : Run) → HasWritten (a >> b) → HasWritten a × HasWritten b
both_written (wrote xs) (wrote ys) h = (tt, tt)
both_written (wrote xs) crashed h = absurd h
both_written (wrote xs) unfinished h = absurd h
both_written crashed b h = absurd h
both_written unfinished b h = absurd h

was_opened {ℓ} :
    {A : Type ℓ} (title : List ℕ) (o : Option A) (k : A → Run)
    → HasWritten (print title >> opened o k)
    → o ≢ none
was_opened title none k h = absurd h
was_opened title (some a) k h = λ e. cc

-- Everything that `main` opens.
pub record IsOpen (fs : Files) (pid : List ℕ) : Type 0 where
  pub environ : fs.file (proc_path pid "/environ") ≢ none
  pub stat : fs.file (proc_path pid "/stat") ≢ none
  pub cmdline : fs.file (proc_path pid "/cmdline") ≢ none
  pub fd : fs.directory (proc_path pid "/fd") ≢ none
  pub cwd : fs.file (proc_path pid "/cwd") ≢ none
  pub exe : fs.file (proc_path pid "/exe") ≢ none
  pub root : fs.file (proc_path pid "/root") ≢ none
  pub maps : fs.file (proc_path pid "/maps") ≢ none
  pub io : fs.file (proc_path pid "/io") ≢ none
  pub comm : fs.file (proc_path pid "/comm") ≢ none
  pub task : fs.directory (proc_path pid "/task") ≢ none

-- `main` comes to the end of its report only if the output and every one of the eleven files and
-- directories of the process can be opened: what cannot be opened is used as NULL.
pub main-IsOpen :
    (fuel : ℕ) (sscanf : List ℕ → ℕ × ℕ → ℕ × ℕ) (unset : ℕ × ℕ) (fs : Files) (pid : List ℕ)
    (out_opens : Bool)
    → HasWritten (main fuel sscanf unset fs pid out_opens)
    → (out_opens ≡ true) × IsOpen fs pid
unfolding main fprintf_environ fprintf_stat fprintf_cmdline fprintf_fd fprintf_sym_cwd
    fprintf_sym_exe fprintf_sym_root fprintf_maps fprintf_io fprintf_comm fprintf_task
main-IsOpen fuel sscanf unset fs pid false h = absurd h
main-IsOpen fuel sscanf unset fs pid true h =
    let (h10, task) = both_written _ _ h in
    let (h9, comm) = both_written _ _ h10 in
    let (h8, io) = both_written _ _ h9 in
    let (h7, maps) = both_written _ _ h8 in
    let (h6, root) = both_written _ _ h7 in
    let (h5, exe) = both_written _ _ h6 in
    let (h4, cwd) = both_written _ _ h5 in
    let (h3, fd) = both_written _ _ h4 in
    let (h2, cmdline) = both_written _ _ h3 in
    let (environ, stat) = both_written _ _ h2 in
    (
      refl,
      record {
        environ = was_opened _ _ _ environ;
        stat = was_opened _ _ _ stat;
        cmdline = was_opened _ _ _ cmdline;
        fd = was_opened _ _ _ fd;
        cwd = was_opened _ _ _ cwd;
        exe = was_opened _ _ _ exe;
        root = was_opened _ _ _ root;
        maps = was_opened _ _ _ maps;
        io = was_opened _ _ _ io;
        comm = was_opened _ _ _ comm;
        task = was_opened _ _ _ task;
      },
    )
