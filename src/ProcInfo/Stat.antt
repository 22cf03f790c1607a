-- ===== src/ProcInfo/Stat.antt =====
-- `fprintf_stat` of 3/proc/main.c, which names the fields of /proc/<pid>/stat.
use Prim.Native.String.{String}
use sem_os.Base.{
  ◌⊎◌, leb, ℕ, zero, suc, ◌≤◌, ◌<◌, ◌≡◌, ◌≢◌, refl, if◌then◌else◌, none, some, List, [], ◌∷◌, ◌++◌,
  take, drop, length, get_elem?, arith, All, All-append, All-map, ◌↔◌, ne→==, take_all, inl, inr,
}
use sem_os.ProcInfo.Tokens.{strtok, IsWord, strtok-word, strtok_last}
use sem_os.ProcInfo.Run.{
  codes, buf_size, Files, proc_path, until_nul, Item, text, Run, wrote, crashed, unfinished, ◌>>◌,
  print, opened,
}

pub stats : List String
stats =
    "pid" ∷ "comm" ∷ "state" ∷ "ppid" ∷ "pgrp" ∷ "session" ∷ "tty_nr" ∷ "tpgid" ∷ "flags" ∷ "minflt"
    ∷ "cminflt" ∷ "majflt" ∷ "cmajflt" ∷ "utime" ∷ "stime" ∷ "cutime" ∷ "cstime" ∷ "priority"
    ∷ "nice" ∷ "num_threads" ∷ "itrealvalue" ∷ "starttime" ∷ "vsize" ∷ "rss" ∷ "rsslim"
    ∷ "startcode" ∷ "endcode" ∷ "startstack" ∷ "kstkesp" ∷ "kstkeip" ∷ "signal" ∷ "blocked"
    ∷ "sigignore" ∷ "sigcatch" ∷ "wchan" ∷ "nswap" ∷ "cnswap" ∷ "exit_signal" ∷ "processor"
    ∷ "rt_priority" ∷ "policy" ∷ "delayacct_blkio_ticks" ∷ "guest_time" ∷ "cguest_time"
    ∷ "start_data" ∷ "end_data" ∷ "start_brk" ∷ "arg_start" ∷ "arg_end" ∷ "env_start" ∷ "env_end"
    ∷ "env_code" ∷ []

pub length-stats : length stats ≡ 52
unfolding stats
length-stats = refl

-- `fprintf(out, "%s: %s\n", stats[i], pch)`
abbrev pub field_line : String → List ℕ → List ℕ
field_line name pch = codes name ++ (codes ": " ++ (pch ++ codes "\n"))

-- The loop over the tokens, for at most so many rounds. A read past `stats` is a crash.
unfoldable pub print_fields : (fuel i : ℕ) → List ℕ → Run
print_fields zero i s = unfinished
print_fields (suc n) i s = elim (strtok 32 s) [
  | none ↦ wrote []
  | some (pch, rest) ↦
      opened (get_elem? stats i)
        (λ name. print (field_line name pch) >> print_fields n (suc i) rest)
]

unfoldable pub fprintf_stat : ℕ → Files → List ℕ → Run
fprintf_stat fuel fs proc =
    print (codes "===========\nSTAT\n")
    >> opened (fs.file (proc_path proc "/stat"))
        (λ f. print_fields fuel 0 (until_nul (take buf_size f)))

-- Not empty, and without the delimiter and NUL bytes.
abbrev pub IsField : List ℕ → Type 0
IsField w = (w ≢ []) × All (λ c. (c ≢ 32) × (c ≢ 0)) w

-- Fields with a space between any two.
abbrev pub spaced : List (List ℕ) → List ℕ
spaced [] = []
spaced (w ∷ []) = w
spaced (w ∷ v ∷ ws) = w ++ (32 ∷ spaced (v ∷ ws))

field-IsWord : (w : List ℕ) → IsField w → IsWord 32 w
field-IsWord w f = (f.0, All-map _ _ w (λ c h. h.0) f.1)

-- The names with the fields, as long as there are both.
abbrev pub labelled : List String → List (List ℕ) → List Item
labelled names [] = []
labelled [] (w ∷ ws) = []
labelled (name ∷ names) (w ∷ ws) = text (field_line name w) ∷ labelled names ws

-- All fields with their names, or a crash if there are more fields than names.
abbrev pub report : List String → List (List ℕ) → Run
report names ws = if leb (length ws) (length names) then wrote (labelled names ws) else crashed

report-cons :
    (name : String) (names : List String) (w : List ℕ) (ws : List (List ℕ))
    → (print (field_line name w) >> report names ws) ≡ report (name ∷ names) (w ∷ ws)
report-cons name names w ws = ground arith

drop-get_elem? :
    (names : List String) (i : ℕ)
    → (get_elem? names i ≡ none) × (drop i names ≡ [])
      ⊎ ((name : String) × (get_elem? names i ≡ some name)
          × (drop i names ≡ name ∷ drop (suc i) names))
drop-get_elem? [] zero = inl (refl, refl)
drop-get_elem? [] (suc i) = inl (refl, refl)
drop-get_elem? (name ∷ names) zero = inr (name, refl, refl)
drop-get_elem? (name ∷ names) (suc i) = elim (drop-get_elem? names i) [
  | inl h ↦ inl h
  | inr (n, e, d) ↦ inr (n, e, d)
]

print_fields-report :
    (n i : ℕ) (ws : List (List ℕ))
    → All IsField ws
    → length ws < n
    → print_fields n i (spaced ws) ≡ report (drop i stats) ws
unfolding print_fields
print_fields-report zero i ws h l = absurd (omega arith)
print_fields-report (suc n) i [] h l = unfold strtok in ground arith
print_fields-report (suc n) i (w ∷ []) h l = elim (drop-get_elem? stats i) [
  | inl (e, d) ↦ rw (print_fields, strtok_last 32 w (field-IsWord w h.0), e, d) (ground arith)
  | inr (name, e, d) ↦
      rw (print_fields, strtok_last 32 w (field-IsWord w h.0), e, d)
        (rw (print_fields-report n (suc i) [] tt (omega arith))
          (report-cons name (drop (suc i) stats) w []))
]
print_fields-report (suc n) i (w ∷ v ∷ ws) h l = elim (drop-get_elem? stats i) [
  | inl (e, d) ↦
      rw (print_fields, strtok-word 32 w (spaced (v ∷ ws)) (field-IsWord w h.0), e, d)
        (ground arith)
  | inr (name, e, d) ↦
      rw (print_fields, strtok-word 32 w (spaced (v ∷ ws)) (field-IsWord w h.0), e, d)
        (rw (print_fields-report n (suc i) (v ∷ ws) h.1 (omega arith))
          (report-cons name (drop (suc i) stats) w (v ∷ ws)))
]

until_nul-text : (s : List ℕ) → All (λ c. c ≢ 0) s → until_nul s ≡ s
until_nul-text [] h = refl
until_nul-text (c ∷ s) h = rw (ne→== c 0 h.0, until_nul-text s h.1) refl

field-IsText : (w : List ℕ) → All (λ c. (c ≢ 32) × (c ≢ 0)) w → All (λ c. c ≢ 0) w
field-IsText [] h = tt
field-IsText (c ∷ w) h = (h.0.1, field-IsText w h.1)

spaced-IsText : (ws : List (List ℕ)) → All IsField ws → All (λ c. c ≢ 0) (spaced ws)
spaced-IsText [] h = tt
spaced-IsText (w ∷ []) h = field-IsText w h.0.1
spaced-IsText (w ∷ v ∷ ws) h =
    All-append (λ c. c ≢ 0) w (32 ∷ spaced (v ∷ ws)) (field-IsText w h.0.1)
      (λ e. absurd (omega arith), spaced-IsText (v ∷ ws) h.1)

-- Fields that are separated by spaces and fit the buffer are written with their names, one to a
-- line; but more than the 52 fields that have names are a read past the end of the table.
pub fprintf_stat_lem :
    (n : ℕ) (fs : Files) (proc : List ℕ) (ws : List (List ℕ))
    → fs.file (proc_path proc "/stat") ≡ some (spaced ws)
    → All IsField ws
    → length (spaced ws) ≤ buf_size
    → length ws < n
    → fprintf_stat n fs proc ≡ (print (codes "===========\nSTAT\n") >> report stats ws)
unfolding fprintf_stat
fprintf_stat_lem n fs proc ws e h fits l =
    rw
      (
        e,
        take_all (spaced ws) buf_size fits,
        until_nul-text (spaced ws) (spaced-IsText ws h),
        print_fields-report n 0 ws h l,
      )
      refl

-- The report is a crash exactly if there are more than 52 fields.
pub report-crashes : (ws : List (List ℕ)) → (report stats ws ≡ crashed) ↔ (52 < length ws)
report-crashes ws = (λ h. ground (arith, length-stats), λ h. ground (arith, length-stats))
