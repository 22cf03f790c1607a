-- ===== src/ProcInfo/Links.antt =====
-- `fprintf_fd`, `fprintf_sym_cwd`, `fprintf_sym_exe`, `fprintf_sym_root` and `fprintf_task` of
-- 3/proc/main.c: symbolic links and directories.
use Prim.Native.String.{String}
use sem_os.Base.{
  sizes, ℕ, zero, suc, ◌+◌, ◌-◌, ◌<◌, ◌≡◌, ◌≢◌, refl, ap, sym, ◌∙◌, ◌==◌, ◌&&◌, Bool, false,
  if◌then◌else◌, Option, none, some, List, [], ◌∷◌, ◌++◌, take, drop, length, replicate, arith,
  All-append, append_assoc, take_all, ne→==,
}
use native.Mathlib.Decide.{ℕ_discrete}
use sem_os.Memory.{c_string, IsText, c_string-text}
use sem_os.ProcInfo.Run.{
  codes, buf_size, Files, proc_path, Item, text, Run, wrote, ◌>>◌, print, opened,
}

-- "." and ".."
abbrev pub is_dot : List ℕ → Bool
is_dot (c ∷ []) = c == 46
is_dot (c ∷ d ∷ []) = c == 46 && d == 46
is_dot _ = false

-- `readlink(path, str, BUF_SIZE)`: at most `size` bytes of the target, without a NUL byte, go to the
-- start of the buffer, and none if the call fails. A target longer than the buffer is cut.
unfoldable pub readlink : ℕ → Option (List ℕ) → List ℕ → List ℕ
readlink size none str = str
readlink size (some target) str = take size target ++ drop (length (take size target)) str

abbrev pub entry_line : List ℕ → List ℕ → List ℕ
entry_line name target = name ++ (codes " -> " ++ (target ++ codes "\n"))

-- `"%s"` of an array, a crash if it runs past the end.
abbrev pub string_in : List ℕ → (List ℕ → Run) → Run
string_in str k = opened (c_string str) k

-- The loop over the entries. `str` is one buffer for all of them.
unfoldable pub print_links : Files → List ℕ → List (List ℕ) → List ℕ → Run
print_links fs fd_path [] str = wrote []
print_links fs fd_path (name ∷ names) str =
    let path = take (buf_size - 1) (fd_path ++ (codes "/" ++ name)) in
    let str' = readlink buf_size (fs.link path) str in
    let skipped = print_links fs fd_path names str in
    let next = print_links fs fd_path names str' in
    if is_dot name then skipped else string_in str' (λ s. print (entry_line name s) >> next)

unfoldable pub fprintf_fd : Files → List ℕ → Run
fprintf_fd fs proc =
    let fd_path = proc_path proc "/fd" in
    print (codes "FD\n")
    >> opened (fs.directory fd_path) (λ names. print_links fs fd_path names (replicate buf_size 0))

-- The three links alike: the file that the link leads to is opened and read, which only crashes if
-- it cannot be opened; then the target is read to a buffer of zeros with a byte more than `BUF_SIZE`.
unfoldable pub print_link : String → String → String → Files → List ℕ → Run
print_link title name label fs proc =
    print (codes title)
    >> opened (fs.file (proc_path proc name)) (λ _.
      string_in (readlink buf_size (fs.link (proc_path proc name)) (replicate (buf_size + 1) 0))
        (λ s. print (entry_line (codes label) s)))

unfoldable pub fprintf_sym_cwd : Files → List ℕ → Run
unfolding print_link
fprintf_sym_cwd = print_link "CWD SYMLINK\n" "/cwd" "cwd"

unfoldable pub fprintf_sym_exe : Files → List ℕ → Run
unfolding print_link
fprintf_sym_exe = print_link "EXE SYMLINK\n" "/exe" "exe"

unfoldable pub fprintf_sym_root : Files → List ℕ → Run
unfolding print_link
fprintf_sym_root = print_link "ROOT SYMLINK\n" "/root" "root"

unfoldable pub print_names : List (List ℕ) → Run
print_names [] = wrote []
print_names (name ∷ names) =
    let rest = print_names names in
    if is_dot name then rest else (print (name ++ codes "\n") >> rest)

unfoldable pub fprintf_task : Files → List ℕ → Run
fprintf_task fs proc =
    print (codes "TASK\n") >> opened (fs.directory (proc_path proc "/task")) print_names

-- The entries with the targets that are shown for them: a target that is shorter than what was shown
-- before keeps the rest of it, since nothing ends the string.
abbrev pub overlay : List ℕ → List ℕ → List ℕ
overlay target shown = target ++ drop (length target) shown

-- What `readdir` gives: the two directories, and links with their targets.
pub data Entry : Type 0 where
  here : Entry
  up : Entry
  link : (name target : List ℕ) → Entry

abbrev pub names_of : List Entry → List (List ℕ)
names_of [] = []
names_of (here ∷ es) = codes "." ∷ names_of es
names_of (up ∷ es) = codes ".." ∷ names_of es
names_of (link name target ∷ es) = name ∷ names_of es

abbrev pub shown_links : List ℕ → List Entry → List Item
shown_links before [] = []
shown_links before (here ∷ es) = shown_links before es
shown_links before (up ∷ es) = shown_links before es
shown_links before (link name target ∷ es) =
    text (entry_line name (overlay target before)) ∷ shown_links (overlay target before) es

-- A link has another name than the two directories, and its target is a text that fits the buffer.
pub record IsLink (fs : Files) (fd_path name target : List ℕ) : Type 0 where
  pub not_here : name ≢ codes "."
  pub not_up : name ≢ codes ".."
  pub found : fs.link (take (buf_size - 1) (fd_path ++ (codes "/" ++ name))) ≡ some target
  pub target_text : IsText target
  pub short : length target < buf_size

abbrev pub AreLinks : Files → List ℕ → List Entry → Type 0
AreLinks fs fd_path [] = Unit {0}
AreLinks fs fd_path (here ∷ es) = AreLinks fs fd_path es
AreLinks fs fd_path (up ∷ es) = AreLinks fs fd_path es
AreLinks fs fd_path (link name target ∷ es) = IsLink fs fd_path name target × AreLinks fs fd_path es

is_dot-other : (name : List ℕ) → name ≢ 46 ∷ [] → name ≢ 46 ∷ 46 ∷ [] → is_dot name ≡ false
is_dot-other [] h u = refl
is_dot-other (c ∷ []) h u = elim (ℕ_discrete c 46) [
  | yes e ↦ absurd (h (ap (λ x. x ∷ []) e))
  | no n ↦ ne→== c 46 n
]
is_dot-other (c ∷ d ∷ []) h u = elim (ℕ_discrete c 46) [
  | no n ↦ rw (ne→== c 46 n) refl
  | yes e ↦ elim (ℕ_discrete d 46) [
    | no n ↦ rw (e, ne→== d 46 n) refl
    | yes g ↦ absurd (u (ap (λ x. x ∷ d ∷ []) e ∙ ap (λ x. 46 ∷ x ∷ []) g))
  ]
]
is_dot-other (c ∷ d ∷ x ∷ name) h u = refl

abbrev zeros : ℕ → List ℕ
zeros n = replicate n 0

drop-IsText : (k : ℕ) (s : List ℕ) → IsText s → IsText (drop k s)
drop-IsText zero s t = t
drop-IsText (suc k) [] t = tt
drop-IsText (suc k) (c ∷ s) t = drop-IsText k s t.1

drop-replicate : (k n : ℕ) → drop k (zeros n) ≡ zeros (n - k)
drop-replicate zero n = ap zeros (omega arith)
drop-replicate (suc k) zero = ap zeros {x = 0} (omega arith)
drop-replicate (suc k) (suc n) = drop-replicate k n ∙ ap (λ m. zeros m) (omega arith)

drop-pad :
    (k : ℕ) (before : List ℕ) (n : ℕ)
    → drop k (before ++ zeros n) ≡ drop k before ++ zeros (n - (k - length before))
drop-pad zero before n = ap (λ m. before ++ zeros m) (omega arith)
drop-pad (suc k) [] n = drop-replicate (suc k) n ∙ ap (λ m. zeros (n - m)) (omega arith)
drop-pad (suc k) (x ∷ before) n =
    drop-pad k before n ∙ ap (λ m. drop k before ++ zeros (n - m)) (omega arith)

-- The buffer with a text at its start and NUL bytes behind it.
abbrev padded : ℕ → List ℕ → List ℕ
padded size s = s ++ zeros (size - length s)

-- The buffer after a link.
readlink-padded :
    (size : ℕ) (before target : List ℕ)
    → length before < size
    → length target < size
    → readlink size (some target) (padded size before) ≡ padded size (overlay target before)
unfolding readlink
readlink-padded size before target hb ht =
    rw (take_all target size (omega arith), drop-pad (length target) before (size - length before))
      (sym (append_assoc target (drop (length target) before) _)
        ∙ ap (λ m. overlay target before ++ zeros m) (omega sizes))

c_string-padded :
    (size : ℕ) (s : List ℕ) → IsText s → length s < size → c_string (padded size s) ≡ some s
c_string-padded size s t h =
    let e : size - length s ≡ suc (size - length s - 1) = omega arith in
    rw e (c_string-text s (zeros (size - length s - 1)) t)

overlay-IsText :
    (target before : List ℕ) → IsText target → IsText before → IsText (overlay target before)
overlay-IsText target before t b =
    All-append (λ c. c ≢ 0) target (drop (length target) before) t
      (drop-IsText (length target) before b)

print_links-shown :
    (fs : Files) (fd_path : List ℕ) (es : List Entry) (before : List ℕ)
    → AreLinks fs fd_path es
    → IsText before
    → length before < buf_size
    → print_links fs fd_path (names_of es) (padded buf_size before) ≡ wrote (shown_links before es)
unfolding print_links
print_links-shown fs fd_path [] before k t h = refl
print_links-shown fs fd_path (here ∷ es) before k t h = print_links-shown fs fd_path es before k t h
print_links-shown fs fd_path (up ∷ es) before k t h = print_links-shown fs fd_path es before k t h
print_links-shown fs fd_path (link name target ∷ es) before k t h =
    let now = overlay target before in
    let now_text = overlay-IsText target before k.0.target_text t in
    let now_short : length now < buf_size = omega (sizes, k.0.short) in
    rw
      (
        is_dot-other name k.0.not_here k.0.not_up,
        k.0.found,
        readlink-padded buf_size before target h k.0.short,
        c_string-padded buf_size now now_text now_short,
        print_links-shown fs fd_path es now k.1 now_text now_short,
      )
      refl

-- For a directory /proc/<pid>/fd with "." and ".." and links whose targets are texts that fit the
-- buffer, in any order, `fprintf_fd` writes the name of each link, and the target with what the
-- targets before have left behind its end: a target that is shorter than the one before it is shown
-- with the rest of that one.
pub fprintf_fd_lem :
    (fs : Files) (proc : List ℕ) (es : List Entry)
    → fs.directory (proc_path proc "/fd") ≡ some (names_of es)
    → AreLinks fs (proc_path proc "/fd") es
    → fprintf_fd fs proc ≡ wrote (text (codes "FD\n") ∷ shown_links [] es)
unfolding fprintf_fd
fprintf_fd_lem fs proc es e k =
    rw (e, print_links-shown fs (proc_path proc "/fd") es [] k tt (omega arith)) refl

take-IsText : (k : ℕ) (s : List ℕ) → IsText s → IsText (take k s)
take-IsText zero s t = tt
take-IsText (suc k) [] t = tt
take-IsText (suc k) (c ∷ s) t = (t.0, take-IsText k s t.1)

c_string-readlink :
    (size : ℕ) (target : List ℕ)
    → IsText target
    → c_string (readlink size (some target) (zeros (size + 1))) ≡ some (take size target)
unfolding readlink
c_string-readlink size target t =
    let n = length (take size target) in
    let e : size + 1 - n ≡ suc (size - n) = omega sizes in
    rw (drop-replicate n (size + 1), e)
      (c_string-text (take size target) (zeros (size - n)) (take-IsText size target t))

-- A symbolic link that the process can open is written with its target, cut to the 4096 bytes that
-- are read: behind them the buffer has a byte left, which is 0.
pub fprintf_sym_cwd_lem :
    (fs : Files) (proc target f : List ℕ)
    → fs.file (proc_path proc "/cwd") ≡ some f
    → fs.link (proc_path proc "/cwd") ≡ some target
    → IsText target
    → fprintf_sym_cwd fs proc
      ≡ wrote (
          text (codes "CWD SYMLINK\n")
          ∷ text (entry_line (codes "cwd") (take buf_size target))
          ∷ [])
unfolding fprintf_sym_cwd
fprintf_sym_cwd_lem fs proc target f e l t = rw (e, l, c_string-readlink buf_size target t) refl
