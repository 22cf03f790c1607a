-- ===== src/ProcInfo/Chunks.antt =====
-- `fprintf_environ`, `fprintf_io`, `fprintf_cmdline` and `fprintf_comm` of 3/proc/main.c.
use mathlib.Core.List.{map, map-append}
use sem_os.Base.{
  sizes, false, ne→==, ℕ, zero, suc, ◌<◌, ◌≡◌, refl, ap, sym, ◌∙◌, ◌==◌, if◌then◌else◌, some, List,
  [], ◌∷◌, ◌++◌, take, drop, length, arith, length-take, take-append-drop,
}
use sem_os.Memory.{IsText}
use sem_os.Fortune.Jar.{encode}
use sem_os.ProcInfo.Run.{
  codes, buf_size, Files, proc_path, until_nul, Item, text, Run, wrote, unfinished, ◌>>◌, print,
  opened,
}

-- `if (buf[i] == 0) buf[i] = '\n';`
abbrev pub newline_for_nul : ℕ → ℕ
newline_for_nul c = if c == 0 then 10 else c

-- The loop over the chunks of a file, of at most `size` bytes each, for at most so many rounds.
unfoldable pub copy_chunks : (size fuel : ℕ) → List ℕ → Run
copy_chunks size zero rest = unfinished
copy_chunks size (suc n) rest =
    let chunk = take size rest in
    let next = copy_chunks size n (drop size rest) in
    if length chunk == 0 then wrote [] else (print (until_nul (map newline_for_nul chunk)) >> next)

unfoldable pub fprintf_environ : ℕ → Files → List ℕ → Run
fprintf_environ fuel fs proc =
    print (codes "ENVIRON\n")
    >> opened (fs.file (proc_path proc "/environ")) (λ f. copy_chunks buf_size fuel f)

unfoldable pub fprintf_io : ℕ → Files → List ℕ → Run
fprintf_io fuel fs proc =
    print (codes "IO\n")
    >> opened (fs.file (proc_path proc "/io")) (λ f. copy_chunks buf_size fuel f)

-- One read of at most `BUF_SIZE` bytes, and the text at their start.
unfoldable pub fprintf_cmdline : Files → List ℕ → Run
fprintf_cmdline fs proc =
    print (codes "CMDLINE\n")
    >> opened (fs.file (proc_path proc "/cmdline"))
        (λ f. print (until_nul (take buf_size f) ++ codes "\n"))

unfoldable pub fprintf_comm : Files → List ℕ → Run
fprintf_comm fs proc =
    print (codes "COMM\n")
    >> opened (fs.file (proc_path proc "/comm"))
        (λ f. print (until_nul (take buf_size f) ++ codes "\n"))

-- All that the texts of an output spell.
abbrev pub spelled : List Item → List ℕ
spelled [] = []
spelled (text s ∷ items) = s ++ spelled items
spelled (_ ∷ items) = spelled items

pub until_nul-newline : (s : List ℕ) → until_nul (map newline_for_nul s) ≡ map newline_for_nul s
until_nul-newline [] = refl
until_nul-newline (c ∷ s) = ground (arith, until_nul-newline s)

copy_chunks-more :
    (size n : ℕ) (f : List ℕ) (items : List Item)
    → (length (take size f) == 0) ≡ false
    → copy_chunks size n (drop size f) ≡ wrote items
    → copy_chunks size (suc n) f ≡ wrote (text (map newline_for_nul (take size f)) ∷ items)
unfolding copy_chunks
copy_chunks-more size n f items more e = rw (more, e, until_nul-newline (take size f)) refl

-- Whatever the length of a file, its chunks spell the whole of it, each NUL byte as a newline: the
-- loop ends after at most one round more than the file has bytes.
pub copy_chunks-spelled :
    (size n : ℕ) (f : List ℕ)
    → 0 < size
    → length f < n
    → (items : List Item) × (copy_chunks size n f ≡ wrote items)
      × (spelled items ≡ map newline_for_nul f)
unfolding copy_chunks
copy_chunks-spelled size zero f p h = absurd (omega arith)
copy_chunks-spelled zero (suc n) [] p h = absurd (omega arith)
copy_chunks-spelled (suc size) (suc n) [] p h = ([], refl, refl)
copy_chunks-spelled size (suc n) (c ∷ f) p h =
    let more : (length (take size (c ∷ f)) == 0) ≡ false =
      ground (arith, length-take size (c ∷ f)) in
    let (items, e, s) = copy_chunks-spelled size n (drop size (c ∷ f)) p (omega sizes) in
    (
      text (map newline_for_nul (take size (c ∷ f))) ∷ items,
      copy_chunks-more size n (c ∷ f) items more e,
      rw s (
          sym (map-append newline_for_nul (take size (c ∷ f)) (drop size (c ∷ f)))
          ∙ ap (map newline_for_nul) (take-append-drop size (c ∷ f))),
    )

-- What a file of /proc that holds `f` adds to the output, under its title.
copied :
    (title : List ℕ) (n : ℕ) (f : List ℕ)
    → length f < n
    → (items : List Item) × ((print title >> copy_chunks buf_size n f) ≡ wrote items)
      × (spelled items ≡ title ++ map newline_for_nul f)
copied title n f h =
    let (items, e, s) = copy_chunks-spelled buf_size n f (omega arith) h in
    (text title ∷ items, rw e refl, rw s refl)

-- An environment that can be opened is written whole, however long it is, with each NUL byte as a
-- newline; one round more than it has bytes is enough.
pub fprintf_environ_lem :
    (n : ℕ) (fs : Files) (proc f : List ℕ)
    → fs.file (proc_path proc "/environ") ≡ some f
    → length f < n
    → (items : List Item) × (fprintf_environ n fs proc ≡ wrote items)
      × (spelled items ≡ codes "ENVIRON\n" ++ map newline_for_nul f)
unfolding fprintf_environ
fprintf_environ_lem n fs proc f e h = rw e (copied (codes "ENVIRON\n") n f h)

until_nul-take :
    (size : ℕ) (m rest : List ℕ)
    → IsText m
    → length m < size
    → until_nul (take size (m ++ (0 ∷ rest))) ≡ m
until_nul-take zero m rest t h = elim h [ ]
until_nul-take (suc size) [] rest t h = refl
until_nul-take (suc size) (c ∷ m) rest t h =
    rw (ne→== c 0 t.0, until_nul-take size m rest t.1 (omega arith)) refl

-- Of the command line, whose arguments end with a NUL byte each, only the first one is written.
pub fprintf_cmdline_first :
    (fs : Files) (proc argument : List ℕ) (arguments : List (List ℕ))
    → fs.file (proc_path proc "/cmdline") ≡ some (encode (argument ∷ arguments))
    → IsText argument
    → length argument < buf_size
    → fprintf_cmdline fs proc
      ≡ wrote (text (codes "CMDLINE\n") ∷ text (argument ++ codes "\n") ∷ [])
unfolding fprintf_cmdline
fprintf_cmdline_first fs proc argument arguments e t h =
    rw (e, until_nul-take buf_size argument (encode arguments) t h) refl
