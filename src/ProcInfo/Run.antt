-- ===== src/ProcInfo/Run.antt =====
-- What the functions of 3/proc/main.c share: the files of /proc, the path of a file, the text that
-- "%s" prints, and how a function ends.
use Prim.Native.Char.{code}
use Prim.Native.String.{String}
use sem_os.Base.{ℕ, ◌==◌, if◌then◌else◌, Option, none, some, List, [], ◌∷◌, ◌++◌, take}

-- The code points of a literal.
abbrev pub codes : String → List ℕ
codes String.[] = []
codes (String.◌∷◌ c s) = code c ∷ codes s

-- `BUF_SIZE` and `PATH_MAX_LEN`
abbrev pub buf_size : ℕ
buf_size = 4096

abbrev pub path_max_len : ℕ
path_max_len = 128

-- What `fopen`, `opendir` and `readlink` find at a path, the entries of a directory with "." and
-- "..". What is `none` fails.
pub record Files : Type 0 where
  pub file : List ℕ → Option (List ℕ)
  pub directory : List ℕ → Option (List (List ℕ))
  pub link : List ℕ → Option (List ℕ)

-- `snprintf(path, PATH_MAX_LEN, "/proc/%s…", proc)`
abbrev pub proc_path : List ℕ → String → List ℕ
proc_path proc name = take 127 (codes "/proc/" ++ (proc ++ codes name))

-- What "%s" prints of a buffer.
abbrev pub until_nul : List ℕ → List ℕ
until_nul [] = []
until_nul (c ∷ cs) = let rest = until_nul cs in if c == 0 then [] else c ∷ rest

-- A line of the output: a text, a row of `maps` or one of its two totals. The numbers are of type
-- `long`, as patterns of 64 bits, which "%ld" shows as signed.
pub data Item : Type 0 where
  text : List ℕ → Item
  range : (bytes pages : ℕ) (line : List ℕ) → Item
  size_bytes : ℕ → Item
  size_pages : ℕ → Item

-- A function has written its output, has used NULL or read past an array, or has rounds left.
pub data Run : Type 0 where
  wrote : List Item → Run
  crashed : Run
  unfinished : Run

-- One output behind the other.
infixl 5 ◌>>◌
abbrev pub ◌>>◌ : Run → Run → Run
wrote xs >> wrote ys = wrote (xs ++ ys)
wrote xs >> crashed = crashed
wrote xs >> unfinished = unfinished
crashed >> r = crashed
unfinished >> r = unfinished

abbrev pub print : List ℕ → Run
print s = wrote (text s ∷ [])

-- `fopen` or `opendir`, whose result is used without a test.
abbrev pub opened {ℓ} : {A : Type ℓ} → Option A → (A → Run) → Run
opened none k = crashed
opened (some a) k = k a
