-- ===== src/Catalog/Walk.antt =====
-- `myftw` and `my_myftw` of 1/catalog/main.c with what they call. A result `none` is an access
-- outside the buffer of the path.
use sem_os.Base.{
  ℕ, ◌+◌, ◌*◌, Bool, true, false, not, ◌&&◌, Option, none, some, List, [], ◌∷◌, ◌++◌, ltb, leb,
  if◌then◌else◌, length, take, ℤ, pos, negsuc,
}
use sem_os.Memory.{◌>>=◌}
use sem_os.Kernel.{is_zero}

-- The file type bits of `st_mode`.
pub data Mode : Type 0 where
  ifreg ifblk ifchr ififo iflnk ifsock ifdir other : Mode

abbrev pub is_dir : Mode → Bool
is_dir ifdir = true
is_dir _ = false

-- What `lstat`, `opendir` and `readdir` find at a name: `lost` where `lstat` fails, else a file with
-- its type and, where it is a directory, whether it can be opened, and its entries.
mutual
  pub data Node : Type 0 where
    lost : Node
    file : (mode : Mode) (opens : Bool) (entries : Entries) → Node

  pub data Entries : Type 0 where
    last : Entries
    dot : (rest : Entries) → Entries  -- "." or ".."
    entry : (name : List ℕ) (node : Node) (rest : Entries) → Entries

-- The reasons for a call of the handler.
pub data Ftw : Type 0 where
  ftw_f ftw_d ftw_dnr ftw_ns : Ftw

-- `nreg`, …, `nsock`
pub record Counts : Type 0 where
  pub nreg : ℕ
  pub ndir : ℕ
  pub nblk : ℕ
  pub nchr : ℕ
  pub nfifo : ℕ
  pub nslink : ℕ
  pub nsock : ℕ

abbrev pub failed : ℤ
failed = negsuc 0

unfoldable pub myfunc : Ftw → Mode → Counts → ℤ × Counts
myfunc ftw_f ifreg c = (pos 0, record c { nreg = c.nreg + 1 })
myfunc ftw_f ifblk c = (pos 0, record c { nblk = c.nblk + 1 })
myfunc ftw_f ifchr c = (pos 0, record c { nchr = c.nchr + 1 })
myfunc ftw_f ififo c = (pos 0, record c { nfifo = c.nfifo + 1 })
myfunc ftw_f iflnk c = (pos 0, record c { nslink = c.nslink + 1 })
myfunc ftw_f ifsock c = (pos 0, record c { nsock = c.nsock + 1 })
myfunc ftw_f ifdir c = (failed, c)
myfunc ftw_f other c = (pos 0, c)
myfunc ftw_d mode c = (pos 0, record c { ndir = c.ndir + 1 })
myfunc ftw_dnr mode c = (failed, c)
myfunc ftw_ns mode c = (failed, c)

-- What `mydopath` and `counter` print: the bars of a depth, and a name, of a directory or not.
pub data Printed : Type 0 where
  bars : (depth : ℕ) → Printed
  name_of : (path : List ℕ) (directory : Bool) → Printed

pub record Screen : Type 0 where
  pub counts : Counts
  pub lines : List Printed

abbrev pub print : Printed → Screen → Screen
print p k = record k { lines = k.lines ++ (p ∷ []) }

-- The `my_` counters change in the same cases.
unfoldable pub counter : List ℕ → Ftw → Mode → Screen → ℤ × Screen
unfolding myfunc
counter path ftw_f mode k =
    let (ret, c) = myfunc ftw_f mode k.counts in
    (ret, record (print (name_of path false) k) { counts = c })
counter path ftw_d mode k =
    let (ret, c) = myfunc ftw_d mode k.counts in
    (ret, record (print (name_of path true) k) { counts = c })
counter path ftw_dnr mode k = (failed, k)
counter path ftw_ns mode k = (failed, k)

-- `mydopath`, and its loop over the entries from a given `ret` on.
unfoldable mutual
  pub mydopath : List ℕ → ℕ → Node → Screen → ℤ × Screen
  mydopath name depth lost k = counter name ftw_ns other k
  mydopath name depth (file mode opens es) k =
      let k' = print (bars depth) k in
      if not (is_dir mode)
      then counter name ftw_f mode k'
      else (let (ret, k₁) = counter name ftw_d mode k' in
          if not (is_zero ret)
          then (ret, k₁)
          else if not opens
          then counter name ftw_dnr mode k₁
          else my_entries depth es ret k₁)

  pub my_entries : ℕ → Entries → ℤ → Screen → ℤ × Screen
  my_entries depth last ret k = (ret, k)
  my_entries depth (dot es) ret k = if is_zero ret then my_entries depth es ret k else (ret, k)
  my_entries depth (entry name node es) ret k =
      if is_zero ret
      then (let (ret', k') = mydopath name (depth + 1) node k in my_entries depth es ret' k')
      else (ret, k)

-- `fullpath`, as a string, and `pathlen`, with the counters.
pub record State : Type 0 where
  pub counts : Counts
  pub fullpath : List ℕ
  pub pathlen : ℕ

abbrev pub name_max : ℕ
name_max = 255

-- `PATH_MAX`: the kernel refuses a path that does not fit so many bytes with its NUL byte.
abbrev pub path_max : ℕ
path_max = 4096

abbrev pub reaches : List ℕ → Bool
reaches path = ltb (length path) path_max

abbrev pub slash : ℕ
slash = 47

-- A call of the handler.
abbrev pub call : Ftw → Mode → State → ℤ × State
call t mode s = let (ret, c) = myfunc t mode s.counts in (ret, record s { counts = c })

-- A string that is stored to the buffer, with its NUL byte.
abbrev pub set_path : List ℕ → State → Option State
set_path path s =
    if leb (length path + 1) s.pathlen then some (record s { fullpath = path }) else none

-- `pathlen *= 2`, if another name might not fit. The allocation succeeds.
abbrev pub grow : State → State
grow s =
    if ltb s.pathlen (length s.fullpath + name_max + 2)
    then record s { pathlen = s.pathlen * 2 }
    else s

unfoldable mutual
  pub dopath : Node → State → Option (ℤ × State)
  dopath lost s = some (call ftw_ns other s)
  dopath (file mode opens es) s =
      if not (reaches s.fullpath)
      then some (call ftw_ns other s)
      else if not (is_dir mode)
      then some (call ftw_f mode s)
      else (let (ret, s₁) = call ftw_d mode s in
          if not (is_zero ret)
          then some (ret, s₁)
          else (let n = length s₁.fullpath in
              set_path (s₁.fullpath ++ (slash ∷ [])) (grow s₁) >>= λ s₂.
              if not (opens && reaches s₂.fullpath)
              then some (call ftw_dnr mode s₂)
              else (entries (n + 1) es ret s₂ >>= λ r.
                  some (r.0, record r.1 { fullpath = take n r.1.fullpath }))))

  -- The loop over the entries; `n` is the length of the path with its slash.
  pub entries : ℕ → Entries → ℤ → State → Option (ℤ × State)
  entries n last ret s = some (ret, s)
  entries n (dot es) ret s = entries n es ret s
  entries n (entry name node es) ret s = set_path (take n s.fullpath ++ name) s >>= λ s₁.
      dopath node s₁ >>= λ r. (if is_zero r.0 then entries n es r.0 r.1 else some r)
