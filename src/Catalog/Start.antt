-- ===== src/Catalog/Start.antt =====
-- `path_alloc` and the start of `myftw` of 1/catalog/main.c.
use sem_os.Base.{
  ◌+◌, ℕ, ◌+◌, ◌*◌, ◌≤◌, ◌<◌, refl, ◌&&◌, Option, none, some, List, ltb, leb, ◌==◌, if◌then◌else◌,
  length, ℤ, arith,
}
use sem_os.Catalog.Walk.{Node, Screen, Counts, State, dopath, mydopath, name_max, path_max}
use sem_os.Catalog.After.{After}
use sem_os.Catalog.Agree.{IsShort, dopath-mydopath}

abbrev pub path_max_guess : ℕ
path_max_guess = 1024

-- The size of the buffer, for a `pathmax`. `pathconf` is what the function of this name gives, `none`
-- where it sets no limit; it does not fail. The versions are what `sysconf` gives.
unfoldable pub path_alloc : (pathmax posix_version xsi_version : ℕ) (pathconf : Option ℕ) → ℕ
path_alloc pathmax posix_version xsi_version pathconf =
    let pathmax : ℕ =
      if pathmax == 0 then elim pathconf [ none ↦ path_max_guess | some n ↦ n + 1 ] else pathmax in
    if ltb posix_version 200112 && ltb xsi_version 4 then pathmax + 1 else pathmax

-- `myftw`, up to its call of `dopath`: a path that does not fit gets a buffer twice its length. At the
-- start, `pathmax` is `PATH_MAX`.
unfoldable pub start : (posix_version xsi_version : ℕ) → Option ℕ → Counts → List ℕ → State
start posix_version xsi_version pathconf c pathname =
    let size = path_alloc path_max posix_version xsi_version pathconf in
    record {
      counts = c;
      fullpath = pathname;
      pathlen = if leb size (length pathname) then length pathname * 2 else size;
    }

unfoldable pub myftw :
    (posix_version xsi_version : ℕ) → Option ℕ → List ℕ → Node → Counts → Option (ℤ × State)
myftw posix_version xsi_version pathconf pathname node c =
    dopath node (start posix_version xsi_version pathconf c pathname)

unfoldable pub my_myftw : List ℕ → Node → Screen → ℤ × Screen
my_myftw filename node k = mydopath filename 0 node k

start-fits :
    (posix_version xsi_version : ℕ) (pathconf : Option ℕ) (c : Counts) (pathname : List ℕ)
    → (length pathname < (start posix_version xsi_version pathconf c pathname).pathlen)
      × (name_max + 2 ≤ (start posix_version xsi_version pathconf c pathname).pathlen)
unfolding start path_alloc
start-fits posix_version xsi_version pathconf c pathname = ground arith

-- The two ways of the program to walk a tree agree, where no name is longer than NAME_MAX and no
-- path than PATH_MAX: the buffer that `myftw` begins with is large enough for any path that it is
-- given and all below it.
pub myftw-my_myftw :
    (posix_version xsi_version : ℕ) (pathconf : Option ℕ) (pathname : List ℕ) (node : Node)
    (k : Screen)
    → IsShort pathname node
    → After pathname
        (start posix_version xsi_version pathconf k.counts pathname)
        (myftw posix_version xsi_version pathconf pathname node k.counts)
        (my_myftw pathname node k)
unfolding myftw my_myftw start
myftw-my_myftw posix_version xsi_version pathconf pathname node k short =
    let (fits, room) = start-fits posix_version xsi_version pathconf k.counts pathname in
    dopath-mydopath node pathname 0 (start posix_version xsi_version pathconf k.counts pathname) k
      short refl fits room
