-- ===== src/Catalog/Main.antt =====
-- `main` and `print_info` of 1/catalog/main.c.
use sem_os.Base.{
  ℕ, ◌+◌, ◌*◌, ◌%◌, ◌^◌, ◌≤◌, ◌<◌, ◌==◌, ◌≡◌, refl, if◌then◌else◌, Option, some, List, [], ◌∷◌,
  arith, max,
}
use sem_os.Memory.{◌>>=◌}
use sem_os.Catalog.Walk.{
  Mode, ifreg, ifblk, ifchr, ififo, iflnk, ifsock, ifdir, Node, Counts, Printed, Screen,
}
use sem_os.Catalog.Agree.{IsShort}
use sem_os.Catalog.Start.{myftw, my_myftw, myftw-my_myftw}
use sem_os.Catalog.Census.{IsReadable, tally, number_of, counts-census}

-- A line: a count, and its share in percent as a fraction.
pub record Line : Type 0 where
  pub count : ℕ
  pub hundredfold : ℕ
  pub of_total : ℕ

pub record Table : Type 0 where
  pub lines : List Line
  pub total : ℕ

abbrev pub line : ℕ → ℕ → Line
line total n = record { count = n; hundredfold = n * 100; of_total = total }

-- The counters are `long`, the parameters `int`: patterns of 32 bits.
abbrev pub as_int : ℕ → ℕ
as_int n = n % 2 ^ 32

unfoldable pub ntot : (nreg ndir nblk nchr nfifo nslink nsock : ℕ) → ℕ
ntot nreg ndir nblk nchr nfifo nslink nsock =
    let n = as_int (nreg + ndir + nblk + nchr + nfifo + nslink + nsock) in if n == 0 then 1 else n

unfoldable pub print_info : (nreg ndir nblk nchr nfifo nslink nsock : ℕ) → Table
print_info nreg ndir nblk nchr nfifo nslink nsock =
    let total = ntot nreg ndir nblk nchr nfifo nslink nsock in
    record {
      lines =
          line total nreg
          ∷ line total ndir
          ∷ line total nblk
          ∷ line total nchr
          ∷ line total nfifo
          ∷ line total nslink
          ∷ line total nsock
          ∷ [];
      total = total;
    }

-- The call of it with the counters of a walk.
unfoldable pub info_of : Counts → Table
unfolding print_info
info_of c =
    print_info (as_int c.nreg) (as_int c.ndir) (as_int c.nblk) (as_int c.nchr) (as_int c.nfifo)
      (as_int c.nslink) (as_int c.nsock)

-- The output without the times: how the program is used; or a table, the tree, and another table.
pub data Output : Type 0 where
  usage : Output
  report : (first : Table) (tree : List Printed) (second : Table) → Output

abbrev pub no_counts : Counts
no_counts = record { nreg = 0; ndir = 0; nblk = 0; nchr = 0; nfifo = 0; nslink = 0; nsock = 0 }

abbrev pub no_screen : Screen
no_screen = record { counts = no_counts; lines = [] }

-- Both kinds of counters start at zero.
unfoldable pub main :
    (posix_version xsi_version : ℕ) → Option ℕ → (argc : ℕ) (argv_1 : List ℕ) → Node → Option Output
unfolding info_of
main posix_version xsi_version pathconf argc argv_1 node =
    if argc == 2
    then (myftw posix_version xsi_version pathconf argv_1 node no_counts >>= λ r.
        let k = (my_myftw argv_1 node no_screen).1 in
        some (report (info_of r.1.counts) k.lines (info_of k.counts)))
    else some usage

-- How many files a tree has, without those of unknown types.
abbrev pub census : Node → ℕ
census node =
    number_of ifreg node
    + number_of ifdir node
    + number_of ifblk node
    + number_of ifchr node
    + number_of ififo node
    + number_of iflnk node
    + number_of ifsock node

abbrev pub census_table : Node → Table
census_table node =
    let total = max 1 (census node) in
    record {
      lines =
          line total (number_of ifreg node)
          ∷ line total (number_of ifdir node)
          ∷ line total (number_of ifblk node)
          ∷ line total (number_of ifchr node)
          ∷ line total (number_of ififo node)
          ∷ line total (number_of iflnk node)
          ∷ line total (number_of ifsock node)
          ∷ [];
      total = total;
    }

ntot_lem :
    (a b c d e f g : ℕ)
    → a + b + c + d + e + f + g < 2 ^ 31
    → ntot a b c d e f g ≡ max 1 (a + b + c + d + e + f + g)
unfolding ntot
ntot_lem a b c d e f g h = ground arith

-- What the second walk has counted, over a tree that can be read.
counted :
    (m : Mode) (path : List ℕ) (node : Node)
    → IsReadable node
    → tally m no_counts ≡ 0
    → tally m (my_myftw path node no_screen).1.counts ≡ number_of m node
unfolding my_myftw
counted m path node r z = omega (arith, (counts-census m node path 0 no_screen r).1)

info_of-census :
    (path : List ℕ) (node : Node)
    → IsReadable node
    → census node < 2 ^ 31
    → info_of (my_myftw path node no_screen).1.counts ≡ census_table node
unfolding info_of print_info
info_of-census path node r h =
    let small : (m : Mode)
        → number_of m node ≤ census node
        → as_int (number_of m node) ≡ number_of m node =
      λ m l. omega arith in
    rw
      (
        counted ifreg path node r refl,
        counted ifdir path node r refl,
        counted ifblk path node r refl,
        counted ifchr path node r refl,
        counted ififo path node r refl,
        counted iflnk path node r refl,
        counted ifsock path node r refl,
        small ifreg (omega arith),
        small ifdir (omega arith),
        small ifblk (omega arith),
        small ifchr (omega arith),
        small ififo (omega arith),
        small iflnk (omega arith),
        small ifsock (omega arith),
        ntot_lem (number_of ifreg node) (number_of ifdir node) (number_of ifblk node)
            (number_of ifchr node) (number_of ififo node) (number_of iflnk node)
            (number_of ifsock node) h,
      )
      refl

-- Called with one path, the program prints the same table for both walks, of any tree without names
-- beyond NAME_MAX and without paths beyond PATH_MAX. If every file of the tree has its status, every
-- directory opens, and there are fewer than 2 ^ 31 files, the table has the number of the files of
-- each type, their sum, and their shares of it.
pub main-census :
    (posix_version xsi_version : ℕ) (pathconf : Option ℕ) (path : List ℕ) (node : Node)
    → IsShort path node
    → (t : Table) × (main posix_version xsi_version pathconf 2 path node
        ≡ some (report t (my_myftw path node no_screen).1.lines t))
      × (IsReadable node → census node < 2 ^ 31 → t ≡ census_table node)
unfolding main
main-census posix_version xsi_version pathconf path node short =
    let a = myftw-my_myftw posix_version xsi_version pathconf path node no_screen short in
    (
      info_of (my_myftw path node no_screen).1.counts,
      rw (a.result, a.same) refl,
      info_of-census path node,
    )
