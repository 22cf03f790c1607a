-- ===== src/Tests/Catalog.antt =====
-- A directory with a file in a closed directory, and one that can be read.
use sem_os.Base.{ℕ, ◌+◌, ◌<◌, ◌^◌, ◌≡◌, some, none, refl, true, false, List, [], ◌∷◌, pos, arith}
use sem_os.Catalog.Walk.{
  ifreg, ifdir, Node, file, last, dot, entry, Counts, Screen, State, dopath, mydopath,
}
use sem_os.Catalog.After.{After}
use sem_os.Catalog.Agree.{dopath-mydopath, IsShort}
use sem_os.Catalog.Start.{my_myftw}
use sem_os.Catalog.Main.{Table, main, report, no_screen, census, census_table, main-census}
use sem_os.Catalog.Census.{IsReadable, tally, number_of, counts-census}

abbrev none_yet : Counts
none_yet = record { nreg = 0; ndir = 0; nblk = 0; nchr = 0; nfifo = 0; nslink = 0; nsock = 0 }

abbrev blank : Screen
blank = record { counts = none_yet; lines = [] }

-- "."
abbrev here : List ℕ
here = 46 ∷ []

abbrev start : State
start = record { counts = none_yet; fullpath = here; pathlen = 4096 }

abbrev open_tree : Node
open_tree =
    file ifdir true
      (dot (entry (97 ∷ []) (file ifreg false last) (entry (98 ∷ []) (file ifreg false last) last)))

abbrev closed_tree : Node
closed_tree = file ifdir true (entry (99 ∷ []) (file ifdir false last) (dot last))

closed-IsShort : IsShort here closed_tree
unfolding IsShort
closed-IsShort = (omega arith, (omega arith, (omega arith, tt), tt))

open-IsReadable : IsReadable open_tree
unfolding IsReadable
open-IsReadable = (refl, (tt, (tt, tt)))

dopath-mydopath_example :
    After here start (dopath closed_tree start) (mydopath here 0 closed_tree blank)
dopath-mydopath_example =
    dopath-mydopath closed_tree here 0 start blank closed-IsShort refl (omega arith) (omega arith)

counts-census_example :
    ((mydopath here 0 open_tree blank).0 ≡ pos 0)
    × (tally ifreg (mydopath here 0 open_tree blank).1.counts
        ≡ tally ifreg none_yet + number_of ifreg open_tree)
counts-census_example = counts-census ifreg open_tree here 0 blank open-IsReadable

open-IsShort : IsShort here open_tree
unfolding IsShort
open-IsShort = (omega arith, (omega arith, (omega arith, tt), (omega arith, (omega arith, tt), tt)))

main-census_example :
    (t : Table) × (main 200809 700 none 2 here open_tree
      ≡ some (report t (my_myftw here open_tree no_screen).1.lines t))
    × (IsReadable open_tree → census open_tree < 2 ^ 31 → t ≡ census_table open_tree)
main-census_example = main-census 200809 700 none here open_tree open-IsShort
