-- ===== src/Catalog/Census.antt =====
-- What `counter` has counted after the walk of 1/catalog/main.c over a tree that can be read.
use sem_os.Base.{
  ℕ, ◌+◌, ◌≡◌, refl, true, false, List, if◌then◌else◌, ℤ, pos, arith, Bool-cases, inl, inr,
}
use sem_os.Catalog.Walk.{
  Mode, ifreg, ifblk, ifchr, ififo, iflnk, ifsock, ifdir, other, is_dir, Node, lost, file, Entries,
  last, dot, entry, ftw_f, ftw_d, Counts, myfunc, Screen, counter, mydopath, my_entries, print,
  bars,
}

-- Every file has a status, and every directory can be opened.
unfoldable mutual
  pub IsReadable : Node → Type 0
  IsReadable lost = ⊥
  IsReadable (file mode opens es) = if is_dir mode then (opens ≡ true) × AreReadable es else Unit

  pub AreReadable : Entries → Type 0
  AreReadable last = Unit
  AreReadable (dot es) = AreReadable es
  AreReadable (entry name node es) = IsReadable node × AreReadable es

-- The counter of a type; `other` has none.
abbrev pub tally : Mode → Counts → ℕ
tally ifreg c = c.nreg
tally ifblk c = c.nblk
tally ifchr c = c.nchr
tally ififo c = c.nfifo
tally iflnk c = c.nslink
tally ifsock c = c.nsock
tally ifdir c = c.ndir
tally other c = 0

abbrev pub hits : Mode → Mode → ℕ
hits ifreg ifreg = 1
hits ifblk ifblk = 1
hits ifchr ifchr = 1
hits ififo ififo = 1
hits iflnk iflnk = 1
hits ifsock ifsock = 1
hits ifdir ifdir = 1
hits _ _ = 0

-- How many files of a type a tree has.
unfoldable mutual
  pub number_of : Mode → Node → ℕ
  number_of m lost = 0
  number_of m (file mode opens es) = hits m mode + (if is_dir mode then number_in m es else 0)

  pub number_in : Mode → Entries → ℕ
  number_in m last = 0
  number_in m (dot es) = number_in m es
  number_in m (entry name node es) = number_of m node + number_in m es

counted_file :
    (m mode : Mode) (name : List ℕ) (k : Screen)
    → is_dir mode ≡ false
    → ((counter name ftw_f mode k).0 ≡ pos 0)
      × (tally m (counter name ftw_f mode k).1.counts ≡ tally m k.counts + hits m mode)
unfolding counter myfunc
counted_file m mode name k h = ground arith

counted_dir :
    (m mode : Mode) (name : List ℕ) (k : Screen)
    → is_dir mode ≡ true
    → ((counter name ftw_d mode k).0 ≡ pos 0)
      × (tally m (counter name ftw_d mode k).1.counts ≡ tally m k.counts + hits m mode)
unfolding counter myfunc
counted_dir m mode name k h = ground arith

mutual
  unfolding mydopath IsReadable number_of

  counted-node :
      (m : Mode) (node : Node) (name : List ℕ) (depth : ℕ) (k : Screen)
      → IsReadable node
      → ((mydopath name depth node k).0 ≡ pos 0)
        × (tally m (mydopath name depth node k).1.counts ≡ tally m k.counts + number_of m node)
  counted-node m lost name depth k r = absurd r
  counted-node m (file mode opens es) name depth k r = elim (Bool-cases (is_dir mode)) [
    | inr f ↦
        let c = counted_file m mode name (print (bars depth) k) f in rw f (c.0, omega (arith, c.1))
    | inl d ↦
        let c = counted_dir m mode name (print (bars depth) k) d in
        let r' : (opens ≡ true) × AreReadable es = rw d at r in
        let i =
          counted-entries m es depth (pos 0) (counter name ftw_d mode (print (bars depth) k)).1 refl
            r'.1 in
        rw (d, c.0, r'.0) (i.0, omega (arith, i.1, c.1))
  ]

  counted-entries :
      (m : Mode) (es : Entries) (depth : ℕ) (ret : ℤ) (k : Screen)
      → ret ≡ pos 0
      → AreReadable es
      → ((my_entries depth es ret k).0 ≡ pos 0)
        × (tally m (my_entries depth es ret k).1.counts ≡ tally m k.counts + number_in m es)
  counted-entries m last depth ret k e r = (e, omega arith)
  counted-entries m (dot es) depth ret k e r = rw e (counted-entries m es depth (pos 0) k refl r)
  counted-entries m (entry name node es) depth ret k e r =
      let i = counted-node m node name (depth + 1) k r.0 in
      let j =
        counted-entries m es depth (mydopath name (depth + 1) node k).0
          (mydopath name (depth + 1) node k).1 i.0 r.1 in
      rw e (j.0, omega (arith, i.1, j.1))

-- On a tree where every file has its status and every directory opens, the walk returns 0, and each
-- counter has grown by the number of the files of its type, directories and the root included.
pub counts-census :
    (m : Mode) (node : Node) (name : List ℕ) (depth : ℕ) (k : Screen)
    → IsReadable node
    → ((mydopath name depth node k).0 ≡ pos 0)
      × (tally m (mydopath name depth node k).1.counts ≡ tally m k.counts + number_of m node)
counts-census m node name depth k r = counted-node m node name depth k r
