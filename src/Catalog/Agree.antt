-- ===== src/Catalog/Agree.antt =====
-- The two walks of 1/catalog/main.c against each other.
use sem_os.Base.{
  sizes, ℕ, ◌+◌, ◌≤◌, ◌<◌, ◌≡◌, refl, ap, ◌∙◌, true, List, [], ◌∷◌, ◌++◌, length, take, ℤ, pos,
  arith, Bool-cases, inl, inr, take-append, take_all, lt→ltb,
}
use sem_os.Kernel.{is_zero}
use sem_os.Catalog.Walk.{
  other, is_dir, Node, lost, file, Entries, last, dot, entry, ftw_f, ftw_d, ftw_dnr, ftw_ns, Counts,
  myfunc, Screen, counter, print, bars, name_of, mydopath, my_entries, State, dopath, entries, grow,
  call, name_max, path_max, slash,
}
use sem_os.Catalog.After.{
  After, called, grow-room, set_path-fits, entry-After, dir-After, counts-grow, weaken,
}

-- The node at a path, and all below it: no name is longer than NAME_MAX, and no path, with a slash
-- behind it, is longer than PATH_MAX allows.
unfoldable mutual
  pub IsShort : List ℕ → Node → Type 0
  IsShort path lost = Unit
  IsShort path (file mode opens es) =
      (length path + 1 < path_max) × AreShort (path ++ (slash ∷ [])) es

  pub AreShort : List ℕ → Entries → Type 0
  AreShort base last = Unit
  AreShort base (dot es) = AreShort base es
  AreShort base (entry name node es) =
      (length name ≤ name_max) × IsShort (base ++ name) node × AreShort base es

-- The state and the screen when a directory has been counted.
abbrev entered : State → State
entered s = record (grow (record s { counts = record s.counts { ndir = s.counts.ndir + 1 } })) {
  fullpath = s.fullpath ++ (slash ∷ []);
}

abbrev shown : List ℕ → ℕ → Screen → Screen
shown name depth k = record (print (name_of name true) (print (bars depth) k)) {
  counts = record k.counts { ndir = k.counts.ndir + 1 };
}

mutual
  unfolding dopath mydopath IsShort myfunc counter

  dopath-After :
      (node : Node) (name : List ℕ) (depth : ℕ) (s : State) (k : Screen)
      → IsShort s.fullpath node
      → s.counts ≡ k.counts
      → length s.fullpath < s.pathlen
      → name_max + 2 ≤ s.pathlen
      → After s.fullpath s (dopath node s) (mydopath name depth node k)
  dopath-After lost name depth s k short e h l =
      called s.fullpath name ftw_ns other s k e
        (take_all s.fullpath (length s.fullpath) (omega arith))
  dopath-After (file mode opens es) name depth s k short e h l =
      let t : State = (call ftw_d mode s).1 in
      let (room, g) = grow-room t h l in
      let fits = set_path-fits (t.fullpath ++ (slash ∷ [])) (grow t) (omega (sizes, room)) in
      let same : (entered s).counts ≡ (shown name depth k).counts =
        counts-grow t ∙ ap (λ (c : Counts). record c { ndir = c.ndir + 1 }) e in
      let here = lt→ltb (length s.fullpath) path_max (omega (arith, short.0)) in
      let slashed =
        lt→ltb (length (s.fullpath ++ (slash ∷ []))) path_max (omega (sizes, short.0)) in
      elim (Bool-cases (is_dir mode)) [
        | inr f ↦
            rw (here, f)
              (called s.fullpath name ftw_f mode s (print (bars depth) k) e
                (take_all s.fullpath (length s.fullpath) (omega arith)))
        | inl d ↦ elim (Bool-cases opens) [
          | inr o ↦
              rw (here, d, fits, o)
                (weaken g (
                  called s.fullpath name ftw_dnr mode (entered s) (shown name depth k) same
                    (take-append s.fullpath (slash ∷ []) (length s.fullpath) refl)))
          | inl o ↦
              rw (here, d, fits, o, slashed)
                (dir-After es depth s (entered s) (my_entries depth es (pos 0) (shown name depth k))
                  g
                  (entries-After es (length s.fullpath + 1) depth (s.fullpath ++ (slash ∷ []))
                    (pos 0) (entered s) (shown name depth k) short.1 same (omega sizes)
                    (take_all (s.fullpath ++ (slash ∷ [])) (length s.fullpath + 1) (omega sizes))
                    (omega arith) (omega arith) refl))
        ]
      ]

  entries-After :
      (es : Entries) (n depth : ℕ) (base : List ℕ) (ret : ℤ) (s : State) (k : Screen)
      → AreShort base es
      → s.counts ≡ k.counts
      → n ≡ length base
      → take n s.fullpath ≡ base
      → n + name_max + 1 ≤ s.pathlen
      → name_max + 2 ≤ s.pathlen
      → is_zero ret ≡ true
      → After base s (entries n es ret s) (my_entries depth es ret k)
  entries-After last n depth base ret s k short e b p h l z = record {
    st = s;
    result = refl;
    same = e;
    kept = rw⁻¹ b p;
    grown = omega arith;
  }
  entries-After (dot es) n depth base ret s k short e b p h l z =
      rw z (entries-After es n depth base ret s k short e b p h l z)
  entries-After (entry name node es) n depth base ret s k short e b p h l z =
      let path = base ++ name in
      rw (z, p, set_path-fits path s (omega (sizes, short.0)))
        (entry-After es name depth n base s (dopath node (record s { fullpath = path }))
          (mydopath name (depth + 1) node k) b
          (dopath-After node name (depth + 1) (record s { fullpath = path }) k short.1 e
            (omega (sizes, short.0)) l)
          (λ t z' c q g.
            entries-After es n depth base _ t _ short.2 c b q (omega arith) (omega arith) z'))

-- On every tree without names beyond NAME_MAX and without paths beyond PATH_MAX, the walk with full
-- paths stays in its buffer, if the path fits and the buffer has NAME_MAX + 2 bytes; it returns what the walk that changes directories
-- returns and leaves the same counts, errors included, and its path still begins as it did.
pub dopath-mydopath :
    (node : Node) (name : List ℕ) (depth : ℕ) (s : State) (k : Screen)
    → IsShort s.fullpath node
    → s.counts ≡ k.counts
    → length s.fullpath < s.pathlen
    → name_max + 2 ≤ s.pathlen
    → After s.fullpath s (dopath node s) (mydopath name depth node k)
dopath-mydopath node name depth s k short e h l = dopath-After node name depth s k short e h l
