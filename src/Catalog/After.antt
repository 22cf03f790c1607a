-- ===== src/Catalog/After.antt =====
-- How the two walks of 1/catalog/main.c stay together: the end of a call, of a round and of a
-- directory.
use sem_os.Base.{
  ℕ, ◌+◌, ◌≤◌, ◌<◌, ◌≡◌, refl, ap, true, false, Option, some, List, [], ◌∷◌, ◌++◌, if◌then◌else◌,
  length, take, ℤ, pos, arith, Bool-cases, inl, inr, le→leb, take_all,
}
use sem_os.Memory.{◌>>=◌}
use sem_os.Kernel.{is_zero}
use sem_os.Catalog.Walk.{
  Mode, Entries, last, dot, entry, Ftw, ftw_f, ftw_d, ftw_dnr, ftw_ns, myfunc, Screen, counter,
  mydopath, my_entries, State, entries, set_path, grow, call, name_max, slash,
}

-- What a walk that stays in the buffer leaves of a path that began with `base`, for the result and
-- the screen of the other walk.
pub record After (base : List ℕ) (s : State) (o : Option (ℤ × State)) (r : ℤ × Screen)
    : Type 0 where
  pub st : State
  pub result : o ≡ some (r.0, st)
  pub same : st.counts ≡ r.1.counts
  pub kept : take (length base) st.fullpath ≡ base
  pub grown : s.pathlen ≤ st.pathlen

counter-myfunc :
    (name : List ℕ) (t : Ftw) (mode : Mode) (s : State) (k : Screen)
    → s.counts ≡ k.counts
    → ((call t mode s).0 ≡ (counter name t mode k).0)
      × ((call t mode s).1.counts ≡ (counter name t mode k).1.counts)
unfolding counter myfunc
counter-myfunc name ftw_f mode s k e = rw e (refl, refl)
counter-myfunc name ftw_d mode s k e = rw e (refl, refl)
counter-myfunc name ftw_dnr mode s k e = (refl, e)
counter-myfunc name ftw_ns mode s k e = (refl, e)

-- A call of the handlers as the end of both walks.
pub called :
    (base name : List ℕ) (t : Ftw) (mode : Mode) (s : State) (k : Screen)
    → s.counts ≡ k.counts
    → take (length base) s.fullpath ≡ base
    → After base s (some (call t mode s)) (counter name t mode k)
called base name t mode s k e h =
    let (ret, counts) = counter-myfunc name t mode s k e in
    record {
      st = (call t mode s).1;
      result = ap (λ x. some (x, (call t mode s).1)) ret;
      same = counts;
      kept = h;
      grown = omega arith;
    }

prefix : (a b xs : List ℕ) → take (length (a ++ b)) xs ≡ a ++ b → take (length a) xs ≡ a
prefix [] b xs e = refl
prefix (x ∷ a) b [] e = ground (arith, e)
prefix (x ∷ a) b (y ∷ xs) e = ground (arith, e, prefix a b xs)

-- An error ends the loop over the entries.
stopped :
    (depth : ℕ) (es : Entries) (ret : ℤ) (k : Screen)
    → is_zero ret ≡ false
    → my_entries depth es ret k ≡ (ret, k)
unfolding mydopath
stopped depth last ret k h = refl
stopped depth (dot es) ret k h = rw h refl
stopped depth (entry name node es) ret k h = rw h refl

pub grow-room :
    (s : State)
    → length s.fullpath < s.pathlen
    → name_max + 2 ≤ s.pathlen
    → (length s.fullpath + (name_max + 2) ≤ (grow s).pathlen) × (s.pathlen ≤ (grow s).pathlen)
grow-room s h k = ground arith

pub set_path-fits :
    (path : List ℕ) (s : State)
    → length path + 1 ≤ s.pathlen
    → set_path path s ≡ some (record s { fullpath = path })
set_path-fits path s h = rw (le→leb (length path + 1) s.pathlen h) refl

-- A round of the loop leaves what the next one needs.
pub entry-After :
    (es : Entries) (name : List ℕ) (depth n : ℕ) (base : List ℕ) (s : State)
    (o : Option (ℤ × State)) (r : ℤ × Screen)
    → n ≡ length base
    → After (base ++ name) (record s { fullpath = base ++ name }) o r
    → ((t : State)
        → is_zero r.0 ≡ true
        → t.counts ≡ r.1.counts
        → take n t.fullpath ≡ base
        → s.pathlen ≤ t.pathlen
        → After base t (entries n es r.0 t) (my_entries depth es r.0 r.1))
    → After base s
        (o >>= λ x. if is_zero x.0 then entries n es x.0 x.1 else some x)
        (my_entries depth es r.0 r.1)
entry-After es name depth n base s o r e a next = elim (Bool-cases (is_zero r.0)) [
  | inl z ↦
      let b = next a.st z a.same (rw e (prefix base name a.st.fullpath a.kept)) a.grown in
      record {
        st = b.st;
        result = rw (a.result, z) b.result;
        same = b.same;
        kept = b.kept;
        grown = omega (arith, a.grown, b.grown);
      }
  | inr z ↦ record {
    st = a.st;
    result = rw (a.result, z, stopped depth es r.0 r.1 z) refl;
    same = rw (stopped depth es r.0 r.1 z) a.same;
    kept = prefix base name a.st.fullpath a.kept;
    grown = a.grown;
  }
]

-- The end of a directory cuts the path back.
pub dir-After :
    (es : Entries) (depth : ℕ) (s t : State) (r : ℤ × Screen)
    → s.pathlen ≤ t.pathlen
    → After (s.fullpath ++ (slash ∷ [])) t (entries (length s.fullpath + 1) es (pos 0) t) r
    → After s.fullpath s
        (entries (length s.fullpath + 1) es (pos 0) t >>= λ x.
          some (x.0, record x.1 { fullpath = take (length s.fullpath) x.1.fullpath }))
        r
dir-After es depth s t r g a =
    let back = prefix s.fullpath (slash ∷ []) a.st.fullpath a.kept in
    record {
      st = record a.st { fullpath = take (length s.fullpath) a.st.fullpath };
      result = rw a.result refl;
      same = a.same;
      kept = rw back (take_all s.fullpath (length s.fullpath) (omega arith));
      grown = omega (arith, a.grown);
    }

pub counts-grow : (s : State) → (grow s).counts ≡ s.counts
counts-grow s = ground arith

pub weaken :
    {base : List ℕ} {s t : State} {o : Option (ℤ × State)} {r : ℤ × Screen}
    → s.pathlen ≤ t.pathlen
    → After base t o r
    → After base s o r
weaken g a = record {
  st = a.st;
  result = a.result;
  same = a.same;
  kept = a.kept;
  grown = omega (arith, a.grown);
}
