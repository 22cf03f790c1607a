-- ===== src/Seq/Passes.antt =====
-- Passes over the iterator of 6/seq_files/seq_file.c: `start`, `show` and `next` in turn, `stop`.
use sem_os.Base.{
  ℕ, zero, suc, ◌+◌, ◌<◌, ◌≡◌, refl, true, none, some, List, [], ◌∷◌, ◌++◌, arith, lt→leb, le→leb,
  ap, ◌∙◌, append_assoc, append-nil,
}
use sem_os.Seq.Iter.{Iter, Current, Shown, Call, start, show, next, stop, rewind, ct_seq_show, run}

-- So many rounds of `show` and `next`, before the rest of the calls.
abbrev pub rounds : Current → ℕ → List Call → List Call
rounds c zero rest = rest
rounds c (suc n) rest = show c ∷ next ∷ rounds c n rest

abbrev pub one_pass : Current → ℕ → List Call → List Call
one_pass c n rest = start true ∷ rounds c n (stop ∷ rest)

-- The records of the positions `v, …, v + n - 1`.
abbrev pub records_from : Current → ℕ → ℕ → List Shown
records_from c v zero = []
records_from c v (suc n) = ct_seq_show c v ∷ records_from c (v + 1) n

snoc_cons :
    (xs : List Shown) (x : Shown) (ys : List Shown) → (xs ++ (x ∷ [])) ++ ys ≡ xs ++ (x ∷ ys)
snoc_cons xs x ys = append_assoc xs (x ∷ []) ys

-- The rounds up to the limit, where `next` returns NULL.
run-rounds_whole :
    (limit v n : ℕ) (c : Current) (rest : List Call) (it : Iter) (out : List Shown)
    → v + suc n ≡ limit
    → run limit (rounds c (suc n) rest) (record { iter = it; cursor = some v; shown = out })
      ≡ run limit rest (record {
        iter = record it { pos = limit };
        cursor = none;
        shown = out ++ records_from c v (suc n);
      })
unfolding run
run-rounds_whole limit v zero c rest it out e =
    let last : v + 1 ≡ limit = omega arith in rw (last, le→leb limit limit (omega arith)) refl
run-rounds_whole limit v (suc n) c rest it out e = rw (lt→leb (v + 1) limit (omega arith)) (
    run-rounds_whole limit (v + 1) n c rest (record it { pos = v + 1 })
      (out ++ (ct_seq_show c v ∷ [])) (omega arith)
    ∙ rw (snoc_cons out (ct_seq_show c v)) refl)

-- Rounds that end before it.
run-rounds_partly :
    (limit v n : ℕ) (c : Current) (rest : List Call) (it : Iter) (out : List Shown)
    → v + n < limit
    → it.pos ≡ v
    → run limit (rounds c n rest) (record { iter = it; cursor = some v; shown = out })
      ≡ run limit rest (record {
        iter = record it { pos = v + n };
        cursor = some (v + n);
        shown = out ++ records_from c v n;
      })
unfolding run
run-rounds_partly limit v zero c rest it out h e =
    ap (λ r. run limit rest r) (ground (arith, append-nil out))
run-rounds_partly limit v (suc n) c rest it out h e =
    let sum : v + 1 + n ≡ v + suc n = omega arith in
    rw (lt→leb (v + 1) limit (omega arith)) (
      run-rounds_partly limit (v + 1) n c rest (record it { pos = v + 1 })
        (out ++ (ct_seq_show c v ∷ [])) (omega arith) refl
      ∙ rw (snoc_cons out (ct_seq_show c v), sum) refl)

pass-all :
    (limit v n : ℕ) (c : Current) (rest : List Call) (live : ℕ) (out : List Shown)
    → v + suc n ≡ limit
    → run limit
        (one_pass c (suc n) rest)
        (record { iter = record { pos = v; live = live }; cursor = none; shown = out })
      ≡ run limit rest (record {
        iter = record { pos = limit; live = live + 1 };
        cursor = none;
        shown = out ++ records_from c v (suc n);
      })
unfolding run
pass-all limit v n c rest live out e =
    rw (lt→leb v limit (omega arith))
      (run-rounds_whole limit v n c (stop ∷ rest) (record { pos = v; live = live + 1 }) out e)

-- A pass that ends before the limit frees its position, and leaves `*pos` behind the records that it
-- has shown: the next pass goes on there.
pub pass-resumes :
    (limit v n : ℕ) (c : Current) (rest : List Call) (live : ℕ) (out : List Shown)
    → v + n < limit
    → run limit
        (one_pass c n rest)
        (record { iter = record { pos = v; live = live }; cursor = none; shown = out })
      ≡ run limit rest (record {
        iter = record { pos = v + n; live = live };
        cursor = none;
        shown = out ++ records_from c v n;
      })
unfolding run
pass-resumes limit v n c rest live out h = rw (lt→leb v limit (omega arith)) (
    run-rounds_partly limit v n c (stop ∷ rest) (record { pos = v; live = live + 1 }) out h refl
    ∙ ap
        (λ m. run limit rest (record {
          iter = record { pos = v + n; live = m };
          cursor = none;
          shown = out ++ records_from c v n;
        }))
        (omega arith))

-- So many passes over all records, each from the start.
abbrev pub passes : Current → (limit k : ℕ) → List Call
passes c limit zero = []
passes c limit (suc k) = one_pass c limit (rewind ∷ passes c limit k)

abbrev pub all_records : Current → (limit k : ℕ) → List Shown
all_records c limit zero = []
all_records c limit (suc k) = records_from c 0 limit ++ all_records c limit k

-- Each pass over all records shows every position below the limit, in order, and leaks the position
-- that it has allocated: it stops at the NULL of `ct_seq_next`, and nothing frees what that was given.
-- After `k` passes from the start, `k` positions are leaked.
pub passes-leak :
    (limit k live : ℕ) (c : Current) (out : List Shown)
    → 0 < limit
    → run limit
        (passes c limit k)
        (record { iter = record { pos = 0; live = live }; cursor = none; shown = out })
      ≡ some (record {
        iter = record { pos = 0; live = live + k };
        cursor = none;
        shown = out ++ all_records c limit k;
      })
unfolding run
passes-leak limit zero live c out h = ground (arith, append-nil out)
passes-leak zero (suc k) live c out h = absurd (omega arith)
passes-leak (suc n) (suc k) live c out h =
    let count : live + 1 + k ≡ live + suc k = omega arith in
    pass-all (suc n) 0 n c (rewind ∷ passes c (suc n) k) live out (omega arith)
    ∙ passes-leak (suc n) k (live + 1) c (out ++ records_from c 0 (suc n)) h
    ∙ rw (append_assoc out (records_from c 0 (suc n)) (all_records c (suc n) k), count) refl
