-- ===== src/ProcInfo/Pages.antt =====
-- What `fprintf_pagemap_info` of 3/proc/main.c shows of a file of ranges.
use mathlib.Core.List.{map}
use sem_os.Base.{
  sizes, ℕ, zero, suc, ◌+◌, ◌*◌, ◌^◌, ◌≤◌, ◌<◌, ◌≡◌, ◌≢◌, refl, sym, ◌==◌, false, some, List, [],
  ◌∷◌, ◌++◌, length, arith, All, All-append, All-map, append_assoc, append-nil, take_all, drop_all,
  ne→==,
}
use sem_os.ProcInfo.Run.{buf_size, Files, proc_path}
use sem_os.ProcInfo.Chunks.{newline_for_nul, until_nul-newline}
use sem_os.ProcInfo.Tokens.{strtok, IsWord, strtok-word, strtok_last}
use sem_os.ProcInfo.Maps.{Page, pages_from, print_pages_lem}
use sem_os.ProcInfo.Pagemap.{
  rows, ◌>>◌, Kernel, print_row, print_rows, print_chunks, fprintf_pagemap_info,
}

-- A line: two addresses, and what is behind them.
pub record Row : Type 0 where
  pub start_str : List ℕ
  pub end_str : List ℕ
  pub rest : List ℕ

abbrev pub row_text : Row → List ℕ
row_text r = r.start_str ++ (45 ∷ (r.end_str ++ (32 ∷ r.rest)))

abbrev pub maps_text : List Row → List ℕ
maps_text [] = []
maps_text (r ∷ rs) = row_text r ++ (10 ∷ maps_text rs)

-- A character of an address: no NUL byte, newline, space or `-`.
abbrev pub IsDigit : ℕ → Type 0
IsDigit c = (c ≢ 0) × (c ≢ 10) × (c ≢ 32) × (c ≢ 45)

-- The two addresses of a row are `count` pages apart, in the address space.
pub record IsRow (k : Kernel) (fuel : ℕ) (r : Row) : Type 0 where
  pub count : ℕ
  pub start_some : r.start_str ≢ []
  pub end_some : r.end_str ≢ []
  pub start_digits : All IsDigit r.start_str
  pub end_digits : All IsDigit r.end_str
  pub rest_text : All (λ c. (c ≢ 0) × (c ≢ 10)) r.rest
  pub apart : k.strtoul r.end_str ≡ k.strtoul r.start_str + count * k.page_size
  pub below : k.strtoul r.end_str < 2 ^ 64
  pub enough : count < fuel

-- The pages of the rows, with the counts that the rows have.
abbrev pub pages_of : (k : Kernel) (fuel : ℕ) (rs : List Row) → All (IsRow k fuel) rs → List Page
pages_of k fuel [] h = []
pages_of k fuel (r ∷ rs) h =
    pages_from k.pread k.page_size (k.strtoul r.start_str) h.0.count ++ pages_of k fuel rs h.1

append-ne_nil : (xs ys : List ℕ) → xs ≢ [] → (xs ++ ys) ≢ []
append-ne_nil [] ys h e = h refl
append-ne_nil (x ∷ xs) ys h e = absurd cc

module _ (k : Kernel) (fuel : ℕ) (r : Row) (i : IsRow k fuel r) where
  addresses : List ℕ
  addresses = r.start_str ++ (45 ∷ r.end_str)

  addresses-IsWord : IsWord 32 addresses
  unfolding addresses
  addresses-IsWord = (
    append-ne_nil r.start_str (45 ∷ r.end_str) i.start_some,
    All-append (λ c. c ≢ 32) r.start_str (45 ∷ r.end_str)
        (All-map IsDigit (λ c. c ≢ 32) r.start_str (λ c d. d.2) i.start_digits)
        (
          (λ e. absurd (omega arith)),
          All-map IsDigit (λ c. c ≢ 32) r.end_str (λ c d. d.2) i.end_digits,
        ),
  )

  -- The line is cut into the two addresses, and its pages are shown.
  print_row-pages :
      0 < k.page_size
      → print_row k fuel (row_text r)
        ≡ rows (pages_from k.pread k.page_size (k.strtoul r.start_str) i.count)
  unfolding print_row addresses
  print_row-pages p =
      let whole : row_text r ≡ addresses ++ (32 ∷ r.rest) =
        sym (append_assoc r.start_str (45 ∷ r.end_str) (32 ∷ r.rest)) in
      let first = strtok-word 32 addresses r.rest addresses-IsWord in
      let second =
        strtok-word 45 r.start_str r.end_str
          (i.start_some, All-map IsDigit (λ c. c ≢ 45) r.start_str (λ c d. d.3) i.start_digits) in
      let third =
        strtok_last 45 r.end_str
          (i.end_some, All-map IsDigit (λ c. c ≢ 45) r.end_str (λ c d. d.3) i.end_digits) in
      let below : k.strtoul r.start_str + i.count * k.page_size < 2 ^ 64 = rw (← i.apart) i.below in
      rw
        (
          print_row,
          whole,
          first,
          second,
          third,
          i.apart,
          print_pages_lem k.pread k.page_size fuel (k.strtoul r.start_str) i.count p i.enough below,
        )
        refl

  row-IsWord : IsWord 10 (row_text r)
  row-IsWord = (
    append-ne_nil r.start_str (45 ∷ (r.end_str ++ (32 ∷ r.rest))) i.start_some,
    All-append (λ c. c ≢ 10) r.start_str (45 ∷ (r.end_str ++ (32 ∷ r.rest)))
        (All-map IsDigit (λ c. c ≢ 10) r.start_str (λ c d. d.1) i.start_digits)
        (
          (λ e. absurd (omega arith)),
          All-append (λ c. c ≢ 10) r.end_str (32 ∷ r.rest)
              (All-map IsDigit (λ c. c ≢ 10) r.end_str (λ c d. d.1) i.end_digits)
              (
                (λ e. absurd (omega arith)),
                All-map _ (λ c. c ≢ 10) r.rest (λ c d. d.1) i.rest_text,
              ),
        ),
  )

  row-IsText : All (λ c. c ≢ 0) (row_text r)
  row-IsText =
      All-append (λ c. c ≢ 0) r.start_str (45 ∷ (r.end_str ++ (32 ∷ r.rest)))
        (All-map IsDigit (λ c. c ≢ 0) r.start_str (λ c d. d.0) i.start_digits)
        (
          (λ e. absurd (omega arith)),
          All-append (λ c. c ≢ 0) r.end_str (32 ∷ r.rest)
              (All-map IsDigit (λ c. c ≢ 0) r.end_str (λ c d. d.0) i.end_digits)
              ((λ e. absurd (omega arith)), All-map _ (λ c. c ≢ 0) r.rest (λ c d. d.0) i.rest_text),
        )

print_rows-pages :
    (k : Kernel) (fuel n : ℕ) (rs : List Row) (h : All (IsRow k fuel) rs)
    → 0 < k.page_size
    → length (maps_text rs) < n
    → print_rows k fuel n (maps_text rs) ≡ rows (pages_of k fuel rs h)
unfolding print_rows
print_rows-pages k fuel zero rs h p l = absurd (omega arith)
print_rows-pages k fuel (suc n) [] h p l = unfold strtok in refl
print_rows-pages k fuel (suc n) (r ∷ rs) h p l =
    rw
      (
        print_rows,
        strtok-word 10 (row_text r) (maps_text rs) (row-IsWord k fuel r h.0),
        print_row-pages k fuel r h.0 p,
        print_rows-pages k fuel n rs h.1 p (omega sizes),
      )
      refl

maps_text-IsText :
    (k : Kernel) (fuel : ℕ) (rs : List Row)
    → All (IsRow k fuel) rs
    → All (λ c. c ≢ 0) (maps_text rs)
maps_text-IsText k fuel [] h = tt
maps_text-IsText k fuel (r ∷ rs) h =
    All-append (λ c. c ≢ 0) (row_text r) (10 ∷ maps_text rs) (row-IsText k fuel r h.0)
      ((λ e. absurd (omega arith)), maps_text-IsText k fuel rs h.1)

map-newline : (s : List ℕ) → All (λ c. c ≢ 0) s → map newline_for_nul s ≡ s
map-newline [] h = refl
map-newline (c ∷ s) h = rw (ne→== c 0 h.0, map-newline s h.1) refl

-- A file of one chunk.
print_chunks_one :
    (k : Kernel) (fuel n m : ℕ) (f : List ℕ)
    → All (λ c. c ≢ 0) f
    → length f ≤ buf_size
    → 0 < length f
    → print_chunks k fuel n (suc (suc m)) f ≡ (print_rows k fuel n f >> rows [])
unfolding print_chunks
print_chunks_one k fuel n m f t h p =
    let some_bytes : (length f == 0) ≡ false = ground arith in
    rw
      (
        take_all f buf_size h,
        drop_all buf_size f h,
        some_bytes,
        until_nul-newline f,
        map-newline f t,
      )
      refl

-- If /proc/<pid>/maps fits the buffer, and each line of it begins with two addresses that are whole
-- pages apart and below 2 ^ 64, `fprintf_pagemap_info` writes a line for every page of every range,
-- in order, and no other. Enough rounds are one more than the pages of any range, one more than the
-- bytes of the file, and two for its chunks.
pub fprintf_pagemap_info_lem :
    (k : Kernel) (fuel n m : ℕ) (fs : Files) (proc : List ℕ) (rs : List Row)
    → (h : All (IsRow k fuel) rs) → fs.file (proc_path proc "/maps") ≡ some (maps_text rs)
    → 0 < k.page_size
    → length (maps_text rs) ≤ buf_size
    → length (maps_text rs) < n
    → 2 ≤ m
    → fprintf_pagemap_info k fuel n m fs proc ≡ rows (pages_of k fuel rs h)
unfolding fprintf_pagemap_info
fprintf_pagemap_info_lem k fuel n zero fs proc rs h e p b l two = absurd (omega arith)
fprintf_pagemap_info_lem k fuel n (suc zero) fs proc rs h e p b l two = absurd (omega arith)
fprintf_pagemap_info_lem k fuel n (suc (suc m)) fs proc [] h e p b l two =
    rw (fprintf_pagemap_info, e) (unfold print_chunks in refl)
fprintf_pagemap_info_lem k fuel n (suc (suc m)) fs proc (r ∷ rs) h e p b l two =
    rw
      (
        fprintf_pagemap_info,
        e,
        print_chunks_one k fuel n m (maps_text (r ∷ rs)) (maps_text-IsText k fuel (r ∷ rs) h) b
            (omega sizes),
        print_rows-pages k fuel n (r ∷ rs) h p l,
        append-nil,
      )
      refl
