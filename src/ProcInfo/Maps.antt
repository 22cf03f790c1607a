-- ===== src/ProcInfo/Maps.antt =====
-- `fprintf_maps`, `fprintf_page` and the loop of `fprintf_pagemap_info` over the pages of a range, of
-- 3/proc/main.c.
use Prim.Native.String.{String}
use mathlib.Core.Option
use native.Mathlib.Nat.{zero-add, mod-eq_of_lt, add_assoc}
use sem_os.Base.{
  lt→ltb, ℕ, zero, suc, ◌+◌, ◌-◌, ◌*◌, ◌/◌, ◌%◌, ◌^◌, ◌≤◌, ◌<◌, ◌≡◌, refl, ◌==◌, true,
  if◌then◌else◌, ltb, Option, none, some, List, [], ◌∷◌, ◌++◌, arith,
}
use sem_os.ProcInfo.Run.{
  codes, Files, proc_path, Item, text, range, size_bytes, size_pages, Run, wrote, ◌>>◌, print,
  opened,
}

-- `getline`: the lines of a file, each with its newline.
unfoldable pub lines : List ℕ → List (List ℕ)
lines [] = []
lines (c ∷ s) = elim (lines s) [
  | [] ↦ (c ∷ []) ∷ []
  | l ∷ ls ↦ if c == 10 then (c ∷ []) ∷ (l ∷ ls) else (c ∷ l) ∷ ls
]

-- `bytes / 4096` of a `long`, as a pattern of 64 bits: a negative number is rounded up.
unfoldable pub pages_in : ℕ → ℕ
pages_in bytes =
    if ltb bytes (2 ^ 63) then bytes / 4096 else (2 ^ 64 - (2 ^ 64 - bytes) / 4096) % 2 ^ 64

-- The loop over the lines. `sscanf` gives the two addresses that "%lx-%lx" reads from a line; a line
-- without them leaves the ones before.
unfoldable pub print_ranges :
    (List ℕ → ℕ × ℕ → ℕ × ℕ) → List (List ℕ) → (addresses : ℕ × ℕ) (bytes : ℕ) → List Item
print_ranges sscanf [] addresses bytes = size_bytes bytes ∷ size_pages (pages_in bytes) ∷ []
print_ranges sscanf (buf ∷ bufs) addresses bytes =
    let addresses' = sscanf buf addresses in
    let rec_bytes = (addresses'.1 + 2 ^ 64 - addresses'.0) % 2 ^ 64 in
    range rec_bytes (pages_in rec_bytes) buf
    ∷ print_ranges sscanf bufs addresses' ((bytes + rec_bytes) % 2 ^ 64)

-- The title of the columns.
abbrev pub maps_title : String
maps_title =
    "bytes     pages   addr                      perms  offset  dev   inode                     pathname\n"

-- The addresses are not set before the first line.
unfoldable pub fprintf_maps : (List ℕ → ℕ × ℕ → ℕ × ℕ) → (unset : ℕ × ℕ) → Files → List ℕ → Run
fprintf_maps sscanf unset fs proc =
    print (codes "MAPS\n")
    >> opened (fs.file (proc_path proc "/maps"))
        (λ f. wrote (text (codes maps_title) ∷ print_ranges sscanf (lines f) unset 0))

-- What is printed of an entry of `pagemap`, of 64 bits.
pub record Page : Type 0 where
  pub address : ℕ
  pub pfn : ℕ
  pub soft_dirty : ℕ
  pub file_or_shared : ℕ
  pub swapped : ℕ
  pub present : ℕ

unfoldable pub fprintf_page : (address entry : ℕ) → Page
fprintf_page address entry = record {
  address = address;
  pfn = entry % 2 ^ 55;
  soft_dirty = entry / 2 ^ 55 % 2;
  file_or_shared = entry / 2 ^ 61 % 2;
  swapped = entry / 2 ^ 62 % 2;
  present = entry / 2 ^ 63 % 2;
}

-- The loop over the pages from `i` to `stop`, for at most so many rounds. `pread` gives the entry of
-- 8 bytes at an offset.
unfoldable pub print_pages : (ℕ → ℕ) → (page_size fuel i stop : ℕ) → Option (List Page)
print_pages pread page_size zero i stop = none
print_pages pread page_size (suc n) i stop =
    let rest = print_pages pread page_size n ((i + page_size) % 2 ^ 64) stop in
    if ltb i stop
    then Option.map (λ pages. fprintf_page i (pread (i / page_size * 8)) ∷ pages) rest
    else some []

-- The bits 0-54, 55, 61, 62 and 63 are shown, whatever the bits between them are.
pub fprintf_page_fields :
    (address pfn soft unused file swapped present : ℕ)
    → pfn < 2 ^ 55
    → soft < 2
    → unused < 2 ^ 5
    → file < 2
    → swapped < 2
    → present < 2
    → let entry =
        pfn
        + 2 ^ 55 * soft
        + 2 ^ 56 * unused
        + 2 ^ 61 * file
        + 2 ^ 62 * swapped
        + 2 ^ 63 * present in
      ((fprintf_page address entry).address ≡ address)
      × ((fprintf_page address entry).pfn ≡ pfn)
      × ((fprintf_page address entry).soft_dirty ≡ soft)
      × ((fprintf_page address entry).file_or_shared ≡ file)
      × ((fprintf_page address entry).swapped ≡ swapped)
      × ((fprintf_page address entry).present ≡ present)
unfolding fprintf_page
fprintf_page_fields address pfn soft unused file swapped present hp hs hu hf hw hv = omega arith

-- The pages of a range of `count` pages.
abbrev pub pages_from : (ℕ → ℕ) → (page_size i count : ℕ) → List Page
pages_from pread page_size i zero = []
pages_from pread page_size i (suc count) =
    fprintf_page i (pread (i / page_size * 8)) ∷ pages_from pread page_size (i + page_size) count

-- A range below the top of the address space is shown page by page: the loop ends after one round
-- more than it has pages, with one entry for each.
pub print_pages_lem :
    (pread : ℕ → ℕ) (page_size n i count : ℕ)
    → 0 < page_size
    → count < n
    → i + count * page_size < 2 ^ 64
    → print_pages pread page_size n i (i + count * page_size)
      ≡ some (pages_from pread page_size i count)
unfolding print_pages
print_pages_lem pread page_size zero i count p h t = absurd (omega arith)
print_pages_lem pread page_size (suc n) i zero p h t = ground arith
print_pages_lem pread page_size (suc n) i (suc count) p h t =
    let next : i + page_size + count * page_size ≡ i + suc count * page_size = grind arith in
    let here : ltb i (i + suc count * page_size) ≡ true = lt→ltb _ _ (grind arith) in
    let wraps : (i + page_size) % 2 ^ 64 ≡ i + page_size = mod-eq_of_lt (grind arith) in
    rw
      (
        print_pages,
        here,
        wraps,
        ← next,
        print_pages_lem pread page_size n (i + page_size) count p (omega arith) (omega arith),
      )
      refl

-- The lines have ranges of whole pages, in the address space.
abbrev pub AreRanges : (List ℕ → ℕ × ℕ → ℕ × ℕ) → List (List ℕ) → ℕ × ℕ → Type 0
AreRanges sscanf [] a = Unit
AreRanges sscanf (buf ∷ bufs) a =
    let a' = sscanf buf a in
    (a'.0 ≤ a'.1) × (a'.1 < 2 ^ 64) × ((a'.1 - a'.0) % 4096 ≡ 0) × AreRanges sscanf bufs a'

-- The rows of the lines, and what they add up to.
abbrev pub rows : (List ℕ → ℕ × ℕ → ℕ × ℕ) → List (List ℕ) → ℕ × ℕ → List Item
rows sscanf [] a = []
rows sscanf (buf ∷ bufs) a =
    let a' = sscanf buf a in range (a'.1 - a'.0) ((a'.1 - a'.0) / 4096) buf ∷ rows sscanf bufs a'

abbrev pub total_bytes : List Item → ℕ
total_bytes [] = 0
total_bytes (range bytes pages line ∷ items) = bytes + total_bytes items
total_bytes (_ ∷ items) = total_bytes items

abbrev pub total_pages : List Item → ℕ
total_pages [] = 0
total_pages (range bytes pages line ∷ items) = pages + total_pages items
total_pages (_ ∷ items) = total_pages items

pages_in_lem : (bytes : ℕ) → bytes < 2 ^ 63 → pages_in bytes ≡ bytes / 4096
unfolding pages_in
pages_in_lem bytes h = rw (lt→ltb bytes (2 ^ 63) h) refl

print_ranges-rows :
    (sscanf : List ℕ → ℕ × ℕ → ℕ × ℕ) (bufs : List (List ℕ)) (a : ℕ × ℕ) (b : ℕ)
    → AreRanges sscanf bufs a
    → b + total_bytes (rows sscanf bufs a) < 2 ^ 63
    → print_ranges sscanf bufs a b
      ≡ rows sscanf bufs a
        ++ (size_bytes (b + total_bytes (rows sscanf bufs a))
            ∷ (size_pages ((b + total_bytes (rows sscanf bufs a)) / 4096) ∷ []))
unfolding print_ranges
print_ranges-rows sscanf [] a b r h =
    let none_more : b + 0 ≡ b = omega arith in rw (none_more, pages_in_lem b (omega arith)) refl
print_ranges-rows sscanf (buf ∷ bufs) a b r h =
    let a' : ℕ × ℕ = sscanf buf a in
    let size : (a'.1 + 2 ^ 64 - a'.0) % 2 ^ 64 ≡ a'.1 - a'.0 = omega (arith, r.0, r.1) in
    let sum : (b + (a'.1 - a'.0)) % 2 ^ 64 ≡ b + (a'.1 - a'.0) = omega arith in
    let next = print_ranges-rows sscanf bufs a' (b + (a'.1 - a'.0)) r.3 (omega arith) in
    rw
      (
        size,
        pages_in_lem (a'.1 - a'.0) (omega arith),
        sum,
        next,
        add_assoc b (a'.1 - a'.0) (total_bytes (rows sscanf bufs a')),
      )
      refl

pages-rows :
    (sscanf : List ℕ → ℕ × ℕ → ℕ × ℕ) (bufs : List (List ℕ)) (a : ℕ × ℕ)
    → AreRanges sscanf bufs a
    → total_bytes (rows sscanf bufs a) ≡ total_pages (rows sscanf bufs a) * 4096
pages-rows sscanf [] a r = omega arith
pages-rows sscanf (buf ∷ bufs) a r = omega (arith, pages-rows sscanf bufs (sscanf buf a) r.3)

-- For lines with ranges of whole pages, `fprintf_maps` writes the size of each in bytes and in pages;
-- the two totals at the end are the sums of the two columns, if these fit a signed `long`.
pub fprintf_maps_lem :
    (sscanf : List ℕ → ℕ × ℕ → ℕ × ℕ) (unset : ℕ × ℕ) (fs : Files) (proc f : List ℕ)
    → fs.file (proc_path proc "/maps") ≡ some f
    → AreRanges sscanf (lines f) unset
    → total_bytes (rows sscanf (lines f) unset) < 2 ^ 63
    → fprintf_maps sscanf unset fs proc
      ≡ wrote (
          text (codes "MAPS\n")
          ∷ text (codes maps_title)
          ∷ (rows sscanf (lines f) unset
              ++ (size_bytes (total_bytes (rows sscanf (lines f) unset))
                  ∷ (size_pages (total_pages (rows sscanf (lines f) unset)) ∷ []))))
unfolding fprintf_maps
fprintf_maps_lem sscanf unset fs proc f e r h =
    let total : ℕ = total_bytes (rows sscanf (lines f) unset) in
    let pages : (0 + total) / 4096 ≡ total_pages (rows sscanf (lines f) unset) =
      omega (arith, pages-rows sscanf (lines f) unset r) in
    rw (e, print_ranges-rows sscanf (lines f) unset 0 r (omega arith), pages, zero-add total) refl
