-- ===== src/Fortune/Read.antt =====
-- `fortuneRead` against the abstract jar.
use native.Mathlib.Nat.{zero-add}
use sem_os.Base.{
  sizes, ℕ, ◌+◌, ◌-◌, ◌<◌, ◌≡◌, refl, ap, ◌∙◌, ◌≢◌, none, some, List, [], ◌∷◌, ◌++◌, append_assoc,
  arith, length, take, drop, store-pad, length-append, length-drop, All-append, leb, le→leb, lt→leb,
  pos, Option, ne→==, if◌then◌else◌, take_all, take-append, drop-append,
}
use sem_os.Memory.{IsText, c_string-text}
use sem_os.Fortune.Device.{Fortune, fortune_read, snprintf_line}
use sem_os.Fortune.Jar.{Cookie, Jar, next, next_of, encode, encode-append, Represents}

-- The line of a cookie that leaves room for its newline and the NUL byte.
abbrev pub line : Cookie → List ℕ
line m = m ++ (10 ∷ [])

abbrev printed : List ℕ → Cookie → List ℕ
printed tmp m = (line m ++ (0 ∷ [])) ++ drop (length (line m ++ (0 ∷ []))) tmp

snprintf_line-short :
    (tmp : List ℕ) (page_size : ℕ) (m : Cookie)
    → length m + 1 < page_size
    → length tmp ≡ page_size
    → snprintf_line tmp page_size m ≡ some (printed tmp m, length m + 1)
unfolding snprintf_line
snprintf_line-short tmp page_size m h e = rw (
  take_all (line m) (page_size - 1) (omega sizes),
  store-pad [] (line m ++ (0 ∷ [])) tmp 0 refl (omega sizes),
)

take-printed : (tmp : List ℕ) (m : Cookie) → take (length m + 1) (printed tmp m) ≡ line m
take-printed tmp m = rw (append_assoc (line m) (0 ∷ [])) (take-append (line m) _ _ (omega sizes))

length-printed :
    (tmp : List ℕ) (m : Cookie) → length m + 1 < length tmp → length (printed tmp m) ≡ length tmp
length-printed tmp m h =
    rw (length-append (line m ++ (0 ∷ [])), length-drop, length-append (line m), length-append m)
      (omega arith)

start_of : Fortune → ℕ
start_of d = if leb d.write_ind d.read_ind then 0 else d.read_ind

-- A read of the cookie `m` at its place in the pot.
read_at :
    (page_size : ℕ) (d : Fortune) (pre m rest : List ℕ)
    → start_of d ≡ length pre
    → d.cookie_pot ≡ pre ++ (m ++ (0 ∷ rest))
    → IsText m
    → length m + 1 < page_size
    → length d.tmp_buf ≡ page_size
    → d.write_ind ≢ 0
    → fortune_read 0 page_size 0 d
      ≡ some (record {
        ret = pos (length m + 1);
        out = line m;
        f_pos = length m + 1;
        dev = record d { tmp_buf = printed d.tmp_buf m; read_ind = length pre + (length m + 1) };
      })
unfolding fortune_read start_of
read_at page_size d pre m rest start pot text short size some_written = rw (
  ne→== d.write_ind 0 some_written,
  start,
  pot,
  drop-append pre (m ++ (0 ∷ rest)) (length pre) refl,
  c_string-text m rest text,
  snprintf_line-short d.tmp_buf page_size m short size,
  take-printed d.tmp_buf m,
  zero-add (length m + 1),
)

-- What a complete read delivers: nothing of an empty jar, and else the next cookie with a newline.
abbrev pub Delivers : ℕ → Fortune → Option (Cookie × Jar) → Type 0
Delivers page_size d none =
    fortune_read 0 page_size 0 d ≡ some (record { ret = pos 0; out = []; f_pos = 0; dev = d })
Delivers page_size d (some (m, j)) =
    (d' : Fortune) × (fortune_read 0 page_size 0 d
      ≡ some (record { ret = pos (length m + 1); out = line m; f_pos = length m + 1; dev = d' }))
    × Represents page_size d' j

abbrev pub jar : List Cookie → List Cookie → Jar
jar before after = record { before = before; after = after }

-- A read in the middle of the pot.
module _ (page_size : ℕ) (d : Fortune) (before after : List Cookie) (m : Cookie)
    (r : Represents page_size d (jar before (m ∷ after))) where
  abbrev lengths : length (m ++ (0 ∷ encode after)) ≡ length m + length (0 ∷ encode after)
  lengths = length-append m (0 ∷ encode after)

  Delivers-middle : d.write_ind < page_size → Delivers page_size d (next_of before (m ∷ after))
  unfolding next_of start_of
  Delivers-middle h = (
    _,
    read_at page_size d (encode before) m (encode after ++ r.pad)
        (rw (lt→leb d.read_ind d.write_ind (omega (arith, r.reads, r.writes, lengths))) r.reads)
        (r.pot ∙ ap (λ t. encode before ++ t) (append_assoc m (0 ∷ encode after) r.pad))
        r.unread_texts.0 (omega (arith, r.writes, lengths)) r.tmp_size
        (λ e. absurd (omega (arith, r.writes, lengths))),
    record {
      pad = r.pad;
      pot = r.pot ∙ simp (encode-append, append_assoc);
      reads =
          rw (
            encode-append before (m ∷ []),
            length-append (encode before),
            length-append m (0 ∷ []),
          );
      writes =
          rw
            (encode-append before (m ∷ []), length-append (encode before), length-append m (0 ∷ []))
            (omega (arith, r.writes, lengths));
      pot_size = r.pot_size;
      tmp_size =
          length-printed d.tmp_buf m (omega (arith, r.tmp_size, r.writes, lengths)) ∙ r.tmp_size;
      small = r.small;
      read_texts = All-append IsText before (m ∷ []) r.read_texts (r.unread_texts.0, tt);
      unread_texts = r.unread_texts.1;
    },
  )

-- A read that starts over at the first cookie.
module _ (page_size : ℕ) (d : Fortune) (rest : List Cookie) (m : Cookie)
    (r : Represents page_size d (jar (m ∷ rest) [])) where
  abbrev lengths' : length (m ++ (0 ∷ encode rest)) ≡ length m + length (0 ∷ encode rest)
  lengths' = length-append m (0 ∷ encode rest)

  Delivers-wrapped : d.write_ind < page_size → Delivers page_size d (next_of (m ∷ rest) [])
  unfolding next_of start_of
  Delivers-wrapped h = (
    _,
    read_at page_size d [] m (encode rest ++ r.pad)
        (rw (le→leb d.write_ind d.read_ind (omega (arith, r.reads, r.writes))))
        (r.pot ∙ append_assoc m (0 ∷ encode rest) r.pad) r.read_texts.0
        (omega (arith, r.writes, lengths')) r.tmp_size
        (λ e. absurd (omega (arith, r.writes, lengths'))),
    record {
      pad = r.pad;
      pot = r.pot ∙ simp append_assoc;
      reads = rw (length-append m (0 ∷ []), zero-add (length m + 1));
      writes = rw (length-append m (0 ∷ [])) (omega (arith, r.writes, lengths'));
      pot_size = r.pot_size;
      tmp_size =
          length-printed d.tmp_buf m (omega (arith, r.tmp_size, r.writes, lengths')) ∙ r.tmp_size;
      small = r.small;
      read_texts = (r.read_texts.0, tt);
      unread_texts = r.read_texts.1;
    },
  )

next_of-Delivers :
    (page_size : ℕ) (d : Fortune) (before after : List Cookie)
    → Represents page_size d (jar before after)
    → d.write_ind < page_size
    → Delivers page_size d (next_of before after)
unfolding next_of fortune_read
next_of-Delivers page_size d [] [] r h = rw (r.writes)
next_of-Delivers page_size d before (m ∷ after) r h = Delivers-middle page_size d before after m r h
next_of-Delivers page_size d (m ∷ rest) [] r h = Delivers-wrapped page_size d rest m r h

-- A read from the start of the file, of a pot that is not filled to its last byte, delivers the
-- next cookie with a newline, cyclically in the order of the writes, and nothing of an empty jar.
pub read_refines :
    (page_size : ℕ) (d : Fortune) (j : Jar)
    → Represents page_size d j
    → d.write_ind < page_size
    → Delivers page_size d (next j)
unfolding next
read_refines page_size d j r h = next_of-Delivers page_size d j.before j.after r h
