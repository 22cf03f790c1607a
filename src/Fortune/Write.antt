-- ===== src/Fortune/Write.antt =====
-- `fortuneWrite` against the abstract jar.
use sem_os.Base.{
  sizes, lt→ltb, ne→==, enospc, efault, ◌≢◌, none, ◌<◌, ◌^◌, ℕ, ◌+◌, ◌^◌, ◌≤◌, ◌<◌, ◌≡◌, ap, ◌∙◌,
  ◌≢◌, none, some, false, List, [], ◌∷◌, ◌++◌, append_assoc, arith, length, drop, store-pad,
  store-nil, store-out_of_range, length-append, All-append, ltb, le→ltb, pos, enospc, sym,
}
use sem_os.Memory.{IsText, CopyIn, room, put_nul, store-user, put_nul-last}
use sem_os.Fortune.Device.{Fortune, fortune_write}
use sem_os.Fortune.Jar.{Cookie, Jar, add, encode, encode-append, Represents}

module _ {page_size : ℕ} {d : Fortune} {j : Jar} (r : Represents page_size d j) where
  abbrev used : List ℕ
  used = encode j.before ++ encode j.after

  pot-used : d.cookie_pot ≡ used ++ r.pad
  pot-used = r.pot ∙ sym (append_assoc (encode j.before) (encode j.after) r.pad)

  write_ind-used : d.write_ind ≡ length used
  write_ind-used = omega (sizes, r.writes)

  pub size-used : length used + length r.pad ≡ page_size
  size-used = omega (sizes, ap length pot-used, r.pot_size)

-- The pot after `m` and its NUL byte have gone to the unused bytes.
abbrev written : List ℕ → Cookie → List ℕ → List ℕ
written used m pad = used ++ (m ++ (0 ∷ drop (length m + 1) pad))

length-written :
    (used : List ℕ) (m : Cookie) (pad : List ℕ)
    → length m + 1 ≤ length pad
    → length (written used m pad) ≡ length used + length pad
length-written used m pad h = rw (length-append used, length-append m) (omega sizes)

-- A write that fits is stored whole, as a new cookie behind the others: its last byte becomes the
-- NUL byte, the call returns the number of bytes, and no access leaves the pot.
pub write_refines :
    (user : CopyIn) (page_size : ℕ) (d : Fortune) (j : Jar) (m : Cookie) (x : ℕ)
    → Represents page_size d j
    → IsText m
    → user.left (m ++ (x ∷ [])) ≡ 0
    → d.write_ind + length m + 1 ≤ page_size
    → (d' : Fortune) × (fortune_write user page_size (m ++ (x ∷ [])) d
        ≡ some (pos (length m + 1), d'))
      × Represents page_size d' (add j m)
unfolding fortune_write add
write_refines user page_size d j m x r text whole fits = (
  record d {
    cookie_pot = written (used r) m r.pad;
    write_ind = d.write_ind + length (m ++ (x ∷ []));
  },
  rw
      (
        guard,
        user.copied (m ++ (x ∷ [])) whole,
        pot-used r,
        store-user (used r) m r.pad x d.write_ind (write_ind-used r) small,
        whole,
        put_nul-last (used r) m r.pad x d.write_ind (write_ind-used r) small,
      )
      (ap
        (λ n. some (
          pos n,
          record d {
            cookie_pot = written (used r) m r.pad;
            write_ind = d.write_ind + length (m ++ (x ∷ []));
          },
        ))
        (length-append m (x ∷ []))),
  record {
    pad = drop (length m + 1) r.pad;
    pot = simp (encode-append, append_assoc);
    reads = r.reads;
    writes = omega (sizes, r.writes, ap length (encode-append j.after (m ∷ [])));
    pot_size = length-written (used r) m r.pad small ∙ size-used r;
    tmp_size = r.tmp_size;
    small = r.small;
    read_texts = r.read_texts;
    unread_texts = All-append IsText j.after (m ∷ []) r.unread_texts (text, tt);
  },
)
  where
    small : length m + 1 ≤ length r.pad
    small = omega (arith, size-used r, write_ind-used r)

    guard : ltb (room page_size d.write_ind) (length (m ++ (x ∷ []))) ≡ false
    guard = le→ltb _ _ (omega (sizes, r.small))

-- A write of more than one byte too many returns -ENOSPC and changes nothing.
pub write_full :
    (user : CopyIn) (page_size : ℕ) (d : Fortune) (j : Jar) (buf : List ℕ)
    → Represents page_size d j
    → page_size + 1 < d.write_ind + length buf
    → length buf < 2 ^ 63
    → fortune_write user page_size buf d ≡ some (enospc, d)
unfolding fortune_write
write_full user page_size d j buf r over size = rw (
    lt→ltb (room page_size d.write_ind) (length buf)
      (omega (arith, r.small, size-used r, write_ind-used r)))

-- The bound is off by one: a write of exactly one byte more than there is room for passes the test
-- and stores past the end of the pot.
pub write_overflows :
    (user : CopyIn) (page_size : ℕ) (d : Fortune) (j : Jar) (buf : List ℕ)
    → Represents page_size d j
    → user.left buf ≡ 0
    → d.write_ind + length buf ≡ page_size + 1
    → fortune_write user page_size buf d ≡ none
unfolding fortune_write
write_overflows user page_size d j buf r whole e = rw (
  le→ltb (length buf) (room page_size d.write_ind)
      (omega (arith, r.small, size-used r, write_ind-used r)),
  user.copied buf whole,
  store-out_of_range d.cookie_pot buf d.write_ind (omega (arith, r.pot_size)),
)

-- A write of no bytes to an empty pot stores its NUL byte before the start of the pot.
pub write_underflows :
    (user : CopyIn) (page_size : ℕ) (d : Fortune)
    → user.left [] ≡ 0
    → d.write_ind ≡ 0
    → fortune_write user page_size [] d ≡ none
unfolding fortune_write put_nul
write_underflows user page_size d whole e =
    ground (arith, user.copied [] whole, store-nil d.cookie_pot)

-- A failed copy of a write that fits returns -EFAULT, and the device still holds the same jar.
pub write_faults :
    (user : CopyIn) (page_size : ℕ) (d : Fortune) (j : Jar) (buf : List ℕ)
    → Represents page_size d j
    → user.left buf ≢ 0
    → d.write_ind + length buf ≤ page_size
    → (d' : Fortune) × (fortune_write user page_size buf d ≡ some (efault, d'))
      × Represents page_size d' j
unfolding fortune_write
write_faults user page_size d j buf r failed fits = (
  record d { cookie_pot = used r ++ pad' },
  rw (
    le→ltb (length buf) (room page_size d.write_ind) (omega (arith, r.small)),
    pot-used r,
    store-pad (used r) (user.stored buf) r.pad d.write_ind (write_ind-used r)
        (omega (arith, user.fits buf, size-used r, write_ind-used r)),
    ne→== (user.left buf) 0 failed,
  ),
  record {
    pad = pad';
    pot = append_assoc (encode j.before) (encode j.after) pad';
    reads = r.reads;
    writes = r.writes;
    pot_size = omega (sizes, size-used r, user.fits buf, write_ind-used r);
    tmp_size = r.tmp_size;
    small = r.small;
    read_texts = r.read_texts;
    unread_texts = r.unread_texts;
  },
)
  where
    pad' : List ℕ
    pad' = user.stored buf ++ drop (length (user.stored buf)) r.pad
