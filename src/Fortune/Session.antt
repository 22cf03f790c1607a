-- ===== src/Fortune/Session.antt =====
-- Whole sessions with the device of 6/fortunka/fortune.c: writes by complete calls, then reads.
use mathlib.Core.Option
use mathlib.Core.List.{map}
use sem_os.Base.{
  sizes, replicate, ℕ, zero, suc, ◌+◌, ◌^◌, ◌≤◌, ◌<◌, ◌≡◌, refl, Option, some, List, [], ◌∷◌, ◌++◌,
  append-nil, append_assoc, arith, length, length-replicate, All,
}
use sem_os.Memory.{IsText, CopyIn, ◌>>=◌}
use sem_os.Fortune.Device.{Fortune, fortune_write, fortune_read, init_device}
use sem_os.Fortune.Jar.{Cookie, encode, length-encode-snoc, Represents}
use sem_os.Fortune.Write.{write_refines}
use sem_os.Fortune.Read.{line, jar, read_refines}
use sem_os.Fortune.Jar.{next, next_of, add}

-- `echo m > /proc/fortuneDir/fortuneFile`, for each cookie.
unfoldable pub write_all : CopyIn → ℕ → List Cookie → Fortune → Option Fortune
write_all user page_size [] d = some d
write_all user page_size (m ∷ ms) d =
    fortune_write user page_size (line m) d >>= λ r. write_all user page_size ms r.1

-- `n` reads, each from the start of the file: what they deliver.
unfoldable pub read_all : ℕ → ℕ → Fortune → Option (List (List ℕ))
read_all page_size zero d = some []
read_all page_size (suc n) d = fortune_read 0 page_size 0 d >>= λ r.
    Option.map (λ outs. r.out ∷ outs) (read_all page_size n r.dev)

pub init_device-Represents :
    (page_size : ℕ) → page_size < 2 ^ 31 → Represents page_size (init_device page_size) (jar [] [])
unfolding init_device
init_device-Represents page_size h = record {
  pad = replicate page_size 0;
  pot = refl;
  reads = refl;
  writes = omega arith;
  pot_size = length-replicate page_size 0;
  tmp_size = length-replicate page_size 0;
  small = h;
  read_texts = tt;
  unread_texts = tt;
}

module _ (user : CopyIn) (page_size : ℕ) (whole : (buf : List ℕ) → user.left buf ≡ 0) where
  write_all-Represents :
      (ms : List Cookie) (d : Fortune) (before after : List Cookie)
      → Represents page_size d (jar before after)
      → All IsText ms
      → d.write_ind + length (encode ms) ≤ page_size
      → (d' : Fortune) × (write_all user page_size ms d ≡ some d')
        × Represents page_size d' (jar before (after ++ ms))
  unfolding write_all add
  write_all-Represents [] d before after r t h = (d, refl, rw (append-nil after) r)
  write_all-Represents (m ∷ ms) d before after r t h =
      let (d₁, e₁, r₁) =
        write_refines user page_size d (jar before after) m 10 r t.0 (whole (line m))
          (omega sizes) in
      let (d', e', r') =
        write_all-Represents ms d₁ before (after ++ (m ∷ [])) r₁ t.1
          (omega (sizes, r.writes, r₁.writes, length-encode-snoc after m)) in
      (d', rw (e₁, e'), rw (append_assoc after (m ∷ []) ms) at r')

read_all-line :
    (page_size : ℕ) (ms : List Cookie) (d : Fortune) (before : List Cookie)
    → Represents page_size d (jar before ms)
    → d.write_ind < page_size
    → read_all page_size (length ms) d ≡ some (map line ms)
unfolding read_all next next_of
read_all-line page_size [] d before r h = refl
read_all-line page_size (m ∷ ms) d before r h =
    let (d', e, r') = read_refines page_size d (jar before (m ∷ ms)) r h in
    rw (
      e,
      read_all-line page_size ms d' (before ++ (m ∷ [])) r'
          (omega (sizes, h, r.writes, r'.writes, length-encode-snoc before m)),
    )

-- A session on the fresh device: all of the writes, then as many reads.
unfoldable pub session : CopyIn → ℕ → List Cookie → Option (List (List ℕ))
session user page_size ms =
    write_all user page_size ms (init_device page_size) >>= read_all page_size (length ms)

-- On a fresh device, cookies that leave a byte of the page free come back in the order of their
-- writes, each with a newline for its last byte, if `copy_from_user` fails on none of them.
pub session_roundtrip :
    (user : CopyIn) (page_size : ℕ) (ms : List Cookie)
    → page_size < 2 ^ 31
    → ((buf : List ℕ) → user.left buf ≡ 0)
    → All IsText ms
    → length (encode ms) < page_size
    → session user page_size ms ≡ some (map line ms)
unfolding session init_device
session_roundtrip user page_size ms small whole texts fits =
    let (d, e, r) =
      write_all-Represents user page_size whole ms (init_device page_size) [] []
        (init_device-Represents page_size small) texts (omega arith) in
    rw (e, read_all-line page_size ms d [] r (omega (arith, r.writes)))
