-- ===== src/Fortune/Jar.antt =====
-- The abstract cookie jar, and when the device of 6/fortunka/fortune.c holds one.
use sem_os.Base.{
  ℕ, ◌+◌, ◌^◌, ◌<◌, ◌≡◌, refl, ap, ◌∙◌, Option, none, some, List, [], ◌∷◌, ◌++◌, append_assoc,
  length, length-append, All, sym,
}
use sem_os.Memory.{IsText}
use sem_os.Fortune.Device.{Fortune}

abbrev pub Cookie : Type 0
Cookie = List ℕ

-- The cookies in the order of their writes, split at the one that is read next.
pub record Jar : Type 0 where
  pub before : List Cookie
  pub after : List Cookie

unfoldable pub next_of : List Cookie → List Cookie → Option (Cookie × Jar)
next_of before (m ∷ after) = some (m, record { before = before ++ (m ∷ []); after = after })
next_of (m ∷ before) [] = some (m, record { before = m ∷ []; after = before })
next_of [] [] = none

-- The next cookie, cyclically, and the jar that waits for the one behind it.
unfoldable pub next : Jar → Option (Cookie × Jar)
unfolding next_of
next j = next_of j.before j.after

unfoldable pub add : Jar → Cookie → Jar
add j m = record j { after = j.after ++ (m ∷ []) }

-- Each cookie with its NUL byte.
abbrev pub encode : List Cookie → List ℕ
encode [] = []
encode (m ∷ ms) = m ++ (0 ∷ encode ms)

pub encode-append : (ms ns : List Cookie) → encode (ms ++ ns) ≡ encode ms ++ encode ns
encode-append [] ns = refl
encode-append (m ∷ ms) ns =
    ap (λ t. m ++ (0 ∷ t)) (encode-append ms ns) ∙ sym (append_assoc m (0 ∷ encode ms) (encode ns))

pub length-encode-snoc :
    (ms : List Cookie) (m : Cookie)
    → length (encode (ms ++ (m ∷ []))) ≡ length (encode ms) + (length m + 1)
length-encode-snoc ms m =
    rw (encode-append ms (m ∷ []), length-append (encode ms), length-append m (0 ∷ []))

-- The device `d`, with buffers of `page_size` bytes, holds the jar `j`.
pub record Represents (page_size : ℕ) (d : Fortune) (j : Jar) : Type 0 where
  pub pad : List ℕ
  pub pot : d.cookie_pot ≡ encode j.before ++ (encode j.after ++ pad)
  pub reads : d.read_ind ≡ length (encode j.before)
  pub writes : d.write_ind ≡ length (encode j.before) + length (encode j.after)
  pub pot_size : length d.cookie_pot ≡ page_size
  pub tmp_size : length d.tmp_buf ≡ page_size
  pub small : page_size < 2 ^ 31
  pub read_texts : All IsText j.before
  pub unread_texts : All IsText j.after
