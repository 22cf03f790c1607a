-- ===== src/Files/Writers.antt =====
-- 8/open_file/src/3.c and 3_thread.c: two buffered streams that write one file.
use sem_os.Base.{
  sizes, ℕ, zero, suc, ◌+◌, ◌%◌, ◌≤◌, ◌<◌, ◌≡◌, refl, ap, ◌∙◌, Bool, true, false, List, [], ◌∷◌,
  ◌++◌, append_assoc, append-nil, ◌==◌, if◌then◌else◌, ltb, lt→ltb, arith, Bool-cases, inl, inr,
  length, drop,
}
use sem_os.Files.Appenders.{letters_of}

-- A `FILE` that is written: its buffer, and where a `write` of its descriptor goes.
pub record Stream : Type 0 where
  pub buffer : List ℕ
  pub offset : ℕ
  pub appends : Bool

-- A `write` at an offset, with zeros before it if the file is shorter.
abbrev pub write_at : List ℕ → ℕ → List ℕ → List ℕ
write_at contents zero bytes = bytes ++ drop (length bytes) contents
write_at [] (suc n) bytes = 0 ∷ write_at [] n bytes
write_at (x ∷ contents) (suc n) bytes = x ∷ write_at contents n bytes

-- The buffer goes to the file.
unfoldable pub flush : Stream → List ℕ → Stream × List ℕ
flush s contents = (
  record s { buffer = []; offset = s.offset + length s.buffer },
  if s.appends then contents ++ s.buffer else write_at contents s.offset s.buffer,
)

-- `fprintf(fs, "%c", c)`: a buffer of `size` bytes that is full is written first.
unfoldable pub fputc : (size : ℕ) → ℕ → Stream → List ℕ → Stream × List ℕ
unfolding flush
fputc size c s contents =
    if ltb (length s.buffer) size
    then (record s { buffer = s.buffer ++ (c ∷ []) }, contents)
    else (let (s', contents') = flush s contents in (record s' { buffer = c ∷ [] }, contents'))

-- The two streams and the file.
pub record Two : Type 0 where
  pub first : Stream
  pub second : Stream
  pub contents : List ℕ

-- `fopen(…, "w")` empties the file.
abbrev pub opened : Bool → Stream
opened appends = record { buffer = []; offset = 0; appends = appends }

abbrev pub both : (second_appends : Bool) → Two
both second_appends = record { first = opened false; second = opened second_appends; contents = [] }

-- One write to the first stream or to the second.
unfoldable pub send : (size : ℕ) → (to_second : Bool) → ℕ → Two → Two
unfolding fputc
send size false c t =
    let (s, contents) = fputc size c t.first t.contents in
    record t { first = s; contents = contents }
send size true c t =
    let (s, contents) = fputc size c t.second t.contents in
    record t { second = s; contents = contents }

unfoldable pub send_all : (size : ℕ) → List (Bool × ℕ) → Two → Two
send_all size [] t = t
send_all size ((to_second, c) ∷ es) t = send_all size es (send size to_second c t)

-- `fclose` of the first, and then of the second.
unfoldable pub close_both : Two → List ℕ
unfolding flush
close_both t =
    let (_, contents) = flush t.first t.contents in
    let (_, contents') = flush t.second contents in contents'

-- 3.c: both streams with "w". Letters of an odd code go to the first.
abbrev pub by_parity : List ℕ → List (Bool × ℕ)
by_parity [] = []
by_parity (c ∷ cs) = (c % 2 == 0, c) ∷ by_parity cs

unfoldable pub program_3 : (size : ℕ) → List ℕ → List ℕ
unfolding send_all close_both
program_3 size cs = close_both (send_all size (by_parity cs) (both false))

-- 3_thread.c: the second stream with "a". The threads write in the order `es`, each its letters.
unfoldable pub program_3_thread : (size : ℕ) → List (Bool × ℕ) → List ℕ
unfolding send_all close_both
program_3_thread size es = close_both (send_all size es (both true))

-- What is sent to one of the streams.
abbrev pub sent : Bool → List (Bool × ℕ) → List ℕ
sent which [] = []
sent true ((true, c) ∷ es) = c ∷ sent true es
sent true ((false, c) ∷ es) = sent true es
sent false ((true, c) ∷ es) = sent false es
sent false ((false, c) ∷ es) = c ∷ sent false es

fputc-room :
    (size c : ℕ) (s : Stream) (contents : List ℕ)
    → length s.buffer < size
    → fputc size c s contents ≡ (record s { buffer = s.buffer ++ (c ∷ []) }, contents)
unfolding fputc
fputc-room size c s contents h = rw (lt→ltb (length s.buffer) size h) refl

-- Nothing is written yet, and the streams hold `x` and `y`.
abbrev pub holding : Bool → List ℕ → List ℕ → Two
holding a x y = record {
  first = record { buffer = x; offset = 0; appends = false };
  second = record { buffer = y; offset = 0; appends = a };
  contents = [];
}

-- A letter that fits the buffer of its stream.
pub send-holding_first :
    (size c : ℕ) (a : Bool) (x y : List ℕ)
    → length x < size
    → send size false c (holding a x y) ≡ holding a (x ++ (c ∷ [])) y
unfolding send
send-holding_first size c a x y h = rw (fputc-room size c (holding a x y).first [] h) refl

pub send-holding_second :
    (size c : ℕ) (a : Bool) (x y : List ℕ)
    → length y < size
    → send size true c (holding a x y) ≡ holding a x (y ++ (c ∷ []))
unfolding send
send-holding_second size c a x y h = rw (fputc-room size c (holding a x y).second [] h) refl

-- While all fits the buffers, nothing is written before the streams are closed.
pub send_all-holding :
    (size : ℕ) (a : Bool) (es : List (Bool × ℕ)) (x y : List ℕ)
    → length x + length (sent false es) ≤ size
    → length y + length (sent true es) ≤ size
    → send_all size es (holding a x y) ≡ holding a (x ++ sent false es) (y ++ sent true es)
unfolding send_all
send_all-holding size a [] x y f s = rw (append-nil x, append-nil y) refl
send_all-holding size a ((false, c) ∷ es) x y f s =
    rw (send-holding_first size c a x y (omega arith)) (
      send_all-holding size a es (x ++ (c ∷ [])) y (omega sizes) s
      ∙ rw (append_assoc x (c ∷ [])) refl)
send_all-holding size a ((true, c) ∷ es) x y f s =
    rw (send-holding_second size c a x y (omega arith)) (
      send_all-holding size a es x (y ++ (c ∷ [])) f (omega sizes)
      ∙ rw (append_assoc y (c ∷ [])) refl)

pub sent-by_parity :
    (cs : List ℕ)
    → (sent false (by_parity cs) ≡ letters_of 1 cs) × (sent true (by_parity cs) ≡ letters_of 0 cs)
sent-by_parity [] = (refl, refl)
sent-by_parity (c ∷ cs) =
    let (o, e) = sent-by_parity cs in
    elim (Bool-cases (c % 2 == 0)) [
      | inl even ↦
          let not_odd : (c % 2 == 1) ≡ false = ground arith in
          rw (even, not_odd) (o, ap (λ xs. c ∷ xs) e)
      | inr odd ↦
          let is_odd : (c % 2 == 1) ≡ true = ground arith in
          rw (odd, is_odd) (ap (λ xs. c ∷ xs) o, e)
    ]

pub length-sent :
    (es : List (Bool × ℕ))
    → (length (sent false es) ≤ length es) × (length (sent true es) ≤ length es)
length-sent [] = omega arith
length-sent ((false, c) ∷ es) = omega (arith, length-sent es)
length-sent ((true, c) ∷ es) = omega (arith, length-sent es)

pub length-by_parity : (cs : List ℕ) → length (by_parity cs) ≡ length cs
length-by_parity [] = refl
length-by_parity (c ∷ cs) = omega (arith, length-by_parity cs)

pub drop-nil : (n : ℕ) → drop {A = ℕ} n [] ≡ []
drop-nil zero = refl
drop-nil (suc n) = refl

-- 3.c, with letters that fit the buffers: the stream that is closed last writes over what the other
-- one has written, so the file begins with the letters of an even code, and only what is longer of
-- the others is left behind them.
pub program_3_lem :
    (size : ℕ) (cs : List ℕ)
    → length cs ≤ size
    → program_3 size cs ≡ letters_of 0 cs ++ drop (length (letters_of 0 cs)) (letters_of 1 cs)
unfolding program_3 close_both
program_3_lem size cs h =
    let (o, e) = sent-by_parity cs in
    let (f, s) = length-sent (by_parity cs) in
    rw
      (
        send_all-holding size false (by_parity cs) [] [] (omega (arith, f, length-by_parity cs))
            (omega (arith, s, length-by_parity cs)),
        o,
        e,
        drop-nil (length (letters_of 1 cs)),
        append-nil,
      )
      refl

-- 3_thread.c, with letters that fit the buffers: whatever the order of the two threads, the file has
-- all letters, those of the first stream before those of the stream that appends.
pub program_3_thread_lem :
    (size : ℕ) (es : List (Bool × ℕ))
    → length es ≤ size
    → program_3_thread size es ≡ sent false es ++ sent true es
unfolding program_3_thread close_both
program_3_thread_lem size es h =
    let (f, s) = length-sent es in
    rw
      (
        send_all-holding size true es [] [] (omega (arith, f)) (omega (arith, s)),
        drop-nil (length (sent false es)),
        append-nil,
      )
      refl
