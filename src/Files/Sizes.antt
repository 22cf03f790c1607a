-- ===== src/Files/Sizes.antt =====
-- What 8/open_file/src/3.c and 3_thread.c print of their file: its size after each call.
use sem_os.Base.{
  sizes, ℕ, suc, ◌+◌, ◌≤◌, ◌≡◌, refl, ap, Bool, true, false, List, [], ◌∷◌, ◌++◌, append-nil,
  append_assoc, ◌∙◌, arith, length, replicate, max,
}
use sem_os.Files.Appenders.{letters_of}
use sem_os.Files.Writers.{
  Two, flush, send, close_both, both, by_parity, holding, send-holding_first, send-holding_second,
  sent, sent-by_parity, length-sent, length-by_parity, send_all, send_all-holding, drop-nil,
}

-- `st_size` after each of the writes.
unfoldable pub send_sizes : (size : ℕ) → List (Bool × ℕ) → Two → List ℕ
send_sizes size [] t = []
send_sizes size ((to_second, c) ∷ es) t =
    let t' = send size to_second c t in length t'.contents ∷ send_sizes size es t'

-- After `fclose(fs1)`, and after `fclose(fs2)`.
unfoldable pub close_sizes : Two → List ℕ
unfolding flush close_both
close_sizes t = length (flush t.first t.contents).1 ∷ length (close_both t) ∷ []

-- The two sizes after the two `fopen`, those of the loop, and those of the end.
unfoldable pub sizes_3 : (size : ℕ) → List ℕ → List ℕ
unfolding send_sizes close_sizes
sizes_3 size cs =
    0
    ∷ 0
    ∷ (send_sizes size (by_parity cs) (both false)
        ++ close_sizes (send_all size (by_parity cs) (both false)))

send_sizes-holding :
    (size : ℕ) (es : List (Bool × ℕ)) (a : Bool) (x y : List ℕ)
    → length x + length (sent false es) ≤ size
    → length y + length (sent true es) ≤ size
    → send_sizes size es (holding a x y) ≡ replicate (length es) 0
unfolding send_sizes
send_sizes-holding size [] a x y f s = refl
send_sizes-holding size ((false, c) ∷ es) a x y f s =
    rw
      (
        send-holding_first size c a x y (omega arith),
        send_sizes-holding size es a (x ++ (c ∷ [])) y (omega sizes) s,
      )
      refl
send_sizes-holding size ((true, c) ∷ es) a x y f s =
    rw
      (
        send-holding_second size c a x y (omega arith),
        send_sizes-holding size es a x (y ++ (c ∷ [])) f (omega sizes),
      )
      refl

-- The sizes of two streams that are closed with all their letters.
close_sizes-holding :
    (x y : List ℕ) → close_sizes (holding false x y) ≡ length x ∷ max (length x) (length y) ∷ []
unfolding close_sizes flush close_both
close_sizes-holding x y =
    rw (drop-nil (length x), append-nil x) (ap (λ n. length x ∷ n ∷ []) (omega sizes))

-- The file of 3.c stays empty until the first stream is closed, if the letters fit the buffers; it
-- has the letters of an odd code then, and in the end as many as there are of the parity with more.
pub sizes_3_lem :
    (size : ℕ) (cs : List ℕ)
    → length cs ≤ size
    → sizes_3 size cs
      ≡ replicate (2 + length cs) 0
        ++ (length (letters_of 1 cs)
            ∷ (max (length (letters_of 1 cs)) (length (letters_of 0 cs)) ∷ []))
unfolding sizes_3
sizes_3_lem size cs h =
    let (o, e) = sent-by_parity cs in
    let (f, s) = length-sent (by_parity cs) in
    let f' : length (sent false (by_parity cs)) ≤ size = omega (arith, f, length-by_parity cs) in
    let s' : length (sent true (by_parity cs)) ≤ size = omega (arith, s, length-by_parity cs) in
    let two : 2 + length cs ≡ suc (suc (length cs)) = omega arith in
    rw
      (
        send_sizes-holding size (by_parity cs) false [] [] (omega arith) (omega arith),
        send_all-holding size false (by_parity cs) [] [] (omega arith) (omega arith),
        close_sizes-holding (sent false (by_parity cs)) (sent true (by_parity cs)),
        o,
        e,
        length-by_parity cs,
        two,
      )
      refl

-- 3_thread.c: what a thread does next, `false` for the first. PRINT_STAT is a `stat` into the one
-- `statbuf` of both threads, and an `fprintf`.
pub data Event : Type 0 where
  fprintf : (which : Bool) → ℕ → Event
  stat : Event
  print : (which : Bool) → Event

-- The lines of the threads, each with its size, and the streams behind them, from a size in `statbuf`.
unfoldable pub thread_sizes : (size : ℕ) → List Event → ℕ → Two → List (Bool × ℕ) × Two
thread_sizes size [] statbuf t = ([], t)
thread_sizes size (fprintf which c ∷ es) statbuf t =
    thread_sizes size es statbuf (send size which c t)
thread_sizes size (stat ∷ es) statbuf t = thread_sizes size es (length t.contents) t
thread_sizes size (print which ∷ es) statbuf t =
    let (shown, u) = thread_sizes size es statbuf t in ((which, statbuf) ∷ shown, u)

-- The lines of the threads, and those of the end.
unfoldable pub sizes_3_thread : (size : ℕ) → List Event → List (Bool × ℕ)
unfolding thread_sizes flush close_both
sizes_3_thread size es =
    let (shown, t) = thread_sizes size es 0 (both true) in
    shown ++ ((false, length (flush t.first t.contents).1) ∷ (true, length (close_both t)) ∷ [])

-- The letters that go to the streams, in their order, and the lines of the threads, with no size.
abbrev pub letters_in : List Event → List (Bool × ℕ)
letters_in [] = []
letters_in (fprintf which c ∷ es) = (which, c) ∷ letters_in es
letters_in (stat ∷ es) = letters_in es
letters_in (print which ∷ es) = letters_in es

abbrev pub empty_lines : List Event → List (Bool × ℕ)
empty_lines [] = []
empty_lines (fprintf which c ∷ es) = empty_lines es
empty_lines (stat ∷ es) = empty_lines es
empty_lines (print which ∷ es) = (which, 0) ∷ empty_lines es

thread_sizes-holding :
    (size : ℕ) (es : List Event) (x y : List ℕ)
    → length x + length (sent false (letters_in es)) ≤ size
    → length y + length (sent true (letters_in es)) ≤ size
    → thread_sizes size es 0 (holding true x y) ≡ (
      empty_lines es,
      holding true (x ++ sent false (letters_in es)) (y ++ sent true (letters_in es)),
    )
unfolding thread_sizes
thread_sizes-holding size [] x y f s = rw (append-nil x, append-nil y) refl
thread_sizes-holding size (fprintf false c ∷ es) x y f s =
    rw (send-holding_first size c true x y (omega arith)) (
      thread_sizes-holding size es (x ++ (c ∷ [])) y (omega sizes) s
      ∙ rw (append_assoc x (c ∷ [])) refl)
thread_sizes-holding size (fprintf true c ∷ es) x y f s =
    rw (send-holding_second size c true x y (omega arith)) (
      thread_sizes-holding size es x (y ++ (c ∷ [])) f (omega sizes)
      ∙ rw (append_assoc y (c ∷ [])) refl)
thread_sizes-holding size (stat ∷ es) x y f s = thread_sizes-holding size es x y f s
thread_sizes-holding size (print which ∷ es) x y f s =
    ap (λ r. ((which, 0) ∷ r.0, r.1)) (thread_sizes-holding size es x y f s)

-- In every order of the threads of 3_thread.c, every size that they print is 0, if the letters fit the
-- buffers; after the first `fclose` the file has the letters of the first, and then those of both.
pub sizes_3_thread_lem :
    (size : ℕ) (es : List Event)
    → length (letters_in es) ≤ size
    → let first = length (sent false (letters_in es)) in
      sizes_3_thread size es
      ≡ empty_lines es ++ ((false, first) ∷ (true, first + length (sent true (letters_in es))) ∷ [])
unfolding sizes_3_thread flush close_both
sizes_3_thread_lem size es h =
    let (f, s) = length-sent (letters_in es) in
    let a = sent false (letters_in es) in
    let b = sent true (letters_in es) in
    let all : length (a ++ b) ≡ length a + length b = omega sizes in
    rw
      (
        thread_sizes-holding size es [] [] (omega (arith, f)) (omega (arith, s)),
        drop-nil (length a),
        append-nil a,
        all,
      )
      refl
