-- ===== src/Sockets/Answers.antt =====
-- What the server of 2/client-sever/socket(send-receive-respond) answers, and an exchange with its
-- client.
use sem_os.Base.{
  sizes, ℕ, zero, suc, ◌+◌, ◌≤◌, ◌<◌, ◌^◌, ◌≡◌, ◌≢◌, refl, sym, ◌∙◌, ap, Bool, true, Option, none,
  some, List, [], ◌∷◌, ◌++◌, take, drop, store, store-pad, store-out_of_range, length,
  length-append, arith, All, All-append, append_assoc, take_all,
}
use sem_os.Memory.{IsText, c_string, c_string-text}
use sem_os.Sockets.Text.{
  decimal, receive, length-decimal, length-decimal-below, length-decimal-above, decimal-IsText,
  sprintf-fits, c_string-found,
}
use sem_os.Sockets.Respond.{
  buffer_size, Event, message, Output, recv, send, sent, waits, exited, out_of_bounds, before,
  answer, serve, client, socket_suffix,
}

-- An array of 64 bytes that ends with a NUL byte.
pub record IsEnded (buf : List ℕ) : Type 0 where
  pub front : List ℕ
  pub whole : buf ≡ front ++ (0 ∷ [])
  pub size : length front ≡ 63

drop-front :
    (n : ℕ) (front rest : List ℕ) → n ≤ length front → drop n (front ++ rest) ≡ drop n front ++ rest
drop-front zero front rest h = refl
drop-front (suc n) [] rest h = absurd (omega arith)
drop-front (suc n) (c ∷ front) rest h = drop-front n front rest (omega arith)

length-answer : (pid : ℕ) (s : List ℕ) → length (answer pid s) ≤ 16 + length s
length-answer pid s = omega (sizes, length-decimal pid)

-- What is in an array after a message, and after the NUL byte behind it.
record Received (buf m : List ℕ) : Type 0 where
  printed : List ℕ
  ended : List ℕ
  shown : c_string (receive buffer_size m buf) ≡ some printed
  stored : store (receive buffer_size m buf) (length (take buffer_size m)) (0 ∷ []) ≡ some ended
  text : c_string ended ≡ some m
  next : IsEnded ended

receive_lem : (buf m : List ℕ) → IsEnded buf → IsText m → length m < 63 → Received buf m
receive_lem buf m k t h =
    let n = length m in
    let all = take_all m buffer_size (omega arith) in
    let rest = drop n k.front ++ (0 ∷ []) in
    let read : receive buffer_size m buf ≡ m ++ rest =
      rw (all, k.whole, drop-front n k.front (0 ∷ []) (omega (arith, k.size))) refl in
    let (s, found) = c_string-found (m ++ drop n k.front) [] in
    let moved : drop 1 rest ≡ drop 1 (drop n k.front) ++ (0 ∷ []) =
      drop-front 1 (drop n k.front) (0 ∷ []) (omega (sizes, k.size)) in
    record {
      printed = s;
      ended = m ++ (0 ∷ drop 1 rest);
      shown = rw (read, ← append_assoc m (drop n k.front) (0 ∷ [])) found;
      stored = rw (read, all) (store-pad m (0 ∷ []) rest n refl (omega sizes));
      text = c_string-text m (drop 1 rest) t;
      next = record {
        front = m ++ (0 ∷ drop 1 (drop n k.front));
        whole = rw moved (sym (append_assoc m (0 ∷ drop 1 (drop n k.front)) (0 ∷ [])));
        size = omega (sizes, k.size);
      };
    }

-- One message: it is shown in some way, and answered.
record Answered (pid from : ℕ) (buf copy_buf m : List ℕ) (es : List Event) : Type 0 where
  printed : List ℕ
  ended : List ℕ
  copied : List ℕ
  round :
      serve pid buf copy_buf (message from m true ∷ es)
      ≡ before (recv printed) (
          before
            (send (answer pid m))
            (before (sent from (answer pid m ++ (0 ∷ []))) (serve pid ended copied es)))
  ended-IsEnded : IsEnded ended
  copied_size : length copied ≡ 64

serve_round :
    (pid from : ℕ) (buf copy_buf m : List ℕ) (es : List Event)
    → IsEnded buf
    → length copy_buf ≡ 64
    → IsText m
    → length m < 48
    → Answered pid from buf copy_buf m es
unfolding serve
serve_round pid from buf copy_buf m es k c t h =
    let r = receive_lem buf m k t (omega arith) in
    let s = answer pid m in
    let small : length s < 64 = omega (arith, length-answer pid m) in
    record {
      printed = r.printed;
      ended = r.ended;
      copied = s ++ (0 ∷ drop (length s + 1) copy_buf);
      round = rw (r.shown, r.stored, r.text, sprintf-fits copy_buf s (omega arith)) refl;
      ended-IsEnded = r.next;
      copied_size = omega (sizes, small);
    }

-- The messages that are sent, with where they go.
abbrev pub sent_of : List Output → List (ℕ × List ℕ)
sent_of [] = []
sent_of (sent to s ∷ os) = (to, s) ∷ sent_of os
sent_of (_ ∷ os) = sent_of os

abbrev pub messages : List (ℕ × List ℕ) → List Event
messages [] = []
messages ((from, m) ∷ ms) = message from m true ∷ messages ms

abbrev pub answers : ℕ → List (ℕ × List ℕ) → List (ℕ × List ℕ)
answers pid [] = []
answers pid ((from, m) ∷ ms) = (from, answer pid m ++ (0 ∷ [])) ∷ answers pid ms

-- Every client is answered with its own message, whatever longer messages have left in the buffer,
-- for texts of fewer than 48 bytes, if the buffer of 64 bytes ends with a NUL byte at the start
-- and each answer can be sent.
pub serve-answers :
    (pid : ℕ) (buf copy_buf : List ℕ) (ms : List (ℕ × List ℕ))
    → IsEnded buf
    → length copy_buf ≡ 64
    → All (λ m. IsText m.1 × (length m.1 < 48)) ms
    → (outs : List Output) × (serve pid buf copy_buf (messages ms) ≡ (outs, waits))
      × (sent_of outs ≡ answers pid ms)
serve-answers pid buf copy_buf [] k c h = ([], unfold serve in refl, refl)
serve-answers pid buf copy_buf ((from, m) ∷ ms) k c h =
    let a = serve_round pid from buf copy_buf m (messages ms) k c h.0.0 h.0.1 in
    let (outs, e, s) = serve-answers pid a.ended a.copied ms a.ended-IsEnded a.copied_size h.1 in
    (
      recv a.printed ∷ send (answer pid m) ∷ sent from (answer pid m ++ (0 ∷ [])) ∷ outs,
      rw (a.round, e) refl,
      rw s refl,
    )

abbrev pub first : List (ℕ × List ℕ) → Option (List ℕ)
first [] = none
first ((to, s) ∷ ms) = some s

-- What the client shows of a text that it is sent with its NUL byte.
client_receives :
    (buf s : List ℕ)
    → length buf ≡ 64
    → IsText s
    → length s < 63
    → (ended : List ℕ) × (store
          (receive buffer_size (s ++ (0 ∷ [])) buf)
          (length (take buffer_size (s ++ (0 ∷ []))))
          (0 ∷ [])
        ≡ some ended)
      × (c_string ended ≡ some s)
client_receives buf s b t h =
    let m = s ++ (0 ∷ []) in
    let size : length m ≡ length s + 1 = length-append s (0 ∷ []) in
    let all = take_all m buffer_size (omega (arith, size)) in
    let rest = drop (length m) buf in
    (
      m ++ (0 ∷ drop 1 rest),
      rw all (store-pad m (0 ∷ []) rest (length m) refl (omega (sizes, size))),
      ap c_string (append_assoc s (0 ∷ []) (0 ∷ drop 1 rest)) ∙ c_string-text s (0 ∷ drop 1 rest) t,
    )

answer-IsText : (pid : ℕ) (s : List ℕ) → IsText s → IsText (answer pid s)
answer-IsText pid s t =
    All-append (λ c. c ≢ 0) (decimal pid) (32 ∷ 45 ∷ 45 ∷ 62 ∷ 32 ∷ (s ++ (10 ∷ [])))
      (decimal-IsText pid)
      (All-append (λ c. c ≢ 0) (32 ∷ 45 ∷ 45 ∷ 62 ∷ 32 ∷ []) (s ++ (10 ∷ [])) (ground arith)
        (All-append (λ c. c ≢ 0) s (10 ∷ []) t (ground arith)))

-- A client with a process id of at most six digits sends it to the server, and shows the id of the
-- server with its own behind it.
pub client-serve :
    (pid server_pid : ℕ) (sa_data client_buf buf copy_buf : List ℕ)
    → pid < 10 ^ 6
    → length sa_data ≡ 14
    → length client_buf ≡ 64
    → IsEnded buf
    → length copy_buf ≡ 64
    → client true true true pid sa_data client_buf
        (λ m. first (sent_of (serve server_pid buf copy_buf (message pid m true ∷ [])).0))
      ≡ (
        sent 0 (decimal pid) ∷ send (decimal pid) ∷ recv (answer server_pid (decimal pid)) ∷ [],
        exited 0,
      )
unfolding client
client-serve pid server_pid sa_data client_buf buf copy_buf h d b k c =
    let me = decimal pid in
    let short : length me ≤ 6 = length-decimal-below 5 pid h in
    let name : length (me ++ socket_suffix) < length sa_data = omega (sizes, short) in
    let buf' : List ℕ = me ++ (0 ∷ drop (length me + 1) client_buf) in
    let size : length buf' ≡ 64 = omega (sizes, short) in
    let (outs, e, s) =
      serve-answers server_pid buf copy_buf ((pid, me) ∷ []) k c
        ((decimal-IsText pid, omega arith), tt) in
    let reply = answer server_pid me in
    let (ended, stored, shown) =
      client_receives buf' reply size (answer-IsText server_pid me (decimal-IsText pid))
        (omega (arith, short, length-answer server_pid me)) in
    rw
      (
        sprintf-fits sa_data (me ++ socket_suffix) name,
        sprintf-fits client_buf me (omega arith),
        e,
        s,
        stored,
        shown,
      )
      refl

-- With a process id of seven digits or more the name of the client's socket is written past the 14
-- bytes of the address, once `socket` has succeeded.
pub client-overflows :
    (bind sends : Bool) (pid : ℕ) (sa_data buf : List ℕ) (reply : List ℕ → Option (List ℕ))
    → 10 ^ 6 ≤ pid
    → length sa_data ≡ 14
    → client true bind sends pid sa_data buf reply ≡ ([], out_of_bounds)
unfolding client
client-overflows bind sends pid sa_data buf reply h d =
    let name = decimal pid ++ socket_suffix in
    let long : 13 < length name = omega (sizes, length-decimal-above 6 pid h (omega arith)) in
    rw (store-out_of_range sa_data (name ++ (0 ∷ [])) 0 (omega (sizes, long))) refl
