-- ===== src/Sockets/Rounds.antt =====
-- One message to the server of 2/client-sever/epoll.
use sem_os.Base.{
  sizes, ℕ, ◌+◌, ◌-◌, ◌≤◌, ◌≡◌, refl, ◌∙◌, ap, true, some, List, [], ◌∷◌, ◌++◌, take, drop, store,
  length, arith, All-append, ◌≢◌, append_assoc, take_all, le→leb,
}
use sem_os.Memory.{IsText, c_string, c_string-text}
use sem_os.Sockets.Text.{decimal, sprintf, receive, length-decimal, decimal-IsText, sprintf-fits}
use sem_os.Sockets.Epoll.{
  buff_size, Event, readable, received, sent, told, closed, Run, before, within, answer, reply,
  serve,
}

-- The array with a NUL byte at its end.
pub last_nul :
    (buf : List ℕ)
    → length buf ≡ 32
    → (b : List ℕ) × (store buf (buff_size - 1) (0 ∷ []) ≡ some b) × (length b ≡ 32)
unfolding store
last_nul buf h =
    (take 31 buf ++ (0 ∷ drop 32 buf), rw (le→leb 32 (length buf) (omega arith)) refl, omega sizes)

-- A message: a text, its NUL byte, and what is behind it.
pub c_string-receive :
    (s junk buf : List ℕ)
    → IsText s
    → length (s ++ (0 ∷ junk)) ≤ 32
    → c_string (receive buff_size (s ++ (0 ∷ junk)) buf) ≡ some s
c_string-receive s junk buf t h = rw (take_all (s ++ (0 ∷ junk)) buff_size h) (
    ap c_string (append_assoc s (0 ∷ junk) (drop (length (s ++ (0 ∷ junk))) buf))
    ∙ c_string-text s (junk ++ drop (length (s ++ (0 ∷ junk))) buf) t)

pub reply_nonempty :
    (pid conn : ℕ) (from to s junk : List ℕ) (next : Run)
    → reply pid conn from to (s ++ (0 ∷ junk)) true next
      ≡ within (c_string (receive buff_size (s ++ (0 ∷ junk)) from)) (λ s'. before (received s') (
          within (sprintf to (answer pid s')) (λ msg.
            before (sent conn msg) (before (told (answer pid s')) (before (closed conn) next)))))
unfolding reply
reply_nonempty pid conn from to [] junk next = refl
reply_nonempty pid conn from to (c ∷ s) junk next = refl

-- What the server sends back.
abbrev pub sent_back : ℕ → List ℕ → List ℕ → List ℕ
sent_back pid to s = answer pid s ++ (0 ∷ drop (length (answer pid s) + 1) to)

pub length-answer : (pid : ℕ) (s : List ℕ) → length (answer pid s) ≤ 11 + length s
length-answer pid s = omega (sizes, length-decimal pid)

-- A text of at most 20 bytes is answered, and its connection closed.
pub serve_round :
    (pid conn : ℕ) (from to s junk : List ℕ) (es : List Event)
    → length from ≡ 32
    → length to ≡ 32
    → IsText s
    → length s ≤ 20
    → length (s ++ (0 ∷ junk)) ≤ 32
    → (to' : List ℕ) × (length to' ≡ 32)
      × (serve pid (readable conn from to (some (s ++ (0 ∷ junk))) true ∷ es)
          ≡ before (received s) (
              before
                (sent conn (sent_back pid to' s))
                (before (told (answer pid s)) (before (closed conn) (serve pid es)))))
unfolding serve
serve_round pid conn from to s junk es hf ht t short fits =
    let (to', e, n) = last_nul to ht in
    let (from', f, _) = last_nul from hf in
    (
      to',
      n,
      rw
          (
            e,
            f,
            reply_nonempty pid conn from' to' s junk (serve pid es),
            c_string-receive s junk from' t fits,
            sprintf-fits to' (answer pid s) (omega (arith, n, length-answer pid s)),
          )
          refl,
    )

pub answer-IsText : (pid : ℕ) (s : List ℕ) → IsText s → IsText (answer pid s)
answer-IsText pid s t =
    All-append (λ c. c ≢ 0) (decimal pid) (95 ∷ s) (decimal-IsText pid)
      ((λ e. absurd (omega arith)), t)
