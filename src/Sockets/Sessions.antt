-- ===== src/Sockets/Sessions.antt =====
-- What the server of 2/client-sever/epoll answers over many connections, and what a client shows.
use sem_os.Base.{
  sizes, ℕ, ◌+◌, ◌≤◌, ◌<◌, ◌≡◌, refl, true, Option, none, some, List, [], ◌∷◌, ◌++◌, drop, length,
  arith, All, ◌≢◌, store-out_of_range, ne→==,
}
use sem_os.Memory.{IsText, c_string, c_string-text}
use sem_os.Sockets.Text.{
  decimal, length-decimal, decimal-IsText, sprintf-fits, length-decimal-above,
}
use sem_os.Sockets.Epoll.{
  Event, listening, readable, Output, added, received, sent, told, closed, waits, exited,
  out_of_bounds, before, answer, reply, serve, client,
}
use sem_os.Sockets.Rounds.{
  last_nul, c_string-receive, reply_nonempty, sent_back, length-answer, serve_round, answer-IsText,
}

-- What happens at the server: a client connects, sends its process id in an array with whatever is
-- behind the NUL byte, or closes its connection.
pub data Op : Type 0 where
  joins : (conn : ℕ) → Op
  asks : (conn client_pid : ℕ) (junk msg_from msg_to : List ℕ) → Op
  leaves : (conn : ℕ) (msg_from msg_to : List ℕ) → Op

abbrev pub events : List Op → List Event
events [] = []
events (joins conn ∷ ops) = listening (some conn) true true ∷ events ops
events (asks conn client_pid junk from to ∷ ops) =
    readable conn from to (some (decimal client_pid ++ (0 ∷ junk))) true ∷ events ops
events (leaves conn from to ∷ ops) = readable conn from to (some []) true ∷ events ops

-- The arrays have 32 bytes, and the message fits one.
abbrev pub FitsOp : Op → Type 0
FitsOp (joins conn) = Unit
FitsOp (asks conn client_pid junk from to) =
    (length from ≡ 32) × (length to ≡ 32) × (length (decimal client_pid ++ (0 ∷ junk)) ≤ 32)
FitsOp (leaves conn from to) = (length from ≡ 32) × (length to ≡ 32)

-- The texts that are sent back, and the connections that are closed, in order.
abbrev pub texts : List Output → List (ℕ × Option (List ℕ))
texts [] = []
texts (sent conn msg ∷ os) = (conn, c_string msg) ∷ texts os
texts (_ ∷ os) = texts os

abbrev pub closes : List Output → List ℕ
closes [] = []
closes (closed conn ∷ os) = conn ∷ closes os
closes (_ ∷ os) = closes os

abbrev pub answers : ℕ → List Op → List (ℕ × Option (List ℕ))
answers pid [] = []
answers pid (asks conn client_pid junk from to ∷ ops) =
    (conn, some (answer pid (decimal client_pid))) ∷ answers pid ops
answers pid (_ ∷ ops) = answers pid ops

abbrev pub handled : List Op → List ℕ
handled [] = []
handled (joins conn ∷ ops) = handled ops
handled (asks conn client_pid junk from to ∷ ops) = conn ∷ handled ops
handled (leaves conn from to ∷ ops) = conn ∷ handled ops

serve_joins :
    (pid conn : ℕ) (es : List Event)
    → serve pid (listening (some conn) true true ∷ es) ≡ before (added conn) (serve pid es)
unfolding serve
serve_joins pid conn es = refl

serve_leaves :
    (pid conn : ℕ) (from to : List ℕ) (es : List Event)
    → length from ≡ 32
    → length to ≡ 32
    → serve pid (readable conn from to (some []) true ∷ es) ≡ before (closed conn) (serve pid es)
unfolding serve reply
serve_leaves pid conn from to es hf ht =
    let (to', e, _) = last_nul to ht in let (from', f, _) = last_nul from hf in rw (e, f) refl

sent_back-text :
    (pid : ℕ) (to s : List ℕ) → IsText s → c_string (sent_back pid to s) ≡ some (answer pid s)
sent_back-text pid to s t = c_string-text (answer pid s) _ (answer-IsText pid s t)

-- In whatever order clients connect, ask and leave, while no call fails, the server sends each one
-- that asks its own process id with that of the client behind it, over the client's connection,
-- closes that connection and those of the clients that leave, and waits for more. A client asks
-- with its process id and at most 32 bytes, and the arrays have 32 bytes, whatever they hold.
pub serve_sessions :
    (pid : ℕ) (ops : List Op)
    → All FitsOp ops
    → (outs : List Output) × (serve pid (events ops) ≡ (outs, waits))
      × (texts outs ≡ answers pid ops)
      × (closes outs ≡ handled ops)
serve_sessions pid [] h = ([], unfold serve in refl, refl, refl)
serve_sessions pid (joins conn ∷ ops) h =
    let (outs, e, t, c) = serve_sessions pid ops h.1 in
    (added conn ∷ outs, rw (serve_joins pid conn (events ops), e) refl, t, c)
serve_sessions pid (leaves conn from to ∷ ops) h =
    let (outs, e, t, c) = serve_sessions pid ops h.1 in
    (
      closed conn ∷ outs,
      rw (serve_leaves pid conn from to (events ops) h.0.0 h.0.1, e) refl,
      t,
      rw c refl,
    )
serve_sessions pid (asks conn client_pid junk from to ∷ ops) h =
    let (outs, e, t, c) = serve_sessions pid ops h.1 in
    let s = decimal client_pid in
    let (to', _, r) =
      serve_round pid conn from to s junk (events ops) h.0.0 h.0.1 (decimal-IsText client_pid)
        (omega (arith, length-decimal client_pid)) h.0.2 in
    (
      received s ∷ sent conn (sent_back pid to' s) ∷ told (answer pid s) ∷ closed conn ∷ outs,
      rw (r, e) refl,
      rw (sent_back-text pid to' s (decimal-IsText client_pid), t) refl,
      rw c refl,
    )

-- A text of 30 bytes leaves no room for the process id of the server before it.
pub serve-overflows :
    (pid conn : ℕ) (from to s junk : List ℕ) (es : List Event)
    → length from ≡ 32
    → length to ≡ 32
    → IsText s
    → 30 ≤ length s
    → 0 < pid
    → length (s ++ (0 ∷ junk)) ≤ 32
    → serve pid (readable conn from to (some (s ++ (0 ∷ junk))) true ∷ es)
      ≡ (received s ∷ [], out_of_bounds)
unfolding serve
serve-overflows pid conn from to s junk es hf ht t long p fits =
    let (to', e, n) = last_nul to ht in
    let (from', f, _) = last_nul from hf in
    let past : length to' < 0 + length (answer pid s ++ (0 ∷ [])) =
      omega (sizes, n, long, length-decimal-above 0 pid (omega arith) (omega arith)) in
    rw
      (
        e,
        f,
        reply_nonempty pid conn from' to' s junk (serve pid es),
        c_string-receive s junk from' t fits,
        store-out_of_range to' (answer pid s ++ (0 ∷ [])) 0 past,
      )
      refl

abbrev pub first_sent : List Output → Option (List ℕ)
first_sent [] = none
first_sent (sent conn msg ∷ os) = some msg
first_sent (_ ∷ os) = first_sent os

-- A client that gets a descriptor other than 1 sends its process id to the server, and shows that
-- of the server with its own behind it, if no call fails, whatever the arrays of 32 bytes of the
-- two held.
pub client_shows :
    (sock pid server_pid conn : ℕ) (msg_to msg_from from to : List ℕ)
    → sock ≢ 1
    → length msg_to ≡ 32
    → length msg_from ≡ 32
    → length from ≡ 32
    → length to ≡ 32
    → (msg : List ℕ) × (client
          (some sock)
          (λ _. true)
          true
          pid
          msg_to
          msg_from
          (λ m. first_sent (serve server_pid (readable conn from to (some m) true ∷ [])).0)
        ≡ (
          sent 0 msg
              ∷ told (decimal pid)
              ∷ received (answer server_pid (decimal pid))
              ∷ closed 0
              ∷ [],
          exited 0,
        ))
      × (c_string msg ≡ some (decimal pid))
unfolding client
client_shows sock pid server_pid conn msg_to msg_from from to other ht hf sf st =
    let me = decimal pid in
    let (to', e, n) = last_nul msg_to ht in
    let (from', f, m) = last_nul msg_from hf in
    let small = length-decimal pid in
    let junk = drop (length me + 1) to' in
    let size : length (me ++ (0 ∷ junk)) ≤ 32 = omega (sizes, n, small) in
    let (server_to, k, r) =
      serve_round server_pid conn from to me junk [] sf st (decimal-IsText pid)
        (omega (arith, small)) size in
    let s = answer server_pid me in
    let rest = drop (length s + 1) server_to in
    let back : length (s ++ (0 ∷ rest)) ≤ 32 =
      omega (sizes, k, small, length-answer server_pid me) in
    (
      me ++ (0 ∷ junk),
      rw
          (
            ne→== sock 1 other,
            e,
            f,
            sprintf-fits to' me (omega (arith, n, small)),
            r,
            c_string-receive s rest from' (answer-IsText server_pid me (decimal-IsText pid)) back,
          )
          refl,
      c_string-text me junk (decimal-IsText pid),
    )
