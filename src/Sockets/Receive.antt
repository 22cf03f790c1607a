-- ===== src/Sockets/Receive.antt =====
-- 2/client-sever/socket(send-receive): a server that prints the datagrams it gets, and its client.
use sem_os.Base.{
  sizes, ℕ, ◌+◌, ◌-◌, ◌≤◌, ◌<◌, ◌≡◌, refl, sym, ◌∙◌, ap, Bool, true, false, if◌then◌else◌, Option,
  none, some, List, [], ◌∷◌, ◌++◌, take, drop, store, store-pad, store-out_of_range, length,
  length-append, arith, append_assoc, append-nil, take_all,
}
use sem_os.Memory.{IsText, c_string, c_string-text}
use sem_os.Sockets.Text.{decimal, sprintf, receive, length-decimal, decimal-IsText, sprintf-fits}

abbrev pub buffer_size : ℕ
buffer_size = 64

-- What the server waits for: a datagram, a `read` that fails, or SIGINT.
pub data Event : Type 0 where
  datagram : List ℕ → Event
  read_fails : Event
  sigint : Event

pub data Output : Type 0 where
  read : List ℕ → Output
  send : List ℕ → Output
  sent : List ℕ → Output
  shutdown : Output
  error : Output

-- How a server ends, and whether it leaves its name in the file system, where the `bind` of the next
-- one fails.
pub data End : Type 0 where
  waits : End
  exited : (code : ℕ) (leaves_name : Bool) → End
  out_of_bounds : End

abbrev pub Run : Type 0
Run = List Output × End

abbrev pub before : Output → Run → Run
before o r = (o ∷ r.0, r.1)

abbrev pub within {ℓ} : {A : Type ℓ} → Option A → (A → Run) → Run
within none k = ([], out_of_bounds)
within (some a) k = k a

-- The loop, over the array `buf`.
unfoldable pub serve : (buf : List ℕ) → List Event → Run
serve buf [] = ([], waits)
serve buf (sigint ∷ es) = (shutdown ∷ [], exited 0 false)
serve buf (read_fails ∷ es) = (error ∷ [], exited 1 true)
serve buf (datagram bytes ∷ es) =
    let bytes_read = length (take buffer_size bytes) in
    within (store (receive buffer_size bytes buf) bytes_read (0 ∷ []))
      (λ ended. within (c_string ended) (λ s. before (read s) (serve ended es)))

-- `main`: `taken` says whether the name of the socket exists before.
unfoldable pub sever : (socket taken signal : Bool) (buf : List ℕ) → List Event → Run
unfolding serve
sever socket taken signal buf es =
    if socket
    then (if taken
        then (error ∷ [], exited 1 true)
        else if signal
        then serve buf es
        else (error ∷ [], exited 1 true))
    else (error ∷ [], exited 1 taken)

-- The process id of the client, as the text in its array.
unfoldable pub client_text : (pid : ℕ) (buf : List ℕ) → Option (List ℕ)
client_text pid buf = elim (sprintf buf (decimal pid)) [
  | none ↦ none
  | some written ↦ c_string written
]

-- `main` of the client, which sends the text with its NUL byte.
unfoldable pub client : (socket sends : Bool) (pid : ℕ) (buf : List ℕ) → Run
unfolding client_text
client socket sends pid buf =
    if socket
    then within (client_text pid buf) (λ s.
      before (send s) (
        if sends
        then (sent (s ++ (0 ∷ [])) ∷ [], exited 0 false)
        else (error ∷ [], exited 1 false)))
    else (error ∷ [], exited 1 false)

client_text_lem :
    (pid : ℕ) (buf : List ℕ) → length buf ≡ 64 → client_text pid buf ≡ some (decimal pid)
unfolding client_text
client_text_lem pid buf b =
    rw
      (
        client_text,
        sprintf-fits buf (decimal pid) (omega (arith, length-decimal pid)),
        c_string-text (decimal pid) (drop (length (decimal pid) + 1) buf) (decimal-IsText pid),
      )
      refl

-- The client sends its process id, whatever its array holds.
pub client_lem :
    (pid : ℕ) (buf : List ℕ)
    → length buf ≡ 64
    → client true true pid buf
      ≡ (send (decimal pid) ∷ sent (decimal pid ++ (0 ∷ [])) ∷ [], exited 0 false)
unfolding client
client_lem pid buf b = rw (client_text_lem pid buf b) refl

-- The datagrams of clients, and what the server shows of them.
abbrev pub datagrams : List ℕ → List Event
datagrams [] = []
datagrams (pid ∷ pids) = datagram (decimal pid ++ (0 ∷ [])) ∷ datagrams pids

abbrev pub shown : List ℕ → List Output
shown [] = []
shown (pid ∷ pids) = read (decimal pid) ∷ shown pids

-- A datagram that is shorter than the array.
serve_round :
    (buf s : List ℕ) (es : List Event)
    → length buf ≡ 64
    → IsText s
    → length s < 63
    → (ended : List ℕ) × (serve buf (datagram (s ++ (0 ∷ [])) ∷ es)
        ≡ before (read s) (serve ended es))
      × (length ended ≡ 64)
unfolding serve
serve_round buf s es b t h =
    let m = s ++ (0 ∷ []) in
    let size : length m ≡ length s + 1 = length-append s (0 ∷ []) in
    let all = take_all m buffer_size (omega (arith, size)) in
    let rest = drop (length m) buf in
    let left : length rest ≡ 64 - length m = omega sizes in
    let stored = store-pad m (0 ∷ []) rest (length m) refl (omega (arith, size, left)) in
    let found =
      ap c_string (append_assoc s (0 ∷ []) (0 ∷ drop 1 rest))
      ∙ c_string-text s (0 ∷ drop 1 rest) t in
    (m ++ (0 ∷ drop 1 rest), rw (all, stored, found) refl, omega (sizes, size, left))

-- The clients before anything else.
serve-shown :
    (buf pids : List ℕ) (more : List Event)
    → length buf ≡ 64
    → (ended : List ℕ) × (serve buf (datagrams pids ++ more)
        ≡ (shown pids ++ (serve ended more).0, (serve ended more).1))
      × (length ended ≡ 64)
serve-shown buf [] more b = (buf, refl, b)
serve-shown buf (pid ∷ pids) more b =
    let (next, e, b') =
      serve_round buf (decimal pid) (datagrams pids ++ more) b (decimal-IsText pid)
        (omega (arith, length-decimal pid)) in
    let (ended, f, b'') = serve-shown next pids more b' in (ended, rw (e, f) refl, b'')

serve_long :
    (buf bytes : List ℕ)
    → length buf ≡ 64
    → 64 ≤ length bytes
    → serve buf (datagram bytes ∷ []) ≡ ([], out_of_bounds)
unfolding serve
serve_long buf bytes b h =
    let full : length (take buffer_size bytes) ≡ 64 = omega sizes in
    rw
      (store-out_of_range (receive buffer_size bytes buf) (0 ∷ []) (length (take buffer_size bytes))
        (omega (sizes, full)))
      refl

-- With an array of 64 bytes, the server shows the process id of each client. At SIGINT it gives
-- its name back and ends; a failed `read` ends it with the name left behind; a datagram of 64 bytes
-- or more is a write past the end of the array; and while nothing else comes it waits. It ends at
-- once, with an error, if `socket` fails, which leaves the name as it was, if the name is taken, and
-- if `signal` fails, where it leaves the name that `bind` has made.
pub sever-shown :
    (buf pids bytes : List ℕ) (es : List Event) (taken signal : Bool)
    → length buf ≡ 64
    → 64 ≤ length bytes
    → (sever true false true buf (datagrams pids ++ (sigint ∷ []))
        ≡ (shown pids ++ (shutdown ∷ []), exited 0 false))
      × (sever true false true buf (datagrams pids ++ (read_fails ∷ []))
          ≡ (shown pids ++ (error ∷ []), exited 1 true))
      × (sever true false true buf (datagrams pids ++ (datagram bytes ∷ []))
          ≡ (shown pids, out_of_bounds))
      × (sever true false true buf (datagrams pids) ≡ (shown pids, waits))
      × (sever false taken signal buf es ≡ (error ∷ [], exited 1 taken))
      × (sever true true signal buf es ≡ (error ∷ [], exited 1 true))
      × (sever true false false buf es ≡ (error ∷ [], exited 1 true))
unfolding sever
sever-shown buf pids bytes es taken signal b h =
    let (_, e, _) = serve-shown buf pids (sigint ∷ []) b in
    let (_, f, _) = serve-shown buf pids (read_fails ∷ []) b in
    let (ended, g, b') = serve-shown buf pids (datagram bytes ∷ []) b in
    let (_, w, _) = serve-shown buf pids [] b in
    let long = serve_long ended bytes b' h in
    (
      e ∙ unfold serve in refl,
      f ∙ unfold serve in refl,
      g ∙ rw (long, append-nil (shown pids)) refl,
      ap (serve buf) (sym (append-nil (datagrams pids)))
          ∙ w
          ∙ unfold serve in ap (λ o. (o, waits)) (append-nil (shown pids)),
      refl,
      refl,
      refl,
    )
