-- ===== src/Sockets/Respond.antt =====
-- 2/client-sever/socket(send-receive-respond): a server of datagrams that answers, and its client.
use sem_os.Base.{
  ℕ, Bool, if◌then◌else◌, Option, none, some, List, [], ◌∷◌, ◌++◌, take, store, length,
}
use sem_os.Memory.{c_string}
use sem_os.Sockets.Text.{decimal, sprintf, receive}

abbrev pub buffer_size : ℕ
buffer_size = 64

-- What the server waits for: a message with its sender, where the answer can be sent or not; a
-- `recvfrom` that fails; SIGINT.
pub data Event : Type 0 where
  message : (from : ℕ) (bytes : List ℕ) (sends : Bool) → Event
  recv_fails : Event
  sigint : Event

-- What the programs print, and the messages that they send.
pub data Output : Type 0 where
  recv : List ℕ → Output
  send : List ℕ → Output
  error : Output
  sent : (to : ℕ) → List ℕ → Output

-- A program waits for more events, has called `exit`, or has used memory outside an array.
pub data End : Type 0 where
  waits : End
  exited : ℕ → End
  out_of_bounds : End

abbrev pub Run : Type 0
Run = List Output × End

abbrev pub before : Output → Run → Run
before o r = (o ∷ r.0, r.1)

abbrev pub within {ℓ} : {A : Type ℓ} → Option A → (A → Run) → Run
within none k = ([], out_of_bounds)
within (some a) k = k a

-- `" --> "` and the newline of the answer.
abbrev pub answer : ℕ → List ℕ → List ℕ
answer pid s = decimal pid ++ (32 ∷ 45 ∷ 45 ∷ 62 ∷ 32 ∷ (s ++ (10 ∷ [])))

abbrev answered : Bool → ℕ → List ℕ → Output
answered sends to s = if sends then sent to (s ++ (0 ∷ [])) else error

-- The loop of the server, with its process id, over its two arrays: `buf` and `copy_buf`.
unfoldable pub serve : (pid : ℕ) (buf copy_buf : List ℕ) → List Event → Run
serve pid buf copy_buf [] = ([], waits)
serve pid buf copy_buf (sigint ∷ es) = ([], exited 0)
serve pid buf copy_buf (recv_fails ∷ es) =
    before error (within (c_string buf) (λ s. before (recv s) ([], out_of_bounds)))
serve pid buf copy_buf (message from bytes sends ∷ es) =
    let read = receive buffer_size bytes buf in
    let n = length (take buffer_size bytes) in
    within (c_string read) (λ printed. before (recv printed) (
      within (store read n (0 ∷ [])) (λ ended. within (c_string ended) (λ s.
        within (sprintf copy_buf (answer pid s)) (λ copy.
          before (send (answer pid s))
            (before (answered sends from (answer pid s)) (serve pid ended copy es)))))))

-- `main` of the server: each call before the loop may fail.
unfoldable pub server :
    (socket bind signal : Bool) (pid : ℕ) (buf copy_buf : List ℕ) → List Event → Run
unfolding serve
server socket bind signal pid buf copy_buf es =
    if socket
    then (if bind
        then if signal then serve pid buf copy_buf es else (error ∷ [], exited 1)
        else (error ∷ [], exited 1))
    else (error ∷ [], exited 1)

-- ".socket"
abbrev pub socket_suffix : List ℕ
socket_suffix = 46 ∷ 115 ∷ 111 ∷ 99 ∷ 107 ∷ 101 ∷ 116 ∷ []

-- `main` of the client; `reply` is what comes back for a message, `none` if the read fails. The name
-- of its socket goes to the 14 bytes of `sa_data`, and the server is number 0.
unfoldable pub client :
    (socket bind sends : Bool) (pid : ℕ) (sa_data buf : List ℕ)
    → (reply : List ℕ → Option (List ℕ)) → Run
client socket bind sends pid sa_data buf reply =
    if socket
    then within (sprintf sa_data (decimal pid ++ socket_suffix)) (λ name.
      if bind
      then within (sprintf buf (decimal pid)) (λ buf'.
        if sends
        then before (sent 0 (decimal pid)) (
            before (send (decimal pid)) (elim (reply (decimal pid)) [
              | none ↦ (error ∷ [], exited 1)
              | some bytes ↦
                  let read = receive buffer_size bytes buf' in
                  within (store read (length (take buffer_size bytes)) (0 ∷ []))
                    (λ ended. within (c_string ended) (λ s. (recv s ∷ [], exited 0)))
            ]))
        else (error ∷ [], exited 1))
      else (error ∷ [], exited 1))
    else (error ∷ [], exited 1)
