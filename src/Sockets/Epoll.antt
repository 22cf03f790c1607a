-- ===== src/Sockets/Epoll.antt =====
-- 2/client-sever/epoll: a server that waits for its connections with epoll, and its client.
use sem_os.Base.{
  ℕ, ◌-◌, ◌==◌, Bool, true, false, if◌then◌else◌, Option, none, some, List, [], ◌∷◌, ◌++◌, store,
}
use sem_os.Memory.{c_string}
use sem_os.Sockets.Text.{decimal, sprintf, receive}

abbrev pub buff_size : ℕ
buff_size = 32

-- A descriptor that is ready, with what the calls for it return. For the listening socket: what
-- `accept` gives, and whether `fcntl` and `epoll_ctl` succeed. For a connection: what the two arrays
-- hold, what is read, and whether the answer can be sent. Or `epoll_wait` fails.
pub data Event : Type 0 where
  listening : (accepted : Option ℕ) (fcntl epoll_ctl : Bool) → Event
  readable : (conn : ℕ) (msg_from msg_to : List ℕ) (bytes : Option (List ℕ)) (sends : Bool) → Event
  wait_fails : Event

pub data Output : Type 0 where
  error : Output
  added : (conn : ℕ) → Output
  received : List ℕ → Output
  sent : (conn : ℕ) → List ℕ → Output
  told : List ℕ → Output
  closed : (conn : ℕ) → Output

pub data End : Type 0 where
  waits : End
  exited : ℕ → End
  out_of_bounds : End

abbrev pub Run : Type 0
Run = List Output × End

abbrev pub before : Output → Run → Run
before o r = (o ∷ r.0, r.1)

abbrev pub within {ℓ} : {A : Type ℓ} → Option A → (A → Run) → Run
within none k = ([], out_of_bounds)
within (some a) k = k a

abbrev pub failed : Run
failed = (error ∷ [], exited 1)

-- "%d_%s"
abbrev pub answer : ℕ → List ℕ → List ℕ
answer pid s = decimal pid ++ (95 ∷ s)

-- What follows a `read` of a connection that has not failed: `next` is the rest of the run.
unfoldable pub reply : (pid conn : ℕ) (msg_from msg_to bytes : List ℕ) (sends : Bool) → Run → Run
reply pid conn msg_from msg_to [] sends next = before (closed conn) next
reply pid conn msg_from msg_to (b ∷ bs) sends next =
    within (c_string (receive buff_size (b ∷ bs) msg_from)) (λ s. before (received s) (
      within (sprintf msg_to (answer pid s)) (λ msg.
        if sends
        then before (sent conn msg) (before (told (answer pid s)) (before (closed conn) next))
        else failed)))

-- The loop over the events.
unfoldable pub serve : (pid : ℕ) → List Event → Run
unfolding reply
serve pid [] = ([], waits)
serve pid (wait_fails ∷ es) = failed
serve pid (listening none fcntl epoll_ctl ∷ es) = failed
serve pid (listening (some conn) fcntl epoll_ctl ∷ es) =
    let next = serve pid es in
    if fcntl then if epoll_ctl then before (added conn) next else failed else failed
serve pid (readable conn msg_from msg_to bytes sends ∷ es) =
    let next = serve pid es in
    within (store msg_to (buff_size - 1) (0 ∷ [])) (λ to.
      within (store msg_from (buff_size - 1) (0 ∷ [])) (λ from. elim bytes [
        | none ↦ before error (before (closed conn) ([], exited 1))
        | some bs ↦ reply pid conn from to bs sends next
      ]))

-- `main` of the server: `socket`, `bind`, `listen`, `epoll_create1` and `epoll_ctl` may fail.
unfoldable pub server :
    (socket bind listen epoll_create epoll_ctl : Bool) (pid : ℕ) → List Event → Run
unfolding serve
server true true true true true pid es = serve pid es
server _ _ _ _ _ pid es = failed

-- `sock == 1`
abbrev pub is_one : Option ℕ → Bool
is_one none = false
is_one (some sock) = sock == 1

-- `main` of the client, with the descriptor that `socket` gives, `none` for -1: only 1 is taken for a
-- failure. `connect` is told the descriptor; `read` gives what comes back for a message. The
-- connection is number 0.
unfoldable pub client :
    (socket : Option ℕ) (connect : Option ℕ → Bool) (sends : Bool) (pid : ℕ)
    → (msg_to msg_from : List ℕ) (read : List ℕ → Option (List ℕ)) → Run
client sock connect sends pid msg_to msg_from read =
    if is_one sock
    then failed
    else if connect sock
    then within (store msg_to (buff_size - 1) (0 ∷ [])) (λ to.
      within (store msg_from (buff_size - 1) (0 ∷ [])) (λ from.
        within (sprintf to (decimal pid)) (λ msg.
          if sends
          then before (sent 0 msg) (
              before (told (decimal pid)) (elim (read msg) [
                | none ↦ failed
                | some bytes ↦
                    within (c_string (receive buff_size bytes from))
                      (λ s. before (received s) (before (closed 0) ([], exited 0)))
              ]))
          else failed)))
    else failed
