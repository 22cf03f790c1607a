-- ===== src/Bakery/Client.antt =====
-- 3/proc/bakery_client.c (the same text as 3/proc/bakery1/bakery_client.c). The stubs of the three
-- remote procedures, which rpcgen writes, are parameters: NULL is `none`.
use sem_os.Base.{ℕ, ◌≡◌, Bool, Option, none, some, List, [], ◌∷◌, if◌then◌else◌, arith, ltb}

-- `struct BAKERY`
pub record Ticket : Type 0 where
  pub pid : ℕ
  pub num : ℕ
  pub res : ℕ

pub data Event : Type 0 where
  usage : Event
  create_error : Event
  call_get_number : Event
  call_wait : (pid num : ℕ) → Event
  call_service : (pid num : ℕ) → Event
  call_failed : Event
  client_number : (pid num : ℕ) → Event
  client_receive : (res : ℕ) → Event
  destroy : Event

-- How the program ends: by `exit`, or by the use of a NULL result.
pub data End : Type 0 where
  exited : ℕ → End
  crashed : End

abbrev pub Run : Type 0
Run = List Event × End

-- An event before the rest of a run.
abbrev pub before : Event → Run → Run
before e r = (e ∷ r.0, r.1)

-- The message for a NULL result, after which the program goes on.
abbrev pub checked : Option Ticket → Run → Run
checked none r = before call_failed r
checked (some t) r = r

-- The use of a result.
abbrev pub used : Option Ticket → (Ticket → Run) → Run
used none k = ([], crashed)
used (some t) k = k t

pub record Stubs : Type 0 where
  pub clnt_create : Bool
  pub get_number : Option Ticket
  pub bakery_wait : (pid num : ℕ) → Option Ticket
  pub bakery_service : (pid num : ℕ) → Option Ticket

-- The result of `bakery_wait_1` is not used.
unfoldable pub bakery_prog : Stubs → Run
bakery_prog s =
    if s.clnt_create
    then before call_get_number (
        checked s.get_number (
          used s.get_number (λ t. before (client_number t.pid t.num) (
            before (call_wait t.pid t.num) (
              checked (s.bakery_wait t.pid t.num) (
                before (call_service t.pid t.num) (
                  checked (s.bakery_service t.pid t.num) (
                    used (s.bakery_service t.pid t.num)
                      (λ u. before (client_receive u.res) (before destroy ([], exited 0)))))))))))
    else (create_error ∷ [], exited 1)

unfoldable pub main : (argc : ℕ) → Stubs → Run
main argc s = if ltb argc 2 then (usage ∷ [], exited 1) else bakery_prog s

-- The remote calls of a run, in order.
abbrev pub calls : List Event → List Event
calls [] = []
calls (call_get_number ∷ es) = call_get_number ∷ calls es
calls (call_wait pid num ∷ es) = call_wait pid num ∷ calls es
calls (call_service pid num ∷ es) = call_service pid num ∷ calls es
calls (_ ∷ es) = calls es

-- What a client asks for once it has the result of `get_number`, and how it ends.
abbrev pub protocol_from : Stubs → Option Ticket → Run
protocol_from s none = (call_get_number ∷ [], crashed)
protocol_from s (some t) = (
  call_get_number ∷ call_wait t.pid t.num ∷ call_service t.pid t.num ∷ [],
  elim (s.bakery_service t.pid t.num) [ none ↦ crashed | some u ↦ exited 0 ],
)

abbrev pub protocol : Stubs → Run
protocol s = if s.clnt_create then protocol_from s s.get_number else ([], exited 1)

-- A client calls `get_number`, `bakery_wait` and `bakery_service` once each and in this order, the last
-- two with the pid and the number that it was given, whatever `bakery_wait` returns; but a call that
-- fails before them ends it, and so does a failed `bakery_service`, both by the use of NULL.
pub bakery_prog-protocol : (s : Stubs) → (calls (bakery_prog s).0, (bakery_prog s).1) ≡ protocol s
unfolding bakery_prog
bakery_prog-protocol s = ground arith
