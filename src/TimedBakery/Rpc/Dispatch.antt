-- ===== src/TimedBakery/Rpc/Dispatch.antt =====
-- `bakery_prog_1` of 3/proc/bakery2/bakery_svc.c, which decodes a request, calls the server, and
-- encodes the result.
use sem_os.Base.{ℕ, ◌==◌, Bool, true, false, Option, none, some, List, [], ◌∷◌, if◌then◌else◌}
use sem_os.TimedBakery.Server.{Server, Call, returned, ◌>>=◌, get_number, bakery_service}
use sem_os.TimedBakery.Rpc.Xdr.{Bakery, Codec, encode, decode}

-- What is sent back: an answer without a value, a result, or an error.
pub data Answer : Type 0 where
  void : Answer
  result : List ℕ → Answer
  noproc : Answer
  decode_error : Answer
  system_error : Answer

-- `GET_NUMBER` and `BAKERY_SERVICE`
abbrev pub get_number_no : ℕ
get_number_no = 1

abbrev pub bakery_service_no : ℕ
bakery_service_no = 2

-- `local`: the fields that a service does not set are 0 in its static result.
unfoldable pub local :
    (late : ℕ → ℕ → Bool) (fuel proc : ℕ) → Bakery → Server → Call (Bakery × Server)
local late fuel proc argument s =
    if proc == get_number_no
    then (get_number s >>= λ r. returned (record { num = r.0.1; pid = r.0.0; res = 0 }, r.1))
    else (bakery_service late fuel argument.pid argument.num s >>= λ r.
        returned (record { num = 0; pid = 0; res = r.res }, r.server))

-- `sends`: whether the result can be sent; `frees`: whether the argument can be freed, and the
-- program goes on.
unfoldable pub run_local :
    (x : Codec) (late : ℕ → ℕ → Bool) (fuel proc : ℕ) (sends frees : Bool)
    → Option (Bakery × List ℕ)
    → Server
    → Call ((Answer × Bool) × Server)
unfolding local
run_local x late fuel proc sends frees none s = returned ((decode_error, true), s)
run_local x late fuel proc sends frees (some (argument, _)) s =
    local late fuel proc argument s >>= λ r.
    returned ((if sends then result (encode x r.0) else system_error, frees), r.1)

unfoldable pub bakery_prog_1 :
    (x : Codec) (late : ℕ → ℕ → Bool) (fuel proc : ℕ) (sends frees : Bool)
    → (request : List ℕ) → Server
    → Call ((Answer × Bool) × Server)
unfolding run_local
bakery_prog_1 x late fuel proc sends frees request s =
    if proc == 0
    then returned ((void, true), s)
    else if proc == get_number_no
    then run_local x late fuel proc sends frees (decode x request) s
    else if proc == bakery_service_no
    then run_local x late fuel proc sends frees (decode x request) s
    else returned ((noproc, true), s)

-- A request for a procedure, and what becomes of the calls of the library for it.
pub record Request : Type 0 where
  pub proc : ℕ
  pub bytes : List ℕ
  pub sends : Bool
  pub frees : Bool

-- `main` waits in `svc_run` for more requests, or has called `exit`.
pub data End : Type 0 where
  waits : End
  exited : ℕ → End

unfoldable pub svc_run :
    (x : Codec) (late : ℕ → ℕ → Bool) (fuel : ℕ) → List Request → Server → Call (List Answer × End)
unfolding bakery_prog_1
svc_run x late fuel [] s = returned ([], waits)
svc_run x late fuel (r ∷ rs) s = bakery_prog_1 x late fuel r.proc r.sends r.frees r.bytes s >>= λ a.
    elim a.0.1 [
      | true ↦ (svc_run x late fuel rs a.1 >>= λ rest. returned (a.0.0 ∷ rest.0, rest.1))
      | false ↦ returned (a.0.0 ∷ [], exited 1)
    ]

-- `svcudp_create`, `svctcp_create` and the two `svc_register` succeed or not.
unfoldable pub main :
    (udp udp_registers tcp tcp_registers : Bool)
    → (x : Codec) (late : ℕ → ℕ → Bool) (fuel : ℕ) → List Request
    → Server
    → Call (List Answer × End)
unfolding svc_run
main true true true true x late fuel rs s = svc_run x late fuel rs s
main _ _ _ _ x late fuel rs s = returned ([], exited 1)
