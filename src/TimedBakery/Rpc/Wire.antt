-- ===== src/TimedBakery/Rpc/Wire.antt =====
-- The stubs of 3/proc/bakery2/bakery_clnt.c over the dispatch of the server, and the client with them.
use sem_os.Base.{ℕ, zero, suc, Bool, true, if◌then◌else◌, Option, none, some}
use mathlib.Core.Option
use sem_os.TimedBakery.Server.{Server, Call, returned, ◌>>=◌, get_number, bakery_service}
use sem_os.TimedBakery.Client.{End, no_server, crashed, received}
use sem_os.TimedBakery.Rpc.Xdr.{Bakery, Codec, encode, decode}
use sem_os.TimedBakery.Rpc.Dispatch.{
  Answer, result, get_number_no, bakery_service_no, bakery_prog_1,
}

-- What a stub makes of an answer: its structure, or NULL.
unfoldable pub opened : Codec → Answer → Option Bakery
opened x (result bytes) = Option.map (λ r. r.0) (decode x bytes)
opened x _ = none

-- How a request is sent: so many copies reach the server before and behind the one whose answer the
-- client takes; or no answer arrives, and `ahead` copies have reached the server.
pub record Sent : Type 0 where
  pub ahead : ℕ
  pub behind : ℕ
  pub arrives : Bool

-- A call that is made again and again.
abbrev pub times : {A : Type 0} → (Server → Call (A × Server)) → ℕ → Server → Call Server
times f zero s = returned s
times f (suc n) s = f s >>= λ r. times f n r.1

abbrev pub repeated :
    {A : Type 0} → (Server → Call (A × Server)) → Sent → Server → Call (Option A × Server)
repeated f c s =
    if c.arrives
    then (times f c.ahead s >>= λ t.
        f t >>= λ r. times f c.behind r.1 >>= λ u. returned (some r.0, u))
    else (times f c.ahead s >>= λ t. returned (none, t))

abbrev pub heard : Codec → Option Answer → Option Bakery
heard x none = none
heard x (some a) = opened x a

-- What the answer to one copy of a request is, and the server behind it.
unfoldable pub ask :
    (x : Codec) (late : ℕ → ℕ → Bool) (fuel proc : ℕ) → Bakery → Server → Call (Answer × Server)
ask x late fuel proc argument s =
    bakery_prog_1 x late fuel proc true true (encode x argument) s >>= λ a. returned (a.0.0, a.1)

-- `clnt_call`. Over "udp" it sends the request again while it has no answer in time, and the server
-- answers each copy that it receives.
unfoldable pub clnt_call :
    (x : Codec) (late : ℕ → ℕ → Bool) (fuel proc : ℕ)
    → Sent
    → Bakery
    → Server
    → Call (Option Bakery × Server)
unfolding opened
clnt_call x late fuel proc c argument s =
    repeated (ask x late fuel proc argument) c s >>= λ r. returned (heard x r.0, r.1)

unfoldable pub get_number_1 :
    (x : Codec) (late : ℕ → ℕ → Bool) (fuel : ℕ)
    → Sent
    → Bakery
    → Server
    → Call (Option Bakery × Server)
unfolding clnt_call
get_number_1 x late fuel = clnt_call x late fuel get_number_no

unfoldable pub bakery_service_1 :
    (x : Codec) (late : ℕ → ℕ → Bool) (fuel : ℕ)
    → Sent
    → Bakery
    → Server
    → Call (Option Bakery × Server)
unfolding clnt_call
bakery_service_1 x late fuel = clnt_call x late fuel bakery_service_no

-- `bakery_prog_1` of the client. Its two arguments are not set but for the `pid` and `num` of the
-- second; a NULL result is used all the same.
unfoldable pub client :
    (x : Codec) (created : Bool) (number letter : Sent) (late : ℕ → ℕ → Bool) (fuel : ℕ)
    → (first second : Bakery) → Server
    → Call (End × Server)
client x created number letter late fuel first second s =
    if created
    then (get_number_1 x late fuel number first s >>= λ r. elim r.0 [
      | none ↦ returned (crashed, r.1)
      | some t ↦
          (bakery_service_1 x late fuel letter (record second { pid = t.pid; num = t.num }) r.1
            >>= λ u. returned (elim u.0 [ none ↦ crashed | some v ↦ received v.res ], u.1))
    ])
    else returned (no_server, s)

-- The letter of a call of `bakery_service`.
abbrev pub letter_call : (late : ℕ → ℕ → Bool) (fuel pid num : ℕ) → Server → Call (ℕ × Server)
letter_call late fuel pid num s =
    bakery_service late fuel pid num s >>= λ u. returned (u.res, u.server)

-- A client that calls the procedures of the server themselves, each as often as its request reaches
-- the server.
unfoldable pub direct :
    (created : Bool) (number letter : Sent) (late : ℕ → ℕ → Bool) (fuel : ℕ)
    → Server
    → Call (End × Server)
direct created number letter late fuel s =
    if created
    then (repeated get_number number s >>= λ r. elim r.0 [
      | none ↦ returned (crashed, r.1)
      | some t ↦
          (repeated (letter_call late fuel t.0 t.1) letter r.1 >>= λ u.
          returned (elim u.0 [ none ↦ crashed | some v ↦ received v ], u.1))
    ])
    else returned (no_server, s)
