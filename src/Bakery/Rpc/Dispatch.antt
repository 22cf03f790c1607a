-- ===== src/Bakery/Rpc/Dispatch.antt =====
-- `bakery_prog_1` and `main` of 3/proc/bakery_svc.c. What the procedures of the server do is a relation
-- of an interface.
use sem_os.Base.{ℕ, ◌≡◌, ◌≢◌, ◌==◌, ◌⊎◌, ◌||◌, Bool, true, false, none, some, List, [], ◌∷◌}
use sem_os.TimedBakery.Rpc.Xdr.{Bakery, Codec, encode, decode}
use sem_os.TimedBakery.Rpc.Dispatch.{
  Answer, void, result, noproc, decode_error, system_error, Request, End, waits, exited,
}

-- `GET_NUMBER`, `BAKERY_WAIT` and `BAKERY_SERVICE`
abbrev pub get_number_no : ℕ
get_number_no = 1

abbrev pub bakery_wait_no : ℕ
bakery_wait_no = 2

abbrev pub bakery_service_no : ℕ
bakery_service_no = 3

-- The procedures of a server with states `S`: from an argument and a state to a result, which is not
-- NULL, and a state.
pub record Procedures (S : Type 0) : Type 1 where
  pub get_number_1_svc : Bakery → S → Bakery → S → Type 0
  pub bakery_wait_1_svc : Bakery → S → Bakery → S → Type 0
  pub bakery_service_1_svc : Bakery → S → Bakery → S → Type 0

-- `local`, of the three numbers of a procedure.
abbrev pub known : ℕ → Bool
known proc = (proc == get_number_no) || ((proc == bakery_wait_no) || (proc == bakery_service_no))

module _ {S : Type 0} (v : Procedures S) (x : Codec) where
  pub data Local : ℕ → Bakery → S → Bakery → S → Type 0 where
    get_number :
        {proc : ℕ} {b t : Bakery} {s u : S}
        → proc ≡ get_number_no
        → v.get_number_1_svc b s t u
        → Local proc b s t u
    bakery_wait :
        {proc : ℕ} {b t : Bakery} {s u : S}
        → proc ≡ bakery_wait_no
        → v.bakery_wait_1_svc b s t u
        → Local proc b s t u
    bakery_service :
        {proc : ℕ} {b t : Bakery} {s u : S}
        → proc ≡ bakery_service_no
        → v.bakery_service_1_svc b s t u
        → Local proc b s t u

  -- The answer to a request, and whether the program goes on, which it does not if the argument
  -- cannot be freed.
  pub data Dispatch (r : Request) (s : S) : Answer → Bool → S → Type 0 where
    null_proc : r.proc ≡ 0 → Dispatch r s void true s
    no_proc : r.proc ≢ 0 → known r.proc ≡ false → Dispatch r s noproc true s
    bad_argument : known r.proc ≡ true → decode x r.bytes ≡ none → Dispatch r s decode_error true s
    answered :
        {b t : Bakery} {rest : List ℕ} {u : S}
        → decode x r.bytes ≡ some (b, rest)
        → Local r.proc b s t u
        → r.sends ≡ true
        → Dispatch r s (result (encode x t)) r.frees u
    not_sent :
        {b t : Bakery} {rest : List ℕ} {u : S}
        → decode x r.bytes ≡ some (b, rest)
        → Local r.proc b s t u
        → r.sends ≡ false
        → Dispatch r s system_error r.frees u

  -- `svc_run`: one request after another, between which the state may move by itself.
  pub data Serve (moves : S → S → Type 0) : List Request → S → List Answer → End → S → Type 0 where
    idle : {s u : S} → moves s u → Serve moves [] s [] waits u
    next :
        {r : Request} {rs : List Request} {s t u w : S} {a : Answer} {as' : List Answer} {e : End}
        → moves s t
        → Dispatch r t a true u
        → Serve moves rs u as' e w
        → Serve moves (r ∷ rs) s (a ∷ as') e w
    not_freed :
        {r : Request} {rs : List Request} {s t u : S} {a : Answer}
        → moves s t
        → Dispatch r t a false u
        → Serve moves (r ∷ rs) s (a ∷ []) (exited 1) u

  -- `main`: `svcudp_create`, `svctcp_create` and the two `svc_register` succeed or not.
  pub data Main (moves : S → S → Type 0) (udp udp_registers tcp tcp_registers : Bool)
      : List Request → S → List Answer → End → S → Type 0 where
    serving :
        {rs : List Request} {s u : S} {as' : List Answer} {e : End}
        → (udp ≡ true) × (udp_registers ≡ true) × (tcp ≡ true) × (tcp_registers ≡ true)
        → Serve moves rs s as' e u
        → Main moves udp udp_registers tcp tcp_registers rs s as' e u
    not_registered :
        {rs : List Request} {s : S}
        → (udp ≡ false) ⊎ (udp_registers ≡ false) ⊎ (tcp ≡ false) ⊎ (tcp_registers ≡ false)
        → Main moves udp udp_registers tcp tcp_registers rs s [] (exited 1) s
