-- ===== src/Bakery/Rpc/Exchange.antt =====
-- A client of 3/proc/bakery_client.c and the server over the wire.
use mathlib.Core.Path.{subst}
use sem_os.Base.{
  ℕ, ◌+◌, ◌≤◌, ◌≡◌, refl, sym, ap, ◌∙◌, Bool, true, false, Option, none, some, List, [], ◌∷◌, ◌++◌,
  length, append-nil, arith,
}
use sem_os.Bakery.System.{System, init, Reach, later, Step}
use sem_os.Bakery.Safety.{number_bound}
use sem_os.Bakery.Letters.{letter_of, printed, letters_lem}
use sem_os.Bakery.Client.{
  Event, call_get_number, call_wait, call_service, client_number, client_receive, destroy, exited,
  bakery_prog,
}
use sem_os.Bakery.Rpc.Dispatch as D
use sem_os.Bakery.Rpc.Dispatch.{
  get_number_no, bakery_wait_no, bakery_service_no, Local, Dispatch, Serve, Main,
}
use sem_os.Bakery.Invariant.{Reach-trans}
use sem_os.Bakery.Rpc.Calls.{
  GetNumber, BakeryWait, BakeryService, server, Call-Reach, service-joined,
}
use sem_os.TimedBakery.Rpc.Xdr.{Bakery, Codec, encode, decode, IsBakery, decode-encode}
use sem_os.TimedBakery.Rpc.Dispatch.{Answer, result, Request, End, waits}
use sem_os.TimedBakery.Rpc.Wire.{opened}
use sem_os.Bakery.Rpc.Wire.{
  clnt_call, get_number_1, bakery_wait_1, bakery_service_1, Arguments, set, stubs, copies, requests,
}

pub decode-sent : (x : Codec) (b : Bakery) → IsBakery b → decode x (encode x b) ≡ some (b, [])
decode-sent x b k = ap (decode x) (sym (append-nil (encode x b))) ∙ decode-encode x b [] k

-- A request that a stub sends is answered by the procedure that it names.
dispatch_sent :
    (x : Codec) (proc : ℕ) (b : Bakery) {s u : System} {a : Answer} {go : Bool}
    → D.known proc ≡ true
    → IsBakery b
    → Dispatch server x (clnt_call x proc b).request s a go u
    → (t : Bakery) × Local server x proc b s t u × (a ≡ result (encode x t))
unfolding clnt_call
dispatch_sent x proc b k f (Dispatch.null_proc e) = absurd (ground (arith, k, e))
dispatch_sent x proc b k f (Dispatch.no_proc n h) = absurd (true_false (sym k ∙ h))
  where
    true_false : true ≡ false → ⊥
    true_false e = absurd cc
dispatch_sent x proc b k f (Dispatch.bad_argument h e) =
    absurd (some_none (sym (decode-sent x b f) ∙ e))
  where
    some_none : ◌≡◌ {A = Option (Bakery × List ℕ)} (some (b, [])) none → ⊥
    some_none e = absurd cc
dispatch_sent x proc b {s} {u} k f (Dispatch.answered {b = c} {t = t} e l h) =
    (t, subst (λ z. Local server x proc z s t u) (same (sym e ∙ decode-sent x b f)) l, refl)
  where
    same :
        {c b : Bakery} {r q : List ℕ}
        → ◌≡◌ {A = Option (Bakery × List ℕ)} (some (c, r)) (some (b, q))
        → c ≡ b
    same e = cc
dispatch_sent x proc b k f (Dispatch.not_sent e l h) = absurd (true_false h)
  where
    true_false : true ≡ false → ⊥
    true_false e = absurd cc

module _ (x : Codec) {b t : Bakery} {s u : System} where
  asked_number : Local server x get_number_no b s t u → GetNumber b s t u
  asked_number (Local.get_number e g) = g
  asked_number (Local.bakery_wait e g) = absurd (omega (arith, e))
  asked_number (Local.bakery_service e g) = absurd (omega (arith, e))

  asked_wait : Local server x bakery_wait_no b s t u → BakeryWait b s t u
  asked_wait (Local.get_number e g) = absurd (omega (arith, e))
  asked_wait (Local.bakery_wait e g) = g
  asked_wait (Local.bakery_service e g) = absurd (omega (arith, e))

  asked_service : Local server x bakery_service_no b s t u → BakeryService b s t u
  asked_service (Local.get_number e g) = absurd (omega (arith, e))
  asked_service (Local.bakery_wait e g) = absurd (omega (arith, e))
  asked_service (Local.bakery_service e g) = g

-- What comes back over the wire.
pub opened_sent : (x : Codec) (t : Bakery) → IsBakery t → opened x (result (encode x t)) ≡ some t
unfolding opened
opened_sent x t k = rw (decode-sent x t k) refl

-- The events of a client that gets its letter.
abbrev pub served : (pid num letter : ℕ) → List Event
served pid num letter =
    call_get_number
    ∷ client_number pid num
    ∷ call_wait pid num
    ∷ call_service pid num
    ∷ client_receive letter
    ∷ destroy
    ∷ []

-- A call of `get_number` from a reachable state: what its answer holds.
pub number_call :
    {b t : Bakery} {s u : System}
    → Reach init s
    → GetNumber b s t u
    → Reach init u × IsBakery t × (t.num ≤ t.pid + 1)
number_call {s = s} r (GetNumber.given {u} c) =
    let q = Reach-trans r (Call-Reach c) in
    let low = number_bound r 0 in
    let bound = number_bound q s.num in
    (
      q,
      record {
        num_fits = omega (arith, low, bound);
        pid_fits = omega (arith, low);
        res_fits = omega arith;
      },
      bound.1,
    )

wait_call :
    {b t : Bakery} {s u : System} → Reach init s → BakeryWait b s t u → Reach init u × IsBakery t
wait_call {b = b} r (BakeryWait.started e h) = (
  later r (Step.wait b.pid e h),
  record { num_fits = omega arith; pid_fits = omega arith; res_fits = omega arith },
)

letter_call :
    {b t : Bakery} {s u : System}
    → Reach init s
    → BakeryService b s t u
    → IsBakery t × (t.res ≡ letter_of b.pid)
letter_call {b = b} r (BakeryService.joins {u} c) =
    let letter = letters_lem (Reach-trans r (Call-Reach c)) b.pid (ap printed (service-joined c)) in
    (
      record { num_fits = omega arith; pid_fits = omega arith; res_fits = omega (arith, letter) },
      letter,
    )

serves :
    (x : Codec) {rs : List Request} {s u : System} {answers : List Answer} {e : End}
    → Main server x Reach true true true true rs s answers e u
    → Serve server x Reach rs s answers e u
serves x (Main.serving _ serve) = serve
serves x (Main.not_registered h) = absurd (ground (arith, h))

-- A request that is answered, with the states before and behind its call.
serve_one :
    (x : Codec) {r : Request} {rs : List Request} {s u : System} {a : Answer} {as' : List Answer}
    → Serve server x Reach (r ∷ rs) s (a ∷ as') waits u
    → (v w : System) × Reach s v
      × Dispatch server x r v a true w
      × Serve server x Reach rs w as' waits u
serve_one x (Serve.next w d rest) = (_, _, w, d, rest)

-- Copies of a request for `get_number`, each of which takes a number.
serve_copies :
    (x : Codec) (b : Bakery) (answers : List Answer) {rs : List Request} {s u : System}
    {as' : List Answer}
    → IsBakery b
    → Reach init s
    → Serve server x Reach
        (copies (length answers) (clnt_call x get_number_no b).request rs)
        s
        (answers ++ as')
        waits
        u
    → (v : System) × Reach init v × Serve server x Reach rs v as' waits u
serve_copies x b [] {s = s} k r serve = (s, r, serve)
serve_copies x b (a ∷ answers) k r serve =
    let (_, _, w, d, rest) = serve_one x serve in
    let (_, l, _) = dispatch_sent x get_number_no b refl k d in
    let (r', _, _) = number_call (Reach-trans r w) (asked_number x l) in
    serve_copies x b answers k r' rest

-- A client whose answers arrive.
client_run :
    (x : Codec) (a : Arguments) (t v w : Bakery) (first second third : Answer)
    → opened x first ≡ some t
    → opened x second ≡ some v
    → opened x third ≡ some w
    → bakery_prog (stubs x a (some first) (some second) (some third))
      ≡ (served t.pid t.num w.res, exited 0)
unfolding bakery_prog stubs
client_run x a t v w first second third e f g = rw (e, f, g) refl

some_injective : {t u : Bakery} → some t ≡ some u → t ≡ u
some_injective e = cc

-- However the calls of a client and the steps of the others lie, from a state that the server can
-- reach, and however often the request for a number reaches the server before and behind the one
-- whose answer the client takes: if the server answers the requests that the client makes with what
-- that answer says, and the other two before they are sent again, the client shows its pid and its
-- number, which is at most one more than the pid, and then the letter of its place in the alphabet,
-- and ends with 0.
pub client_gets_letter :
    (x : Codec) (a : Arguments) (t : Bakery) (ahead behind : List Answer)
    (first second third : Answer) {s u : System}
    → Reach init s
    → IsBakery a.get_number
    → IsBakery a.bakery_wait
    → IsBakery a.bakery_service
    → Main server x Reach true true true true
        (requests x a (length ahead) (length behind) t.pid t.num)
        s
        (ahead ++ (first ∷ (behind ++ (second ∷ third ∷ []))))
        waits
        u
    → opened x first ≡ some t
    → (bakery_prog (stubs x a (some first) (some second) (some third))
        ≡ (served t.pid t.num (letter_of t.pid), exited 0))
      × (t.num ≤ t.pid + 1)
unfolding requests get_number_1 bakery_wait_1 bakery_service_1
client_gets_letter x a t ahead behind first second third r f g h main e =
    let (_, r₀, serve₀) = serve_copies x a.get_number ahead f r (serves x main) in
    let (_, _, w₁, d₁, serve₁) = serve_one x serve₀ in
    let (t₁, l₁, e₁) = dispatch_sent x get_number_no a.get_number refl f d₁ in
    let (r₁, i₁, bound) = number_call (Reach-trans r₀ w₁) (asked_number x l₁) in
    let (_, r₁, serve₁) = serve_copies x a.get_number behind f r₁ serve₁ in
    let (_, _, w₂, d₂, serve₂) = serve_one x serve₁ in
    let (_, _, w₃, d₃, _) = serve_one x serve₂ in
    let same : t ≡ t₁ = some_injective (sym e ∙ ap (opened x) e₁ ∙ opened_sent x t₁ i₁) in
    let fits : IsBakery t = subst IsBakery (sym same) i₁ in
    let wait_fits : IsBakery (set a.bakery_wait t.pid t.num) = record {
      num_fits = fits.num_fits;
      pid_fits = fits.pid_fits;
      res_fits = g.res_fits;
    } in
    let service_fits : IsBakery (set a.bakery_service t.pid t.num) = record {
      num_fits = fits.num_fits;
      pid_fits = fits.pid_fits;
      res_fits = h.res_fits;
    } in
    let (t₂, l₂, e₂) =
      dispatch_sent x bakery_wait_no (set a.bakery_wait t.pid t.num) refl wait_fits d₂ in
    let (r₂, i₂) = wait_call (Reach-trans r₁ w₂) (asked_wait x l₂) in
    let (t₃, l₃, e₃) =
      dispatch_sent x bakery_service_no (set a.bakery_service t.pid t.num) refl service_fits d₃ in
    let (i₃, letter) = letter_call (Reach-trans r₂ w₃) (asked_service x l₃) in
    (
      client_run x a t t₂ t₃ first second third e (ap (opened x) e₂ ∙ opened_sent x t₂ i₂)
            (ap (opened x) e₃ ∙ opened_sent x t₃ i₃)
          ∙ ap (λ n. (served t.pid t.num n, exited 0)) letter,
      subst (λ b. b.num ≤ b.pid + 1) (sym same) bound,
    )
