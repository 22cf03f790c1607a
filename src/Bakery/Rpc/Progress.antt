-- ===== src/Bakery/Rpc/Progress.antt =====
-- The server of 3/proc/bakery_server.c can answer the three calls of a client over the wire.
use mathlib.Core.Path.{subst}
use sem_os.Base.{ℕ, suc, ◌<◌, ◌≡◌, refl, sym, ◌∙◌, ap, true, some, [], ◌∷◌, arith}
use sem_os.Bakery.Family.{update}
use sem_os.Bakery.System.{
  System, init, Reach, start, Step, slots, ready, scanning, joining, ticketed, at_choosing, started,
}
use sem_os.Bakery.Progress.{IsServed, Alone, claimed, given, waited, enters, leaves, serves_in_turn}
use sem_os.Bakery.Rpc.Dispatch.{Dispatch, Local, Serve, Main}
use sem_os.Bakery.Rpc.Calls.{
  During, enter, more, Call, GetNumber, BakeryWait, BakeryService, server,
}
use sem_os.Bakery.Rpc.Wire.{
  clnt_call, get_number_1, bakery_wait_1, bakery_service_1, Arguments, set, requests,
}
use sem_os.Bakery.Rpc.Exchange.{decode-sent, opened_sent, number_call}
use sem_os.TimedBakery.Rpc.Xdr.{Bakery, Codec, encode, IsBakery}
use sem_os.TimedBakery.Rpc.Dispatch.{Answer, result, waits}
use sem_os.TimedBakery.Rpc.Wire.{opened}

-- `get_number_1_svc`, when `p` clients are through.
number_can :
    (p : ℕ) (b : Bakery) (s : System)
    → p < slots
    → IsServed p s
    → (t : Bakery) × (u : System) × GetNumber b s t u × (t.pid ≡ p) × Alone p ticketed u
number_can p b s h k =
    let (f, st, e, c) = claimed p s h k in
    let (u, d, a) = given (During f) (λ v w q n st. more q n st) p (f, enter, c) in
    let call : Call (scanning s.num 0 0) s u = record {
      first = f;
      idle = k.idle;
      enters = st;
      entered = e;
      during = d;
      answers = a.idle;
    } in
    (_, u, GetNumber.given call, k.count, a)

-- `bakery_wait_1_svc`, and the run of the thread that it starts.
wait_can :
    (p : ℕ) (b : Bakery) (s : System)
    → b.pid ≡ p
    → Alone p ticketed s
    → (t : Bakery) × (u : System) × BakeryWait b s t u × Alone p (at_choosing 0) u
wait_can p b s e a = (
  _,
  _,
  BakeryWait.started a.idle (ap s.thread e ∙ a.here),
  subst (λ q. Alone p (at_choosing 0) (record s { thread = update s.thread q (at_choosing 0) }))
      (sym e) (waited p s a),
)

-- `bakery_service_1_svc`, when the thread has ended.
service_can :
    (p : ℕ) (b : Bakery) (s : System)
    → b.pid ≡ p
    → IsServed (suc p) s
    → (t : Bakery) × (u : System) × BakeryService b s t u
service_can p b s e k =
    let d = ap s.thread e ∙ (k.served p (omega arith)).0 in
    let f : System = record s { main = joining b.pid } in
    let call : Call (joining b.pid) s _ = record {
      first = f;
      idle = k.idle;
      enters = Step.service b.pid k.idle (ap started d);
      entered = refl;
      during = more enter (λ n. absurd (busy n)) (Step.join b.pid refl d);
      answers = refl;
    } in
    (_, _, BakeryService.joins call)
  where
    busy : {q : ℕ} → joining q ≡ ready → ⊥
    busy n = absurd cc

-- A request of a stub that the server answers.
answered :
    (x : Codec) (proc : ℕ) (b t : Bakery) (s u : System)
    → IsBakery b
    → Local server x proc b s t u
    → Dispatch server x (clnt_call x proc b).request s (result (encode x t)) true u
unfolding clnt_call
answered x proc b t s u k l = Dispatch.answered (decode-sent x b k) l refl

-- What a client gets: the answers to the three requests that it makes with what the first one says.
pub record Served (x : Codec) (a : Arguments) (p : ℕ) (s : System) : Type 0 where
  pub t : Bakery
  pub first : Answer
  pub second : Answer
  pub third : Answer
  pub after : System
  pub serves :
      Main server x Reach true true true true
        (requests x a 0 0 t.pid t.num)
        s
        (first ∷ second ∷ third ∷ [])
        waits
        after
  pub says : opened x first ≡ some t
  pub place : t.pid ≡ p

served_next :
    (x : Codec) (a : Arguments) (p : ℕ) (s : System)
    → p < slots
    → IsBakery a.get_number
    → IsBakery a.bakery_wait
    → IsBakery a.bakery_service
    → Reach init s
    → IsServed p s
    → Served x a p s
unfolding requests get_number_1 bakery_wait_1 bakery_service_1
served_next x a p s l f g h r k =
    let (t, s₁, n, e, a₁) = number_can p a.get_number s l k in
    let (_, fits, _) = number_call r n in
    let ask_wait : Bakery = set a.bakery_wait t.pid t.num in
    let ask_service : Bakery = set a.bakery_service t.pid t.num in
    let wait_fits : IsBakery ask_wait = record {
      num_fits = fits.num_fits;
      pid_fits = fits.pid_fits;
      res_fits = g.res_fits;
    } in
    let service_fits : IsBakery ask_service = record {
      num_fits = fits.num_fits;
      pid_fits = fits.pid_fits;
      res_fits = h.res_fits;
    } in
    let (v, s₂, w, a₂) = wait_can p ask_wait s₁ e a₁ in
    let (s₃, run, through) = leaves p (enters p l (s₂, start, a₂)) in
    let (z, s₄, j) = service_can p ask_service s₃ e through in
    record {
      t = t;
      first = result (encode x t);
      second = result (encode x v);
      third = result (encode x z);
      after = s₄;
      serves =
          Main.serving (refl, refl, refl, refl)
            (Serve.next start (answered x _ a.get_number t s s₁ f (Local.get_number refl n)) (
              Serve.next start (answered x _ ask_wait v s₁ s₂ wait_fits (Local.bakery_wait refl w))
                (Serve.next run
                  (answered x _ ask_service z s₃ s₄ service_fits (Local.bakery_service refl j))
                  (Serve.idle start))));
      says = opened_sent x t fits;
      place = e;
    }

-- After any number of clients below 32 the server can answer the three calls of one more over the
-- wire: it comes to a state, and from there to answers to the three requests, where the first gives
-- the client its place as its pid.
pub client_can_be_served :
    (x : Codec) (a : Arguments) (p : ℕ)
    → p < slots
    → IsBakery a.get_number
    → IsBakery a.bakery_wait
    → IsBakery a.bakery_service
    → (s : System) × Reach init s × Served x a p s
client_can_be_served x a p l f g h =
    let (s, r, k) = serves_in_turn p (omega arith) in (s, r, served_next x a p s l f g h r k)
