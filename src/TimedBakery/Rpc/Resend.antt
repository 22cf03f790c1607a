-- ===== src/TimedBakery/Rpc/Resend.antt =====
-- The client of 3/proc/bakery2 over the wire, whose requests can reach the server several times.
mod Rounds
pub use Rounds.{HasRoom}
use mathlib.Core.Path.{subst}
use mathlib.Core.Option
use sem_os.Base.{
  ℕ, zero, suc, ◌+◌, ◌-◌, ◌^◌, ◌≤◌, ◌<◌, ◌≡◌, refl, ap, sym, ◌∙◌, Bool, true, false, if◌then◌else◌,
  Option, none, some, List, [], ◌∷◌, append-nil, arith, All, All-map, length, ltb,
}
use sem_os.TimedBakery.Server.{
  Server, slots, Call, returned, ◌>>=◌, get_number, bakery_service, largest, put,
}
use sem_os.TimedBakery.Order.{
  IsIdle, Passes, put_twice, get_number_lem, bakery_service_lem, get_number-largest,
}
use sem_os.TimedBakery.Client.{End, no_server, crashed, received}
use sem_os.TimedBakery.Rpc.Xdr.{Bakery, Codec, encode, decode, IsBakery, decode-encode}
use sem_os.TimedBakery.Rpc.Dispatch.{
  Answer, result, get_number_no, bakery_service_no, local, run_local, bakery_prog_1,
}
use sem_os.TimedBakery.Rpc.Wire.{
  opened, Sent, times, repeated, heard, ask, clnt_call, get_number_1, bakery_service_1, client,
  letter_call, direct,
}
use sem_os.TimedBakery.Rpc.Resend.Rounds.{
  HoldsFor, repeated-same, opened_result, number_round, service_round,
}

abbrev number_ticket : ℕ × ℕ → Bakery
number_ticket r = record { num = r.1; pid = r.0; res = 0 }

abbrev letter_ticket : ℕ → Bakery
letter_ticket r = record { num = 0; pid = 0; res = r }

abbrev sent_result : {R : Type 0} → Codec → (R → Bakery) → R → Answer
sent_result x k r = result (encode x (k r))

abbrev IsPlace : ℕ × ℕ → Type 0
IsPlace r = (r.0 < slots) × (r.1 < 2 ^ 31)

abbrev IsChar : ℕ → Type 0
IsChar r = r < 2 ^ 8

heard_number :
    (x : Codec) (o : Option (ℕ × ℕ))
    → HoldsFor IsPlace o
    → heard x (Option.map (sent_result x number_ticket) o) ≡ Option.map number_ticket o
heard_number x none q = refl
heard_number x (some r) q = opened_result x (number_ticket r) (record {
  num_fits = omega (arith, q.1);
  pid_fits = omega (arith, q.0);
  res_fits = omega arith;
})

heard_letter :
    (x : Codec) (o : Option ℕ)
    → HoldsFor IsChar o
    → heard x (Option.map (sent_result x letter_ticket) o) ≡ Option.map letter_ticket o
heard_letter x none q = refl
heard_letter x (some r) q =
    opened_result x (letter_ticket r)
      (record { num_fits = omega arith; pid_fits = omega arith; res_fits = q })

-- The two stubs, and the calls that they stand for.
number_stub :
    (x : Codec) (late : ℕ → ℕ → Bool) (fuel : ℕ) (c : Sent) (b : Bakery) (s : Server)
    → IsBakery b
    → HasRoom (c.ahead + suc c.behind) s
    → (o : Option (ℕ × ℕ)) × (t : Server) × (repeated get_number c s ≡ returned (o, t))
      × (get_number_1 x late fuel c b s ≡ returned (Option.map number_ticket o, t))
      × HoldsFor IsPlace o
      × IsIdle t
unfolding get_number_1 clnt_call
number_stub x late fuel c b s k room =
    let (o, t, e, e', q, (_, i)) =
      repeated-same (ask x late fuel get_number_no b) get_number (sent_result x number_ticket)
        HasRoom IsPlace (number_round x late fuel b k) c s room in
    (o, t, e, rw e' (ap (λ v. returned (v, t)) (heard_number x o q)), q, i.0)

letter_stub :
    (x : Codec) (late : ℕ → ℕ → Bool) (fuel : ℕ) (c : Sent) (b : Bakery) (s : Server)
    → IsBakery b
    → b.pid < slots
    → ((i : ℕ) → Passes (late i) fuel)
    → IsIdle s
    → (o : Option ℕ) × (t : Server) × (repeated (letter_call late fuel b.pid b.num) c s
        ≡ returned (o, t))
      × (bakery_service_1 x late fuel c b s ≡ returned (Option.map letter_ticket o, t))
unfolding bakery_service_1 clnt_call
letter_stub x late fuel c b s k p l idle =
    let (o, t, e, e', q, _) =
      repeated-same (ask x late fuel bakery_service_no b) (letter_call late fuel b.pid b.num)
        (sent_result x letter_ticket) (λ n. IsIdle) IsChar (service_round x late fuel b k p l) c s
        idle in
    (o, t, e, rw e' (ap (λ v. returned (v, t)) (heard_letter x o q)))

-- The end of a client, by the letter that it is given.
ended :
    (o : Option ℕ)
    → ◌≡◌ {A = End}
        (elim (Option.map letter_ticket o) [ none ↦ crashed | some v ↦ received v.res ])
        (elim o [ none ↦ crashed | some v ↦ received v ])
ended none = refl
ended (some v) = refl

-- Over the stubs, the encoding and the dispatch, a client and the server do what a client does that
-- calls the server itself: the same end, and the same state of the server. This holds however often
-- each of the two requests is sent again and reaches the server, before and behind the one whose
-- answer the client takes, and if no answer arrives; the other client calls as often. The server is
-- idle and its clock runs on; it has a slot left for every copy of the first request, and its
-- numbers are that far from the largest `int`.
pub client-direct :
    (x : Codec) (created : Bool) (number letter : Sent) (late : ℕ → ℕ → Bool) (fuel : ℕ)
    (first second : Bakery) (s : Server)
    → IsBakery first
    → IsBakery second
    → HasRoom (number.ahead + suc number.behind) s
    → ((i : ℕ) → Passes (late i) fuel)
    → client x created number letter late fuel first second s
      ≡ direct created number letter late fuel s
unfolding client direct
client-direct x false number letter late fuel first second s f g room p = refl
client-direct x true number letter late fuel first second s f g room p =
    let (o, t, e, e', q, i) = number_stub x late fuel number first s f room in
    rw (e, e') (second_call o t q i)
  where
    second_call :
        (o : Option (ℕ × ℕ)) (t : Server)
        → HoldsFor IsPlace o
        → IsIdle t
        → ◌≡◌ {A = Call (End × Server)}
            (elim (Option.map number_ticket o) [
              | none ↦ returned (crashed, t)
              | some r ↦
                  (bakery_service_1 x late fuel letter
                      (record second { pid = r.pid; num = r.num })
                      t
                    >>= λ u. returned (elim u.0 [ none ↦ crashed | some v ↦ received v.res ], u.1))
            ])
            (elim o [
              | none ↦ returned (crashed, t)
              | some r ↦
                  (repeated (letter_call late fuel r.0 r.1) letter t >>= λ u.
                  returned (elim u.0 [ none ↦ crashed | some v ↦ received v ], u.1))
            ])
    second_call none t q i = refl
    second_call (some r) t q i =
        let asked : Bakery = record second { pid = r.0; num = r.1 } in
        let k : IsBakery asked = record {
          num_fits = omega (arith, q.1);
          pid_fits = omega (arith, q.0);
          res_fits = g.res_fits;
        } in
        let (v, u, e, e') = letter_stub x late fuel letter asked t k q.0 p i in
        rw (e, e') (ap (λ w. returned (w, u)) (ended v))
