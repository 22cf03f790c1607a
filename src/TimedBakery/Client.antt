-- ===== src/TimedBakery/Client.antt =====
-- 3/proc/bakery2/bakery_client.c with the server. The stubs hand a call on to the server and bring
-- its result back; the reply that brings it may be lost, and the result is NULL then. Each request
-- reaches the server once; Rpc has what happens where it is sent again.
use sem_os.Base.{ℕ, ◌+◌, ◌≤◌, ◌<◌, ◌≡◌, refl, ◌∙◌, Bool, true, false, if◌then◌else◌, arith, ltb}
use sem_os.TimedBakery.Server.{Server, slots, Call, returned, ◌>>=◌, get_number, bakery_service, at}
use sem_os.TimedBakery.Order.{IsIdle, Passes, get_number_lem, bakery_service_lem}

-- How the client ends, with the letter that it has received.
pub data End : Type 0 where
  usage : End
  no_server : End
  crashed : End
  received : ℕ → End

-- `bakery_prog_1`: the server has done its part when a reply is lost, and the client ends by the
-- use of NULL.
unfoldable pub bakery_prog :
    (created number_arrives letter_arrives : Bool) (late : ℕ → ℕ → Bool) (fuel : ℕ)
    → Server
    → Call (End × Server)
bakery_prog created number_arrives letter_arrives late fuel s =
    if created
    then (get_number s >>= λ r.
        if number_arrives
        then (bakery_service late fuel r.0.0 r.0.1 r.1 >>= λ u.
            returned (if letter_arrives then received u.res else crashed, u.server))
        else returned (crashed, r.1))
    else returned (no_server, s)

unfoldable pub main :
    (argc : ℕ) (created number_arrives letter_arrives : Bool) (late : ℕ → ℕ → Bool) (fuel : ℕ)
    → Server
    → Call (End × Server)
main argc created number_arrives letter_arrives late fuel s =
    if ltb argc 2
    then returned (usage, s)
    else bakery_prog created number_arrives letter_arrives late fuel s

-- A client whose calls arrive gets a number and then the next letter, at a server that has a slot
-- left and whose clock runs on; the server gives its slot back and is ready for the next call.
pub main-received :
    (argc : ℕ) (late : ℕ → ℕ → Bool) (fuel : ℕ) (s : Server)
    → 2 ≤ argc
    → IsIdle s
    → s.num < slots
    → ((i : ℕ) → Passes (late i) fuel)
    → (s' : Server) × (main argc true true true late fuel s ≡ returned (received s.c, s'))
      × (at s'.number s.num ≡ returned 0)
      × (s'.num ≡ s.num + 1)
      × IsIdle s'
unfolding main bakery_prog
main-received argc late fuel s h i l p =
    let not_usage : ltb argc 2 ≡ false = ground arith in
    let (m, s₁, e, _, _, n, c, i₁) = get_number_lem s i l in
    let (s₂, r, cleared, _, n₂, i₂) = bakery_service_lem late fuel s.num m s₁ i₁ l p in
    (s₂, rw (not_usage, e, r, c) refl, cleared, n₂ ∙ n, i₂)
