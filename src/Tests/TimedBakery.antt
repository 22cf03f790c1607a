-- ===== src/Tests/TimedBakery.antt =====
-- The server with timeouts, and the clients.
use sem_os.Base.{
  ◌<◌, ◌*◌, ◌/◌, ◌%◌, ◌^◌, ◌++◌, Option, ap, ℕ, zero, suc, ◌+◌, ◌≡◌, refl, arith, List, [], ◌∷◌,
  Bool, true, false, All, replicate, none, some,
}
use sem_os.TimedBakery.Server.{Server, init, slots, returned, bakery_service, at}
use sem_os.TimedBakery.Order.{
  IsIdle, Passes, blockers, letter_after, serve, bakery_service_lem, serve-letters,
}
use sem_os.TimedBakery.Rpc.Xdr.{Codec, Bakery, IsBakery}
use sem_os.TimedBakery.Rpc.Wire as W
use sem_os.TimedBakery.Rpc.Resend.{client-direct}
use sem_os.TimedBakery.Client.{received, main, main-received}

replicate-All : (n : ℕ) → All {A = ℕ} (λ c. c ≡ 0) (replicate n 0)
replicate-All zero = tt
replicate-All (suc n) = (refl, replicate-All n)

init-IsIdle : IsIdle init
init-IsIdle = record {
  none_chooses = replicate-All slots;
  choosing_slots = refl;
  number_slots = refl;
  letter_low = omega arith;
  letter_high = omega arith;
}

-- A second has passed at the second reading of the clock.
abbrev clock : ℕ → ℕ → Bool
clock j zero = false
clock j (suc k) = true

clock-Passes : (i : ℕ) → Passes (clock i) 2
clock-Passes i = (1, omega arith, refl)

bakery_service_lem_example :
    (s' : Server) × (bakery_service clock 2 5 1 init
      ≡ returned (record { res = 97; given_up = blockers 5 1 0 init.number; server = s' }))
    × (at s'.number 5 ≡ returned 0)
    × (s'.c ≡ letter_after 97)
    × (s'.num ≡ 0)
    × IsIdle s'
bakery_service_lem_example =
    bakery_service_lem clock 2 5 1 init init-IsIdle (omega arith) clock-Passes

abbrev callers : List (ℕ × ℕ)
callers = (3, 1) ∷ (0, 2) ∷ []

serve-letters_example : serve clock 2 callers init ≡ returned (97 ∷ 98 ∷ [])
serve-letters_example =
    serve-letters clock 2 0 callers init init-IsIdle refl (ground arith) clock-Passes

main-received_example :
    (s' : Server) × (main 2 true true true clock 2 init ≡ returned (received 97, s'))
    × (at s'.number 0 ≡ returned 0)
    × (s'.num ≡ 0 + 1)
    × IsIdle s'
main-received_example =
    main-received 2 clock 2 init (omega arith) init-IsIdle (omega arith) clock-Passes

-- Four bytes for an `int`, the first one the highest; a `char` goes as an `int`.
abbrev pub put_int : ℕ → List ℕ
put_int n = (n / 2 ^ 24 % 256) ∷ (n / 2 ^ 16 % 256) ∷ (n / 2 ^ 8 % 256) ∷ (n % 256) ∷ []

abbrev pub get_int : List ℕ → Option (ℕ × List ℕ)
get_int (a ∷ b ∷ c ∷ d ∷ rest) = some (a * 2 ^ 24 + b * 2 ^ 16 + c * 2 ^ 8 + d, rest)
get_int _ = none

pub get_int-put_int :
    (n : ℕ) (rest : List ℕ) → n < 2 ^ 32 → get_int (put_int n ++ rest) ≡ some (n, rest)
get_int-put_int n rest h = ap (λ m. some (m, rest)) (omega arith)

abbrev pub codec : Codec
codec = record {
  put_int = put_int;
  get_int = get_int;
  put_char = put_int;
  get_char = get_int;
  int_back = get_int-put_int;
  char_back = λ c rest h. get_int-put_int c rest (omega arith);
}

-- What the arguments of a client may hold that are not set.
abbrev pub unset : Bakery
unset = record { num = 77; pid = 4000000000; res = 9 }

pub unset-IsBakery : IsBakery unset
unset-IsBakery = record { num_fits = omega arith; pid_fits = omega arith; res_fits = omega arith }

small_numbers : (n : ℕ) → All {A = ℕ} (λ v. v + 3 < 2 ^ 31) (replicate n 0)
small_numbers zero = tt
small_numbers (suc n) = (omega arith, small_numbers n)

-- The request for a number reaches the server three times, and the client takes the second answer; the
-- answer to the first copy of the other request is lost.
abbrev thrice : W.Sent
thrice = record { ahead = 1; behind = 1; arrives = true }

abbrev twice : W.Sent
twice = record { ahead = 1; behind = 0; arrives = true }

client-direct_example :
    W.client codec true thrice twice clock 2 unset unset init
    ≡ W.direct true thrice twice clock 2 init
client-direct_example =
    client-direct codec true thrice twice clock 2 unset unset init unset-IsBakery unset-IsBakery
      (init-IsIdle, omega arith, small_numbers 32) clock-Passes
