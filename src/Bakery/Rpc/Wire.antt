-- ===== src/Bakery/Rpc/Wire.antt =====
-- The stubs of 3/proc/bakery_clnt.c, and a client of 3/proc/bakery_client.c that calls the server over
-- them.
use mathlib.Core.Option
use sem_os.Base.{ℕ, zero, suc, true, Option, none, some, List, [], ◌∷◌}
use sem_os.Bakery.Client.{Ticket, Stubs}
use sem_os.Bakery.Rpc.Dispatch.{get_number_no, bakery_wait_no, bakery_service_no}
use sem_os.TimedBakery.Rpc.Xdr.{Bakery, Codec, encode}
use sem_os.TimedBakery.Rpc.Dispatch.{Answer, Request}
use sem_os.TimedBakery.Rpc.Wire.{opened}

-- `clnt_call`: what a stub sends, and what it returns for the answer. An answer that does not come in
-- time is `none`, and so is NULL. Over "udp" it sends the request again while it has no answer, and the
-- server answers each copy that it receives.
pub record Remote : Type 0 where
  pub request : Request
  pub returns : Option Answer → Option Bakery

abbrev pub returned_for : Codec → Option Answer → Option Bakery
returned_for x none = none
returned_for x (some a) = opened x a

-- The server can send its answer.
unfoldable pub clnt_call : Codec → ℕ → Bakery → Remote
clnt_call x proc b = record {
  request = record { proc = proc; bytes = encode x b; sends = true; frees = true };
  returns = returned_for x;
}

unfoldable pub get_number_1 : Codec → Bakery → Remote
unfolding clnt_call
get_number_1 x = clnt_call x get_number_no

unfoldable pub bakery_wait_1 : Codec → Bakery → Remote
unfolding clnt_call
bakery_wait_1 x = clnt_call x bakery_wait_no

unfoldable pub bakery_service_1 : Codec → Bakery → Remote
unfolding clnt_call
bakery_service_1 x = clnt_call x bakery_service_no

-- The arguments of a client, of which it only sets `pid` and `num` of the last two.
pub record Arguments : Type 0 where
  pub get_number : Bakery
  pub bakery_wait : Bakery
  pub bakery_service : Bakery

abbrev pub set : Bakery → (pid num : ℕ) → Bakery
set b pid num = record b { pid = pid; num = num }

abbrev pub ticket : Option Bakery → Option Ticket
ticket = Option.map (λ b. record { pid = b.pid; num = b.num; res = b.res })

-- The stubs of a client, for the answers to its three calls.
unfoldable pub stubs : Codec → Arguments → (first second third : Option Answer) → Stubs
unfolding get_number_1 bakery_wait_1 bakery_service_1
stubs x a first second third = record {
  clnt_create = true;
  get_number = ticket ((get_number_1 x a.get_number).returns first);
  bakery_wait = λ pid num. ticket ((bakery_wait_1 x (set a.bakery_wait pid num)).returns second);
  bakery_service =
      λ pid num. ticket ((bakery_service_1 x (set a.bakery_service pid num)).returns third);
}

-- Copies of a request before others.
abbrev pub copies : ℕ → Request → List Request → List Request
copies zero r rs = rs
copies (suc n) r rs = r ∷ copies n r rs

-- The requests of a client that is given a pid and a number: of that for `get_number`, so many copies
-- reach the server before and behind the one whose answer the client takes; the other two are
-- answered before they are sent again.
unfoldable pub requests : Codec → Arguments → (ahead behind pid num : ℕ) → List Request
unfolding get_number_1 bakery_wait_1 bakery_service_1
requests x a ahead behind pid num =
    let number : Request = (get_number_1 x a.get_number).request in
    copies ahead number (
      number
      ∷ copies behind number (
          (bakery_wait_1 x (set a.bakery_wait pid num)).request
          ∷ (bakery_service_1 x (set a.bakery_service pid num)).request
          ∷ []))
