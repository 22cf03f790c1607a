-- ===== src/Tests/BakeryRpc.antt =====
-- The bakery server and its clients over the wire.
use sem_os.Base.{◌+◌, ◌≤◌, ◌≡◌, some, [], arith}
use sem_os.Bakery.System.{System, init, Reach}
use sem_os.Bakery.Letters.{letter_of, letters_lem}
use sem_os.Bakery.Progress.{IsServed, serves_in_turn}
use sem_os.Bakery.Client.{exited, bakery_prog}
use sem_os.Bakery.Rpc.Wire.{Arguments, stubs}
use sem_os.Bakery.Rpc.Exchange.{served, client_gets_letter}
use sem_os.Bakery.Rpc.Progress.{Served, client_can_be_served}
use sem_os.Tests.TimedBakery.{codec, unset, unset-IsBakery}

-- After three clients, each with its letter.
three : (s : System) × Reach init s × IsServed 3 s
three = serves_in_turn 3 (omega arith)

letters_lem_example : three.0.res 1 ≡ 98
letters_lem_example = letters_lem three.1 1 (ground (arith, three.2.served 1 (omega arith)))

abbrev arguments : Arguments
arguments = record { get_number = unset; bakery_wait = unset; bakery_service = unset }

-- The third client.
third : (s : System) × Reach init s × Served codec arguments 2 s
third =
    client_can_be_served codec arguments 2 (omega arith) unset-IsBakery unset-IsBakery
      unset-IsBakery

client_can_be_served_example : (s : System) × Reach init s × Served codec arguments 2 s
client_can_be_served_example =
    client_can_be_served codec arguments 2 (omega arith) unset-IsBakery unset-IsBakery
      unset-IsBakery

client_gets_letter_example :
    let k = third.2 in
    (bakery_prog (stubs codec arguments (some k.first) (some k.second) (some k.third))
      ≡ (served k.t.pid k.t.num (letter_of k.t.pid), exited 0))
    × (k.t.num ≤ k.t.pid + 1)
client_gets_letter_example =
    client_gets_letter codec arguments third.2.t [] [] third.2.first third.2.second third.2.third
      third.1 unset-IsBakery unset-IsBakery unset-IsBakery third.2.serves third.2.says
