-- ===== src/Tests/Sockets.antt =====
-- The programs that talk over sockets, with one or two clients.
use sem_os.Base.{
  ◌⊎◌, ◌+◌, ℕ, ◌≡◌, refl, true, false, arith, List, [], ◌∷◌, ◌++◌, replicate, length-replicate,
  none, some, All,
}
use sem_os.Memory.{c_string}
use sem_os.Sockets.Text.{decimal, digits}
use sem_os.Sockets.Receive as R
use sem_os.Sockets.Receive.{sever-shown}
use sem_os.Sockets.Respond.{Output, waits, out_of_bounds, serve, client}
use sem_os.Sockets.Answers.{IsEnded, messages, sent_of, answers, serve-answers, client-overflows}
use sem_os.Sockets.Pair as P
use sem_os.Sockets.Exchange as X
use sem_os.Sockets.Exchange.{pair-exchanges}
use sem_os.Sockets.Epoll as E
use sem_os.Sockets.Sessions.{
  Op, joins, asks, leaves, events, FitsOp, texts, closes, handled, serve_sessions, client_shows,
}
use sem_os.Sockets.Sessions as S

abbrev array : List ℕ
array = replicate 64 7

sever-shown_example :
    (R.sever true false true array (R.datagrams (12 ∷ []) ++ (R.sigint ∷ []))
      ≡ (R.shown (12 ∷ []) ++ (R.shutdown ∷ []), R.exited 0 false))
    × (R.sever true false true array (R.datagrams (12 ∷ []) ++ (R.read_fails ∷ []))
        ≡ (R.shown (12 ∷ []) ++ (R.error ∷ []), R.exited 1 true))
    × (R.sever true false true array (R.datagrams (12 ∷ []) ++ (R.datagram array ∷ []))
        ≡ (R.shown (12 ∷ []), R.out_of_bounds))
    × (R.sever true false true array (R.datagrams (12 ∷ [])) ≡ (R.shown (12 ∷ []), R.waits))
    × (R.sever false true true array (R.sigint ∷ []) ≡ (R.error ∷ [], R.exited 1 true))
    × (R.sever true true true array (R.sigint ∷ []) ≡ (R.error ∷ [], R.exited 1 true))
    × (R.sever true false false array (R.sigint ∷ []) ≡ (R.error ∷ [], R.exited 1 true))
sever-shown_example =
    sever-shown array (12 ∷ []) array (R.sigint ∷ []) true true refl
      (omega (arith, length-replicate {A = ℕ} 64 7))

-- The text "12" of a client, and then the shorter "5".
abbrev two_messages : List (ℕ × List ℕ)
two_messages = (1, 49 ∷ 50 ∷ []) ∷ (2, 53 ∷ []) ∷ []

ended_array : IsEnded (replicate 63 7 ++ (0 ∷ []))
ended_array = record { front = replicate 63 7; whole = refl; size = length-replicate {A = ℕ} 63 7 }

serve-answers_example :
    (outs : List Output) × (serve 3 (replicate 63 7 ++ (0 ∷ [])) array (messages two_messages)
      ≡ (outs, waits))
    × (sent_of outs ≡ answers 3 two_messages)
serve-answers_example =
    serve-answers 3 (replicate 63 7 ++ (0 ∷ [])) array two_messages ended_array
      (length-replicate {A = ℕ} 64 7) (ground arith)

client-overflows_example :
    client true true true 1234567 (replicate 14 0) array (λ m. none) ≡ ([], out_of_bounds)
client-overflows_example =
    client-overflows true true 1234567 (replicate 14 0) array (λ m. none) (omega arith) refl

abbrev block : List ℕ
block = replicate 32 7

-- Two clients, of which one leaves without a question.
abbrev two_clients : List Op
two_clients = joins 5 ∷ joins 6 ∷ asks 6 1234 (7 ∷ 7 ∷ []) block block ∷ leaves 5 block block ∷ []

two_clients-FitsOp : All FitsOp two_clients
unfolding decimal digits
two_clients-FitsOp = (tt, (tt, ((refl, refl, omega arith), ((refl, refl), tt))))

serve_sessions_example :
    (outs : List E.Output) × (E.serve 9 (events two_clients) ≡ (outs, E.waits))
    × (texts outs ≡ (6, some (E.answer 9 (decimal 1234))) ∷ [])
    × (closes outs ≡ 6 ∷ 5 ∷ [])
serve_sessions_example = serve_sessions 9 two_clients two_clients-FitsOp

client_shows_example :
    (msg : List ℕ) × (E.client
        (some 3)
        (λ _. true)
        true
        1234
        block
        block
        (λ m. S.first_sent (E.serve 9 (E.readable 6 block block (some m) true ∷ [])).0)
      ≡ (
        E.sent 0 msg
            ∷ E.told (decimal 1234)
            ∷ E.received (E.answer 9 (decimal 1234))
            ∷ E.closed 0
            ∷ [],
        E.exited 0,
      ))
    × (c_string msg ≡ some (decimal 1234))
client_shows_example =
    client_shows 3 1234 9 6 block block block block (λ e. absurd (omega arith)) refl refl refl refl

-- After the write of the child.
abbrev written : P.System
written = record (P.forked array array) {
  child = P.Child.reading;
  to_parent = [] ++ P.message_0;
  child_out = [] ++ (P.sent (c_string P.message_0) ∷ []);
}

pair-exchanges_example :
    (X.HasExchanged written ⊎ ((t : P.System) × P.Step written t))
    × ((t : P.System) → P.Step written t → X.left t + 1 ≡ 4)
    × (X.left (P.forked array array) ≡ 5)
unfolding P.main
pair-exchanges_example =
    pair-exchanges true true array array written (P.later P.start P.Step.child_writes)
