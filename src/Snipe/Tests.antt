-- ===== src/Snipe/Tests.antt =====
-- Runs of the scheduler on two servers, and instances of the theorems.
use toyhoodle.Prelude.{
  ℕ, ◌+◌, ◌-◌, ◌%◌, ◌<◌, ◌≡◌, refl, none, some, List, [], ◌∷◌, arith, length, get_elem?, true,
  false, ◌++◌,
}
use toyhoodle.Snipe.Client.{
  Transport, new_transport, send_data, Event, active, read, scan, task, arrival, run, contains,
  remove, remove_key, find,
}
use toyhoodle.Snipe.Client.Queue.{waiting, IsQueued, run-IsQueued}
use toyhoodle.Snipe.Client.Transit.{
  pending, to_server, from_server, handed, arrived, all_handed, all_arrived,
}
use toyhoodle.Snipe.Client.Forwarding.{run-Forwards}
use toyhoodle.Snipe.Client.Scanning.{run-scan_failed}
use toyhoodle.Snipe.Balance.{
  BalanceScheduler, new_scheduler, next_rotation, get_server_address, set_server_address,
}
use toyhoodle.Snipe.Balance.RoundRobin.{
  IsValid, after_calls, get_server_address-round_robin, get_server_address-fewer,
}

program : Unit {0}
unfolding new_scheduler next_rotation get_server_address set_server_address after_calls
program = tt

abbrev servers : List ℕ
servers = 7001 ∷ 7002 ∷ []

abbrev scheduler : BalanceScheduler ℕ
scheduler = record { address = servers; len = 2; rotation = 1 }

scheduler_run :
    (new_scheduler servers ≡ scheduler)
    × ((get_server_address scheduler).1 ≡ some 7001)
    × ((get_server_address (after_calls 1 scheduler)).1 ≡ some 7002)
    × ((get_server_address (after_calls 2 scheduler)).1 ≡ some 7001)
unfolding program
scheduler_run = (refl, refl, refl, refl)

scheduler-IsValid : IsValid scheduler
scheduler-IsValid = record { counted = refl; positive = omega arith; bounded = omega arith }

get_server_address-round_robin_example :
    ((get_server_address (after_calls 5 scheduler)).1 ≡ get_elem? servers ((1 - 1 + 5) % 2))
    × ((1 - 1 + 5) % 2 < length servers)
get_server_address-round_robin_example =
    get_server_address-round_robin 5 scheduler scheduler-IsValid

-- The turn is at the second server when only the first is left.
get_server_address-fewer_example :
    ((get_server_address (set_server_address (7001 ∷ []) (record scheduler { rotation = 2 }))).1
      ≡ none)
    × ((get_server_address
          (get_server_address
            (set_server_address (7001 ∷ []) (record scheduler { rotation = 2 }))).0).1
        ≡ get_elem? (7001 ∷ []) 0)
get_server_address-fewer_example =
    get_server_address-fewer (7001 ∷ []) (record scheduler { rotation = 2 }) (omega arith)

client_program : Unit {0}
unfolding run pending waiting handed arrived all_handed all_arrived contains remove remove_key find
client_program = tt

-- A client's channel hands over bytes, its server answers, and both threads get to work.
abbrev served : List Event
served =
    active 5 true
    ∷ read 5 (1 ∷ 2 ∷ [])
    ∷ task true
    ∷ arrival 0 (7 ∷ [])
    ∷ scan 5
    ∷ scan 5
    ∷ read 5 (3 ∷ [])
    ∷ task true
    ∷ []

client_run :
    ((run served new_transport).objects 0
      ≡ record { incoming = []; written = 1 ∷ 2 ∷ []; returned = 7 ∷ []; is_open = true })
    × ((run served new_transport).takes ≡ send_data (some 0) (3 ∷ []) ∷ [])
    × ((run served new_transport).run_client ≡ [])
unfolding client_program
client_run = (refl, refl, refl)

run-IsQueued_example : IsQueued (run served new_transport)
run-IsQueued_example = run-IsQueued served

abbrev connected : Transport
connected = run (active 5 true ∷ []) new_transport

abbrev later : List Event
later = read 5 (1 ∷ []) ∷ arrival 0 (7 ∷ []) ∷ scan 5 ∷ task true ∷ task true ∷ []

run-Forwards_example :
    (to_server 0 (run later connected) ≡ to_server 0 connected ++ all_handed 0 later connected)
    × (from_server 0 (run later connected)
        ≡ from_server 0 connected ++ all_arrived 0 later connected)
    × (connected.taking ≡ true)
unfolding client_program
run-Forwards_example = run-Forwards 0 later connected (omega arith) refl

run-scan_failed_example :
    (run
      (active 5 false ∷ scan 5 ∷ active 6 true ∷ arrival 1 (7 ∷ []) ∷ scan 6 ∷ [])
      new_transport).scanning
    ≡ false
run-scan_failed_example =
    run-scan_failed 5 (active 6 true ∷ arrival 1 (7 ∷ []) ∷ scan 6 ∷ []) new_transport refl
