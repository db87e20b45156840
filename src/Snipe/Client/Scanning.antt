-- ===== src/Snipe/Client/Scanning.antt =====
-- What ends the scan of the sockets.
use toyhoodle.Prelude.{
  ℕ, ◌≡◌, refl, Bool, true, false, Option, none, some, List, [], ◌∷◌, ◌==◌, ◌&&◌, ◌||◌, not, arith,
}
use toyhoodle.Snipe.Client.{
  Task, send_data, data_write_back, Transport, contains, create_client, wride, close_client,
  close_found, close, scan_client, scan_found, scan_entry, is_empty, run_task, take_first,
  take_task, arrive, Event, active, read, exception, closing, scan, task, arrival, step, run, find,
}
use toyhoodle.Snipe.Client.Queue.{if_holds}

abbrev IsStopped : Transport → Type 0
IsStopped t = t.scanning ≡ false

scan_client-IsStopped : (c : ℕ) (t : Transport) → IsStopped t → IsStopped (scan_client c t)
unfolding scan_client
scan_client-IsStopped c t h =
    if_holds IsStopped (not t.scanning || t.closed) _ _ (λ idle. h)
      λ awake.
        if_holds IsStopped (not (t.objects c).is_open) _ _ (λ shut. refl)
          λ is_open.
            if_holds IsStopped
              (not (is_empty (t.objects c).incoming) && not (contains c t.run_client)) _ _
              (λ new. h) λ old. h

-- A client whose socket is not open ends a scan that is not closed.
scan_client-shut :
    (c : ℕ) (t : Transport)
    → t.closed ≡ false
    → (t.objects c).is_open ≡ false
    → IsStopped (scan_client c t)
unfolding scan_client
scan_client-shut c t not_closed shut =
    if_holds IsStopped (not t.scanning || t.closed) _ _ (λ idle. ground arith)
      λ awake.
        if_holds IsStopped (not (t.objects c).is_open) _ _ (λ is_shut. refl) λ is_open. ground arith

run_task-IsStopped :
    (first : Task) (works : Bool) (t : Transport) → IsStopped t → IsStopped (run_task first works t)
unfolding run_task
run_task-IsStopped (send_data none bytes) works t h = h
run_task-IsStopped (send_data (some c) bytes) works t h =
    if_holds IsStopped ((t.objects c).is_open && works) _ _ (λ ok. h) λ ko. h
run_task-IsStopped (data_write_back c) works t h =
    if_holds IsStopped ((t.objects c).is_open && works) _ _ (λ ok. h) λ ko. h

step-IsStopped : (e : Event) (t : Transport) → IsStopped t → IsStopped (step e t)
unfolding step create_client wride close_client close scan_entry take_task arrive
step-IsStopped (active id connected) t h = h
step-IsStopped (read id bytes) t h = h
step-IsStopped (exception id) t h = go (find id t.clients)
  where
    go : (o : Option ℕ) → IsStopped (close_found o id t)
    go none = h
    go (some c) = h
step-IsStopped closing t h = h
step-IsStopped (scan id) t h = go (find id t.clients)
  where
    go : (o : Option ℕ) → IsStopped (scan_found o t)
    go none = h
    go (some c) = scan_client-IsStopped c t h
step-IsStopped (task works) t h = if_holds IsStopped t.taking _ _ (λ on. go t.takes) λ off. h
  where
    go : (takes : List Task) → IsStopped (take_first takes works t)
    go [] = h
    go (first ∷ takes) = run_task-IsStopped first works (record t { takes = takes }) h
step-IsStopped (arrival c bytes) t h =
    if_holds IsStopped (t.objects c).is_open _ _ (λ is_open. h) λ shut. h

run-IsStopped : (events : List Event) (t : Transport) → IsStopped t → IsStopped (run events t)
unfolding run
run-IsStopped [] t h = h
run-IsStopped (e ∷ events) t h = run-IsStopped events (step e t) (step-IsStopped e t h)

find_new : (id c : ℕ) (clients : List (ℕ × ℕ)) → find id ((id, c) ∷ clients) ≡ some c
unfolding find
find_new id c clients = ground arith

-- A client whose socket could not connect is put all the same, and the scan ends for all clients when it
-- comes to it: unless `close` was called before, no event after that has the sockets scanned again.
pub run-scan_failed :
    (id : ℕ) (events : List Event) (t : Transport)
    → t.closed ≡ false
    → (run (active id false ∷ scan id ∷ events) t).scanning ≡ false
unfolding run step create_client scan_entry
run-scan_failed id events t not_closed =
    let u = create_client id false t in
    let shut : (u.objects t.made).is_open ≡ false =
      (let same : (t.made == t.made) ≡ true = ground arith in rw same refl) in
    let found : find id u.clients ≡ some t.made = find_new id t.made _ in
    run-IsStopped events (step (scan id) u)
      (rw (step, scan_entry, found) (scan_client-shut t.made u not_closed shut))
