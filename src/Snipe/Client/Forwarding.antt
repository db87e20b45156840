-- ===== src/Snipe/Client/Forwarding.antt =====
-- What the threads of TransprtDBClint forward: nothing is lost, doubled or reordered.
use toyhoodle.Prelude.{
  ℕ, ◌<◌, ◌≡◌, refl, sym, ap, ◌∙◌, Bool, true, false, Bool-cases, inl, inr, Option, none, some,
  List, [], ◌∷◌, ◌++◌, ◌==◌, arith, ◌&&◌, ◌||◌, not, if◌then◌else◌,
}
use toyhoodle.Snipe.Client.{
  Bytes, Client, change, new_client, shut, write, write_back, add_incoming, Task, send_data,
  data_write_back, Transport, contains, create_client, wride, close_client, close_found, close,
  scan_client, scan_found, scan_entry, is_empty, run_task, take_first, take_task, arrive, Event,
  active, read, exception, closing, scan, task, arrival, step, run, find,
}
use toyhoodle.Snipe.Client.Queue.{if_holds}
use toyhoodle.Snipe.Client.Transit.{
  append_assoc, append_nil, for_client, pending, pending-append, to_server, from_server, handed,
  arrived, all_handed, all_arrived, change_keeps, close_all_keeps, Forwards, same_Forwards,
}

-- What a step adds to the end of the queue, for a client that may be null.
wride-Forwards :
    (c id : ℕ) (bytes : Bytes) (t : Transport)
    → Forwards c t (for_client c (find id t.clients) bytes) [] (wride id bytes t)
unfolding wride pending
wride-Forwards c id bytes t = record {
  there = λ h.
      ap (λ l. (t.objects c).written ++ l)
        (pending-append c t.takes _
          ∙ ap (λ l. pending c t.takes ++ l) (append_nil (for_client c (find id t.clients) bytes)))
      ∙ sym (append_assoc (t.objects c).written (pending c t.takes) _);
  back = λ h. sym (append_nil (from_server c t));
  was_taking = λ h. h;
  kept = λ h. h;
}

scan_client-Forwards : (c d : ℕ) (t : Transport) → Forwards c t [] [] (scan_client d t)
unfolding scan_client pending
scan_client-Forwards c d t =
    if_holds (Forwards c t [] []) (not t.scanning || t.closed) _ _ (λ idle. stays)
      λ awake.
        if_holds (Forwards c t [] []) (not (t.objects d).is_open) _ _
          (λ shut. same_Forwards c t _ refl refl refl refl (λ h. h))
          λ is_open.
            if_holds (Forwards c t [] [])
              (not (is_empty (t.objects d).incoming) && not (contains d t.run_client)) _ _
              (λ new. record {
                there = λ h.
                    ap (λ l. (t.objects c).written ++ l) (pending-append c t.takes _)
                    ∙ sym (append_assoc (t.objects c).written (pending c t.takes) []);
                back = λ h. sym (append_nil (from_server c t));
                was_taking = λ h. h;
                kept = λ h. h;
              })
              λ old. stays
  where
    stays : Forwards c t [] [] t
    stays = same_Forwards c t t refl refl refl refl (λ h. h)

-- An end of the loop, after which nothing is said.
stopped_Forwards :
    (c : ℕ) (t u : Transport)
    → t.taking ≡ true
    → u.taking ≡ false
    → (c < t.made → c < u.made)
    → Forwards c t [] [] u
stopped_Forwards c t u on off made = record {
  there = λ h. absurd (cc);
  back = λ h. absurd (cc);
  was_taking = λ h. on;
  kept = made;
}

written_more :
    (hit : Bool) (bytes : Bytes) (x : Client) (rest : Bytes)
    → (if hit then write bytes x else x).written ++ rest
      ≡ x.written ++ ((if hit then bytes else []) ++ rest)
written_more true bytes x rest = append_assoc x.written bytes rest
written_more false bytes x rest = refl

-- A queue that lost its first task.
first_done :
    (c : ℕ) (t : Transport) (first : Task) (takes : List Task)
    → t.takes ≡ first ∷ takes
    → (t.objects c).written ++ pending c (first ∷ takes) ≡ to_server c t ++ []
first_done c t first takes e =
    ap (λ q. (t.objects c).written ++ pending c q) (sym e) ∙ sym (append_nil (to_server c t))

run_task-Forwards :
    (c : ℕ) (first : Task) (takes : List Task) (works : Bool) (t : Transport)
    → t.taking ≡ true
    → t.takes ≡ first ∷ takes
    → Forwards c t [] [] (run_task first works (record t { takes = takes }))
unfolding run_task pending
run_task-Forwards c (send_data none bytes) takes works t on e =
    stopped_Forwards c t _ on refl (λ h. h)
run_task-Forwards c (send_data (some d) bytes) takes works t on e =
    if_holds (Forwards c t [] []) ((t.objects d).is_open && works) _ _
      (λ ok. record {
        there = λ h.
            written_more (c == d) bytes (t.objects c) (pending c takes) ∙ first_done c t _ takes e;
        back = λ h.
            change_keeps (λ x. x.returned ++ x.incoming) c d (write bytes) t.objects (λ x. refl)
            ∙ sym (append_nil (from_server c t));
        was_taking = λ h. on;
        kept = λ h. h;
      })
      λ ko. stopped_Forwards c t _ on refl (λ h. h)
run_task-Forwards c (data_write_back d) takes works t on e =
    if_holds (Forwards c t [] []) ((t.objects d).is_open && works) _ _
      (λ ok. record {
        there = λ h.
            ap (λ w. w ++ pending c takes)
              (change_keeps (λ x. x.written) c d write_back t.objects (λ x. refl))
            ∙ first_done c t _ takes e;
        back = λ h.
            change_keeps (λ x. x.returned ++ x.incoming) c d write_back t.objects
              (λ x. append_nil _)
            ∙ sym (append_nil (from_server c t));
        was_taking = λ h. on;
        kept = λ h. h;
      })
      λ ko. stopped_Forwards c t _ on refl (λ h. h)

take_task-Forwards : (c : ℕ) (works : Bool) (t : Transport) → Forwards c t [] [] (take_task works t)
unfolding take_task
take_task-Forwards c works t =
    if_holds (Forwards c t [] []) t.taking _ _ (λ on. go on t.takes refl)
      λ off. same_Forwards c t t refl refl refl refl (λ h. h)
  where
    go :
        t.taking ≡ true
        → (takes : List Task) → t.takes ≡ takes
        → Forwards c t [] [] (take_first takes works t)
    go on [] e = same_Forwards c t t refl refl refl refl (λ h. h)
    go on (first ∷ takes) e = run_task-Forwards c first takes works t on e

arrived_more :
    (hit : Bool) (bytes : Bytes) (x : Client)
    → (if hit then add_incoming bytes x else x).returned
        ++ (if hit then add_incoming bytes x else x).incoming
      ≡ (x.returned ++ x.incoming) ++ (if hit then bytes else [])
arrived_more true bytes x = sym (append_assoc x.returned x.incoming bytes)
arrived_more false bytes x = sym (append_nil (x.returned ++ x.incoming))

arrive-Forwards :
    (c d : ℕ) (bytes : Bytes) (t : Transport)
    → Forwards c t [] (arrived c (arrival d bytes) t) (arrive d bytes t)
unfolding arrive arrived
arrive-Forwards c d bytes t = elim (Bool-cases (t.objects d).is_open) [
  | inl is_open ↦
      rw (arrive, arrived, is_open)
        (record {
          there = λ h.
              ap (λ w. w ++ pending c t.takes)
                (change_keeps (λ x. x.written) c d (add_incoming bytes) t.objects (λ x. refl))
              ∙ sym (append_nil (to_server c t));
          back = λ h. arrived_more (c == d) bytes (t.objects c);
          was_taking = λ h. h;
          kept = λ h. h;
        })
  | inr shut ↦ rw (arrive, arrived, shut) (same_Forwards c t t refl refl refl refl (λ h. h))
]

step-Forwards :
    (c : ℕ) (e : Event) (t : Transport)
    → c < t.made
    → Forwards c t (handed c e t) (arrived c e t) (step e t)
unfolding step create_client close_client close handed arrived scan_entry
step-Forwards c (active id connected) t old =
    let other : (c == t.made) ≡ false = ground arith in
    let same : change t.made (λ x. new_client connected) t.objects c ≡ t.objects c =
      rw other refl in
    same_Forwards c t _ refl (ap (λ x. x.written) same) (ap (λ x. x.returned ++ x.incoming) same)
      refl (λ h. omega arith)
step-Forwards c (read id bytes) t old = wride-Forwards c id bytes t
step-Forwards c (exception id) t old = go (find id t.clients)
  where
    go : (o : Option ℕ) → Forwards c t [] [] (close_found o id t)
    go none = same_Forwards c t t refl refl refl refl (λ h. h)
    go (some d) =
        same_Forwards c t _ refl (change_keeps (λ x. x.written) c d shut t.objects (λ x. refl))
          (change_keeps (λ x. x.returned ++ x.incoming) c d shut t.objects (λ x. refl)) refl
          (λ h. h)
step-Forwards c closing t old =
    same_Forwards c t _ refl (close_all_keeps (λ x. x.written) c t.clients t.objects (λ x. refl))
      (close_all_keeps (λ x. x.returned ++ x.incoming) c t.clients t.objects (λ x. refl)) refl
      (λ h. h)
step-Forwards c (scan id) t old = go (find id t.clients)
  where
    go : (o : Option ℕ) → Forwards c t [] [] (scan_found o t)
    go none = same_Forwards c t t refl refl refl refl (λ h. h)
    go (some d) = scan_client-Forwards c d t
step-Forwards c (task works) t old = take_task-Forwards c works t
step-Forwards c (arrival d bytes) t old = arrive-Forwards c d bytes t

-- As long as the thread that takes tasks has met no exception, a client's server was written what the
-- client's channel has handed over, in that order, but for what still waits in the queue; and the
-- channel was written back what the server has sent, but for what is still in the socket. Both hold
-- from any state on in which the client was made, after any events.
pub run-Forwards :
    (c : ℕ) (events : List Event) (t : Transport)
    → c < t.made
    → (run events t).taking ≡ true
    → (to_server c (run events t) ≡ to_server c t ++ all_handed c events t)
      × (from_server c (run events t) ≡ from_server c t ++ all_arrived c events t)
      × (t.taking ≡ true)
unfolding run all_handed all_arrived
run-Forwards c [] t old on =
    (sym (append_nil (to_server c t)), sym (append_nil (from_server c t)), on)
run-Forwards c (e ∷ events) t old on =
    let s = step-Forwards c e t old in
    let rest = run-Forwards c events (step e t) (s.kept old) on in
    (
      rest.0
          ∙ ap (λ l. l ++ all_handed c events (step e t)) (s.there rest.2)
          ∙ append_assoc (to_server c t) (handed c e t) _,
      rest.1
          ∙ ap (λ l. l ++ all_arrived c events (step e t)) (s.back rest.2)
          ∙ append_assoc (from_server c t) (arrived c e t) _,
      s.was_taking rest.2,
    )
