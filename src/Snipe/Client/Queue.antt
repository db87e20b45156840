-- ===== src/Snipe/Client/Queue.antt =====
-- The queue of tasks and the list of the clients whose answers wait in it.
use toyhoodle.Prelude.{
  ℕ, ◌≡◌, refl, sym, ap, ◌∙◌, Bool, true, false, Option, none, some, List, [], ◌∷◌, ◌++◌, ◌==◌,
  arith, ◌&&◌, ◌||◌, not, if◌then◌else◌,
}
use toyhoodle.Snipe.Client.{
  Task, send_data, data_write_back, Transport, new_transport, contains, remove, create_client,
  wride, close_client, close_found, close, scan_client, scan_found, scan_entry, is_empty, run_task,
  take_first, take_task, arrive, Event, active, read, exception, closing, scan, task, arrival, step,
  run, find,
}

-- The clients whose answers wait, in the order of the queue.
unfoldable pub waiting : List Task → List ℕ
waiting [] = []
waiting (send_data c bytes ∷ takes) = waiting takes
waiting (data_write_back c ∷ takes) = c ∷ waiting takes

waiting-append : (xs ys : List Task) → waiting (xs ++ ys) ≡ waiting xs ++ waiting ys
unfolding waiting
waiting-append [] ys = refl
waiting-append (send_data c bytes ∷ xs) ys = waiting-append xs ys
waiting-append (data_write_back c ∷ xs) ys = ap (λ l. c ∷ l) (waiting-append xs ys)

append_nil : (xs : List ℕ) → xs ++ [] ≡ xs
append_nil [] = refl
append_nil (x ∷ xs) = ap (λ l. x ∷ l) (append_nil xs)

abbrev pub IsDistinct : List ℕ → Type 0
IsDistinct [] = Unit
IsDistinct (c ∷ numbers) = (contains c numbers ≡ false) × IsDistinct numbers

contains-append :
    (c d : ℕ) (numbers : List ℕ)
    → contains c numbers ≡ false
    → (d == c) ≡ false
    → contains c (numbers ++ (d ∷ [])) ≡ false
unfolding contains
contains-append c d [] h ne = ground arith
contains-append c d (e ∷ numbers) h ne = ground (arith, contains-append c d numbers)

IsDistinct-append :
    (d : ℕ) (numbers : List ℕ)
    → IsDistinct numbers
    → contains d numbers ≡ false
    → IsDistinct (numbers ++ (d ∷ []))
unfolding contains
IsDistinct-append d [] h new = (refl, tt)
IsDistinct-append d (c ∷ numbers) h new =
    let ne : (d == c) ≡ false = ground arith in
    let rest : contains d numbers ≡ false = ground arith in
    (contains-append c d numbers h.0 ne, IsDistinct-append d numbers h.1 rest)

-- Every client in the list has one answer that waits, in the same order, and no other has one.
pub record IsQueued (t : Transport) : Type 0 where
  pub same : t.run_client ≡ waiting t.takes
  pub distinct : IsDistinct t.run_client

wride-IsQueued :
    (id : ℕ) (bytes : List ℕ) (t : Transport) → IsQueued t → IsQueued (wride id bytes t)
unfolding wride waiting
wride-IsQueued id bytes t q = record {
  same = q.same ∙ sym (append_nil (waiting t.takes)) ∙ sym (waiting-append t.takes _);
  distinct = q.distinct;
}

-- What holds of both branches.
pub if_holds :
    {A : Type 0} (P : A → Type 0) (b : Bool) (x y : A)
    → (b ≡ true → P x)
    → (b ≡ false → P y)
    → P (if b then x else y)
if_holds P true x y hx hy = hx refl
if_holds P false x y hx hy = hy refl

scan_client-IsQueued : (c : ℕ) (t : Transport) → IsQueued t → IsQueued (scan_client c t)
unfolding scan_client waiting
scan_client-IsQueued c t q =
    if_holds IsQueued (not t.scanning || t.closed) _ _ (λ idle. q)
      λ awake.
        if_holds IsQueued (not (t.objects c).is_open) _ _
          (λ shut. record { same = q.same; distinct = q.distinct })
          λ is_open.
            if_holds IsQueued
              (not (is_empty (t.objects c).incoming) && not (contains c t.run_client)) _ _
              (λ new.
                let other : contains c t.run_client ≡ false = ground arith in
                record {
                  same = ap (λ l. l ++ (c ∷ [])) q.same ∙ sym (waiting-append t.takes _);
                  distinct = IsDistinct-append c t.run_client q.distinct other;
                })
              λ old. q

scan_entry-IsQueued : (id : ℕ) (t : Transport) → IsQueued t → IsQueued (scan_entry id t)
unfolding scan_entry
scan_entry-IsQueued id t q = go (find id t.clients)
  where
    go : (o : Option ℕ) → IsQueued (scan_found o t)
    go none = q
    go (some c) = scan_client-IsQueued c t q

remove_first : (c : ℕ) (numbers : List ℕ) → remove c (c ∷ numbers) ≡ numbers
unfolding remove
remove_first c numbers = ground arith

-- The list of a queue that lost its first task.
took :
    (c : ℕ) (numbers : List ℕ) (takes : List Task)
    → IsDistinct numbers
    → numbers ≡ c ∷ waiting takes
    → (remove c numbers ≡ waiting takes) × IsDistinct (remove c numbers)
took c [] takes d e = cc
took c (k ∷ numbers) takes d e =
    let first : k ≡ c = cc in
    let rest : numbers ≡ waiting takes = cc in
    let gone : remove c (k ∷ numbers) ≡ numbers =
      ap (λ m. remove c (m ∷ numbers)) first ∙ remove_first c numbers in
    (gone ∙ rest, rw gone d.1)

run_task-IsQueued :
    (first : Task) (takes : List Task) (works : Bool) (t : Transport)
    → IsQueued t
    → t.takes ≡ first ∷ takes
    → IsQueued (run_task first works (record t { takes = takes }))
unfolding run_task waiting
run_task-IsQueued (send_data none bytes) takes works t q e = record {
  same = q.same ∙ ap waiting e;
  distinct = q.distinct;
}
run_task-IsQueued (send_data (some c) bytes) takes works t q e =
    if_holds IsQueued ((t.objects c).is_open && works) _ _
      (λ ok. record { same = q.same ∙ ap waiting e; distinct = q.distinct })
      λ ko. record { same = q.same ∙ ap waiting e; distinct = q.distinct }
run_task-IsQueued (data_write_back c) takes works t q e =
    let left = took c t.run_client takes q.distinct (q.same ∙ ap waiting e) in
    if_holds IsQueued ((t.objects c).is_open && works) _ _
      (λ ok. record { same = left.0; distinct = left.1 })
      λ ko. record { same = left.0; distinct = left.1 }

take_task-IsQueued : (works : Bool) (t : Transport) → IsQueued t → IsQueued (take_task works t)
unfolding take_task
take_task-IsQueued works t q = if_holds IsQueued t.taking _ _ (λ on. go t.takes refl) λ off. q
  where
    go : (takes : List Task) → t.takes ≡ takes → IsQueued (take_first takes works t)
    go [] e = q
    go (first ∷ takes) e = run_task-IsQueued first takes works t q e

step-IsQueued : (e : Event) (t : Transport) → IsQueued t → IsQueued (step e t)
unfolding step create_client close_client close arrive
step-IsQueued (active id connected) t q = record { same = q.same; distinct = q.distinct }
step-IsQueued (read id bytes) t q = wride-IsQueued id bytes t q
step-IsQueued (exception id) t q = go (find id t.clients)
  where
    go : (o : Option ℕ) → IsQueued (close_found o id t)
    go none = q
    go (some c) = record { same = q.same; distinct = q.distinct }
step-IsQueued closing t q = record { same = q.same; distinct = q.distinct }
step-IsQueued (scan id) t q = scan_entry-IsQueued id t q
step-IsQueued (task works) t q = take_task-IsQueued works t q
step-IsQueued (arrival c bytes) t q =
    if_holds IsQueued (t.objects c).is_open _ _
      (λ is_open. record { same = q.same; distinct = q.distinct }) λ shut. q

run-IsQueued_from : (events : List Event) (t : Transport) → IsQueued t → IsQueued (run events t)
unfolding run
run-IsQueued_from [] t q = q
run-IsQueued_from (e ∷ events) t q = run-IsQueued_from events (step e t) (step-IsQueued e t q)

-- After any events, `runClient` holds exactly the clients whose write-back waits in the queue of tasks,
-- in the order of the queue and each of them once: no client is queued twice.
pub run-IsQueued : (events : List Event) → IsQueued (run events new_transport)
unfolding waiting
run-IsQueued events = run-IsQueued_from events new_transport (record { same = refl; distinct = tt })
