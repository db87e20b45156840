-- ===== src/Phone/Inbox.antt =====
-- Inbox: the messages of an endpoint, and the threads that process them. The synchronized blocks are
-- atomic steps; `post` is not synchronized and has two, its test of `stopped` and its `messages.add`.
-- Which thread steps next is a choice of the environment.
pub mod Delivery
use toyhoodle.Prelude.{
  ℕ, zero, suc, ◌+◌, ◌-◌, Bool, true, false, not, ◌&&◌, List, [], ◌∷◌, ◌++◌, Option, none, some,
  ◌==◌, if◌then◌else◌,
}

-- `other n` is a message that is neither OnStart nor OnStop.
pub data Message : Type 0 where
  on_start on_stop : Message
  other : ℕ → Message

-- `handled` is what the endpoint was told, in order, and `dropped` what `onDrop` logged.
pub record Inbox : Type 0 where
  pub messages : List Message
  pub enable_concurrent : Bool
  pub num_active_threads : ℕ
  pub stopped : Bool
  pub handled : List Message
  pub dropped : List Message

-- An inbox, for each thread inside the loop of `process` the message that it holds, and the messages of
-- the calls of `post` that found the inbox not stopped and have not added theirs yet.
pub record World : Type 0 where
  pub inbox : Inbox
  pub threads : List Message
  pub posting : List Message

-- The constructor.
unfoldable pub new_inbox : Inbox
new_inbox = record {
  messages = on_start ∷ [];
  enable_concurrent = false;
  num_active_threads = 1;
  stopped = false;
  handled = [];
  dropped = [];
}

unfoldable pub stop : Inbox → Inbox
stop b =
    if not b.stopped
    then record b {
      enable_concurrent = false;
      stopped = true;
      messages = b.messages ++ on_stop ∷ [];
    }
    else b

-- `post` as a whole, where no other thread comes between its two steps.
unfoldable pub post : Message → Inbox → Inbox
post m b =
    if b.stopped
    then record b { dropped = b.dropped ++ m ∷ [] }
    else record b { messages = b.messages ++ m ∷ [] }

-- `process` up to its loop: the first synchronized block.
unfoldable pub process_begin : World → World
process_begin w =
    let b = w.inbox in
    if not b.enable_concurrent && not (b.num_active_threads == 0) then w else elim b.messages [
      | [] ↦ w
      | m ∷ ms ↦ record w {
        inbox = record b { messages = ms; num_active_threads = b.num_active_threads + 1 };
        threads = w.threads ++ m ∷ [];
      }
    ]

-- What the loop does with the message of a thread: only OnStart and OnStop reach the endpoint.
unfoldable pub handle : Message → Inbox → Inbox
handle on_start b = record b { handled = b.handled ++ on_start ∷ [] }
handle on_stop b = record b { handled = b.handled ++ on_stop ∷ [] }
handle (other _) b = b

-- The second synchronized block: the thread leaves, or holds the next message.
unfoldable pub next_message : Inbox → Inbox × Option Message
next_message b =
    if not b.enable_concurrent && not (b.num_active_threads == 1)
    then (record b { num_active_threads = b.num_active_threads - 1 }, none)
    else elim b.messages [
      | [] ↦ (record b { num_active_threads = b.num_active_threads - 1 }, none)
      | m ∷ ms ↦ (record b { messages = ms }, some m)
    ]

-- The message of the i-th thread, if there is one, is taken out.
unfoldable pub take_thread : ℕ → List Message → Option (Message × List Message)
take_thread i [] = none
take_thread zero (m ∷ ms) = some (m, ms)
take_thread (suc i) (m ∷ ms) = elim (take_thread i ms) [
  | none ↦ none
  | some (held, rest) ↦ some (held, m ∷ rest)
]

-- One round of the loop of `process` by the i-th thread.
unfoldable pub process_round : ℕ → World → World
unfolding handle next_message take_thread
process_round i w = elim (take_thread i w.threads) [
  | none ↦ w
  | some (m, others) ↦
      let (b, next) = next_message (handle m w.inbox) in
      record w { inbox = b; threads = elim next [ none ↦ others | some m' ↦ m' ∷ others ] }
]

-- The test of `post`: a stopped inbox drops the message.
unfoldable pub post_begin : Message → World → World
post_begin m w =
    if w.inbox.stopped
    then record w { inbox = record w.inbox { dropped = w.inbox.dropped ++ m ∷ [] } }
    else record w { posting = w.posting ++ m ∷ [] }

-- The i-th call of `post` that is behind its test adds its message, whatever happened since.
unfoldable pub post_end : ℕ → World → World
unfolding take_thread
post_end i w = elim (take_thread i w.posting) [
  | none ↦ w
  | some (m, others) ↦ record w {
    inbox = record w.inbox { messages = w.inbox.messages ++ m ∷ [] };
    posting = others;
  }
]

-- What can happen: a call of `post`, and the end of one, a call of `stop` or of `process`, and a round of
-- a thread.
pub data Event : Type 0 where
  posts : Message → Event
  adds : ℕ → Event
  stops begins : Event
  rounds : ℕ → Event

unfoldable pub step : Event → World → World
unfolding stop post_begin post_end process_begin process_round
step (posts m) w = post_begin m w
step (adds i) w = post_end i w
step stops w = record w { inbox = stop w.inbox }
step begins w = process_begin w
step (rounds i) w = process_round i w

unfoldable pub run : List Event → World → World
run [] w = w
run (e ∷ es) w = run es (step e w)

abbrev pub new_world : World
unfolding new_inbox
new_world = record { inbox = new_inbox; threads = []; posting = [] }

-- The loop of `process` when no other thread is in it: the thread's message, and the queue behind it.
unfoldable pub process_loop : Message → List Message → Inbox → Inbox
process_loop m [] b =
    let b' = handle m b in
    record b' { messages = []; num_active_threads = b'.num_active_threads - 1 }
process_loop m (m' ∷ ms) b =
    let b' = handle m b in
    let rest = process_loop m' ms (record b' { messages = ms }) in
    if not b'.enable_concurrent && not (b'.num_active_threads == 1)
    then record b' { messages = m' ∷ ms; num_active_threads = b'.num_active_threads - 1 }
    else rest

-- `process`, by a thread that no other one interrupts.
unfoldable pub process : Inbox → Inbox
unfolding process_loop
process b =
    if not b.enable_concurrent && not (b.num_active_threads == 0) then b else elim b.messages [
      | [] ↦ b
      | m ∷ ms ↦
          process_loop m ms
            (record b { messages = ms; num_active_threads = b.num_active_threads + 1 })
    ]
