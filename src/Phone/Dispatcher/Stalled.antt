-- ===== src/Phone/Dispatcher/Stalled.antt =====
-- What becomes of a dispatcher's loops, and of the messages posted through it.
use mathlib.Core.Path.{subst}
use toyhoodle.Prelude.{
  ℕ, ◌+◌, ◌≤◌, ◌≡◌, refl, inl, inr, ap, sym, false, List, [], ◌∷◌, Option, none, some, Option-cases,
  arith, length, length-append, All, All-append, String,
}
use toyhoodle.Phone.Inbox.{Message}
use toyhoodle.Phone.Dispatcher.{
  EndpointData, Receiver, poison_pill, data_of, Dispatcher, Reply, not_found, null_pointer,
  new_dispatcher, new_endpoint_data, new_endpoint_ref, find, register_rpc_endpoint, post_message,
  loop_round, num_threads,
}

-- A call, or a round of a loop.
pub data Event : Type 0 where
  registers : String → ℕ → Event
  posts : String → Message → Event
  rounds : Event

unfoldable pub step : Event → Dispatcher → Dispatcher
unfolding register_rpc_endpoint post_message loop_round
step (registers name endpoint) d = (register_rpc_endpoint name endpoint d).0
step (posts name m) d = (post_message name m d).0
step rounds d = loop_round d

unfoldable pub run : List Event → Dispatcher → Dispatcher
run [] d = d
run (e ∷ es) d = run es (step e d)

abbrev pub HasNoInbox : EndpointData → Type 0
HasNoInbox entry = entry.inbox ≡ none

abbrev IsNamed : Receiver → Type 0
IsNamed poison_pill = ⊥
IsNamed (data_of name) = Unit

-- No endpoint has an inbox, nothing is a poison pill, and each endpoint has ended a loop or waits.
pub record IsStalled (d : Dispatcher) : Type 0 where
  pub inboxes : All HasNoInbox d.endpoints
  pub named : All IsNamed d.receivers
  pub running : d.stopped ≡ false
  pub bound : d.loops ≤ num_threads
  pub spent : length d.endpoints + d.loops ≡ length d.receivers + num_threads

find-HasNoInbox :
    (name : String) (ds : List EndpointData) (entry : EndpointData)
    → All HasNoInbox ds
    → find name ds ≡ some entry
    → HasNoInbox entry
unfolding find
find-HasNoInbox name [] entry v h = ground arith
find-HasNoInbox name (d ∷ ds) entry v h = ground (arith, find-HasNoInbox name ds entry v.1)

loop_round-IsStalled : (d : Dispatcher) → IsStalled d → IsStalled (loop_round d)
unfolding loop_round
loop_round-IsStalled d v = grind (arith, find-HasNoInbox)

-- What `post_message` answers for a name that has, or has not, been registered.
unfoldable pub failure : Option EndpointData → Reply
failure none = not_found
failure (some _) = null_pointer

post_message-IsStalled :
    (name : String) (m : Message) (d : Dispatcher)
    → IsStalled d
    → post_message name m d ≡ (d, failure (find name d.endpoints))
unfolding post_message failure
post_message-IsStalled name m d v = grind (arith, find-HasNoInbox)

register_rpc_endpoint-IsStalled :
    (name : String) (endpoint : ℕ) (d : Dispatcher)
    → IsStalled d
    → IsStalled (register_rpc_endpoint name endpoint d).0
unfolding register_rpc_endpoint new_endpoint_data
register_rpc_endpoint-IsStalled name endpoint d v = elim (Option-cases (find name d.endpoints)) [
  | inl miss ↦
      rw (register_rpc_endpoint, miss)
        (record {
          inboxes = All-append HasNoInbox d.endpoints _ v.inboxes (refl, tt);
          named = All-append IsNamed d.receivers _ v.named (tt, tt);
          running = v.running;
          bound = v.bound;
          spent = ground (
            arith,
            v.spent,
            length-append d.endpoints
                (new_endpoint_data name endpoint (new_endpoint_ref d.netty_env) ∷ []),
            length-append d.receivers (data_of name ∷ []),
          );
        })
  | inr (entry, hit) ↦ rw (register_rpc_endpoint, hit) v
]

step-IsStalled : (e : Event) (d : Dispatcher) → IsStalled d → IsStalled (step e d)
unfolding step
step-IsStalled (registers name endpoint) d v = register_rpc_endpoint-IsStalled name endpoint d v
step-IsStalled (posts name m) d v =
    subst (λ x. IsStalled x) (sym (ap (λ x. x.0) (post_message-IsStalled name m d v))) v
step-IsStalled rounds d v = loop_round-IsStalled d v

run-IsStalled : (es : List Event) (d : Dispatcher) → IsStalled d → IsStalled (run es d)
unfolding run
run-IsStalled [] d v = v
run-IsStalled (e ∷ es) d v = run-IsStalled es (step e d) (step-IsStalled e d v)

new_dispatcher-IsStalled : (env : ℕ) → IsStalled (new_dispatcher env)
unfolding new_dispatcher
new_dispatcher-IsStalled env = ground arith

-- Whatever is registered and posted, and however the loops step: a message posted to a dispatcher
-- never reaches an inbox. The post fails, for an unregistered name because it is not found, and for
-- a registered one on the inbox that nothing assigned, and leaves the dispatcher as it was.
pub post_message-fails :
    (es : List Event) (env : ℕ) (name : String) (m : Message)
    → let d = run es (new_dispatcher env) in
      post_message name m d ≡ (d, failure (find name d.endpoints))
post_message-fails es env name m =
    let v = run-IsStalled es (new_dispatcher env) (new_dispatcher-IsStalled env) in
    post_message-IsStalled name m (run es (new_dispatcher env)) v

-- Whatever is registered and posted, and however the loops step: of the four loops of a dispatcher at
-- most four run, and each registered endpoint waits in the queue or has ended one of them.
pub loops-run :
    (es : List Event) (env : ℕ)
    → let d = run es (new_dispatcher env) in
      (d.loops ≤ num_threads) × (length d.endpoints + d.loops ≡ length d.receivers + num_threads)
loops-run es env =
    let v = run-IsStalled es (new_dispatcher env) (new_dispatcher-IsStalled env) in
    (v.bound, v.spent)
