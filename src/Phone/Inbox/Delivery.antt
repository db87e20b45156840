-- ===== src/Phone/Inbox/Delivery.antt =====
-- Which messages of an inbox reach its endpoint.
use mathlib.Core.List.{append_assoc, append-nil}
use toyhoodle.Prelude.{
  ◌≡◌, refl, ◌∙◌, sym, Bool, true, false, List, none, some, [], ◌∷◌, ◌++◌, arith, if◌then◌else◌,
}
use toyhoodle.Phone.Inbox.{
  Message, on_start, on_stop, World, take_thread, new_inbox, Event, posts, adds, stops, begins,
  rounds, step, run, new_world,
}

-- The messages that a run adds to the queue, in order, where these messages are behind the test of
-- `post`: those that pass the test, when they are added, and one OnStop.
unfoldable pub accepted : Bool → List Message → List Event → List Message
unfolding take_thread
accepted stopped posting [] = []
accepted stopped posting (posts m ∷ es) =
    if stopped then accepted stopped posting es else accepted stopped (posting ++ m ∷ []) es
accepted stopped posting (adds i ∷ es) = elim (take_thread i posting) [
  | none ↦ accepted stopped posting es
  | some (m, others) ↦ m ∷ accepted stopped others es
]
accepted stopped posting (stops ∷ es) =
    if stopped then accepted true posting es else on_stop ∷ accepted true posting es
accepted stopped posting (begins ∷ es) = accepted stopped posting es
accepted stopped posting (rounds _ ∷ es) = accepted stopped posting es

-- No thread is in the loop, although one counts as active, as the constructor has it.
record IsBlocked (w : World) : Type 0 where
  idle : w.threads ≡ []
  serial : w.inbox.enable_concurrent ≡ false
  active : w.inbox.num_active_threads ≡ 1
  unhandled : w.inbox.handled ≡ []

step-IsBlocked : (e : Event) (w : World) → IsBlocked w → IsBlocked (step e w)
unfolding step
step-IsBlocked (posts m) w v = ground arith
step-IsBlocked (adds i) w v = ground arith
step-IsBlocked stops w v = ground arith
step-IsBlocked begins w v = ground arith
step-IsBlocked (rounds i) w v = ground arith

append-one : (l : List Message) (m : Message) (r : List Message) → (l ++ m ∷ []) ++ r ≡ l ++ m ∷ r
append-one l m r = append_assoc l (m ∷ []) r

-- A blocked inbox only grows.
messages-step :
    (e : Event) (es : List Event) (w : World)
    → IsBlocked w
    → (step e w).inbox.messages ++ accepted (step e w).inbox.stopped (step e w).posting es
      ≡ w.inbox.messages ++ accepted w.inbox.stopped w.posting (e ∷ es)
unfolding step accepted
messages-step (posts m) es w v = ground arith
messages-step (adds i) es w v = grind (arith, append-one)
messages-step stops es w v =
    ground (arith, append_assoc w.inbox.messages (on_stop ∷ []) (accepted true w.posting es))
messages-step begins es w v = ground arith
messages-step (rounds i) es w v = ground arith

run-IsBlocked :
    (es : List Event) (w : World)
    → IsBlocked w
    → IsBlocked (run es w)
      × ((run es w).inbox.messages ≡ w.inbox.messages ++ accepted w.inbox.stopped w.posting es)
unfolding run accepted
run-IsBlocked [] w v = (v, sym (append-nil _))
run-IsBlocked (e ∷ es) w v =
    let (b, q) = run-IsBlocked es (step e w) (step-IsBlocked e w v) in
    (b, q ∙ messages-step e es w v)

-- Whatever is posted and however the threads step, also between the test of `post` and its
-- `messages.add`: a new inbox never handles a message, no thread ever enters the loop of `process`, and
-- OnStart and all that is accepted wait in the queue.
pub run-new_world :
    (es : List Event)
    → ((run es new_world).inbox.handled ≡ [])
      × ((run es new_world).threads ≡ [])
      × ((run es new_world).inbox.messages ≡ on_start ∷ accepted false [] es)
unfolding new_inbox
run-new_world es =
    let (b, q) =
      run-IsBlocked es new_world
        (record { idle = refl; serial = refl; active = refl; unhandled = refl }) in
    (b.unhandled, b.idle, q)
