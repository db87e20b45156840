-- ===== src/Phone/Dispatcher.antt =====
-- Dispatcher: the named endpoints, the queue of those that have messages, and the loops that take
-- them. `endpoints` only ever gains keys, so a name stands for its EndpointData in the queue.
pub mod Stalled
use toyhoodle.Prelude.{
  ℕ, ◌+◌, ◌-◌, Bool, true, false, List, [], ◌∷◌, ◌++◌, Option, none, some, String, str_eq, ◌==◌,
  if◌then◌else◌,
}
use toyhoodle.Phone.Inbox.{Message, Inbox, World, post, process}

-- The constructor of NettyRpcAddress keeps neither of its arguments, so a reference is that of an
-- environment and no more.
pub record EndpointRef : Type 0 where
  pub env : ℕ

-- `inbox` is null until something assigns it.
pub record EndpointData : Type 0 where
  pub name : String
  pub rpc_endpoint : ℕ
  pub rpc_endpoint_ref : EndpointRef
  pub inbox : Option Inbox

pub data Receiver : Type 0 where
  poison_pill : Receiver
  data_of : String → Receiver

-- `loops` counts the threads that still run MessageLoop.
pub record Dispatcher : Type 0 where
  pub endpoints : List EndpointData
  pub endpoint_refs : List (ℕ × EndpointRef)
  pub receivers : List Receiver
  pub netty_env : ℕ
  pub stopped : Bool
  pub loops : ℕ

pub data Reply : Type 0 where
  returned : EndpointRef → Reply
  posted name_exists env_stopped not_found null_pointer : Reply

abbrev pub num_threads : ℕ
num_threads = 4

-- The constructor starts the loops.
unfoldable pub new_dispatcher : ℕ → Dispatcher
new_dispatcher env = record {
  endpoints = [];
  endpoint_refs = [];
  receivers = [];
  netty_env = env;
  stopped = false;
  loops = num_threads;
}

-- The constructor of NettyRpcEndpointRef.
unfoldable pub new_endpoint_ref : ℕ → EndpointRef
new_endpoint_ref env = record { env = env }

-- The constructor of EndpointData.
unfoldable pub new_endpoint_data : String → ℕ → EndpointRef → EndpointData
new_endpoint_data name endpoint ref = record {
  name = name;
  rpc_endpoint = endpoint;
  rpc_endpoint_ref = ref;
  inbox = none;
}

unfoldable pub find : String → List EndpointData → Option EndpointData
find name [] = none
find name (d ∷ ds) = if str_eq d.name name then some d else find name ds

-- The value of a key of `endpoints` changes.
unfoldable pub set_inbox : String → Inbox → List EndpointData → List EndpointData
set_inbox name b [] = []
set_inbox name b (d ∷ ds) =
    if str_eq d.name name then record d { inbox = some b } ∷ ds else d ∷ set_inbox name b ds

unfoldable pub register_rpc_endpoint : String → ℕ → Dispatcher → Dispatcher × Reply
unfolding new_endpoint_ref new_endpoint_data
register_rpc_endpoint name endpoint d =
    let ref = new_endpoint_ref d.netty_env in
    elim (find name d.endpoints) [
      | some _ ↦ (d, name_exists)
      | none ↦ (
        record d {
          endpoints = d.endpoints ++ new_endpoint_data name endpoint ref ∷ [];
          endpoint_refs = (endpoint, ref) ∷ d.endpoint_refs;
          receivers = d.receivers ++ data_of name ∷ [];
        },
        returned ref,
      )
    ]

unfoldable pub post_message : String → Message → Dispatcher → Dispatcher × Reply
post_message name m d = if d.stopped then (d, env_stopped) else elim (find name d.endpoints) [
  | none ↦ (d, not_found)
  | some entry ↦ elim entry.inbox [
    | none ↦ (d, null_pointer)
    | some b ↦ (
      record d {
        endpoints = set_inbox name (post m b) d.endpoints;
        receivers = d.receivers ++ data_of name ∷ [];
      },
      posted,
    )
  ]
]

-- A round of `MessageLoop.run`, if a loop still runs and the queue has an element: with nothing to
-- take the loop waits. No other thread is in the inbox while `process` runs.
-- An exception other than InterruptedException ends the loop.
unfoldable pub loop_round : Dispatcher → Dispatcher
loop_round d = if d.loops == 0 then d else elim d.receivers [
  | [] ↦ d
  | poison_pill ∷ rs ↦ record d { receivers = rs ++ poison_pill ∷ []; loops = d.loops - 1 }
  | data_of name ∷ rs ↦ elim (find name d.endpoints) [
    | none ↦ record d { receivers = rs; loops = d.loops - 1 }
    | some entry ↦ elim entry.inbox [
      | none ↦ record d { receivers = rs; loops = d.loops - 1 }
      | some b ↦ record d { receivers = rs; endpoints = set_inbox name (process b) d.endpoints }
    ]
  ]
]
