-- ===== src/Phone/Tests.antt =====
-- Runs of an inbox and of a dispatcher, and instances of the theorems.
use toyhoodle.Prelude.{◌≡◌, refl, false, some, List, [], ◌∷◌}
use toyhoodle.Phone.Inbox.{
  Message, on_start, on_stop, other, Inbox, World, new_inbox, stop, post, process_begin, handle,
  next_message, take_thread, process_round, post_begin, post_end, posts, adds, stops, begins,
  rounds, run, step, new_world, process_loop, process,
}
use toyhoodle.Phone.Inbox
use toyhoodle.Phone.Inbox.Delivery.{accepted, run-new_world}
use toyhoodle.Phone.Dispatcher.{
  Dispatcher, data_of, poison_pill, posted, name_exists, not_found, new_dispatcher,
  new_endpoint_ref, new_endpoint_data, find, set_inbox, register_rpc_endpoint, post_message,
  loop_round, num_threads,
}
use toyhoodle.Phone.Dispatcher.Stalled
use toyhoodle.Phone.Dispatcher.Stalled.{failure, post_message-fails, loops-run, registers}

program : Unit {0}
unfolding new_inbox stop post post_begin post_end process_begin handle next_message take_thread
    process_round run step process_loop process accepted new_dispatcher new_endpoint_ref
    new_endpoint_data find set_inbox register_rpc_endpoint post_message loop_round Stalled.run
    Stalled.step failure
program = tt

abbrev events : List Inbox.Event
events = posts (other 5) ∷ adds 0 ∷ begins ∷ rounds 0 ∷ stops ∷ posts (other 6) ∷ rounds 0 ∷ []

-- An inbox as the constructor leaves it, but with no thread that counts as active.
abbrev idle_inbox : Inbox
idle_inbox = record {
  messages = on_start ∷ [];
  enable_concurrent = false;
  num_active_threads = 0;
  stopped = false;
  handled = [];
  dropped = [];
}

abbrev idle_world : World
idle_world = record { inbox = idle_inbox; threads = []; posting = [] }

blocked_run :
    ((run events new_world).inbox.messages ≡ on_start ∷ other 5 ∷ on_stop ∷ [])
    × ((run events new_world).inbox.dropped ≡ other 6 ∷ [])
unfolding program
blocked_run = (refl, refl)

idle_run : (run events idle_world).inbox.handled ≡ on_start ∷ []
unfolding program
idle_run = refl

process_run : (process (stop (post (other 5) idle_inbox))).handled ≡ on_start ∷ on_stop ∷ []
unfolding program
process_run = refl

run-new_world_example :
    ((run events new_world).inbox.handled ≡ [])
    × ((run events new_world).threads ≡ [])
    × ((run events new_world).inbox.messages ≡ on_start ∷ accepted false [] events)
run-new_world_example = run-new_world events

-- A message that passes the test of `post` before the inbox is stopped is added behind OnStop.
late_run :
    (run (posts (other 5) ∷ stops ∷ adds 0 ∷ []) new_world).inbox.messages
    ≡ on_start ∷ on_stop ∷ other 5 ∷ []
unfolding program
late_run = refl

abbrev served : List Stalled.Event
served =
    registers "a" 1
    ∷ registers "b" 2
    ∷ registers "a" 3
    ∷ Stalled.rounds
    ∷ Stalled.posts "a" on_stop
    ∷ []

served-run :
    ((Stalled.run served (new_dispatcher 9)).loops ≡ 3)
    × ((Stalled.run served (new_dispatcher 9)).receivers ≡ data_of "b" ∷ [])
    × ((register_rpc_endpoint "a" 3 (Stalled.run served (new_dispatcher 9))).1 ≡ name_exists)
    × ((post_message "c" on_stop (Stalled.run served (new_dispatcher 9))).1 ≡ not_found)
unfolding program
served-run = (refl, refl, refl, refl)

-- With an inbox in place a message reaches it, and a loop has it processed.
abbrev with_inbox : Dispatcher
with_inbox = record {
  endpoints =
      record {
        name = "a";
        rpc_endpoint = 1;
        rpc_endpoint_ref = record { env = 9 };
        inbox = some idle_inbox;
      }
      ∷ [];
  endpoint_refs = [];
  receivers = [];
  netty_env = 9;
  stopped = false;
  loops = num_threads;
}

with_inbox_run :
    ((post_message "a" on_stop with_inbox).1 ≡ posted)
    × ((loop_round (post_message "a" on_stop with_inbox).0).endpoints
        ≡ record {
          name = "a";
          rpc_endpoint = 1;
          rpc_endpoint_ref = record { env = 9 };
          inbox = some (record idle_inbox { messages = []; handled = on_start ∷ on_stop ∷ [] });
        }
          ∷ [])
    × ((loop_round (record with_inbox { receivers = poison_pill ∷ [] })).loops ≡ 3)
unfolding program
with_inbox_run = (refl, refl, refl)

post_message-fails_example :
    let d = Stalled.run served (new_dispatcher 9) in
    post_message "a" on_stop d ≡ (d, failure (find "a" d.endpoints))
post_message-fails_example = post_message-fails served 9 "a" on_stop
