-- ===== src/Snipe/Client.antt =====
-- TransprtDBClint: what clients send goes through a queue to their server, and a scan of the sockets
-- queues what the server has sent. A Client is an object, referred to by its number; `Event` lists what
-- the handler, the two threads and the servers do, one at a time in any order.
pub mod Queue
pub mod Transit
pub mod Forwarding
pub mod Scanning
use toyhoodle.Prelude.{
  ℕ, ◌+◌, Bool, true, false, ◌&&◌, ◌||◌, not, Option, none, some, List, [], ◌∷◌, ◌++◌, ◌==◌,
  if◌then◌else◌,
}

abbrev pub Bytes : Type 0
Bytes = List ℕ

-- `incoming` is what the socket has available, `written` what was written to it, and `returned` what was
-- written back to the channel. A socket is open when it is connected and not closed.
pub record Client : Type 0 where
  pub incoming : Bytes
  pub written : Bytes
  pub returned : Bytes
  pub is_open : Bool

-- A task of the queue: `wride` may hand over the null that it found for a client.
pub data Task : Type 0 where
  send_data : Option ℕ → Bytes → Task
  data_write_back : ℕ → Task

-- `scanning` and `taking` tell whether the loops of the two threads still run.
pub record Transport : Type 0 where
  pub objects : ℕ → Client
  pub made : ℕ
  pub clients : List (ℕ × ℕ)
  pub takes : List Task
  pub run_client : List ℕ
  pub closed : Bool
  pub scanning : Bool
  pub taking : Bool

abbrev pub new_client : Bool → Client
new_client connected = record { incoming = []; written = []; returned = []; is_open = connected }

abbrev pub new_transport : Transport
new_transport = record {
  objects = λ c. new_client false;
  made = 0;
  clients = [];
  takes = [];
  run_client = [];
  closed = false;
  scanning = true;
  taking = true;
}

abbrev pub change : ℕ → (Client → Client) → (ℕ → Client) → ℕ → Client
change c f objects n = if n == c then f (objects n) else objects n

-- `clients.get`
unfoldable pub find : ℕ → List (ℕ × ℕ) → Option ℕ
find id [] = none
find id ((k, c) ∷ clients) = if k == id then some c else find id clients

unfoldable pub remove_key : ℕ → List (ℕ × ℕ) → List (ℕ × ℕ)
remove_key id [] = []
remove_key id ((k, c) ∷ clients) =
    let rest = remove_key id clients in if k == id then rest else (k, c) ∷ rest

unfoldable pub contains : ℕ → List ℕ → Bool
contains c [] = false
contains c (d ∷ numbers) = (d == c) || contains c numbers

-- `remove` of a queue takes the first.
unfoldable pub remove : ℕ → List ℕ → List ℕ
remove c [] = []
remove c (d ∷ numbers) = let rest = remove c numbers in if d == c then numbers else d ∷ rest

-- `createClient`, by whether the socket could connect: the client is put in either case.
unfoldable pub create_client : ℕ → Bool → Transport → Transport
unfolding remove_key
create_client id connected t = record t {
  objects = change t.made (λ old. new_client connected) t.objects;
  made = t.made + 1;
  clients = (id, t.made) ∷ remove_key id t.clients;
}

-- `wride`
unfoldable pub wride : ℕ → Bytes → Transport → Transport
unfolding find
wride id bytes t = record t { takes = t.takes ++ (send_data (find id t.clients) bytes ∷ []) }

abbrev pub shut : Client → Client
shut client = record client { is_open = false }

abbrev pub close_found : Option ℕ → ℕ → Transport → Transport
close_found none id t = t
close_found (some c) id t = record t {
  objects = change c shut t.objects;
  clients = remove_key id t.clients;
}

-- `closeClient`; a null raises an exception in the handler.
unfoldable pub close_client : ℕ → Transport → Transport
unfolding find remove_key
close_client id t = close_found (find id t.clients) id t

unfoldable pub close_all : List (ℕ × ℕ) → (ℕ → Client) → ℕ → Client
close_all [] objects = objects
close_all ((id, c) ∷ clients) objects = close_all clients (change c shut objects)

-- `close`
unfoldable pub close : Transport → Transport
unfolding close_all
close t = record t { closed = true; objects = close_all t.clients t.objects }

abbrev pub is_empty : Bytes → Bool
is_empty [] = true
is_empty (b ∷ bytes) = false

-- The client of an entry in the scan: `isMassage` of a socket that is not open ends the loop.
unfoldable pub scan_client : ℕ → Transport → Transport
unfolding contains
scan_client c t =
    if not t.scanning || t.closed
    then t
    else if not (t.objects c).is_open
    then record t { scanning = false }
    else if not (is_empty (t.objects c).incoming) && not (contains c t.run_client)
    then record t {
      run_client = t.run_client ++ (c ∷ []);
      takes = t.takes ++ (data_write_back c ∷ []);
    }
    else t

abbrev pub scan_found : Option ℕ → Transport → Transport
scan_found none t = t
scan_found (some c) t = scan_client c t

-- An entry of the map in the loop of the scan.
unfoldable pub scan_entry : ℕ → Transport → Transport
unfolding find scan_client
scan_entry id t = scan_found (find id t.clients) t

abbrev pub write : Bytes → Client → Client
write bytes client = record client { written = client.written ++ bytes }

abbrev pub write_back : Client → Client
write_back client = record client { returned = client.returned ++ client.incoming; incoming = [] }

-- A task that is run, with whether the socket and the channel raise no exception; one ends the loop.
unfoldable pub run_task : Task → Bool → Transport → Transport
unfolding remove
run_task (send_data none bytes) works t = record t { taking = false }
run_task (send_data (some c) bytes) works t =
    if (t.objects c).is_open && works
    then record t { objects = change c (write bytes) t.objects }
    else record t { taking = false }
run_task (data_write_back c) works t =
    if (t.objects c).is_open && works
    then record t { objects = change c write_back t.objects; run_client = remove c t.run_client }
    else record t { taking = false; run_client = remove c t.run_client }

abbrev pub take_first : List Task → Bool → Transport → Transport
take_first [] works t = t
take_first (task ∷ takes) works t = run_task task works (record t { takes = takes })

-- A round of the loop that takes tasks; on an empty queue it waits.
unfoldable pub take_task : Bool → Transport → Transport
unfolding run_task
take_task works t = if t.taking then take_first t.takes works t else t

abbrev pub add_incoming : Bytes → Client → Client
add_incoming bytes client = record client { incoming = client.incoming ++ bytes }

-- A server sends bytes, to a socket that is open.
unfoldable pub arrive : ℕ → Bytes → Transport → Transport
arrive c bytes t =
    if (t.objects c).is_open
    then record t { objects = change c (add_incoming bytes) t.objects }
    else t

pub data Event : Type 0 where
  active : ℕ → Bool → Event
  read : ℕ → Bytes → Event
  exception : ℕ → Event
  closing : Event
  scan : ℕ → Event
  task : Bool → Event
  arrival : ℕ → Bytes → Event

unfoldable pub step : Event → Transport → Transport
unfolding create_client wride close_client close scan_entry take_task arrive
step (active id connected) t = create_client id connected t
step (read id bytes) t = wride id bytes t
step (exception id) t = close_client id t
step closing t = close t
step (scan id) t = scan_entry id t
step (task works) t = take_task works t
step (arrival c bytes) t = arrive c bytes t

unfoldable pub run : List Event → Transport → Transport
unfolding step
run [] t = t
run (e ∷ events) t = run events (step e t)
