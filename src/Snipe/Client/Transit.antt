-- ===== src/Snipe/Client/Transit.antt =====
-- The bytes that are on their way to the server of a client and back, and what a step adds to them.
use toyhoodle.Prelude.{
  ℕ, ◌<◌, ◌≡◌, refl, sym, ap, ◌∙◌, true, Option, none, some, List, [], ◌∷◌, ◌++◌, ◌==◌,
  if◌then◌else◌,
}
use toyhoodle.Snipe.Client.{
  Bytes, Client, change, shut, close_all, Task, send_data, data_write_back, Transport, Event, read,
  arrival, step, find,
}
use toyhoodle.Snipe.Client.Queue.{if_holds}

pub append_assoc : (xs ys zs : Bytes) → (xs ++ ys) ++ zs ≡ xs ++ (ys ++ zs)
append_assoc [] ys zs = refl
append_assoc (x ∷ xs) ys zs = ap (λ l. x ∷ l) (append_assoc xs ys zs)

pub append_nil : (xs : Bytes) → xs ++ [] ≡ xs
append_nil [] = refl
append_nil (x ∷ xs) = ap (λ l. x ∷ l) (append_nil xs)

abbrev pub for_client : ℕ → Option ℕ → Bytes → Bytes
for_client c none bytes = []
for_client c (some d) bytes = if c == d then bytes else []

-- What the queue still holds for the server of a client.
unfoldable pub pending : ℕ → List Task → Bytes
pending c [] = []
pending c (send_data d bytes ∷ takes) = for_client c d bytes ++ pending c takes
pending c (data_write_back d ∷ takes) = pending c takes

pub pending-append :
    (c : ℕ) (xs ys : List Task) → pending c (xs ++ ys) ≡ pending c xs ++ pending c ys
unfolding pending
pending-append c [] ys = refl
pending-append c (send_data d bytes ∷ xs) ys =
    ap (λ l. for_client c d bytes ++ l) (pending-append c xs ys)
    ∙ sym (append_assoc (for_client c d bytes) _ _)
pending-append c (data_write_back d ∷ xs) ys = pending-append c xs ys

-- For the server of a client, and from it.
abbrev pub to_server : ℕ → Transport → Bytes
to_server c t = (t.objects c).written ++ pending c t.takes

abbrev pub from_server : ℕ → Transport → Bytes
from_server c t = (t.objects c).returned ++ (t.objects c).incoming

-- What the channel of a client hands over in an event, and what its server sends.
unfoldable pub handed : ℕ → Event → Transport → Bytes
unfolding find
handed c (read id bytes) t = for_client c (find id t.clients) bytes
handed c e t = []

unfoldable pub arrived : ℕ → Event → Transport → Bytes
arrived c (arrival d bytes) t = if (t.objects d).is_open then for_client c (some d) bytes else []
arrived c e t = []

unfoldable pub all_handed : ℕ → List Event → Transport → Bytes
unfolding step handed
all_handed c [] t = []
all_handed c (e ∷ events) t = handed c e t ++ all_handed c events (step e t)

unfoldable pub all_arrived : ℕ → List Event → Transport → Bytes
unfolding step arrived
all_arrived c [] t = []
all_arrived c (e ∷ events) t = arrived c e t ++ all_arrived c events (step e t)

-- What a change of an object leaves as it is.
pub change_keeps :
    (g : Client → Bytes) (c d : ℕ) (f : Client → Client) (objects : ℕ → Client)
    → ((x : Client) → g (f x) ≡ g x)
    → g (change d f objects c) ≡ g (objects c)
change_keeps g c d f objects same =
    if_holds (λ x. g x ≡ g (objects c)) (c == d) _ _ (λ e. same (objects c)) λ e. refl

pub close_all_keeps :
    (g : Client → Bytes) (c : ℕ) (clients : List (ℕ × ℕ)) (objects : ℕ → Client)
    → ((x : Client) → g (shut x) ≡ g x)
    → g (close_all clients objects c) ≡ g (objects c)
unfolding close_all
close_all_keeps g c [] objects same = refl
close_all_keeps g c ((id, d) ∷ clients) objects same =
    close_all_keeps g c clients (change d shut objects) same ∙ change_keeps g c d shut objects same

-- A step forwards what it was handed.
pub record Forwards (c : ℕ) (t : Transport) (handed_over sent : Bytes) (u : Transport)
    : Type 0 where
  pub there : u.taking ≡ true → to_server c u ≡ to_server c t ++ handed_over
  pub back : u.taking ≡ true → from_server c u ≡ from_server c t ++ sent
  pub was_taking : u.taking ≡ true → t.taking ≡ true
  pub kept : c < t.made → c < u.made

-- A step that leaves the queue as it is, and what clients have.
pub same_Forwards :
    (c : ℕ) (t u : Transport)
    → u.takes ≡ t.takes
    → (u.objects c).written ≡ (t.objects c).written
    → from_server c u ≡ from_server c t
    → u.taking ≡ t.taking
    → (c < t.made → c < u.made)
    → Forwards c t [] [] u
same_Forwards c t u takes written from taking made = record {
  there = λ h. (λ i. written i ++ pending c (takes i)) ∙ sym (append_nil (to_server c t));
  back = λ h. from ∙ sym (append_nil (from_server c t));
  was_taking = λ h. sym taking ∙ h;
  kept = made;
}
