-- ===== src/Snipe/Balance.antt =====
-- BalanceScheduler: the servers in turn. An address is any value: how the constructor reads it from
-- `host:port` is not modelled. One call is one atomic step on `rotation`.
pub mod RoundRobin
use toyhoodle.Prelude.{ℕ, ◌+◌, ◌-◌, Option, List, ltb, length, get_elem?, if◌then◌else◌}

pub record BalanceScheduler {ℓ} (A : Type ℓ) : Type ℓ where
  pub address : List A
  pub len : ℕ
  pub rotation : ℕ

-- The function that `getServerAddress` hands to `getAndUpdate`.
unfoldable pub next_rotation : ℕ → ℕ → ℕ
next_rotation len x = if ltb len (x + 1) then 1 else x + 1

module _ {ℓ} {A : Type ℓ} where
  unfoldable pub new_scheduler : List A → BalanceScheduler A
  new_scheduler address = record { address = address; len = length address; rotation = 1 }

  -- `none` is an IndexOutOfBoundsException; `rotation` has moved on by then.
  unfoldable pub get_server_address : BalanceScheduler A → BalanceScheduler A × Option A
  get_server_address s =
      (record s { rotation = next_rotation s.len s.rotation }, get_elem? s.address (s.rotation - 1))

  unfoldable pub set_server_address : List A → BalanceScheduler A → BalanceScheduler A
  set_server_address address s = record s { address = address; len = length address }
