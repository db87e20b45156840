-- ===== src/Snipe/Balance/RoundRobin.antt =====
-- The servers are given out in turn, and what a change of the servers does to the turn.
use native.Mathlib.Nat.{mod-add-mod, mod-lt, mod-eq_of_lt}
use toyhoodle.Prelude.{
  ℕ, zero, suc, ◌+◌, ◌-◌, ◌%◌, ◌≤◌, ◌<◌, ◌≡◌, refl, ◌∙◌, ap, none, List, [], ◌∷◌, arith, length,
  get_elem?,
}
use toyhoodle.Snipe.Balance.{
  BalanceScheduler, new_scheduler, next_rotation, get_server_address, set_server_address,
}

-- The next turn, in numbers from 0.
next_rotation-mod : (len r : ℕ) → 1 ≤ r → r ≤ len → next_rotation len r ≡ 1 + (r - 1 + 1) % len
unfolding next_rotation
next_rotation-mod len r p b = grind arith

next_rotation-add-mod :
    (len r n : ℕ) → 1 ≤ r → r ≤ len → (next_rotation len r - 1 + n) % len ≡ (r - 1 + suc n) % len
next_rotation-add-mod len r n p b =
    let x = (r - 1 + 1) % len in
    let e : next_rotation len r - 1 + n ≡ x + n = omega (arith, next_rotation-mod len r p b) in
    let f : r - 1 + 1 + n ≡ r - 1 + suc n = omega arith in
    ap (λ m. m % len) e ∙ mod-add-mod (r - 1 + 1) len n ∙ ap (λ m. m % len) f

module _ {ℓ} {A : Type ℓ} where
  -- There are servers, `length` is their number, and the turn is at one of them.
  pub record IsValid (s : BalanceScheduler A) : Type 0 where
    pub counted : s.len ≡ length s.address
    pub positive : 1 ≤ s.rotation
    pub bounded : s.rotation ≤ s.len

  -- The scheduler after `n` calls.
  unfoldable pub after_calls : ℕ → BalanceScheduler A → BalanceScheduler A
  after_calls zero s = s
  after_calls (suc n) s = after_calls n (get_server_address s).0

  get_server_address-IsValid :
      (s : BalanceScheduler A) → IsValid s → IsValid (get_server_address s).0
  unfolding get_server_address next_rotation
  get_server_address-IsValid s v = ground arith

  after_calls-IsValid : (n : ℕ) (s : BalanceScheduler A) → IsValid s → IsValid (after_calls n s)
  unfolding after_calls
  after_calls-IsValid zero s v = v
  after_calls-IsValid (suc n) s v =
      after_calls-IsValid n (get_server_address s).0 (get_server_address-IsValid s v)

  after_calls-same :
      (n : ℕ) (s : BalanceScheduler A)
      → ((after_calls n s).address ≡ s.address) × ((after_calls n s).len ≡ s.len)
  unfolding after_calls get_server_address
  after_calls-same zero s = (refl, refl)
  after_calls-same (suc n) s = after_calls-same n (get_server_address s).0

  rotation-after_calls :
      (n : ℕ) (s : BalanceScheduler A)
      → IsValid s
      → (after_calls n s).rotation ≡ 1 + (s.rotation - 1 + n) % s.len
  unfolding after_calls get_server_address
  rotation-after_calls zero s v = omega (
    arith,
    mod-eq_of_lt {n = s.rotation - 1 + 0} {m = s.len} (omega (arith, v.positive, v.bounded)),
  )
  rotation-after_calls (suc n) s v =
      rotation-after_calls n (get_server_address s).0 (get_server_address-IsValid s v)
      ∙ ap (λ m. 1 + m) (next_rotation-add-mod s.len s.rotation n v.positive v.bounded)

  -- If the number of servers is that of the list and the turn is at one of them: the n-th call from
  -- now, counted from 0, gives the server that stands n places further than the turn in the list,
  -- which is taken as a circle; there always is one.
  pub get_server_address-round_robin :
      (n : ℕ) (s : BalanceScheduler A)
      → IsValid s
      → ((get_server_address (after_calls n s)).1
          ≡ get_elem? s.address ((s.rotation - 1 + n) % s.len))
        × ((s.rotation - 1 + n) % s.len < length s.address)
  unfolding get_server_address
  get_server_address-round_robin n s v =
      let e : (after_calls n s).rotation - 1 ≡ (s.rotation - 1 + n) % s.len =
        omega (arith, rotation-after_calls n s v) in
      (
        rw ((after_calls-same n s).0, e) refl,
        omega (
          arith,
          mod-lt (s.rotation - 1 + n) {m = s.len} (omega (arith, v.positive, v.bounded)),
          v.counted,
        ),
      )

  -- A new scheduler for one server or more starts with the first.
  new_scheduler-IsValid : (address : List A) → 0 < length address → IsValid (new_scheduler address)
  unfolding new_scheduler
  new_scheduler-IsValid address h = record {
    counted = refl;
    positive = omega arith;
    bounded = omega arith;
  }

  get_elem?_beyond : (l : List A) (i : ℕ) → length l ≤ i → get_elem? l i ≡ none
  get_elem?_beyond [] i h = refl
  get_elem?_beyond (x ∷ l) zero h = absurd (omega arith)
  get_elem?_beyond (x ∷ l) (suc i) h = get_elem?_beyond l i (omega arith)

  -- After a change to fewer servers than the turn counts, the next call fails with an index out of
  -- bounds, and the call after it gives the first of the new servers, if there is one.
  pub get_server_address-fewer :
      (address : List A) (s : BalanceScheduler A)
      → length address < s.rotation
      → ((get_server_address (set_server_address address s)).1 ≡ none)
        × ((get_server_address (get_server_address (set_server_address address s)).0).1
            ≡ get_elem? address 0)
  unfolding get_server_address set_server_address next_rotation
  get_server_address-fewer address s h =
      (get_elem?_beyond address (s.rotation - 1) (omega arith), ground arith)
