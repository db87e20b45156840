-- ===== src/LocalCache/QueryTask.antt =====
-- QueryTask: a task that calls its callable once and keeps the result.
use toyhoodle.Prelude.{
  ℕ, zero, suc, ◌≡◌, refl, ◌⊎◌, inl, inr, replicate, Option, none, List, [], ◌∷◌, arith,
}

-- The enum `Stust`.
pub data Status : Type 0 where
  running not_run finish : Status

-- How a call of the callable ends: with a value, or null, or by an exception.
pub data Attempt {ℓ} (V : Type ℓ) : Type ℓ where
  returned : Option V → Attempt V
  raised : Attempt V

-- `calls` counts the calls of the callable.
pub record QueryTask {ℓ} (V : Type ℓ) : Type ℓ where
  pub status : Status
  pub result : Option V
  pub calls : ℕ

abbrev pub new_task {ℓ} : {V : Type ℓ} → QueryTask V
new_task = record { status = not_run; result = none; calls = 0 }

module _ {ℓ} {V : Type ℓ} where
  -- `exe`, where the n-th call of the callable ends as `run n` says. The lock on the callable is
  -- held throughout, so that no other thread sees the status `Running`.
  unfoldable pub exe : (ℕ → Attempt V) → QueryTask V → QueryTask V × Option V
  exe run t = elim t.status [
    | not_run ↦ elim (run t.calls) [
      | returned r ↦ (record t { status = finish; result = r; calls = suc t.calls }, r)
      | raised ↦ (record t { status = finish; calls = suc t.calls }, none)
    ]
    | finish ↦ (t, t.result)
    | running ↦ (t, none)
  ]

  -- The results of `n` calls of `exe` in a row, and the task after them.
  unfoldable pub exe_times : (ℕ → Attempt V) → ℕ → QueryTask V → QueryTask V × List (Option V)
  exe_times run zero t = (t, [])
  exe_times run (suc n) t =
      let (t', r) = exe run t in let (t'', rs) = exe_times run n t' in (t'', r ∷ rs)

  -- What the first call of the callable gives; null where it raises.
  abbrev pub first_value : (ℕ → Attempt V) → Option V
  first_value run = elim (run 0) [ returned r ↦ r | raised ↦ none ]

  Attempt-cases : (a : Attempt V) → ((r : Option V) × (a ≡ returned r)) ⊎ (a ≡ raised)
  Attempt-cases (returned r) = inl (r, refl)
  Attempt-cases raised = inr refl

  exe_times-finish :
      (run : ℕ → Attempt V) (n : ℕ) (t : QueryTask V)
      → t.status ≡ finish
      → exe_times run n t ≡ (t, replicate n t.result)
  unfolding exe_times exe
  exe_times-finish run zero t h = refl
  exe_times-finish run (suc n) t h = ground (arith, exe_times-finish run n t h)

  -- After one execution or more of a new task its callable was called exactly once, and every
  -- execution gave the value of that call, or null if the call raised.
  pub exe_times-new_task :
      (run : ℕ → Attempt V) (n : ℕ)
      → let (t, rs) = exe_times run (suc n) new_task in
        (t.calls ≡ 1) × (rs ≡ replicate (suc n) (first_value run))
  unfolding exe_times exe
  exe_times-new_task run n = elim (Attempt-cases (run 0)) [
    | inl (r, e) ↦
        ground (arith, exe_times-finish run n (record { status = finish; result = r; calls = 1 }))
    | inr e ↦
        ground
          (arith, exe_times-finish run n (record { status = finish; result = none; calls = 1 }))
  ]
