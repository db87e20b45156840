-- ===== src/Cube/Compile/Addresses.antt =====
-- The objects that actions and names refer to, and that Exe gives and keeps only such as it has made.
use toyhoodle.Prelude.{
  ℕ, ◌≤◌, ◌<◌, Bool-cases, inl, inr, Option, none, some, List, [], ◌∷◌, arith, length,
}
use toyhoodle.Cube.ParamChange.{Text}
use toyhoodle.Cube.Text.{text_eq}
use toyhoodle.Cube.Compile.Names.{
  Action, Actions, nil, cons, if_, while, query, assignment, foreach, Exe, Built, built, wrong, E,
  find, get_param, Failure,
}

abbrev pub IsAddress : ℕ → Option ℕ → Type 0
IsAddress n none = Unit
IsAddress n (some a) = a < n

abbrev pub AreAddresses : ℕ → List ℕ → Type 0
AreAddresses n [] = Unit
AreAddresses n (a ∷ numbers) = (a < n) × AreAddresses n numbers

-- Every object of an action is one of the first `n`.
abbrev mutual
  pub IsValid : ℕ → Action → Type 0
  IsValid n (if_ condition yes_actions no_actions) = AreValid n yes_actions × AreValid n no_actions
  IsValid n (while condition actions) = AreValid n actions
  IsValid n (query text connection name) = IsAddress n name
  IsValid n (assignment a value) = a < n
  IsValid n (foreach a params actions) = (a < n) × AreAddresses n params × AreValid n actions

  pub AreValid : ℕ → Actions → Type 0
  AreValid n nil = Unit
  AreValid n (cons a actions) = IsValid n a × AreValid n actions

pub raise-IsAddress : {k n : ℕ} (o : Option ℕ) → k ≤ n → IsAddress k o → IsAddress n o
raise-IsAddress none h e = tt
raise-IsAddress (some a) h e = omega arith

pub raise-AreAddresses :
    {k n : ℕ} (numbers : List ℕ) → k ≤ n → AreAddresses k numbers → AreAddresses n numbers
raise-AreAddresses [] h e = tt
raise-AreAddresses (a ∷ numbers) h e =
    (let d = e.0 in omega arith, raise-AreAddresses numbers h e.1)

mutual
  pub raise-IsValid : {k n : ℕ} (a : Action) → k ≤ n → IsValid k a → IsValid n a
  raise-IsValid (if_ condition yes_actions no_actions) h v =
      (raise-AreValid yes_actions h v.0, raise-AreValid no_actions h v.1)
  raise-IsValid (while condition actions) h v = raise-AreValid actions h v
  raise-IsValid (query text connection name) h v = raise-IsAddress name h v
  raise-IsValid (assignment a value) h v = omega arith
  raise-IsValid (foreach a params actions) h v =
      (let d = v.0 in omega arith, raise-AreAddresses params h v.1, raise-AreValid actions h v.2)

  pub raise-AreValid :
      {k n : ℕ} (actions : Actions) → k ≤ n → AreValid k actions → AreValid n actions
  raise-AreValid nil h v = tt
  raise-AreValid (cons a actions) h v = (raise-IsValid a h v.0, raise-AreValid actions h v.1)

abbrev pub AreNames : ℕ → List (Text × ℕ) → Type 0
AreNames n [] = Unit
AreNames n ((name, a) ∷ names) = (a < n) × AreNames n names

pub raise-AreNames :
    {k n : ℕ} (names : List (Text × ℕ)) → k ≤ n → AreNames k names → AreNames n names
raise-AreNames [] h e = tt
raise-AreNames ((name, a) ∷ names) h e = (let d = e.0 in omega arith, raise-AreNames names h e.1)

-- Every name of a parameter has an object.
abbrev pub HasObjects : Exe → Type 0
HasObjects x = AreNames (length x.store) x.params

abbrev pub IsBuilt : {A : Type 0} → (ℕ → A → Type 0) → ℕ → Built A → Type 0
IsBuilt P n (built a x) = HasObjects x × (n ≤ length x.store) × P (length x.store) a
IsBuilt P n (wrong e) = Unit

-- An answer of Exe, if it is one, that leaves no object out and fits the objects there are.
pub record Fits {A : Type 0} (P : ℕ → A → Type 0) (n : ℕ) (r : Built A) : Type 0 where
  pub fits : IsBuilt P n r

pub bind_Fits :
    {A B : Type 0} (P : ℕ → A → Type 0) (Q : ℕ → B → Type 0) (k n : ℕ) (f : A → E B) (r : Built A)
    → Fits P k r
    → ((a : A) (x : Exe)
        → HasObjects x
        → k ≤ length x.store
        → P (length x.store) a
        → Fits Q n (f a x))
    → Fits Q n (elim r [ built a x ↦ f a x | wrong e ↦ wrong e ])
bind_Fits P Q k n f (built a x) h next = let d = h.fits in next a x d.0 d.1 d.2
bind_Fits P Q k n f (wrong e) h next = record { fits = tt }

pub fitting :
    {A : Type 0} (P : ℕ → A → Type 0) (n : ℕ) (a : A) (x : Exe)
    → HasObjects x
    → n ≤ length x.store
    → P (length x.store) a
    → Fits P n (built a x)
fitting P n a x h le p = record { fits = (h, le, p) }

abbrev pub Anything : {A : Type 0} → ℕ → A → Type 0
Anything n a = Unit

find-IsAddress :
    (n : ℕ) (name : Text) (names : List (Text × ℕ))
    → AreNames n names
    → IsAddress n (find name names)
unfolding find
find-IsAddress n name [] h = tt
find-IsAddress n name ((k, a) ∷ names) h = elim (Bool-cases (text_eq k name)) [
  | inl same ↦ rw same h.0
  | inr other ↦ rw other (find-IsAddress n name names h.1)
]

pub get_param-Fits :
    (name : Text) (x : Exe) (n : ℕ)
    → HasObjects x
    → n ≤ length x.store
    → Fits (λ k a. a < k) n (get_param name x)
unfolding get_param
get_param-Fits name x n h le = go (find name x.params) (find-IsAddress _ name x.params h)
  where
    go :
        (o : Option ℕ)
        → IsAddress (length x.store) o
        → Fits
            (λ k a. a < k)
            n
            (elim o [ none ↦ wrong Failure.not_definition | some a ↦ built a x ])
    go none e = record { fits = tt }
    go (some a) e = record { fits = (h, le, e) }
