-- ===== src/Example/Document/Settling.antt =====
-- Animations end, whatever the order in which those of different elements do.
use mathlib.Core.List.{append-nil}
use toyhoodle.Prelude.{
  ℕ, zero, suc, ◌+◌, ◌≤◌, String, ◌≡◌, refl, ◌∙◌, List, [], ◌∷◌, arith, length, drop, ◌==◌,
  if◌then◌else◌,
}
use toyhoodle.Example.Document.{finish, end_first}
use toyhoodle.Example.Document.Queries.{Element, shown, goal}
use toyhoodle.Example.Document.Ends.{finish-goal}

-- The ends of animations of the elements of a list of indices, one after another.
unfoldable pub finish_all : List ℕ → List Element → List Element
finish_all [] es = es
finish_all (i ∷ ends) es = finish_all ends (finish i es)

-- What the element of an index has queued.
unfoldable pub queue_at : ℕ → List Element → List (String × String)
queue_at i [] = []
queue_at zero (e ∷ es) = e.queue
queue_at (suc i) (e ∷ es) = queue_at i es

unfoldable pub count : ℕ → List ℕ → ℕ
count i [] = 0
count i (j ∷ js) = (if j == i then 1 else 0) + count i js

end_first-queue :
    (q : List (String × String)) (e : Element) → e.queue ≡ q → (end_first q e).queue ≡ drop 1 q
end_first-queue [] e h = h
end_first-queue (a ∷ q) e h = refl

drop-nil {ℓ} : {A : Type ℓ} (n : ℕ) → drop {A = A} n [] ≡ []
drop-nil zero = refl
drop-nil (suc n) = refl

drop-one {ℓ} : {A : Type ℓ} (n : ℕ) (xs : List A) → drop n (drop 1 xs) ≡ drop (1 + n) xs
drop-one {A} n [] = ground (arith, drop-nil {A = A} n)
drop-one n (x ∷ xs) = ground arith

queue_at-finish :
    (i j : ℕ) (es : List Element)
    → queue_at i (finish j es) ≡ (if j == i then drop 1 (queue_at i es) else queue_at i es)
unfolding queue_at finish
queue_at-finish i j [] = ground arith
queue_at-finish zero zero (e ∷ es) = end_first-queue e.queue e refl
queue_at-finish (suc i) zero (e ∷ es) = ground arith
queue_at-finish zero (suc j) (e ∷ es) = ground arith
queue_at-finish (suc i) (suc j) (e ∷ es) = ground (arith, queue_at-finish i j es)

queue_at-finish_all :
    (i : ℕ) (ends : List ℕ) (es : List Element)
    → queue_at i (finish_all ends es) ≡ drop (count i ends) (queue_at i es)
unfolding finish_all count
queue_at-finish_all i [] es = refl
queue_at-finish_all i (j ∷ ends) es = ground (
  arith,
  queue_at-finish_all i ends (finish j es),
  queue_at-finish i j es,
  drop-one (count i ends) (queue_at i es),
)

drop-all {ℓ} : {A : Type ℓ} (n : ℕ) (xs : List A) → length xs ≤ n → drop n xs ≡ []
drop-all zero [] h = refl
drop-all (suc n) [] h = refl
drop-all zero (x ∷ xs) h = absurd (omega arith)
drop-all (suc n) (x ∷ xs) h = drop-all n xs (omega arith)

-- Without queued animations an element is where it was going.
shown-eq-goal :
    (sel p : String) (es : List Element)
    → ((i : ℕ) → queue_at i es ≡ [])
    → shown sel p es ≡ goal sel p es
unfolding queue_at shown goal
shown-eq-goal sel p [] h = refl
shown-eq-goal sel p (e ∷ es) h =
    ground (arith, shown-eq-goal sel p es (λ i. h (suc i)), h 0, append-nil e.styles)

finish_all-goal :
    (sel p : String) (ends : List ℕ) (es : List Element)
    → goal sel p (finish_all ends es) ≡ goal sel p es
unfolding finish_all
finish_all-goal sel p [] es = refl
finish_all-goal sel p (i ∷ ends) es =
    ground (arith, finish_all-goal sel p ends (finish i es), finish-goal i sel p es)

-- Once as many animations of each element have ended as it has queued, interleaved in any way with
-- those of others, every property is shown at its goal.
pub shown-finish_all :
    (sel p : String) (ends : List ℕ) (es : List Element)
    → ((i : ℕ) → length (queue_at i es) ≤ count i ends)
    → shown sel p (finish_all ends es) ≡ goal sel p es
shown-finish_all sel p ends es fair =
    shown-eq-goal sel p (finish_all ends es)
      (λ i. queue_at-finish_all i ends es ∙ drop-all _ _ (fair i))
    ∙ finish_all-goal sel p ends es
