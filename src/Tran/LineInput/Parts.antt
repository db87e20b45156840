-- ===== src/Tran/LineInput/Parts.antt =====
-- The parts into which the reads of a stream cut its first line, and the text that they are decoded to.
use mathlib.Core.List.{append-nil}
use toyhoodle.Prelude.{
  All, ◌==◌, ℕ, zero, suc, ◌-◌, ◌≡◌, refl, ◌∙◌, sym, ap, List, [], ◌∷◌, ◌++◌, length, take, arith,
  if◌then◌else◌, Bool-cases, inl, inr,
}
use toyhoodle.Tran.LineInput.Lines.{has_byte, line, after, line-append}

abbrev pub joined : List (List ℕ) → List ℕ
joined [] = []
joined (c ∷ cs) = c ++ joined cs

-- The line in the pieces of a stream, cut where they end, and after `room` bytes.
unfoldable pub parts : ℕ → ℕ → List (List ℕ) → List (List ℕ)
unfolding has_byte line
parts room d [] = []
parts room d (s ∷ pieces) =
    let more = parts (room - length s) d pieces in
    if has_byte d s then take room (line d s) ∷ [] else take room s ∷ more

module _ (decode : List ℕ → List ℕ) where
  abbrev pub decoded : List ℕ → List ℕ
  decoded [] = []
  decoded (b ∷ bytes) = decode (b ∷ bytes)

  -- Every part is decoded alone.
  abbrev pub text_of : List (List ℕ) → List ℕ
  text_of [] = []
  text_of (part ∷ more) = decoded part ++ text_of more

  pub text_of-nil :
      (room d : ℕ) (pieces : List (List ℕ))
      → text_of (parts room d ([] ∷ pieces)) ≡ text_of (parts room d pieces)
  unfolding parts has_byte
  text_of-nil zero d pieces =
      ap (λ k. text_of (parts k d pieces)) (let q : zero - 0 ≡ zero = omega arith in q)
  text_of-nil (suc room) d pieces =
      ap (λ k. text_of (parts k d pieces)) (let q : suc room - 0 ≡ suc room = omega arith in q)

take-append : (n : ℕ) (a b : List ℕ) → take n a ++ take (n - length a) b ≡ take n (a ++ b)
take-append zero a b = ap (λ k. take k b) (let q : 0 - length a ≡ 0 = omega arith in q)
take-append (suc n) [] b = ap (λ k. take k b) (let q : suc n - 0 ≡ suc n = omega arith in q)
take-append (suc n) (x ∷ a) b =
    let q : suc n - suc (length a) ≡ n - length a = omega arith in
    ap (◌∷◌ x) (ap (λ k. take n a ++ take k b) q ∙ take-append n a b)

-- The parts together are the line, cut at the most bytes.
pub joined-parts :
    (room d : ℕ) (pieces : List (List ℕ))
    → joined (parts room d pieces) ≡ take room (line d (joined pieces))
unfolding parts line
joined-parts zero d [] = refl
joined-parts (suc room) d [] = refl
joined-parts room d (s ∷ pieces) = elim (Bool-cases (has_byte d s)) [
  | inl has ↦
      ground (arith, has, line-append d s (joined pieces), append-nil (take room (line d s)))
  | inr has ↦
      let more = joined-parts (room - length s) d pieces in
      let t = take-append room s (line d (joined pieces)) in
      ground (arith, has, line-append d s (joined pieces), more, t)
]

module _ {ℓ} (IsPlain : ℕ → Type ℓ) where
  pub All-take : (n : ℕ) (s : List ℕ) → All IsPlain s → All IsPlain (take n s)
  All-take zero s a = tt
  All-take (suc n) [] a = tt
  All-take (suc n) (b ∷ s) a = (a.0, All-take n s a.1)

  pub All-line : (d : ℕ) (s : List ℕ) → All IsPlain s → All IsPlain (line d s)
  unfolding line
  All-line d [] a = tt
  All-line d (b ∷ s) a = elim (Bool-cases (b == d)) [
    | inl hit ↦ rw hit tt
    | inr miss ↦ rw miss (a.0, All-line d s a.1)
  ]

  pub All-after : (d : ℕ) (s : List ℕ) → All IsPlain s → All IsPlain (after d s)
  unfolding after
  All-after d [] a = tt
  All-after d (b ∷ s) a = elim (Bool-cases (b == d)) [
    | inl hit ↦ rw hit a.1
    | inr miss ↦ rw miss (All-after d s a.1)
  ]

  All-halves : (a b : List ℕ) → All IsPlain (a ++ b) → All IsPlain a × All IsPlain b
  All-halves [] b v = (tt, v)
  All-halves (x ∷ a) b v = let (va, vb) = All-halves a b v.1 in ((v.0, va), vb)

  -- Parts of plain bytes, in an encoding that decodes plain bytes alone.
  pub text_of-decode :
      (decode : List ℕ → List ℕ)
      → decode [] ≡ []
      → ((a b : List ℕ) → All IsPlain a → decode (a ++ b) ≡ decode a ++ decode b)
      → (ps : List (List ℕ)) → All IsPlain (joined ps)
      → text_of decode ps ≡ decode (joined ps)
  text_of-decode decode nil split [] v = sym nil
  text_of-decode decode nil split ([] ∷ ps) v = text_of-decode decode nil split ps v
  text_of-decode decode nil split ((b ∷ part) ∷ ps) v =
      let (va, vb) = All-halves (b ∷ part) (joined ps) v in
      ap (λ t. decode (b ∷ part) ++ t) (text_of-decode decode nil split ps vb)
      ∙ sym (split (b ∷ part) (joined ps) va)
