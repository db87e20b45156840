-- ===== src/Tran/LineInput/Pieces.antt =====
-- What a piece of a line adds to what was read of it, where the delimiter is one byte.
use Prim.Native.Nat.{min}
use mathlib.Core.List.{append-nil}
use toyhoodle.Prelude.{
  ℕ, zero, suc, ◌+◌, ◌-◌, ◌≡◌, refl, ◌∙◌, sym, ap, true, List, [], ◌∷◌, ◌++◌, length, length-append,
  take, drop, arith, ltb, if◌then◌else◌,
}
use toyhoodle.Tran.LineInput.Parts.{decoded}
use toyhoodle.Tran.LineInput.{Reader, Progress, append_read}
use toyhoodle.Tran.LineInput.Lines.{has_byte, line, after}

take_at : {n m : ℕ} (l : List ℕ) → n ≡ m → take n l ≡ take m l
take_at l e = ap (λ k. take k l) e

drop_at : {n m : ℕ} (l : List ℕ) → n ≡ m → drop n l ≡ drop m l
drop_at l e = ap (λ k. drop k l) e

take_piece : (m : ℕ) (u w : List ℕ) → take (min (length u) m) (u ++ w) ≡ take m u
take_piece zero [] w = let q : min 0 0 ≡ 0 = omega arith in take_at w q
take_piece (suc m) [] w = let q : min 0 (suc m) ≡ 0 = omega arith in take_at w q
take_piece zero (x ∷ u) w =
    let q : min (suc (length u)) 0 ≡ 0 = omega arith in take_at (x ∷ u ++ w) q
take_piece (suc m) (x ∷ u) w =
    let q : min (suc (length u)) (suc m) ≡ suc (min (length u) m) = omega arith in
    take_at (x ∷ u ++ w) q ∙ ap (◌∷◌ x) (take_piece m u w)

drop_one : (b : ℕ) (s : List ℕ) → drop (0 + 1) (b ∷ s) ≡ s
drop_one b s = let q : 0 + 1 ≡ 1 = omega arith in drop_at (b ∷ s) q

pub line-drop :
    (d : ℕ) (s : List ℕ)
    → has_byte d s ≡ true
    → (drop (length (line d s) + 1) s ≡ after d s) × (line d s ++ d ∷ after d s ≡ s)
unfolding has_byte line after
line-drop d [] h = cc
line-drop d (b ∷ s) h =
    let q : suc (length (line d s)) + 1 ≡ suc (length (line d s) + 1) = omega arith in
    ground (arith, line-drop d s, drop_at (b ∷ s) q, drop_one b s)

drop_nil : (n : ℕ) → drop {A = ℕ} n [] ≡ []
drop_nil zero = refl
drop_nil (suc n) = refl

pub drop-drop : (m n : ℕ) (l : List ℕ) → drop (m + n) l ≡ drop n (drop m l)
drop-drop zero n l = drop_at l (omega arith)
drop-drop (suc m) n [] = drop_nil (suc m + n) ∙ sym (drop_nil n)
drop-drop (suc m) n (x ∷ l) =
    let q : suc m + n ≡ suc (m + n) = omega arith in drop_at (x ∷ l) q ∙ drop-drop m n l

-- So far the bytes `pre` of the line were read, no part of the delimiter among them.
pub record IsReading (max_length : ℕ) (pre : List ℕ) (p : Progress) : Type 0 where
  pub txt : p.txt_length ≡ min max_length (length pre)
  pub consumed : p.bytes_consumed ≡ length pre
  pub unmatched : p.del_posn ≡ 0
  pub unambiguous : p.ambiguous ≡ 0

module _ (decode : List ℕ → List ℕ) where
  piece_text :
      (n k : ℕ) (u w : List ℕ)
      → n ≡ min (length u) k
      → (if ltb 0 n then decode (take n (u ++ w)) else []) ≡ decoded decode (take k u)
  piece_text n zero u w e = ground arith
  piece_text n (suc k) [] w e = ground arith
  piece_text zero (suc k) (b ∷ u) w e = absurd (omega arith)
  piece_text (suc n) (suc k) (b ∷ u) w e =
      let q : n ≡ min (length u) k = omega arith in
      let h : ltb 0 (suc n) ≡ true = ground arith in
      rw h (ap (λ l. decode (b ∷ l)) (take_at (u ++ w) q ∙ take_piece k u w))

  -- A piece without the delimiter.
  pub append_read-IsReading :
      (max_length d : ℕ) (pre s : List ℕ) (p : Progress) (r : Reader)
      → IsReading max_length pre p
      → r.record_delimiter ≡ d ∷ []
      → drop r.buffer_posn r.buffer ≡ s
      → IsReading max_length
          (pre ++ s)
          (append_read decode max_length r (r.buffer_posn + length s) 0 p)
  unfolding append_read
  append_read-IsReading m d pre s p r v single e =
      let q : r.buffer_posn + length s - r.buffer_posn - 0 ≡ length s = omega arith in
      ground (arith, v, q, length-append pre s)

  -- Its text is added to that of the line.
  pub append_read-piece :
      (max_length d : ℕ) (pre s : List ℕ) (p : Progress) (r : Reader)
      → IsReading max_length pre p
      → drop r.buffer_posn r.buffer ≡ s
      → (append_read decode max_length r (r.buffer_posn + length s) 0 p).str
        ≡ p.str ++ decoded decode (take (max_length - length pre) s)
  unfolding append_read
  append_read-piece m d pre s p r v e =
      let n = min (r.buffer_posn + length s - r.buffer_posn - 0) (m - p.txt_length) in
      let t = piece_text n (m - length pre) s [] (omega (arith, v.txt)) in
      ground (arith, v.unambiguous, t, append-nil s, e)

  -- The piece that ends with the delimiter.
  pub append_read-line :
      (max_length d : ℕ) (pre s : List ℕ) (p : Progress) (r : Reader)
      → IsReading max_length pre p
      → r.record_delimiter ≡ d ∷ []
      → drop r.buffer_posn r.buffer ≡ s
      → has_byte d s ≡ true
      → let p' = append_read decode max_length r (r.buffer_posn + (length (line d s) + 1)) 1 p in
        (p'.str ≡ p.str ++ decoded decode (take (max_length - length pre) (line d s)))
        × (p'.bytes_consumed ≡ length pre + (length (line d s) + 1))
        × (drop p'.reader.buffer_posn p'.reader.buffer ≡ after d s)
  unfolding append_read
  append_read-line m d pre s p r v single e h =
      let (after_line, whole) = line-drop d s h in
      let n =
        min (r.buffer_posn + (length (line d s) + 1) - r.buffer_posn - 1) (m - p.txt_length) in
      let t = piece_text n (m - length pre) (line d s) (d ∷ after d s) (omega (arith, v.txt)) in
      let z = drop-drop r.buffer_posn (length (line d s) + 1) r.buffer in
      (
        ground (arith, v.unambiguous, t, whole, e),
        ground (arith, v),
        ground (arith, z, after_line, e),
      )
