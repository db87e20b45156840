-- ===== src/Tran/LineInput/Lines.antt =====
-- The lines that the reader gives where the delimiter is one byte.
use toyhoodle.Prelude.{
  ℕ, zero, suc, ◌+◌, ◌-◌, ◌<◌, ◌≡◌, refl, ◌∙◌, sym, ap, Bool, true, false, some, List, [], ◌∷◌,
  ◌++◌, ◌==◌, length, get_elem?, drop, if◌then◌else◌, arith,
}
use toyhoodle.Tran.LineInput.{scan_round, scan}

-- Whether the delimiter stands in the bytes, the bytes before it, and those behind it.
unfoldable pub has_byte : ℕ → List ℕ → Bool
has_byte d [] = false
has_byte d (b ∷ s) = if b == d then true else has_byte d s

unfoldable pub line : ℕ → List ℕ → List ℕ
line d [] = []
line d (b ∷ s) = if b == d then [] else b ∷ line d s

unfoldable pub after : ℕ → List ℕ → List ℕ
after d [] = []
after d (b ∷ s) = if b == d then s else after d s

pub line-append :
    (d : ℕ) (s t : List ℕ) → line d (s ++ t) ≡ (if has_byte d s then line d s else s ++ line d t)
unfolding line has_byte
line-append d [] t = refl
line-append d (b ∷ s) t = ground (arith, line-append d s t)

pub after-append :
    (d : ℕ) (s t : List ℕ) → after d (s ++ t) ≡ (if has_byte d s then after d s ++ t else after d t)
unfolding after has_byte
after-append d [] t = refl
after-append d (b ∷ s) t = ground (arith, after-append d s t)

drop_head :
    (posn : ℕ) (l : List ℕ) (b : ℕ) (s : List ℕ)
    → drop posn l ≡ b ∷ s
    → (get_elem? l posn ≡ some b) × (drop (suc posn) l ≡ s) × (posn < length l)
drop_head zero [] b s e = cc
drop_head zero (x ∷ l) b s e = ground arith
drop_head (suc n) [] b s e = cc
drop_head (suc n) (x ∷ l) b s e = let (f, g, h) = drop_head n l b s e in (f, g, omega (arith, h))

pub length-drop : (posn : ℕ) (l : List ℕ) → length (drop posn l) ≡ length l - posn
length-drop zero l = omega arith
length-drop (suc n) [] = omega arith
length-drop (suc n) (x ∷ l) = omega (arith, length-drop n l)

-- Where the loop over the buffer ends, from `posn` on: behind the delimiter, or behind the bytes.
unfoldable pub scanned : ℕ → List ℕ → ℕ → ℕ × ℕ
scanned d s posn =
    if has_byte d s then (posn + (length (line d s) + 1), 1) else (posn + length s, 0)

pub scan_bytes :
    (d : ℕ) (s : List ℕ) (rounds : ℕ) (buffer : List ℕ) (posn : ℕ)
    → drop posn buffer ≡ s
    → length s < rounds
    → scan rounds (d ∷ []) buffer posn 0 ≡ some (scanned d s posn)
unfolding scan scan_round scanned line has_byte
scan_bytes d s zero buffer posn e h = absurd (omega arith)
scan_bytes d [] (suc rounds) buffer posn e h =
    let f : length buffer - posn ≡ 0 = sym (length-drop posn buffer) ∙ ap length e in ground arith
scan_bytes d (b ∷ s) (suc rounds) buffer posn e h =
    let (f, g, k) = drop_head posn buffer b s e in
    let q : posn + 1 ≡ suc posn = omega arith in
    let next = scan_bytes d s rounds buffer (posn + 1) (ap (λ n. drop n buffer) q ∙ g) in
    ground (arith, next, f)
