-- ===== src/Tran/LineInput/Streams.antt =====
-- The bytes that a reader has left, and the rounds of `readCustomLine` that fill the buffer.
use mathlib.Core.Path.{subst}
use mathlib.Core.List.{append-nil}
use toyhoodle.Prelude.{
  ℕ, zero, suc, ◌+◌, ◌-◌, ◌<◌, ◌≤◌, ◌≡◌, refl, ◌∙◌, sym, ap, true, false, none, some, List, [], ◌∷◌,
  ◌++◌, ltb, leb, length, take, drop, if◌then◌else◌, arith, All,
}
use toyhoodle.Tran.LineInput.{
  Reader, fill_buffer, Progress, scan, append_read, read_from, read_round,
}
use toyhoodle.Tran.LineInput.Lines.{after}
use toyhoodle.Tran.LineInput.Parts.{joined, parts, text_of}
use toyhoodle.Tran.LineInput.Pieces.{IsReading}

-- The bytes that were not read yet.
abbrev pub left : Reader → List ℕ
left r = drop r.buffer_posn r.buffer ++ joined r.input

-- A piece of the stream: not empty, and short enough for the rounds.
abbrev pub IsPiece : ℕ → List ℕ → Type 0
IsPiece rounds c = (0 < length c) × (length c < rounds)

-- The delimiter is one byte, and the rounds are enough for each piece of the stream.
pub record IsReadable (rounds d : ℕ) (r : Reader) : Type 0 where
  pub single : r.record_delimiter ≡ d ∷ []
  pub short : length r.buffer < rounds
  pub pieces : All (IsPiece rounds) r.input

pub moved-IsReadable :
    (rounds d posn : ℕ) (r r' : Reader)
    → IsReadable rounds d r
    → r' ≡ record r { buffer_posn = posn }
    → IsReadable rounds d r'
moved-IsReadable rounds d posn r r' v e =
    subst (λ x. IsReadable rounds d x) (sym e)
      (record { single = v.single; short = v.short; pieces = v.pieces })

pub drop-length : (l : List ℕ) (n : ℕ) → length l ≤ n → drop n l ≡ []
drop-length [] zero h = refl
drop-length [] (suc n) h = refl
drop-length (x ∷ l) zero h = absurd (omega arith)
drop-length (x ∷ l) (suc n) h = drop-length l n (omega arith)

leb-true : (a b : ℕ) → a ≤ b → leb a b ≡ true
leb-true a b h = ground arith

leb-false : (a b : ℕ) → b < a → leb a b ≡ false
leb-false a b h = ground arith

fill_buffer-piece :
    (r : Reader) (c : List ℕ) (cs : List (List ℕ))
    → r.input ≡ c ∷ cs
    → fill_buffer r ≡ record r { buffer = c; buffer_posn = 0; input = cs }
unfolding fill_buffer
fill_buffer-piece r c cs i = ground arith

fill_buffer-end :
    (r : Reader) → r.input ≡ [] → fill_buffer r ≡ record r { buffer = []; buffer_posn = 0 }
unfolding fill_buffer
fill_buffer-end r i = ground arith

module _ (decode : List ℕ → List ℕ) where
  abbrev pub Scanned : ℕ → ℕ → Reader → Progress → Type 0
  Scanned rounds max_length r p =
      read_round decode rounds max_length p
      ≡ elim (scan rounds r.record_delimiter r.buffer r.buffer_posn p.del_posn) [
        | none ↦ none
        | some (posn, del_posn) ↦ some (false, append_read decode max_length r posn del_posn p)
      ]

  read_round-more :
      (rounds max_length : ℕ) (p : Progress)
      → p.reader.buffer_posn < length p.reader.buffer
      → read_round decode rounds max_length p ≡ read_from decode rounds max_length false p.reader p
  unfolding read_round
  read_round-more rounds m p h = rw (leb-false _ _ h) refl

  read_round-filled :
      (rounds max_length : ℕ) (p : Progress)
      → length p.reader.buffer ≤ p.reader.buffer_posn
      → read_round decode rounds max_length p
        ≡ read_from decode rounds max_length true (fill_buffer p.reader) p
  unfolding read_round
  read_round-filled rounds m p h = rw (leb-true _ _ h) refl

  pub read_round_at_hand :
      (rounds max_length : ℕ) (p : Progress)
      → p.reader.buffer_posn < length p.reader.buffer
      → Scanned rounds max_length p.reader p
  unfolding read_from
  read_round_at_hand rounds m p h = read_round-more rounds m p h

  read_from-piece :
      (rounds max_length : ℕ) (r : Reader) (p : Progress)
      → 0 < length r.buffer
      → read_from decode rounds max_length true r p ≡ read_from decode rounds max_length false r p
  unfolding read_from
  read_from-piece rounds m r p h = ground arith

  pub read_round_at_next :
      (rounds max_length : ℕ) (p : Progress) (c : List ℕ) (cs : List (List ℕ))
      → length p.reader.buffer ≤ p.reader.buffer_posn
      → p.reader.input ≡ c ∷ cs
      → 0 < length c
      → Scanned rounds max_length (record p.reader { buffer = c; buffer_posn = 0; input = cs }) p
  unfolding read_from
  read_round_at_next rounds m p c cs used i some_bytes =
      read_round-filled rounds m p used
      ∙ ap (λ r. read_from decode rounds m true r p) (fill_buffer-piece p.reader c cs i)
      ∙ read_from-piece rounds m (record p.reader { buffer = c; buffer_posn = 0; input = cs }) p
          some_bytes

  pub ended : Progress → Progress
  ended p = record p {
    reader = record p.reader { buffer = []; buffer_posn = 0 };
    str =
        if ltb 0 p.ambiguous
        then p.str ++ decode (take p.ambiguous p.reader.record_delimiter)
        else p.str;
    bytes_consumed = p.bytes_consumed + p.ambiguous;
  }

  pub read_round-end :
      (rounds max_length : ℕ) (p : Progress)
      → length p.reader.buffer ≤ p.reader.buffer_posn
      → p.reader.input ≡ []
      → read_round decode rounds max_length p ≡ some (true, ended p)
  unfolding read_from ended
  read_round-end rounds m p used i =
      read_round-filled rounds m p used
      ∙ ap (λ r. read_from decode rounds m true r p) (fill_buffer-end p.reader i)

  pub ended-Reads :
      (max_length d : ℕ) (pre : List ℕ) (p : Progress)
      → IsReading max_length pre p
      → p.reader.input ≡ []
      → ((ended p).str ≡ p.str ++ text_of decode (parts (max_length - length pre) d []))
        × ((ended p).bytes_consumed + length (left (ended p).reader) ≡ length pre + 0)
        × (left (ended p).reader ≡ after d [])
  unfolding ended parts after
  ended-Reads m d pre p v i = ground (arith, v, i, append-nil p.str)

  pub ended-IsReadable :
      (rounds d : ℕ) (p : Progress)
      → IsReadable rounds d p.reader
      → IsReadable rounds d (ended p).reader
  unfolding ended
  ended-IsReadable rounds d p k = record {
    single = k.single;
    short = omega (arith, k.short);
    pieces = k.pieces;
  }

  pub input_ended : (p : Progress) → (ended p).reader.input ≡ p.reader.input
  unfolding ended
  input_ended p = refl
