-- ===== src/Tran/LineInput/Rounds.antt =====
-- The rounds of `readCustomLine` from a buffer that is used up to the end of the line.
use mathlib.Core.Path.{subst}
use toyhoodle.Prelude.{
  ℕ, zero, suc, ◌+◌, ◌<◌, ◌≤◌, ◌≡◌, refl, ap, Option, List, [], ◌∷◌, ◌++◌, length, length-append,
  arith, All, inl, inr, Bool-cases,
}
use toyhoodle.Tran.LineInput.{Reader, Progress, append_read, read_rounds}
use toyhoodle.Tran.LineInput.Lines.{has_byte, line}
use toyhoodle.Tran.LineInput.Parts.{joined}
use toyhoodle.Tran.LineInput.Pieces.{IsReading, append_read-IsReading}
use toyhoodle.Tran.LineInput.Streams.{
  IsPiece, IsReadable, moved-IsReadable, read_round_at_next, ended, read_round-end, ended-Reads,
  ended-IsReadable, input_ended,
}
use toyhoodle.Tran.LineInput.Reading.{Reads, found, continued, append_read-reader, length-line_more}

module _ (decode : List ℕ → List ℕ) where
  -- More pieces may be left.
  weaken :
      {rounds calls calls' max_length d : ℕ} {pre str : List ℕ} {stream : List (List ℕ)}
      {o : Option Progress}
      → Reads decode rounds calls max_length d pre str stream o
      → calls ≤ calls'
      → Reads decode rounds calls' max_length d pre str stream o
  weaken w h = record {
    progress = w.progress;
    returns = w.returns;
    read = w.read;
    consumed = w.consumed;
    remaining = w.remaining;
    kept = w.kept;
    fewer = omega (arith, w.fewer);
  }

  -- The buffer is used up: the next piece is read, or the stream has ended.
  pub read_rounds-input :
      (input : List (List ℕ)) (n rounds max_length max_bytes d : ℕ) (pre : List ℕ) (p : Progress)
      → IsReading max_length pre p
      → IsReadable rounds d p.reader
      → p.reader.input ≡ input
      → length p.reader.buffer ≤ p.reader.buffer_posn
      → length input < n
      → length pre + length (line d (joined input)) < max_bytes
      → Reads decode rounds
          (length input)
          max_length
          d
          pre
          p.str
          input
          (read_rounds decode n rounds max_length max_bytes p)
  unfolding read_rounds
  read_rounds-input input zero rounds m b d pre p v k i used enough room = absurd (omega arith)
  read_rounds-input [] (suc n) rounds m b d pre p v k i used enough room =
      let q = read_round-end decode rounds m p used i in
      let (str, consumed, rest) = ended-Reads decode m d pre p v i in
      record {
        progress = ended decode p;
        returns = ground (arith, q);
        read = str;
        consumed = consumed;
        remaining = rest;
        kept = ended-IsReadable decode rounds d p k;
        fewer = omega (arith, ap length (input_ended decode p), ap length i);
      }
  read_rounds-input (c ∷ cs) (suc n) rounds m b d pre p v k i used enough room =
      let r : Reader = record p.reader { buffer = c; buffer_posn = 0; input = cs } in
      let pieces : All (IsPiece rounds) (c ∷ cs) = subst (λ l. All (IsPiece rounds) l) i k.pieces in
      let o = read_round_at_next decode rounds m p c cs used i pieces.0.0 in
      let k' : IsReadable rounds d r = record {
        single = k.single;
        short = pieces.0.1;
        pieces = pieces.1;
      } in
      weaken
        (elim (Bool-cases (has_byte d c)) [
          | inl has ↦ found decode n rounds m b d pre c p r v refl k' o has
          | inr has ↦
              let p' = append_read decode m r (0 + length c) 0 p in
              let (reader, del) = append_read-reader decode m (0 + length c) 0 r p in
              let grown = length-line_more d c (joined cs) has in
              continued decode n rounds m b d pre c p r v refl k' o has (omega (arith, grown)) (
                read_rounds-input cs n rounds m b d (pre ++ c) p'
                  (append_read-IsReading decode m d pre c p r v k.single refl)
                  (moved-IsReadable rounds d _ r p'.reader k' reader) (ap (λ r'. r'.input) reader)
                  (omega
                    (arith, ap (λ r'. length r'.buffer) reader, ap (λ r'. r'.buffer_posn) reader))
                  (omega arith) (omega (arith, grown, length-append pre c)))
        ])
        (omega arith)
