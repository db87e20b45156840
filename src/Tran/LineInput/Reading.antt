-- ===== src/Tran/LineInput/Reading.antt =====
-- What `readCustomLine` gives, and where it leaves the stream, for a delimiter of one byte.
use mathlib.Core.List.{append_assoc, append-nil}
use toyhoodle.Prelude.{
  ℕ, suc, ◌+◌, ◌-◌, ◌<◌, ◌≤◌, ◌≡◌, refl, ◌∙◌, sym, ap, true, false, Option, some, List, [], ◌∷◌,
  ◌++◌, ltb, length, length-append, take, drop, arith, lt→ltb,
}
use toyhoodle.Tran.LineInput.{Reader, Progress, append_read, read_round, read_rounds}
use toyhoodle.Tran.LineInput.Lines.{
  has_byte, line, after, line-append, after-append, scanned, scan_bytes, length-drop,
}
use toyhoodle.Tran.LineInput.Parts.{joined, parts, text_of, decoded}
use toyhoodle.Tran.LineInput.Pieces.{
  IsReading, append_read-IsReading, append_read-piece, append_read-line, line-drop,
}
use toyhoodle.Tran.LineInput.Streams.{left, IsReadable, moved-IsReadable, Scanned}

length-line-after :
    (d : ℕ) (s : List ℕ)
    → has_byte d s ≡ true
    → length (line d s) + 1 + length (after d s) ≡ length s
length-line-after d s h =
    omega (arith, length-append (line d s) (d ∷ after d s), ap length (line-drop d s h).1)

pub length-line_more :
    (d : ℕ) (s t : List ℕ)
    → has_byte d s ≡ false
    → length (line d (s ++ t)) ≡ length s + length (line d t)
length-line_more d s t h = ground (arith, line-append d s t, length-append s (line d t))

module _ (decode : List ℕ → List ℕ) where
  -- A line was read from a reader whose stream held the bytes of `stream`, behind the bytes `pre` of the
  -- line, whose text is `str`.
  pub record Reads (rounds calls max_length d : ℕ) (pre str : List ℕ) (stream : List (List ℕ))
      (o : Option Progress) : Type 0 where
    pub progress : Progress
    pub returns : o ≡ some progress
    pub read : progress.str ≡ str ++ text_of decode (parts (max_length - length pre) d stream)
    pub consumed :
        progress.bytes_consumed + length (left progress.reader)
        ≡ length pre + length (joined stream)
    pub remaining : left progress.reader ≡ after d (joined stream)
    pub kept : IsReadable rounds d progress.reader
    pub fewer : length progress.reader.input ≤ calls

  read_round-scanned :
      (rounds max_length d : ℕ) (pre s : List ℕ) (p : Progress) (r : Reader)
      → IsReading max_length pre p
      → r.record_delimiter ≡ d ∷ []
      → drop r.buffer_posn r.buffer ≡ s
      → length s < rounds
      → Scanned decode rounds max_length r p
      → read_round decode rounds max_length p ≡ (
          let (posn, del_posn) = scanned d s r.buffer_posn in
          some (false, append_read decode max_length r posn del_posn p))
  read_round-scanned rounds m d pre s p r v single e h o =
      let q = scan_bytes d s rounds r.buffer r.buffer_posn e h in
      ground (arith, o, q, v.unmatched, single)

  pub append_read-reader :
      (max_length posn del_posn : ℕ) (r : Reader) (p : Progress)
      → ((append_read decode max_length r posn del_posn p).reader ≡ record r { buffer_posn = posn })
        × ((append_read decode max_length r posn del_posn p).del_posn ≡ del_posn)
  unfolding append_read
  append_read-reader m posn del r p = (refl, refl)

  parts-found :
      (max_length d : ℕ) (pre s : List ℕ) (input : List (List ℕ))
      → has_byte d s ≡ true
      → text_of decode (parts (max_length - length pre) d (s ∷ input))
        ≡ decoded decode (take (max_length - length pre) (line d s))
  unfolding parts
  parts-found m d pre s input has =
      ground (arith, has, append-nil (decoded decode (take (m - length pre) (line d s))))

  parts-continued :
      (max_length d : ℕ) (pre s : List ℕ) (input : List (List ℕ))
      → has_byte d s ≡ false
      → text_of decode (parts (max_length - length pre) d (s ∷ input))
        ≡ decoded decode (take (max_length - length pre) s)
          ++ text_of decode (parts (max_length - length (pre ++ s)) d input)
  unfolding parts
  parts-continued m d pre s input has =
      let q : m - length (pre ++ s) ≡ m - length pre - length s =
        omega (arith, length-append pre s) in
      rw has (
        ap (λ k. decoded decode (take (m - length pre) s) ++ text_of decode (parts k d input))
          (sym q))

  pub found :
      (n rounds max_length max_bytes d : ℕ) (pre s : List ℕ) (p : Progress) (r : Reader)
      → IsReading max_length pre p
      → drop r.buffer_posn r.buffer ≡ s
      → IsReadable rounds d r
      → Scanned decode rounds max_length r p
      → has_byte d s ≡ true
      → Reads rounds
          (length r.input)
          max_length
          d
          pre
          p.str
          (s ∷ r.input)
          (read_rounds decode (suc n) rounds max_length max_bytes p)
  unfolding read_rounds scanned
  found n rounds m b d pre s p r v e k o has =
      let single = k.single in
      let h : length s < rounds =
        omega (arith, k.short, ap length (sym e), length-drop r.buffer_posn r.buffer) in
      let q = read_round-scanned rounds m d pre s p r v single e h o in
      let (text, consumed, rest) = append_read-line decode m d pre s p r v single e has in
      let p' = append_read decode m r (r.buffer_posn + (length (line d s) + 1)) 1 p in
      let (reader, del) = append_read-reader m (r.buffer_posn + (length (line d s) + 1)) 1 r p in
      let input : p'.reader.input ≡ r.input = ap (λ r'. r'.input) reader in
      let l : left p'.reader ≡ after d s ++ joined r.input =
        ap (λ i. drop p'.reader.buffer_posn p'.reader.buffer ++ joined i) input
        ∙ ap (λ t. t ++ joined r.input) rest in
      record {
        progress = p';
        returns = ground (arith, q, has, del, reader, single);
        read = text ∙ ap (λ t. p.str ++ t) (sym (parts-found m d pre s r.input has));
        consumed = omega (
          arith,
          consumed,
          ap length l,
          length-append (after d s) (joined r.input),
          length-append s (joined r.input),
          length-line-after d s has,
        );
        remaining = ground (arith, l, after-append d s (joined r.input), has);
        kept = moved-IsReadable rounds d _ r p'.reader k reader;
        fewer = omega (arith, ap length input);
      }

  -- A piece without the delimiter is followed by what reading on from behind it gives.
  pub continued :
      (n rounds max_length max_bytes d : ℕ) (pre s : List ℕ) (p : Progress) (r : Reader)
      → IsReading max_length pre p
      → drop r.buffer_posn r.buffer ≡ s
      → IsReadable rounds d r
      → Scanned decode rounds max_length r p
      → has_byte d s ≡ false
      → length pre + length s < max_bytes
      → Reads rounds
          (length r.input)
          max_length
          d
          (pre ++ s)
          (append_read decode max_length r (r.buffer_posn + length s) 0 p).str
          r.input
          (read_rounds decode n rounds max_length max_bytes
            (append_read decode max_length r (r.buffer_posn + length s) 0 p))
      → Reads rounds
          (length r.input)
          max_length
          d
          pre
          p.str
          (s ∷ r.input)
          (read_rounds decode (suc n) rounds max_length max_bytes p)
  unfolding read_rounds scanned
  continued n rounds m b d pre s p r v e k o has room more =
      let single = k.single in
      let h : length s < rounds =
        omega (arith, k.short, ap length (sym e), length-drop r.buffer_posn r.buffer) in
      let q = read_round-scanned rounds m d pre s p r v single e h o in
      let p' = append_read decode m r (r.buffer_posn + length s) 0 p in
      let w = append_read-IsReading decode m d pre s p r v single e in
      let (reader, del) = append_read-reader m (r.buffer_posn + length s) 0 r p in
      let short : ltb p'.bytes_consumed b ≡ true =
        lt→ltb p'.bytes_consumed b (omega (arith, w.consumed, length-append pre s)) in
      record {
        progress = more.progress;
        returns = ground (arith, q, has, del, reader, single, short, more.returns);
        read =
            more.read
            ∙ ap (λ t. t ++ text_of decode (parts (m - length (pre ++ s)) d r.input))
                (append_read-piece decode m d pre s p r v e)
            ∙ append_assoc p.str (decoded decode (take (m - length pre) s))
                (text_of decode (parts (m - length (pre ++ s)) d r.input))
            ∙ ap (λ t. p.str ++ t) (sym (parts-continued m d pre s r.input has));
        consumed =
            omega (arith, more.consumed, length-append pre s, length-append s (joined r.input));
        remaining = ground (arith, more.remaining, after-append d s (joined r.input), has);
        kept = more.kept;
        fewer = more.fewer;
      }
