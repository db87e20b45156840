-- ===== src/Tran/LineInput/Custom.antt =====
-- `readCustomLine` as a whole, for a delimiter of one byte.
use mathlib.Core.Path.{subst}
use mathlib.Core.Option.{map as map_option}
use toyhoodle.Prelude.{
  All, ℕ, zero, suc, ◌+◌, ◌-◌, ◌<◌, ◌≤◌, ◌≡◌, refl, ◌∙◌, sym, ap, Option, none, some, List, [], ◌∷◌,
  ◌++◌, ltb, ◌==◌, length, take, drop, if◌then◌else◌, arith, inl, inr, Bool-cases, ltb→lt,
  not-ltb→le,
}
use toyhoodle.Tran.LineInput.{Reader, Progress, start, read_rounds, read_custom_line}
use toyhoodle.Tran.LineInput.Lines.{has_byte, line, after, length-drop}
use toyhoodle.Tran.LineInput.Parts.{
  joined, parts, text_of, text_of-nil, joined-parts, text_of-decode, All-take, All-line,
}
use toyhoodle.Tran.LineInput.Pieces.{IsReading, append_read-IsReading}
use toyhoodle.Tran.LineInput.Streams.{
  left, IsReadable, moved-IsReadable, read_round_at_hand, drop-length,
}
use toyhoodle.Tran.LineInput.Rounds.{read_rounds-input}
use toyhoodle.Tran.LineInput.Reading.{Reads, found, continued, append_read-reader, length-line_more}

-- The pieces that a reader has left, the rest of the buffer first.
abbrev pub pieces : Reader → List (List ℕ)
pieces r = drop r.buffer_posn r.buffer ∷ r.input

-- null where no bytes are left, or a text.
abbrev pub null_at_end : List ℕ → List ℕ → Option (List ℕ)
null_at_end [] text = none
null_at_end (b ∷ s) text = some text

-- The bytes of the line that a call gives on a stream that holds these bytes: none at its end.
unfoldable pub first_line : ℕ → ℕ → List ℕ → Option (List ℕ)
first_line max_length d [] = none
first_line max_length d (b ∷ s) = some (take max_length (line d (b ∷ s)))

start-IsReading : (max_length : ℕ) (r : Reader) → IsReading max_length [] (start r)
unfolding start
start-IsReading zero r = record {
  txt = omega arith;
  consumed = refl;
  unmatched = refl;
  unambiguous = refl;
}
start-IsReading (suc m) r = record {
  txt = omega arith;
  consumed = refl;
  unmatched = refl;
  unambiguous = refl;
}

length-after-le : (d : ℕ) (s : List ℕ) → length (after d s) ≤ length s
unfolding after
length-after-le d [] = omega arith
length-after-le d (b ∷ s) = ground (arith, length-after-le d s)

length-after-lt : (d b : ℕ) (s : List ℕ) → length (after d (b ∷ s)) < length (b ∷ s)
unfolding after
length-after-lt d b s = ground (arith, length-after-le d s)

module _ (decode : List ℕ → List ℕ) where
  Reads-nil :
      (rounds max_length d : ℕ) (input : List (List ℕ)) (o : Option Progress)
      → Reads decode rounds (length input) max_length d [] [] input o
      → Reads decode rounds (length input) max_length d [] [] ([] ∷ input) o
  Reads-nil rounds m d input o w = record {
    progress = w.progress;
    returns = w.returns;
    read = w.read ∙ sym (text_of-nil decode (m - 0) d input);
    consumed = w.consumed;
    remaining = w.remaining;
    kept = w.kept;
    fewer = w.fewer;
  }

  read_rounds-Reads :
      (n rounds max_length max_bytes d : ℕ) (r : Reader)
      → IsReadable rounds d r
      → length r.input + 1 < n
      → length (line d (left r)) < max_bytes
      → Reads decode rounds
          (length r.input)
          max_length
          d
          []
          []
          (pieces r)
          (read_rounds decode n rounds max_length max_bytes (start r))
  unfolding start
  read_rounds-Reads zero rounds m b d r k enough room = absurd (omega arith)
  read_rounds-Reads (suc n) rounds m b d r k enough room =
      let s = drop r.buffer_posn r.buffer in
      let few : length s ≡ length r.buffer - r.buffer_posn = length-drop r.buffer_posn r.buffer in
      let v = start-IsReading m r in
      elim (Bool-cases (ltb r.buffer_posn (length r.buffer))) [
        | inl more ↦
            let o = read_round_at_hand decode rounds m (start r) (ltb→lt _ _ more) in
            elim (Bool-cases (has_byte d s)) [
              | inl has ↦ found decode n rounds m b d [] s (start r) r v refl k o has
              | inr has ↦
                  let grown = length-line_more d s (joined r.input) has in
                  let (reader, del) =
                    append_read-reader decode m (r.buffer_posn + length s) 0 r (start r) in
                  continued decode n rounds m b d [] s (start r) r v refl k o has
                    (omega (arith, grown))
                    (read_rounds-input decode r.input n rounds m b d s _
                      (append_read-IsReading decode m d [] s (start r) r v k.single refl)
                      (moved-IsReadable rounds d _ r _ k reader) (ap (λ r'. r'.input) reader)
                      (omega (
                        arith,
                        few,
                        ap (λ r'. length r'.buffer) reader,
                        ap (λ r'. r'.buffer_posn) reader,
                      ))
                      (omega arith) (omega (arith, grown)))
            ]
        | inr used ↦
            let past = not-ltb→le _ _ used in
            let e = drop-length r.buffer r.buffer_posn past in
            subst
              (λ s.
                Reads decode rounds (length r.input) m d [] [] (s ∷ r.input)
                  (read_rounds decode (suc n) rounds m b (start r)))
              (sym e)
              (Reads-nil rounds m d r.input _ (
                read_rounds-input decode r.input (suc n) rounds m b d [] (start r) v k refl past
                  (omega arith)
                  (omega (arith, room, ap (λ s. length (line d (s ++ joined r.input))) e))))
      ]

  null_at_end-consumed :
      (d consumed : ℕ) (bytes text : List ℕ)
      → consumed + length (after d bytes) ≡ length bytes
      → (if consumed == 0 then none else some text) ≡ null_at_end bytes text
  null_at_end-consumed d consumed [] text h = ground arith
  null_at_end-consumed d consumed (b ∷ s) text h = ground (arith, length-after-lt d b s)

  -- Whatever the encoding: where the delimiter is one byte, the pieces that the stream comes in are
  -- neither empty nor longer than the rounds allow, there are two reads more than pieces, and the line is
  -- shorter than `max_bytes`, a call returns. It gives null where no bytes are left, and else the texts of
  -- the parts into which the pieces cut the bytes before the first delimiter, at most `max_length` of
  -- them, every part decoded alone; the parts together are these bytes. It leaves the bytes behind the
  -- delimiter, in no more pieces.
  pub read_custom_line-parts :
      (reads rounds max_length max_bytes d : ℕ) (r : Reader)
      → IsReadable rounds d r
      → length r.input + 1 < reads
      → length (line d (left r)) < max_bytes
      → (r' : Reader) × (read_custom_line decode reads rounds max_length max_bytes r
          ≡ some (r', null_at_end (left r) (text_of decode (parts max_length d (pieces r)))))
        × (joined (parts max_length d (pieces r)) ≡ take max_length (line d (left r)))
        × (left r' ≡ after d (left r))
        × IsReadable rounds d r'
        × (length r'.input ≤ length r.input)
  unfolding read_custom_line
  read_custom_line-parts n rounds m b d r k enough room =
      let o = read_rounds-Reads n rounds m b d r k enough room in
      let q : m - 0 ≡ m = omega arith in
      let text = o.read ∙ ap (λ k. text_of decode (parts k d (pieces r))) q in
      (
        o.progress.reader,
        ground (
          arith,
          o.returns,
          text,
          null_at_end-consumed d o.progress.bytes_consumed (left r) o.progress.str
              (omega (arith, o.consumed, ap length o.remaining)),
        ),
        joined-parts m d (pieces r),
        o.remaining,
        o.kept,
        o.fewer,
      )

  null_at_end-map :
      (max_length d : ℕ) (bytes : List ℕ)
      → null_at_end bytes (decode (take max_length (line d bytes)))
        ≡ map_option decode (first_line max_length d bytes)
  unfolding first_line
  null_at_end-map m d [] = refl
  null_at_end-map m d (b ∷ s) = refl

  -- Where the bytes that are left are decoded alone, the pieces do not matter.
  pub null_at_end-first_line :
      (IsPlain : ℕ → Type 0) (max_length d : ℕ) (r : Reader)
      → decode [] ≡ []
      → ((a b : List ℕ) → All IsPlain a → decode (a ++ b) ≡ decode a ++ decode b)
      → All IsPlain (left r)
      → null_at_end (left r) (text_of decode (parts max_length d (pieces r)))
        ≡ map_option decode (first_line max_length d (left r))
  null_at_end-first_line IsPlain m d r nil split plain =
      let cut = All-take IsPlain m (line d (left r)) (All-line IsPlain d (left r) plain) in
      let e = joined-parts m d (pieces r) in
      ap (null_at_end (left r)) (
        text_of-decode IsPlain decode nil split (parts m d (pieces r))
          (subst (λ s. All IsPlain s) (sym e) cut)
        ∙ ap decode e)
      ∙ null_at_end-map m d (left r)
