-- ===== src/Tran/LineInput/Lists.antt =====
-- Call after call of `readCustomLine`: the lines of a whole stream.
use mathlib.Core.Path.{subst}
use mathlib.Core.Option.{map as map_option}
use toyhoodle.Prelude.{
  All, sym, ℕ, zero, suc, ◌+◌, ◌<◌, ◌≡◌, refl, Option, none, some, List, [], ◌∷◌, length, arith,
  map, ◌++◌,
}
use toyhoodle.Tran.LineInput.{Reader, read_custom_line}
use toyhoodle.Tran.LineInput.Lines.{line, after}
use toyhoodle.Tran.LineInput.Parts.{All-after}
use toyhoodle.Tran.LineInput.Streams.{left, IsReadable}
use toyhoodle.Tran.LineInput.Custom.{first_line, read_custom_line-parts, null_at_end-first_line}

-- The lines of some bytes, one after the other, and null behind the last.
unfoldable pub lines_of : ℕ → ℕ → ℕ → List ℕ → List (Option (List ℕ))
lines_of zero max_length d bytes = []
lines_of (suc calls) max_length d bytes =
    first_line max_length d bytes ∷ lines_of calls max_length d (after d bytes)

-- The first lines, as many as there are calls, are shorter than `max_bytes`.
unfoldable pub HasShortLines : ℕ → ℕ → ℕ → List ℕ → Type 0
HasShortLines zero max_bytes d bytes = Unit
HasShortLines (suc calls) max_bytes d bytes =
    (length (line d bytes) < max_bytes) × HasShortLines calls max_bytes d (after d bytes)

module _ (decode : List ℕ → List ℕ) where
  -- The results of `calls` calls in a row, and the reader after them.
  unfoldable pub read_lines : ℕ → ℕ → ℕ → ℕ → ℕ → Reader → Option (Reader × List (Option (List ℕ)))
  read_lines zero reads rounds max_length max_bytes r = some (r, [])
  read_lines (suc calls) reads rounds max_length max_bytes r =
      elim (read_custom_line decode reads rounds max_length max_bytes r) [
        | none ↦ none
        | some (r', result) ↦ elim (read_lines calls reads rounds max_length max_bytes r') [
          | none ↦ none
          | some (r'', results) ↦ some (r'', result ∷ results)
        ]
      ]

  -- Where the bytes that are left are plain, and the encoding decodes plain bytes apart from what follows
  -- them (as ISO-8859-1 decodes all bytes, and UTF-8 those below 128), the delimiter is one byte, the
  -- pieces that the stream comes in are neither empty nor longer than the rounds allow, there are two
  -- reads more than pieces, and the lines are shorter than `max_bytes`: any number of calls in a row
  -- returns, and gives the texts of the lines of the bytes that are left, each cut at `max_length` bytes,
  -- and then null, in whatever pieces the bytes come.
  pub read_lines-lines_of :
      (IsPlain : ℕ → Type 0) (calls reads rounds max_length max_bytes d : ℕ) (r : Reader)
      → decode [] ≡ []
      → ((a b : List ℕ) → All IsPlain a → decode (a ++ b) ≡ decode a ++ decode b)
      → All IsPlain (left r)
      → IsReadable rounds d r
      → length r.input + 1 < reads
      → HasShortLines calls max_bytes d (left r)
      → (r' : Reader) × (read_lines calls reads rounds max_length max_bytes r
          ≡ some (r', map (map_option decode) (lines_of calls max_length d (left r))))
  unfolding read_lines lines_of HasShortLines
  read_lines-lines_of IsPlain zero n rounds m b d r nil split plain k enough h = (r, refl)
  read_lines-lines_of IsPlain (suc calls) n rounds m b d r nil split plain k enough h =
      let (r', e, parts, rest, k', fewer) =
        read_custom_line-parts decode n rounds m b d r k enough h.0 in
      let (r'', e') =
        read_lines-lines_of IsPlain calls n rounds m b d r' nil split
          (subst (λ s. All IsPlain s) (sym rest) (All-after IsPlain d (left r) plain)) k'
          (omega arith) (subst (λ s. HasShortLines calls b d s) (sym rest) h.1) in
      let text = null_at_end-first_line decode IsPlain m d r nil split plain in
      (r'', ground (arith, e, e', rest, text))
