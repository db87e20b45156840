-- ===== src/Tran/Tests.antt =====
-- Runs of the line reader on small streams, and instances of the theorems.
use mathlib.Core.Option.{map as map_option}
use toyhoodle.Prelude.{
  All, ◌++◌, ◌∙◌, sym, ap, ℕ, ◌+◌, ◌<◌, ◌≤◌, ◌≡◌, refl, none, some, List, [], ◌∷◌, arith, length,
  map, take, leb, ◌==◌, if◌then◌else◌,
}
use toyhoodle.Tran.LineInput.{
  Reader, new_reader, fill_buffer, start, scan_round, scan, append_read, read_from, read_round,
  read_rounds, read_custom_line, read_data,
}
use toyhoodle.Tran.LineInput.Lines.{line, after}
use toyhoodle.Tran.LineInput.Streams.{left, IsReadable}
use toyhoodle.Tran.LineInput.Lists.{read_lines, lines_of, HasShortLines, read_lines-lines_of}
use toyhoodle.Tran.LineInput.Parts.{joined, parts, text_of}
use toyhoodle.Tran.LineInput.Custom.{first_line, null_at_end, read_custom_line-parts}

program : Unit {0}
unfolding new_reader fill_buffer start scan_round scan append_read read_from read_round read_rounds
    read_custom_line read_data parts line after first_line read_lines lines_of HasShortLines
program = tt

-- An encoding in which every byte is a character.
abbrev latin1 : List ℕ → List ℕ
latin1 bytes = bytes

-- The characters of UTF-8 up to 127, and those from 192 to 255, whose first byte is 195.
abbrev ascii : ℕ → ℕ
ascii b = if leb 128 b then 65533 else b

abbrev utf8 : List ℕ → List ℕ
utf8 [] = []
utf8 (a ∷ []) = ascii a ∷ []
utf8 (a ∷ b ∷ s) =
    let behind = utf8 s in
    let rest = utf8 (b ∷ s) in if a == 195 then (b + 64) ∷ behind else ascii a ∷ rest

-- Two lines, of which the first is read in two pieces; the delimiter is 10.
abbrev reader : Reader
reader = record {
  record_delimiter = 10 ∷ [];
  buffer = [];
  buffer_posn = 0;
  input = (1 ∷ 2 ∷ []) ∷ (3 ∷ 10 ∷ 4 ∷ []) ∷ [];
}

reader_run :
    (new_reader (10 ∷ []) ((1 ∷ 2 ∷ []) ∷ (3 ∷ 10 ∷ 4 ∷ []) ∷ []) ≡ reader)
    × (read_custom_line latin1 5 9 100 100 reader
        ≡ some (
          record reader { buffer = 3 ∷ 10 ∷ 4 ∷ []; buffer_posn = 2; input = [] },
          some (1 ∷ 2 ∷ 3 ∷ []),
        ))
unfolding program
reader_run = (refl, refl)

data_run : read_data latin1 5 9 reader ≡ read_custom_line latin1 5 9 10240 102400 reader
unfolding program
data_run = refl

-- A delimiter of three bytes that two pieces share.
abbrev shared : Reader
shared = record {
  record_delimiter = 1 ∷ 1 ∷ 2 ∷ [];
  buffer = [];
  buffer_posn = 0;
  input = (7 ∷ 1 ∷ []) ∷ (1 ∷ 2 ∷ 8 ∷ []) ∷ [];
}

shared_run :
    read_custom_line latin1 5 9 100 100 shared
    ≡ some (record shared { buffer = 1 ∷ 2 ∷ 8 ∷ []; buffer_posn = 2; input = [] }, some (7 ∷ []))
unfolding program
shared_run = refl

-- The delimiter 1 1 2 in the bytes 1 1 1 2: it is found in one piece, and missed where the buffer ends
-- in the middle.
abbrev whole : Reader
whole = record shared { input = (1 ∷ 1 ∷ 1 ∷ 2 ∷ []) ∷ [] }

abbrev halved : Reader
halved = record shared { input = (1 ∷ 1 ∷ []) ∷ (1 ∷ 2 ∷ []) ∷ [] }

missed_run :
    (read_custom_line latin1 5 19 100 100 whole
      ≡ some (
        record whole { buffer = 1 ∷ 1 ∷ 1 ∷ 2 ∷ []; buffer_posn = 4; input = [] },
        some (1 ∷ []),
      ))
    × (read_custom_line latin1 5 19 100 100 halved
        ≡ some
            (record halved { buffer = []; buffer_posn = 0; input = [] }, some (1 ∷ 1 ∷ 1 ∷ 2 ∷ [])))
unfolding program
missed_run = (refl, refl)

reader-IsReadable : IsReadable 5 10 reader
reader-IsReadable = record {
  single = refl;
  short = omega arith;
  pieces = ((omega arith, omega arith), ((omega arith, omega arith), tt));
}

-- The bytes of h and é in UTF-8, in one piece, and with é cut by the end of a piece.
abbrev unsplit : Reader
unsplit = record reader { input = (104 ∷ 195 ∷ 169 ∷ 10 ∷ []) ∷ [] }

abbrev split : Reader
split = record reader { input = (104 ∷ 195 ∷ []) ∷ (169 ∷ 10 ∷ []) ∷ [] }

split_run :
    (read_custom_line utf8 5 9 100 100 unsplit
      ≡ some (
        record unsplit { buffer = 104 ∷ 195 ∷ 169 ∷ 10 ∷ []; buffer_posn = 4; input = [] },
        some (104 ∷ 233 ∷ []),
      ))
    × (read_custom_line utf8 5 9 100 100 split
        ≡ some (
          record split { buffer = 169 ∷ 10 ∷ []; buffer_posn = 2; input = [] },
          some (104 ∷ 65533 ∷ 65533 ∷ []),
        ))
unfolding program
split_run = (refl, refl)

split_line_short : length (line 10 (104 ∷ 195 ∷ 169 ∷ 10 ∷ [])) < 100
unfolding line
split_line_short = omega arith

split-IsReadable : IsReadable 5 10 split
split-IsReadable = record {
  single = refl;
  short = omega arith;
  pieces = ((omega arith, omega arith), ((omega arith, omega arith), tt));
}

read_custom_line-parts_example :
    (r' : Reader) × (read_custom_line utf8 4 5 100 100 split
      ≡ some (
        r',
        null_at_end
            (104 ∷ 195 ∷ 169 ∷ 10 ∷ [])
            (text_of utf8 (parts 100 10 ([] ∷ (104 ∷ 195 ∷ []) ∷ (169 ∷ 10 ∷ []) ∷ []))),
      ))
    × (joined (parts 100 10 ([] ∷ (104 ∷ 195 ∷ []) ∷ (169 ∷ 10 ∷ []) ∷ []))
        ≡ take 100 (line 10 (104 ∷ 195 ∷ 169 ∷ 10 ∷ [])))
    × (left r' ≡ after 10 (104 ∷ 195 ∷ 169 ∷ 10 ∷ []))
    × IsReadable 5 10 r'
    × (length r'.input ≤ 2)
read_custom_line-parts_example =
    read_custom_line-parts utf8 4 5 100 100 10 split split-IsReadable (omega arith) split_line_short

lines_run :
    lines_of 3 100 10 (1 ∷ 2 ∷ 3 ∷ 10 ∷ 4 ∷ []) ≡ some (1 ∷ 2 ∷ 3 ∷ []) ∷ some (4 ∷ []) ∷ none ∷ []
unfolding program
lines_run = refl

short_lines : HasShortLines 3 100 10 (1 ∷ 2 ∷ 3 ∷ 10 ∷ 4 ∷ [])
unfolding program
short_lines = (omega arith, (omega arith, (omega arith, tt)))

-- The bytes below 128 are characters of UTF-8.
abbrev IsAscii : ℕ → Type 0
IsAscii b = b < 128

utf8-ascii : (a : ℕ) (s : List ℕ) → a < 128 → utf8 (a ∷ s) ≡ ascii a ∷ utf8 s
utf8-ascii a [] h = refl
utf8-ascii a (b ∷ s) h = ground arith

utf8-append : (a b : List ℕ) → All IsAscii a → utf8 (a ++ b) ≡ utf8 a ++ utf8 b
utf8-append [] b v = refl
utf8-append (x ∷ a) b v =
    utf8-ascii x (a ++ b) v.0
    ∙ ap (λ l. ascii x ∷ l) (utf8-append a b v.1)
    ∙ ap (λ l. l ++ utf8 b) (sym (utf8-ascii x a v.0))

left-IsAscii : All IsAscii (1 ∷ 2 ∷ 3 ∷ 10 ∷ 4 ∷ [])
left-IsAscii = (omega arith, (omega arith, (omega arith, (omega arith, (omega arith, tt)))))

read_lines-lines_of_example :
    (r' : Reader) × (read_lines utf8 3 4 5 100 100 reader
      ≡ some (r', map (map_option utf8) (lines_of 3 100 10 (1 ∷ 2 ∷ 3 ∷ 10 ∷ 4 ∷ []))))
read_lines-lines_of_example =
    read_lines-lines_of utf8 IsAscii 3 4 5 100 100 10 reader refl utf8-append left-IsAscii
      reader-IsReadable (omega arith) short_lines
