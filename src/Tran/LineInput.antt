-- ===== src/Tran/LineInput.antt =====
-- LineInputStream: the lines of a stream of bytes, up to a delimiter that is not empty. A text is the
-- list of its characters; `decode` is what `new String` makes of some bytes in the encoding of the file.
pub mod Lines
pub mod Parts
pub mod Pieces
pub mod Streams
pub mod Reading
pub mod Rounds
pub mod Custom
pub mod Lists
use Prim.Native.Nat.{min}
use toyhoodle.Prelude.{
  ℕ, zero, suc, ◌+◌, ◌-◌, Bool, true, false, ◌&&◌, Option, none, some, List, [], ◌∷◌, ◌++◌, ltb,
  leb, ◌==◌, length, get_elem?, take, drop, if◌then◌else◌,
}

-- `buffer` holds the first `bufferLength` bytes of the buffer, and `input` what the coming calls of
-- `in.read` give, in order: with no more of them the stream has ended.
pub record Reader : Type 0 where
  pub record_delimiter : List ℕ
  pub buffer : List ℕ
  pub buffer_posn : ℕ
  pub input : List (List ℕ)

unfoldable pub new_reader : List ℕ → List (List ℕ) → Reader
new_reader delimiter input = record {
  record_delimiter = delimiter;
  buffer = [];
  buffer_posn = 0;
  input = input;
}

-- `fillBuffer`, from position 0 on. The length is -1 at the end of the stream, which counts as 0.
unfoldable pub fill_buffer : Reader → Reader
fill_buffer r = elim r.input [
  | [] ↦ record r { buffer = []; buffer_posn = 0 }
  | bytes ∷ rest ↦ record r { buffer = bytes; buffer_posn = 0; input = rest }
]

-- The local variables of `readCustomLine`, and the reader.
pub record Progress : Type 0 where
  pub reader : Reader
  pub str : List ℕ
  pub txt_length : ℕ
  pub bytes_consumed : ℕ
  pub del_posn : ℕ
  pub ambiguous : ℕ

unfoldable pub start : Reader → Progress
start r = record {
  reader = r;
  str = [];
  txt_length = 0;
  bytes_consumed = 0;
  del_posn = 0;
  ambiguous = 0;
}

abbrev same_byte : Option ℕ → Option ℕ → Bool
same_byte (some a) (some b) = a == b
same_byte _ _ = false

-- A round of the loop over the buffer: it stops, or goes on, at a position of the buffer and one of
-- the delimiter.
pub data Scan : Type 0 where
  stops goes_on : ℕ → ℕ → Scan

-- A mismatch goes back to the byte behind that at which the match began, or to the first one.
unfoldable pub scan_round : List ℕ → List ℕ → ℕ → ℕ → Scan
scan_round delimiter buffer posn del_posn =
    if ltb posn (length buffer)
    then if same_byte (get_elem? buffer posn) (get_elem? delimiter del_posn)
      then if leb (length delimiter) (del_posn + 1)
        then stops (posn + 1) (del_posn + 1)
        else goes_on (posn + 1) (del_posn + 1)
      else goes_on (posn + 1 - del_posn) 0
    else stops posn del_posn

-- The loop over the buffer, with a number of rounds.
unfoldable pub scan : ℕ → List ℕ → List ℕ → ℕ → ℕ → Option (ℕ × ℕ)
scan zero delimiter buffer posn del_posn = none
scan (suc rounds) delimiter buffer posn del_posn =
    elim (scan_round delimiter buffer posn del_posn) [
      | stops posn' del_posn' ↦ some (posn', del_posn')
      | goes_on posn' del_posn' ↦ scan rounds delimiter buffer posn' del_posn'
    ]

module _ (decode : List ℕ → List ℕ) where
  -- What follows the loop over the buffer, which began at the position of the reader `r`.
  unfoldable pub append_read : ℕ → Reader → ℕ → ℕ → Progress → Progress
  append_read max_length r posn del_posn p =
      let read_length = posn - r.buffer_posn in
      let append_length = min (read_length - del_posn) (max_length - p.txt_length) in
      let certain = leb del_posn read_length && ltb 0 p.ambiguous in
      let consumed = p.bytes_consumed + read_length + p.ambiguous in
      let split =
        leb (length r.buffer) posn
        && (ltb 0 del_posn && ltb del_posn (length r.record_delimiter)) in
      record {
        reader = record r { buffer_posn = posn };
        str =
            (if certain then p.str ++ decode (take p.ambiguous r.record_delimiter) else p.str)
            ++ (if ltb 0 append_length
                then decode (take append_length (drop r.buffer_posn r.buffer))
                else []);
        txt_length = p.txt_length + append_length;
        bytes_consumed = if split then consumed - del_posn else consumed;
        del_posn = del_posn;
        ambiguous = if split then del_posn else if certain then 0 else p.ambiguous;
      }

  -- A round of the outer loop on a reader that may just have been filled; the `true` of the result says
  -- that the round ended with the stream.
  unfoldable pub read_from : ℕ → ℕ → Bool → Reader → Progress → Option (Bool × Progress)
  read_from rounds max_length filled r p =
      if filled && (length r.buffer == 0)
      then some (
        true,
        record p {
          reader = r;
          str =
              if ltb 0 p.ambiguous
              then p.str ++ decode (take p.ambiguous r.record_delimiter)
              else p.str;
          bytes_consumed = p.bytes_consumed + p.ambiguous;
        },
      )
      else elim (scan rounds r.record_delimiter r.buffer r.buffer_posn p.del_posn) [
        | none ↦ none
        | some (posn, del_posn) ↦ some (false, append_read max_length r posn del_posn p)
      ]

  -- A round of the outer loop: the buffer is filled where it is used up.
  unfoldable pub read_round : ℕ → ℕ → Progress → Option (Bool × Progress)
  read_round rounds max_length p =
      let filled = leb (length p.reader.buffer) p.reader.buffer_posn in
      read_from rounds max_length filled (if filled then fill_buffer p.reader else p.reader) p

  -- The outer loop, with a number of calls of `in.read`.
  unfoldable pub read_rounds : ℕ → ℕ → ℕ → ℕ → Progress → Option Progress
  read_rounds zero rounds max_length max_bytes p = none
  read_rounds (suc reads) rounds max_length max_bytes p = elim (read_round rounds max_length p) [
    | none ↦ none
    | some (true, p') ↦ some p'
    | some (false, p') ↦
        let more = read_rounds reads rounds max_length max_bytes p' in
        if ltb p'.del_posn (length p'.reader.record_delimiter) && ltb p'.bytes_consumed max_bytes
        then more
        else some p'
  ]

  -- `readCustomLine`, for lines that are far shorter than Integer.MAX_VALUE bytes.
  unfoldable pub read_custom_line : ℕ → ℕ → ℕ → ℕ → Reader → Option (Reader × Option (List ℕ))
  read_custom_line reads rounds max_length max_bytes r =
      elim (read_rounds reads rounds max_length max_bytes (start r)) [
        | none ↦ none
        | some p ↦ some (p.reader, if p.bytes_consumed == 0 then none else some p.str)
      ]

  -- `readData`, with the limits that the fields set.
  unfoldable pub read_data : ℕ → ℕ → Reader → Option (Reader × Option (List ℕ))
  unfolding read_custom_line
  read_data reads rounds r = read_custom_line reads rounds 10240 102400 r
