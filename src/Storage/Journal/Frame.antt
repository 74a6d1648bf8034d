-- ===== src/Storage/Journal/Frame.antt =====
-- One record of ferrite-storage/src/wal.rs: framed, whole, cut short or damaged.
use native.Mathlib.Nat.{mod-eq_of_lt}
use ferrite.Prelude.{
  sym, Bool-cases, inl, inr, ltb→lt, ◌∷◌, ==_iff, ◌≢◌, ltb, if◌then◌else◌, take-append_le,
  take-append-drop, length-drop, ap, ◌∙◌, ℕ, ◌+◌, ◌^◌, ◌≤◌, ◌<◌, ◌≡◌, refl, ap, ◌∙◌, none, some, [],
  ◌++◌, arith, append_assoc, append-nil, length, length-append, take, drop, take-append,
  drop-append, lt→ltb, le→not_ltb,
}
use ferrite.Common.Error.{ok}
use ferrite.Storage.Codec.Reader.{Bytes, from_le}
use ferrite.Storage.Codec.Reader.Parses.{
  Parses, Parses-pure, Parses-map, Parses-bind, Parses-take, Parses-u8, Parses-u32, Parses-u64,
  from_le-to_le,
}
use ferrite.Storage.Codec.Writer
use ferrite.Storage.Codec.Writer.{to_le}
use ferrite.Storage.Crc.{crc32c, crc32c-lt}
use ferrite.Storage.Journal.{
  page_size, Record, page_image, commit, abort, checkpoint, frame, payload, decode_kind,
  decode_payload, decode, read_exact_or_eof, end_of_file, torn, found, classify, after_payload,
  after_header, next_record,
}

-- Ids and sequence numbers fit their words, and a page image is one page.
abbrev pub IsRecord : Record → Type 0
IsRecord (page_image lsn page_id bytes) =
    (lsn < 2 ^ 64) × (page_id < 2 ^ 32) × (length bytes ≡ page_size)
IsRecord (commit txn) = txn < 2 ^ 64
IsRecord (abort txn) = txn < 2 ^ 64
IsRecord checkpoint = Unit

Parses-payload : (r : Record) → IsRecord r → Parses decode_payload (payload r) (some r)
unfolding decode_payload payload Writer.u8 Writer.u32 Writer.u64 Writer.bytes
Parses-payload (page_image lsn page_id bytes) (hl, hp, hb) = Parses-bind decode_kind (Parses-u8 1) (
    rw (append_assoc (to_le 8 lsn) (to_le 4 page_id) bytes) (
      Parses-bind _ (Parses-u64 lsn hl) (
        Parses-bind _ (Parses-u32 page_id hp) (
          Parses-map (λ raw. some (page_image lsn page_id raw)) (Parses-take page_size bytes hb)))))
Parses-payload (commit txn) h =
    Parses-bind decode_kind (Parses-u8 2) (Parses-map (λ t. some (commit t)) (Parses-u64 txn h))
Parses-payload (abort txn) h =
    Parses-bind decode_kind (Parses-u8 3) (Parses-map (λ t. some (abort t)) (Parses-u64 txn h))
Parses-payload checkpoint h = Parses-bind decode_kind (Parses-u8 4) (Parses-pure (some checkpoint))

decode-payload : (r : Record) → IsRecord r → decode (payload r) ≡ ok (some r)
unfolding decode
decode-payload r h = rw (rw (append-nil (payload r)) at ((Parses-payload r h).at [])) refl

length-payload :
    (r : Record) → IsRecord r → (0 < length (payload r)) × (length (payload r) ≤ page_size + 64)
unfolding payload Writer.u8 Writer.u32 Writer.u64 Writer.bytes to_le
length-payload (page_image lsn page_id bytes) h = omega arith
length-payload (commit txn) h = omega arith
length-payload (abort txn) h = omega arith
length-payload checkpoint h = omega arith

read_exact-append : (w rest : Bytes) → read_exact_or_eof (length w) (w ++ rest) ≡ some (w, rest)
unfolding read_exact_or_eof
read_exact-append w rest = rw (
  le→not_ltb (length (w ++ rest)) (length w) (omega (arith, length-append w rest)),
  take-append w rest,
  drop-append w rest,
)

read_exact-short : (n : ℕ) (src : Bytes) → length src < n → read_exact_or_eof n src ≡ none
unfolding read_exact_or_eof
read_exact-short n src h = rw (lt→ltb _ _ h)

-- The eight bytes in front of a payload of `n` bytes.
abbrev pub header : ℕ → ℕ → Bytes
header n crc = to_le 4 n ++ to_le 4 crc

length-header : (n crc : ℕ) → length (header n crc) ≡ 8
unfolding to_le
length-header n crc = refl

length_of_header : (n crc : ℕ) → n < 2 ^ 32 → from_le (take 4 (header n crc)) ≡ n
unfolding to_le
length_of_header n crc h = from_le-to_le 4 n h

crc_of_header : (n crc : ℕ) → crc < 2 ^ 32 → from_le (drop 4 (header n crc)) ≡ crc
unfolding to_le
crc_of_header n crc h = from_le-to_le 4 crc h

next_record-header :
    (n crc : ℕ) (rest : Bytes)
    → 0 < n
    → n ≤ page_size + 64
    → crc < 2 ^ 32
    → next_record (header n crc ++ rest) ≡ after_payload crc (read_exact_or_eof n rest)
unfolding next_record after_header
next_record-header n crc rest pos fits hc =
    ap after_header (rw (length-header n crc) at (read_exact-append (header n crc) rest))
    ∙ rw (length_of_header n crc (omega arith), crc_of_header n crc hc) (ground arith)

-- A frame splits into its header and its payload.
frame-header :
    (p rest : Bytes)
    → length p ≤ page_size + 64
    → frame p ++ rest ≡ header (length p) (crc32c p) ++ (p ++ rest)
unfolding frame
frame-header p rest fits =
    rw (mod-eq_of_lt (let h : length p < 2 ^ 32 = omega arith in h)) (simp append_assoc)

-- In front of any bytes, `next_record` returns the record that was framed.
pub next_record-frame :
    (r : Record) (rest : Bytes)
    → IsRecord r
    → next_record (frame (payload r) ++ rest) ≡ found r rest
unfolding after_payload classify
next_record-frame r rest h =
    let (pos, fits) = length-payload r h in
    rw (frame-header (payload r) rest fits) (
      next_record-header (length (payload r)) (crc32c (payload r)) (payload r ++ rest) pos fits
        (crc32c-lt (payload r))
      ∙ rw (read_exact-append (payload r) rest, decode-payload r h)
          (rw ((==_iff (crc32c (payload r)) (crc32c (payload r))).1 refl)))

-- A payload that was overwritten by another of its length and of another checksum ends the replay.
pub next_record-damaged :
    (r : Record) (q rest : Bytes)
    → IsRecord r
    → length q ≡ length (payload r)
    → crc32c q ≢ crc32c (payload r)
    → next_record (header (length (payload r)) (crc32c (payload r)) ++ (q ++ rest)) ≡ torn
unfolding after_payload
next_record-damaged r q rest h same differs =
    let (pos, fits) = length-payload r h in
    next_record-header (length (payload r)) (crc32c (payload r)) (q ++ rest) pos fits
      (crc32c-lt (payload r))
    ∙ rw (← same) (rw (read_exact-append q rest) (ground (arith, differs)))

-- A prefix that is long enough begins with the whole header.
split_header :
    (n crc : ℕ) (p front more : Bytes)
    → header n crc ++ p ≡ front ++ more
    → 8 ≤ length front
    → front ≡ header n crc ++ drop 8 front
unfolding to_le
split_header n crc p front more e long =
    sym (take-append-drop 8 front)
    ∙ ap (λ h. h ++ drop 8 front)
        (sym (take-append_le 8 front more long)
          ∙ ap (λ l. take 8 l) (sym e)
          ∙ take-append (header n crc) p)

short_payload :
    (n crc : ℕ) (p front back : Bytes) (x : ℕ)
    → length p ≡ n
    → header n crc ++ p ≡ front ++ x ∷ back
    → 8 ≤ length front
    → length (drop 8 front) < n
unfolding to_le
short_payload n crc p front back x same e long =
    omega
      (arith, ap (λ (l : Bytes). length l) e, length-append front (x ∷ back), length-drop 8 front)

-- The frame of a valid record, cut short within its eight bytes of header, reads as the end of the
-- file; cut within its payload it reads as torn.
pub next_record-cut :
    (r : Record) (front back : Bytes) (x : ℕ)
    → IsRecord r
    → frame (payload r) ≡ front ++ x ∷ back
    → next_record front ≡ (if ltb (length front) 8 then end_of_file else torn)
unfolding next_record after_header after_payload
next_record-cut r front back x h e =
    let p = payload r in
    let (pos, fits) = length-payload r h in
    let whole : header (length p) (crc32c p) ++ p ≡ front ++ x ∷ back =
      (simp append-nil at (sym (frame-header p [] fits))) ∙ e in
    elim (Bool-cases (ltb (length front) 8)) [
      | inl short ↦ rw short (ap after_header (read_exact-short 8 front (ltb→lt _ _ short)))
      | inr long ↦
          let enough : 8 ≤ length front = ground arith in
          rw long (
            ap next_record (split_header _ _ p front (x ∷ back) whole enough)
            ∙ next_record-header (length p) (crc32c p) (drop 8 front) pos fits (crc32c-lt p)
            ∙ ap (after_payload (crc32c p)) (
                read_exact-short (length p) (drop 8 front)
                  (short_payload _ _ p front back x refl whole enough)))
    ]
