-- ===== src/Storage/Journal.antt =====
-- ferrite-storage/src/wal.rs: the journal, its record framing and its replay.
-- A file is its bytes, a cursor, and the bytes that a sync made durable; its calls succeed.
pub mod Frame
pub mod Replay
pub mod Crash
pub mod Log
pub mod Fuel
mod Examples
use ferrite.Prelude.{
  ℕ, zero, suc, ◌+◌, ◌-◌, ◌*◌, ◌%◌, ◌^◌, ◌<◌, ◌≡◌, Bool, true, false, ◌||◌, Option, none, some,
  List, [], ◌∷◌, ◌++◌, max, length, take, drop, replicate, ltb, ◌==◌, if◌then◌else◌,
}
use ferrite.Common.Error.{Result, ok, err, FerriteError}
use ferrite.Storage.Codec.Reader.{Bytes, Reader, pure, ◌>>=◌, from_le}
use ferrite.Storage.Codec.Reader
use ferrite.Storage.Codec.Writer
use ferrite.Storage.Crc.{crc32c}

abbrev pub page_size : ℕ
page_size = 8192

abbrev pub kind_page_image : ℕ
kind_page_image = 1

abbrev pub kind_commit : ℕ
kind_commit = 2

abbrev pub kind_abort : ℕ
kind_abort = 3

abbrev pub kind_checkpoint : ℕ
kind_checkpoint = 4

pub data Record : Type 0 where
  page_image : ℕ → ℕ → Bytes → Record
  commit : ℕ → Record
  abort : ℕ → Record
  checkpoint : Record

pub record DiskFile : Type 0 where
  pub contents : Bytes
  pub cursor : ℕ
  pub synced : Bytes

pub record Journal : Type 0 where
  pub file : DiskFile
  pub next_lsn : ℕ
  pub sync_on_commit : Bool
  pub bytes : ℕ

-- `OpenOptions` without `append`: the cursor starts at 0.
pub open_journal : Bytes → Bool → Journal
open_journal on_disk sync_on_commit = record {
  file = record { contents = on_disk; cursor = 0; synced = on_disk };
  next_lsn = 1;
  sync_on_commit = sync_on_commit;
  bytes = length on_disk;
}

abbrev pub next_lsn : Journal → ℕ × Journal
next_lsn j = (j.next_lsn, record j { next_lsn = j.next_lsn + 1 })

abbrev pub set_next_lsn : Journal → ℕ → Journal
set_next_lsn j lsn = record j { next_lsn = max j.next_lsn lsn }

-- `write_all` at the cursor; a gap behind the end reads as zeros.
pub write_all : DiskFile → Bytes → DiskFile
write_all f bytes = record f {
  contents =
      take f.cursor f.contents
      ++ (replicate (f.cursor - length f.contents) 0
          ++ (bytes ++ drop (f.cursor + length bytes) f.contents));
  cursor = f.cursor + length bytes;
}

-- `framed`: the length, the checksum and the payload.
pub frame : Bytes → Bytes
frame payload =
    Writer.to_le 4 (length payload % 2 ^ 32) ++ (Writer.to_le 4 (crc32c payload) ++ payload)

pub append : Journal → Bytes → Journal
append j payload = record j {
  file = write_all j.file (frame payload);
  bytes = j.bytes + length (frame payload);
}

abbrev pub len : Journal → ℕ
len j = j.bytes

-- The payload that each `log_` method writes.
pub payload : Record → Bytes
payload (page_image lsn page_id bytes) =
    Writer.bytes (Writer.u32 (Writer.u64 (Writer.u8 [] kind_page_image) lsn) page_id) bytes
payload (commit txn) = Writer.u64 (Writer.u8 [] kind_commit) txn
payload (abort txn) = Writer.u64 (Writer.u8 [] kind_abort) txn
payload checkpoint = Writer.u8 [] kind_checkpoint

pub log_page_image : Journal → ℕ → ℕ → Bytes → Journal
log_page_image j lsn page_id bytes = append j (payload (page_image lsn page_id bytes))

pub log_commit : Journal → ℕ → Journal
log_commit j txn = append j (payload (commit txn))

pub log_abort : Journal → ℕ → Journal
log_abort j txn = append j (payload (abort txn))

pub log_checkpoint : Journal → Journal
log_checkpoint j = append j (payload checkpoint)

pub sync : Journal → Journal
sync j =
    if j.sync_on_commit then record j { file = record j.file { synced = j.file.contents } } else j

pub truncate : Journal → Journal
truncate j = record j { file = record { contents = []; cursor = 0; synced = [] }; bytes = 0 }

-- The payload of a record, read back. `none` is an unknown kind.
decode_kind : ℕ → Reader (Option Record)
decode_kind kind =
    if kind == kind_page_image
    then (do
      lsn ← Reader.u64
      page_id ← Reader.u32
      raw ← Reader.take page_size
      pure (some (page_image lsn page_id raw)))
    else if kind == kind_commit
    then (do txn ← Reader.u64; pure (some (commit txn)))
    else if kind == kind_abort
    then (do txn ← Reader.u64; pure (some (abort txn)))
    else if kind == kind_checkpoint
    then pure (some checkpoint)
    else pure none

decode_payload : Reader (Option Record)
unfolding decode_kind
decode_payload = do kind ← Reader.u8; decode_kind kind

-- The result of the reader, without the bytes left, which `decode` ignores.
decoded : Result (Option Record × Bytes) → Result (Option Record)
decoded (ok (r, rest)) = ok r
decoded (err e) = err e

pub decode : Bytes → Result (Option Record)
unfolding decoded decode_payload
decode payload = decoded (decode_payload payload)

-- `none` at the end of the file.
read_exact_or_eof : ℕ → Bytes → Option (Bytes × Bytes)
read_exact_or_eof n src = if ltb (length src) n then none else some (take n src, drop n src)

-- What one round of the replay loop comes to.
pub data Next : Type 0 where
  end_of_file : Next
  torn : Next
  failed : FerriteError → Next
  found : Record → Bytes → Next

classify : Result (Option Record) → Bytes → Next
classify (ok none) rest = torn
classify (ok (some r)) rest = found r rest
classify (err e) rest = failed e

after_payload : ℕ → Option (Bytes × Bytes) → Next
unfolding classify
after_payload expected_crc none = torn
after_payload expected_crc (some (payload, rest)) =
    if crc32c payload == expected_crc then classify (decode payload) rest else torn

after_header : Option (Bytes × Bytes) → Next
unfolding after_payload
after_header none = end_of_file
after_header (some (header, rest)) =
    let len = from_le (take 4 header) in
    let expected_crc = from_le (drop 4 header) in
    if (len == 0) || ltb (page_size + 64) len
    then torn
    else after_payload expected_crc (read_exact_or_eof len rest)

pub next_record : Bytes → Next
next_record src = after_header (read_exact_or_eof 8 src)

-- `visit` is a closure over mutable state, `S` here. The flag says that a tear ended the replay.
module _ {S : Type 0} (visit : S → Record → Result S) where
  pub replay_loop : ℕ → Bytes → S → Result (S × Bool)
  replay_loop zero src s = ok (s, false)
  replay_loop (suc fuel) src s = elim (next_record src) [
    | end_of_file ↦ ok (s, false)
    | torn ↦ ok (s, true)
    | failed e ↦ err e
    | found r rest ↦ elim (visit s r) [ ok s' ↦ replay_loop fuel rest s' | err e ↦ err e ]
  ]

  -- A round takes more than eight bytes, so `length src` rounds are enough. A journal that is not
  -- there is not torn.
  pub replay : Option Bytes → S → Result (S × Bool)
  replay none s = ok (s, false)
  replay (some src) s = replay_loop (length src) src s
