-- ===== src/Storage/Journal/Examples.antt =====
-- The theorems on the journal at concrete records.
use ferrite.Prelude.{
  drop, ◌+◌, ◌-◌, ◌≤◌, ◌≡◌, ◌≢◌, refl, true, false, some, List, [], ◌∷◌, ◌++◌, arith, length, take,
}
use ferrite.Common.Error.{Result, ok}
use ferrite.Storage.Codec.Reader.{Bytes}
use ferrite.Storage.Codec.Writer
use ferrite.Storage.Crc.{crc32c}
use ferrite.Storage.Journal.{
  Record, commit, abort, checkpoint, frame, payload, end_of_file, next_record, replay_loop, replay,
}
use ferrite.Storage.Journal.Frame.{header, next_record-cut}
use ferrite.Storage.Journal.Replay.{journal_bytes, flagged, visit_all, replay-damaged}
use ferrite.Storage.Journal.Crash.{survivors, torn_at, replay-take}
use ferrite.Storage.Journal.Log.{session, log_all, synced-session, replay-synced, replay-session}
use ferrite.Storage.Journal.Fuel.{replay_fuel}

-- A visitor that keeps the records.
abbrev keep : List Record → Record → Result (List Record)
keep seen r = ok (seen ++ r ∷ [])

abbrev logged : List Record
logged = commit 1 ∷ abort 2 ∷ []

replay-take_example :
    replay keep (some (take 30 (journal_bytes logged))) []
    ≡ flagged keep (torn_at 30 logged) (visit_all keep [] (survivors 30 logged))
replay-take_example = replay-take keep 30 logged [] (omega arith)

replay-session_example :
    replay keep (some (session [] true logged).file.contents) []
    ≡ flagged keep false (visit_all keep [] logged)
replay-session_example = replay-session keep [] true logged [] (omega arith)

short_enough : length (session [] true (commit 1 ∷ [])).file.synced ≤ 20
unfolding frame payload Writer.u8 Writer.u64 Writer.to_le
short_enough = rw (synced-session [] (commit 1 ∷ [])) (omega arith)

replay-synced_example :
    replay keep
      (some (take 20 (log_all (session [] true (commit 1 ∷ [])) (abort 2 ∷ [])).file.contents))
      []
    ≡ flagged keep (torn_at 20 logged) (
        visit_all keep []
          (commit 1 ∷ survivors (20 - length (journal_bytes (commit 1 ∷ []))) (abort 2 ∷ [])))
replay-synced_example =
    replay-synced keep [] (commit 1 ∷ []) (abort 2 ∷ []) 20 [] (omega arith) short_enough

abbrev two_bytes : Bytes
two_bytes = 1 ∷ 2 ∷ []

replay_fuel_example :
    replay_loop keep (length two_bytes + 5) two_bytes [] ≡ replay keep (some two_bytes) []
replay_fuel_example = replay_fuel keep two_bytes 5 []

checksums_differ : crc32c (9 ∷ []) ≢ crc32c (payload checkpoint)
unfolding crc32c payload Writer.u8
checksums_differ = λ e. absurd (omega (arith, e))

replay-damaged_example :
    replay keep
      (some (
        journal_bytes logged ++ (header 1 (crc32c (payload checkpoint)) ++ ((9 ∷ []) ++ (7 ∷ [])))))
      []
    ≡ flagged keep true (visit_all keep [] logged)
unfolding payload Writer.u8
replay-damaged_example =
    replay-damaged keep logged checkpoint (9 ∷ []) (7 ∷ []) [] (omega arith) tt refl
      checksums_differ

-- Three bytes of the header of a checkpoint record.
cut_header :
    frame (payload checkpoint) ≡ (1 ∷ 0 ∷ 0 ∷ []) ++ 0 ∷ drop 4 (frame (payload checkpoint))
unfolding frame payload Writer.u8 Writer.to_le
cut_header = refl

next_record-cut_example : next_record (1 ∷ 0 ∷ 0 ∷ []) ≡ end_of_file
next_record-cut_example =
    next_record-cut checkpoint (1 ∷ 0 ∷ 0 ∷ []) (drop 4 (frame (payload checkpoint))) 0 tt
      cut_header
