-- ===== src/Storage/Journal/Log.antt =====
-- The journal of ferrite-storage/src/wal.rs as its methods write it: opened, emptied, appended to.
use ferrite.Prelude.{
  suc, ℕ, zero, ◌+◌, ◌-◌, ◌≤◌, ◌≡◌, refl, ap, sym, ◌∙◌, Bool, true, false, some, List, [], ◌∷◌,
  ◌++◌, arith, append-nil, append_assoc, length, length-append, take, drop, All,
}
use ferrite.Common.Error.{Result}
use ferrite.Storage.Codec.Reader.{Bytes}
use ferrite.Storage.Journal.{
  Record, page_image, commit, abort, checkpoint, Journal, DiskFile, open_journal, write_all, frame,
  append, payload, log_page_image, log_commit, log_abort, log_checkpoint, sync, truncate, replay,
}
use ferrite.Storage.Journal.Frame.{IsRecord}
use ferrite.Storage.Journal.Replay.{
  journal_bytes, visit_all, flagged, replay-records, next_record-nil,
}
use ferrite.Storage.Journal.Crash.{
  survivors, torn_at, replay-take, journal_bytes-append, survivors-append,
}

-- The `log_` method of each record.
pub log : Journal → Record → Journal
log j (page_image lsn page_id bytes) = log_page_image j lsn page_id bytes
log j (commit txn) = log_commit j txn
log j (abort txn) = log_abort j txn
log j checkpoint = log_checkpoint j

pub log_all : Journal → List Record → Journal
log_all j [] = j
log_all j (r ∷ rs) = log_all (log j r) rs

-- The file holds the frames of `rs`, the cursor stands at its end, and `len` is its size.
pub record Holds (j : Journal) (rs : List Record) : Type 0 where
  pub contents : j.file.contents ≡ journal_bytes rs
  pub cursor : j.file.cursor ≡ length j.file.contents
  pub bytes : j.bytes ≡ length j.file.contents

drop-end : (n : ℕ) (xs : Bytes) → length xs ≤ n → drop n xs ≡ []
drop-end zero [] h = refl
drop-end (suc n) [] h = refl
drop-end zero (x ∷ xs) h = absurd (omega arith)
drop-end (suc n) (x ∷ xs) h = drop-end n xs (omega arith)

take-end : (xs : Bytes) → take (length xs) xs ≡ xs
take-end [] = refl
take-end (x ∷ xs) = ap (λ l. x ∷ l) (take-end xs)

-- At the end of a file `write_all` appends.
write_all-end :
    (f : DiskFile) (bytes : Bytes)
    → f.cursor ≡ length f.contents
    → (write_all f bytes).contents ≡ f.contents ++ bytes
unfolding write_all
write_all-end f bytes e =
    let none_missing : length f.contents - length f.contents ≡ 0 = omega arith in
    rw (
      e,
      take-end f.contents,
      none_missing,
      drop-end (length f.contents + length bytes) f.contents (omega arith),
      append-nil bytes,
    )

cursor-write_all :
    (f : DiskFile) (bytes : Bytes) → (write_all f bytes).cursor ≡ f.cursor + length bytes
unfolding write_all
cursor-write_all f bytes = refl

append-Holds :
    (j : Journal) (rs : List Record) (r : Record)
    → Holds j rs
    → Holds (append j (payload r)) (rs ++ r ∷ [])
unfolding append
append-Holds j rs r h =
    let added = write_all-end j.file (frame (payload r)) h.cursor in
    let grown : length (write_all j.file (frame (payload r))).contents
        ≡ length j.file.contents + length (frame (payload r)) =
      ap (λ (l : Bytes). length l) added ∙ length-append j.file.contents (frame (payload r)) in
    record {
      contents =
          added
          ∙ ap (λ l. l ++ frame (payload r)) h.contents
          ∙ ap (λ l. journal_bytes rs ++ l) (sym (append-nil (frame (payload r))))
          ∙ sym (journal_bytes-append rs (r ∷ []));
      cursor = omega (arith, cursor-write_all j.file (frame (payload r)), h.cursor, grown);
      bytes = omega (arith, h.bytes, grown);
    }

log-append : (j : Journal) (r : Record) → log j r ≡ append j (payload r)
unfolding log log_page_image log_commit log_abort log_checkpoint
log-append j (page_image lsn page_id bytes) = refl
log-append j (commit txn) = refl
log-append j (abort txn) = refl
log-append j checkpoint = refl

-- Every `log_` method adds its record behind those that the journal holds.
pub log-Holds :
    (j : Journal) (rs : List Record) (r : Record) → Holds j rs → Holds (log j r) (rs ++ r ∷ [])
log-Holds j rs r h = rw (log-append j r) (append-Holds j rs r h)

log_all-Holds : (j : Journal) (rs qs : List Record) → Holds j rs → Holds (log_all j qs) (rs ++ qs)
unfolding log_all
log_all-Holds j rs [] h = rw (append-nil rs) h
log_all-Holds j rs (q ∷ qs) h =
    rw (← append_assoc rs (q ∷ []) qs)
      (log_all-Holds (log j q) (rs ++ q ∷ []) qs (log-Holds j rs q h))

truncate-Holds : (j : Journal) → Holds (truncate j) []
unfolding truncate
truncate-Holds j = record { contents = refl; cursor = refl; bytes = refl }

sync-Holds : (j : Journal) (rs : List Record) → Holds j rs → Holds (sync j) rs
unfolding sync
sync-Holds j rs h = ground arith

-- What a session writes: the journal is opened on any old contents and emptied, as `Pager::open`
-- does, `rs` are logged and synced, and then `qs` are logged.
abbrev pub session : Bytes → Bool → List Record → Journal
session on_disk sync_on_commit rs =
    sync (log_all (truncate (open_journal on_disk sync_on_commit)) rs)

session-Holds : (on_disk : Bytes) (b : Bool) (rs : List Record) → Holds (session on_disk b rs) rs
session-Holds on_disk b rs =
    sync-Holds _ rs (log_all-Holds (truncate (open_journal on_disk b)) [] rs (truncate-Holds _))

synced-sync : (j : Journal) → j.sync_on_commit ≡ true → (sync j).file.synced ≡ j.file.contents
unfolding sync
synced-sync j e = ground arith

sync_on_commit-append : (j : Journal) (p : Bytes) → (append j p).sync_on_commit ≡ j.sync_on_commit
unfolding append
sync_on_commit-append j p = refl

sync_on_commit-log_all :
    (j : Journal) (rs : List Record) → (log_all j rs).sync_on_commit ≡ j.sync_on_commit
unfolding log_all
sync_on_commit-log_all j [] = refl
sync_on_commit-log_all j (r ∷ rs) =
    sync_on_commit-log_all (log j r) rs
    ∙ ap (λ (k : Journal). k.sync_on_commit) (log-append j r)
    ∙ sync_on_commit-append j (payload r)

sync_on_commit-opened :
    (on_disk : Bytes) → (truncate (open_journal on_disk true)).sync_on_commit ≡ true
unfolding truncate open_journal
sync_on_commit-opened on_disk = refl

-- What a syncing session made durable.
pub synced-session :
    (on_disk : Bytes) (rs : List Record) → (session on_disk true rs).file.synced ≡ journal_bytes rs
synced-session on_disk rs =
    let j = log_all (truncate (open_journal on_disk true)) rs in
    synced-sync j (sync_on_commit-log_all _ rs ∙ sync_on_commit-opened on_disk)
    ∙ (log_all-Holds (truncate (open_journal on_disk true)) [] rs (truncate-Holds _)).contents

module _ {S : Type 0} (visit : S → Record → Result S) where
  -- For valid records, whatever part of the bytes logged after a sync a crash loses, so long as the
  -- synced prefix is left, the replay visits the synced records first, in order, and then those of
  -- the later ones that lie whole in what is left.
  pub replay-synced :
      (on_disk : Bytes) (rs qs : List Record) (n : ℕ) (s : S)
      → All IsRecord (rs ++ qs)
      → length (session on_disk true rs).file.synced ≤ n
      → replay visit (some (take n (log_all (session on_disk true rs) qs).file.contents)) s
        ≡ flagged visit
            (torn_at n (rs ++ qs))
            (visit_all visit s (rs ++ survivors (n - length (journal_bytes rs)) qs))
  replay-synced on_disk rs qs n s h kept =
      ap (λ l. replay visit (some (take n l)) s)
        (log_all-Holds (session on_disk true rs) rs qs (session-Holds on_disk true rs)).contents
      ∙ replay-take visit n (rs ++ qs) s h
      ∙ ap (λ l. flagged visit (torn_at n (rs ++ qs)) (visit_all visit s l))
          (survivors-append n rs qs
            (omega (arith, kept, ap (λ (l : Bytes). length l) (synced-session on_disk rs))))

  -- For valid records logged to a truncated journal, the replay visits all of them, in order, and
  -- reports no tear.
  pub replay-session :
      (on_disk : Bytes) (b : Bool) (rs : List Record) (s : S)
      → All IsRecord rs
      → replay visit (some (session on_disk b rs).file.contents) s
        ≡ flagged visit false (visit_all visit s rs)
  replay-session on_disk b rs s h =
      ap (λ l. replay visit (some l) s)
        ((session-Holds on_disk b rs).contents ∙ sym (append-nil (journal_bytes rs)))
      ∙ replay-records visit rs [] false s h next_record-nil
