-- ===== src/Storage/Journal/Replay.antt =====
-- `Journal::replay` of ferrite-storage/src/wal.rs on a journal that ends in any way.
use ferrite.Prelude.{
  ℕ, zero, suc, ◌+◌, ◌≤◌, ◌≡◌, ◌≢◌, refl, ◌∙◌, Bool, true, false, some, List, [], ◌∷◌, ◌++◌, arith,
  append_assoc, length, length-append, All,
}
use ferrite.Common.Error.{Result, ok, err, ◌>>=◌}
use ferrite.Storage.Codec.Reader.{Bytes}
use ferrite.Storage.Codec.Reader.Parses.{concat}
use ferrite.Storage.Codec.Writer.{to_le}
use ferrite.Storage.Journal.{
  Record, frame, payload, Next, end_of_file, torn, next_record, read_exact_or_eof, after_header,
  replay_loop, replay,
}
use ferrite.Storage.Crc.{crc32c}
use ferrite.Storage.Journal.Frame.{header, next_record-damaged, IsRecord, next_record-frame}

-- The bytes of a journal that holds the records.
abbrev pub journal_bytes : List Record → Bytes
journal_bytes = concat (λ r. frame (payload r))

-- What stands behind the last whole record: nothing, or something that ends the replay.
abbrev pub ending : Bool → Next
ending true = torn
ending false = end_of_file

length-frame-pos : (p : Bytes) → 8 ≤ length (frame p)
unfolding frame to_le
length-frame-pos p = omega arith

length-records :
    (r : Record) (rs : List Record) (tail : Bytes)
    → length (journal_bytes rs ++ tail) + 8 ≤ length (journal_bytes (r ∷ rs) ++ tail)
length-records r rs tail = rw append_assoc (
    omega (
      arith,
      length-append (frame (payload r)) (journal_bytes rs ++ tail),
      length-frame-pos (payload r),
    ))

pub next_record-nil : next_record [] ≡ end_of_file
unfolding next_record read_exact_or_eof after_header
next_record-nil = refl

module _ {S : Type 0} (visit : S → Record → Result S) where
  -- The visits, one record after the other, up to the first error.
  pub visit_all : S → List Record → Result S
  visit_all s [] = ok s
  visit_all s (r ∷ rs) = elim (visit s r) [ ok s' ↦ visit_all s' rs | err e ↦ err e ]

  abbrev pub flagged : Bool → Result S → Result (S × Bool)
  flagged t m = m >>= λ s. ok (s, t)

  replay_loop-ending :
      (fuel : ℕ) (tail : Bytes) (t : Bool) (s : S)
      → next_record tail ≡ ending t
      → length tail ≤ fuel
      → replay_loop visit fuel tail s ≡ ok (s, t)
  unfolding replay_loop
  replay_loop-ending zero [] true s e h = cc (next_record-nil, e)
  replay_loop-ending zero [] false s e h = refl
  replay_loop-ending zero (b ∷ bs) t s e h = absurd (omega arith)
  replay_loop-ending (suc fuel) tail true s e h = rw (e, replay_loop)
  replay_loop-ending (suc fuel) tail false s e h = rw (e, replay_loop)

  replay_loop-step :
      (fuel : ℕ) (r : Record) (rest : Bytes) (s : S)
      → IsRecord r
      → replay_loop visit (suc fuel) (frame (payload r) ++ rest) s
        ≡ elim (visit s r) [ ok s' ↦ replay_loop visit fuel rest s' | err e ↦ err e ]
  unfolding replay_loop
  replay_loop-step fuel r rest s h = rw (next_record-frame r rest h, replay_loop)

  continue_all :
      (fuel : ℕ) (rest : Bytes) (rs : List Record) (t : Bool) (m : Result S)
      → ((s' : S) → replay_loop visit fuel rest s' ≡ flagged t (visit_all s' rs))
      → elim m as (λ _. Result (S × Bool)) [
        | ok s' ↦ replay_loop visit fuel rest s'
        | err e ↦ err e
      ]
        ≡ flagged t (elim m [ ok s' ↦ visit_all s' rs | err e ↦ err e ])
  continue_all fuel rest rs t (ok s') ih = ih s'
  continue_all fuel rest rs t (err e) ih = refl

  replay_loop-records :
      (rs : List Record) (fuel : ℕ) (tail : Bytes) (t : Bool) (s : S)
      → All IsRecord rs
      → next_record tail ≡ ending t
      → length (journal_bytes rs ++ tail) ≤ fuel
      → replay_loop visit fuel (journal_bytes rs ++ tail) s ≡ flagged t (visit_all s rs)
  unfolding visit_all
  replay_loop-records [] fuel tail t s h e enough = replay_loop-ending fuel tail t s e enough
  replay_loop-records (r ∷ rs) zero tail t s h e enough =
      absurd (omega (arith, enough, length-records r rs tail))
  replay_loop-records (r ∷ rs) (suc fuel) tail t s (hr, hrs) e enough =
      rw (append_assoc (frame (payload r)) (journal_bytes rs) tail) (
        replay_loop-step fuel r (journal_bytes rs ++ tail) s hr
        ∙ continue_all fuel (journal_bytes rs ++ tail) rs t (visit s r) (λ s'.
          replay_loop-records rs fuel tail t s' hrs e
            (omega (arith, enough, length-records r rs tail))))

  -- On whole records and any ending, the replay visits the records in order, and reports a tear
  -- exactly where the ending is one.
  pub replay-records :
      (rs : List Record) (tail : Bytes) (t : Bool) (s : S)
      → All IsRecord rs
      → next_record tail ≡ ending t
      → replay visit (some (journal_bytes rs ++ tail)) s ≡ flagged t (visit_all s rs)
  unfolding replay
  replay-records rs tail t s h e = replay_loop-records rs _ tail t s h e (omega arith)

  -- Behind valid records, a payload whose checksum does not match ends the replay with a tear
  -- reported: the records before it are visited, in order, and what stands behind it never is.
  pub replay-damaged :
      (rs : List Record) (r : Record) (q rest : Bytes) (s : S)
      → All IsRecord rs
      → IsRecord r
      → length q ≡ length (payload r)
      → crc32c q ≢ crc32c (payload r)
      → replay visit
          (some
            (journal_bytes rs ++ (header (length (payload r)) (crc32c (payload r)) ++ (q ++ rest))))
          s
        ≡ flagged true (visit_all s rs)
  replay-damaged rs r q rest s h hr same differs =
      replay-records rs _ true s h (next_record-damaged r q rest hr same differs)
