-- ===== src/Storage/Journal/Crash.antt =====
-- A crash leaves any number of the bytes written to the journal of ferrite-storage/src/wal.rs.
use native.Mathlib.Decide.{dec_le}
use ferrite.Prelude.{
  ℕ, zero, suc, ◌-◌, ◌≤◌, ◌<◌, ◌≡◌, refl, ap, sym, ◌∙◌, Bool, false, some, List, [], ◌∷◌, ◌++◌,
  arith, append_assoc, length, length-append, length-take, take, drop, take-append-drop,
  take-append_le, All, leb, if◌then◌else◌, Bool-cases, inl, inr,
}
use ferrite.Common.Error.{Result}
use ferrite.Storage.Codec.Reader.{Bytes}
use ferrite.Storage.Journal.{Record, frame, payload, next_record, replay}
use ferrite.Storage.Journal.Frame.{IsRecord, next_record-cut}
use ferrite.Storage.Journal.Replay.{
  journal_bytes, ending, next_record-nil, visit_all, flagged, replay-records,
}

-- The bytes of one record in the journal.
abbrev pub size : Record → ℕ
size r = length (frame (payload r))

-- The records that lie whole within the first `n` bytes.
pub survivors : ℕ → List Record → List Record
survivors n [] = []
survivors n (r ∷ rs) =
    let rest = survivors (n - size r) rs in if leb (size r) n then r ∷ rest else []

-- Whether the cut at `n` bytes leaves a whole header of the next record.
pub torn_at : ℕ → List Record → Bool
torn_at n [] = false
torn_at n (r ∷ rs) = let rest = torn_at (n - size r) rs in if leb (size r) n then rest else leb 8 n

take-append_ge :
    (n : ℕ) (xs ys : Bytes) → length xs ≤ n → take n (xs ++ ys) ≡ xs ++ take (n - length xs) ys
take-append_ge n [] ys h = let e : n ≡ n - 0 = omega arith in ap (λ k. take k ys) e
take-append_ge zero (x ∷ xs) ys h = absurd (omega arith)
take-append_ge (suc n) (x ∷ xs) ys h =
    ap (λ l. x ∷ l)
      (take-append_ge n xs ys (omega arith)
        ∙ ap (λ k. xs ++ take k ys)
            (let e : n - length xs ≡ suc n - suc (length xs) = omega arith in e))

-- A list that is longer than `n` has an element behind its first `n`.
drop-cons : (n : ℕ) (xs : Bytes) → n < length xs → (x : ℕ) × (back : Bytes) × (drop n xs ≡ x ∷ back)
drop-cons n [] h = absurd (omega arith)
drop-cons zero (x ∷ xs) h = (x, xs, refl)
drop-cons (suc n) (x ∷ xs) h = drop-cons n xs (omega arith)

cut_frame :
    (n : ℕ) (r : Record)
    → IsRecord r
    → n < size r
    → next_record (take n (frame (payload r))) ≡ ending (leb 8 n)
cut_frame n r h short =
    let (x, back, e) = drop-cons n (frame (payload r)) short in
    next_record-cut r (take n (frame (payload r))) back x h
      (sym (take-append-drop n (frame (payload r))) ∙ ap (λ l. take n (frame (payload r)) ++ l) e)
    ∙ rw (length-take n (frame (payload r)) (omega arith)) (ground arith)

survivors-keep :
    (n : ℕ) (r : Record) (rs : List Record)
    → size r ≤ n
    → (survivors n (r ∷ rs) ≡ r ∷ survivors (n - size r) rs)
      × (torn_at n (r ∷ rs) ≡ torn_at (n - size r) rs)
unfolding survivors torn_at
survivors-keep n r rs h = (ground arith, ground arith)

survivors-cut :
    (n : ℕ) (r : Record) (rs : List Record)
    → n < size r
    → (survivors n (r ∷ rs) ≡ []) × (torn_at n (r ∷ rs) ≡ leb 8 n)
unfolding survivors torn_at
survivors-cut n r rs h = (ground arith, ground arith)

pub survivors-All : (n : ℕ) (rs : List Record) → All IsRecord rs → All IsRecord (survivors n rs)
unfolding survivors
survivors-All n [] h = h
survivors-All n (r ∷ rs) (hr, hrs) = elim (Bool-cases (leb (size r) n)) [
  | inl e ↦ rw e (hr, survivors-All (n - size r) rs hrs)
  | inr e ↦ rw e tt
]

-- A cut journal is its whole records and an ending that the replay stops at.
record Cut (n : ℕ) (rs : List Record) : Type 0 where
  tail : Bytes
  split : take n (journal_bytes rs) ≡ journal_bytes (survivors n rs) ++ tail
  ends : next_record tail ≡ ending (torn_at n rs)

Cut-nil : (n : ℕ) → Cut n []
unfolding survivors torn_at
Cut-nil zero = record { tail = []; split = refl; ends = next_record-nil }
Cut-nil (suc n) = record { tail = []; split = refl; ends = next_record-nil }

Cut-keep :
    (n : ℕ) (r : Record) (rs : List Record) → size r ≤ n → Cut (n - size r) rs → Cut n (r ∷ rs)
Cut-keep n r rs h c =
    let (kept, same) = survivors-keep n r rs h in
    record {
      tail = c.tail;
      split =
          take-append_ge n (frame (payload r)) (journal_bytes rs) h
          ∙ ap (λ l. frame (payload r) ++ l) c.split
          ∙ sym
              (append_assoc (frame (payload r)) (journal_bytes (survivors (n - size r) rs)) c.tail)
          ∙ ap (λ l. journal_bytes l ++ c.tail) (sym kept);
      ends = c.ends ∙ ap ending (sym same);
    }

Cut-short : (n : ℕ) (r : Record) (rs : List Record) → IsRecord r → n < size r → Cut n (r ∷ rs)
Cut-short n r rs hr h =
    let (none_kept, same) = survivors-cut n r rs h in
    record {
      tail = take n (frame (payload r));
      split =
          take-append_le n (frame (payload r)) (journal_bytes rs) (omega arith)
          ∙ ap (λ l. journal_bytes l ++ take n (frame (payload r))) (sym none_kept);
      ends = cut_frame n r hr h ∙ ap ending (sym same);
    }

Cut-journal : (n : ℕ) (rs : List Record) → All IsRecord rs → Cut n rs
Cut-journal n [] h = Cut-nil n
Cut-journal n (r ∷ rs) (hr, hrs) = elim (dec_le (size r) n) [
  | yes h ↦ Cut-keep n r rs h (Cut-journal (n - size r) rs hrs)
  | no h ↦ Cut-short n r rs hr (omega arith)
]

module _ {S : Type 0} (visit : S → Record → Result S) where
  -- For valid records, cut after any number of bytes, the journal replays the records that lie
  -- whole before the cut, in order. A tear is reported exactly if eight bytes or more stand behind
  -- them.
  pub replay-take :
      (n : ℕ) (rs : List Record) (s : S)
      → All IsRecord rs
      → replay visit (some (take n (journal_bytes rs))) s
        ≡ flagged visit (torn_at n rs) (visit_all visit s (survivors n rs))
  replay-take n rs s h =
      let c = Cut-journal n rs h in
      ap (λ l. replay visit (some l) s) c.split
      ∙ replay-records visit (survivors n rs) c.tail (torn_at n rs) s (survivors-All n rs h) c.ends

pub journal_bytes-append :
    (rs qs : List Record) → journal_bytes (rs ++ qs) ≡ journal_bytes rs ++ journal_bytes qs
journal_bytes-append [] qs = refl
journal_bytes-append (r ∷ rs) qs =
    ap (λ l. frame (payload r) ++ l) (journal_bytes-append rs qs)
    ∙ sym (append_assoc (frame (payload r)) (journal_bytes rs) (journal_bytes qs))

-- What lies before the cut survives.
pub survivors-append :
    (n : ℕ) (rs qs : List Record)
    → length (journal_bytes rs) ≤ n
    → survivors n (rs ++ qs) ≡ rs ++ survivors (n - length (journal_bytes rs)) qs
survivors-append n [] qs h = ap (λ k. survivors k qs) (let e : n ≡ n - 0 = omega arith in e)
survivors-append n (r ∷ rs) qs h =
    let whole = length-append (frame (payload r)) (journal_bytes rs) in
    (survivors-keep n r (rs ++ qs) (omega (arith, whole))).0
    ∙ ap (λ l. r ∷ l)
        (survivors-append (n - size r) rs qs (omega (arith, whole))
          ∙ ap (λ k. rs ++ survivors k qs)
              (let e : n - size r - length (journal_bytes rs)
                    ≡ n - length (journal_bytes (r ∷ rs)) =
                  omega (arith, whole) in
                e))
