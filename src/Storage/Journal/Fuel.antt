-- ===== src/Storage/Journal/Fuel.antt =====
-- The replay loop of ferrite-storage/src/wal.rs ends on every file, well formed or not.
use ferrite.Prelude.{
  sym, false, ℕ, zero, suc, ◌+◌, ◌≤◌, ◌<◌, ◌≡◌, refl, ◌∙◌, Bool, some, none, [], ◌∷◌, arith, length,
  length-drop, take, drop, Option,
}
use ferrite.Common.Error.{Result, ok, err}
use ferrite.Storage.Codec.Reader.{Bytes, from_le}
use ferrite.Storage.Journal.{
  Record, Next, end_of_file, torn, failed, found, next_record, read_exact_or_eof, after_header,
  after_payload, classify, replay_loop, replay, decode,
}
use ferrite.Storage.Journal.Replay.{next_record-nil}

read_exact-shorter :
    (n : ℕ) (src w rest : Bytes)
    → read_exact_or_eof n src ≡ some (w, rest)
    → length rest + n ≡ length src
unfolding read_exact_or_eof
read_exact-shorter n src w rest e = ground (arith, length-drop n src)

classify-found :
    (m : Result (Option Record)) (left : Bytes) (r : Record) (rest : Bytes)
    → classify m left ≡ found r rest
    → left ≡ rest
unfolding classify
classify-found (ok none) left r rest e = cc
classify-found (ok (some x)) left r rest e = cc
classify-found (err y) left r rest e = cc

payload-shorter :
    (crc n : ℕ) (src : Bytes) (o : Option (Bytes × Bytes)) (r : Record) (rest : Bytes)
    → read_exact_or_eof n src ≡ o
    → after_payload crc o ≡ found r rest
    → length rest ≤ length src
unfolding after_payload
payload-shorter crc n src none r rest e h = cc
payload-shorter crc n src (some (p, left)) r rest e h =
    ground (arith, read_exact-shorter n src p left e, classify-found (decode p) left r rest)

header-shorter :
    (src : Bytes) (o : Option (Bytes × Bytes)) (r : Record) (rest : Bytes)
    → read_exact_or_eof 8 src ≡ o
    → after_header o ≡ found r rest
    → length rest < length src
unfolding after_header
header-shorter src none r rest e h = cc
header-shorter src (some (w, left)) r rest e h =
    let len = from_le (take 4 w) in
    ground (
      arith,
      read_exact-shorter 8 src w left e,
      payload-shorter (from_le (drop 4 w)) len left (read_exact_or_eof len left) r rest refl,
    )

-- A record takes more than its header.
found-shorter :
    (src : Bytes) (r : Record) (rest : Bytes)
    → next_record src ≡ found r rest
    → length rest < length src
unfolding next_record
found-shorter src r rest e = header-shorter src (read_exact_or_eof 8 src) r rest refl e

module _ {S : Type 0} (visit : S → Record → Result S) where
  agree_after :
      (f g : ℕ) (rest : Bytes) (m : Result S)
      → ((s' : S) → replay_loop visit f rest s' ≡ replay_loop visit g rest s')
      → elim m as (λ _. Result (S × Bool)) [ ok s' ↦ replay_loop visit f rest s' | err e ↦ err e ]
        ≡ elim m [ ok s' ↦ replay_loop visit g rest s' | err e ↦ err e ]
  agree_after f g rest (ok s') h = h s'
  agree_after f g rest (err e) h = refl

  agree_round :
      (f g : ℕ) (src : Bytes) (s : S) (x : Next)
      → next_record src ≡ x
      → ((r : Record) (rest : Bytes) (s' : S)
          → length rest < length src
          → replay_loop visit f rest s' ≡ replay_loop visit g rest s')
      → replay_loop visit (suc f) src s ≡ replay_loop visit (suc g) src s
  unfolding replay_loop
  agree_round f g src s end_of_file e h = rw (e, replay_loop)
  agree_round f g src s torn e h = rw (e, replay_loop)
  agree_round f g src s (failed y) e h = rw (e, replay_loop)
  agree_round f g src s (found r rest) e h =
      rw (e, replay_loop)
        (agree_after f g rest (visit s r) (λ s'. h r rest s' (found-shorter src r rest e)))

  replay_loop-nil : (f : ℕ) (s : S) → replay_loop visit f [] s ≡ ok (s, false)
  unfolding replay_loop
  replay_loop-nil zero s = refl
  replay_loop-nil (suc f) s = rw (next_record-nil, replay_loop)

  replay_loop-agree :
      (f g : ℕ) (src : Bytes) (s : S)
      → length src ≤ f
      → length src ≤ g
      → replay_loop visit f src s ≡ replay_loop visit g src s
  replay_loop-agree zero zero src s hf hg = refl
  replay_loop-agree zero (suc g) [] s hf hg =
      replay_loop-nil zero s ∙ sym (replay_loop-nil (suc g) s)
  replay_loop-agree (suc f) zero [] s hf hg =
      replay_loop-nil (suc f) s ∙ sym (replay_loop-nil zero s)
  replay_loop-agree zero (suc g) (b ∷ bs) s hf hg = absurd (omega arith)
  replay_loop-agree (suc f) zero (b ∷ bs) s hf hg = absurd (omega arith)
  replay_loop-agree (suc f) (suc g) src s hf hg =
      agree_round f g src s (next_record src) refl
        (λ r rest s' lt. replay_loop-agree f g rest s' (omega arith) (omega arith))

  -- On any file whatever and for any callback, more rounds than replay takes give the same result:
  -- the loop ends by its own tests.
  pub replay_fuel :
      (src : Bytes) (more : ℕ) (s : S)
      → replay_loop visit (length src + more) src s ≡ replay visit (some src) s
  unfolding replay
  replay_fuel src more s =
      replay_loop-agree (length src + more) (length src) src s (omega arith) (omega arith)
