-- ===== src/Index/IndexBuilder/Bounds.antt =====
-- What src/index/IndexBuilder.cpp builds: a snapshot with its positions in range.
use core_desk.Base.{
  ℕ, suc, ◌+◌, ◌<◌, ◌≡◌, refl, sym, ◌∙◌, subst, Bool-cases, Bool, inl, inr, List, [], ◌∷◌, length,
  length-append, All, arith,
}
use core_desk.Common.{Text, success, >>=-eq-success, success-injective}
use core_desk.Index.Snapshot.{FileRecord, IndexSnapshot}
use core_desk.Index.IndexBuilder.{
  ScanOutput, Building, add_record, add_records, make_postings, empty_building, snapshot_of, build,
}
use core_desk.Index.SearchEngine.Bounds.{IsIndexed}

-- The state of the loop at a position.
record IsAt (pos : ℕ) (b : Building) : Type 0 where
  records : length b.records ≡ pos
  names : length b.normalized_names ≡ pos
  positions : All (λ e. e.1 < pos) b.id_to_pos

below_next : (pos : ℕ) (es : List (ℕ × ℕ)) → All (λ e. e.1 < pos) es → All (λ e. e.1 < suc pos) es
below_next pos [] a = tt
below_next pos (e ∷ es) a = (omega (arith, a.0), below_next pos es a.1)

add_record-IsAt :
    (pos : ℕ) (r : FileRecord) (b : Building) → IsAt pos b → IsAt (suc pos) (add_record pos r b)
unfolding add_record
add_record-IsAt pos r b i = record {
  records = length-append b.records _ ∙ omega (arith, i.records);
  names = length-append b.normalized_names _ ∙ omega (arith, i.names);
  positions = (omega arith, below_next pos b.id_to_pos i.positions);
}

add_records-IsAt :
    (cancelled : ℕ → Bool) (pos : ℕ) (rs : List FileRecord) (b done : Building)
    → IsAt pos b
    → add_records cancelled pos rs b ≡ success done
    → IsAt (length rs + pos) done
unfolding add_records
add_records-IsAt cancelled pos [] b done i h =
    let same : b ≡ done = success-injective h in
    subst (λ n. IsAt n done) (omega arith) (subst (IsAt pos) same i)
add_records-IsAt cancelled pos (r ∷ rs) b done i h = elim (Bool-cases (cancelled (suc pos))) [
  | inl t ↦ absurd (let bad = rw (t, add_records) at h in cc)
  | inr f ↦
      let later : add_records cancelled (suc pos) rs (add_record pos r b) ≡ success done =
        rw (f, add_records) at h in
      subst (λ n. IsAt n done) (omega arith)
        (add_records-IsAt cancelled (suc pos) rs (add_record pos r b) done
          (add_record-IsAt pos r b i) later)
]

at_IsIndexed :
    (scan : ScanOutput) (generation : ℕ) (b : Building) (postings : List (Text × List ℕ)) {n : ℕ}
    → IsAt n b
    → IsIndexed (snapshot_of generation scan b postings)
at_IsIndexed scan generation b postings at = record {
  positions = subst (λ n. All (λ e. e.1 < n) b.id_to_pos) (sym at.records) at.positions;
  names = omega (arith, at.names, at.records);
}

-- A snapshot that was built has the generation that was asked for and a record for each scanned
-- one, and its positions are in range: the search reads no record that is not there.
pub build-IsIndexed :
    (generation : ℕ) (scan : ScanOutput) (cancelled : ℕ → Bool) (snapshot : IndexSnapshot)
    → build generation scan cancelled ≡ success snapshot
    → (snapshot.generation ≡ generation)
      × (length snapshot.records ≡ length scan.records)
      × IsIndexed snapshot
unfolding build
build-IsIndexed generation scan cancelled snapshot h = elim (Bool-cases (cancelled 0)) [
  | inl t ↦ absurd (let bad = rw (t, build) at h in cc)
  | inr f ↦
      let h' = rw (f, build) at h in
      let (b, added, h'') =
        >>=-eq-success (add_records cancelled 0 scan.records empty_building) _ h' in
      let (postings, made, h''') =
        >>=-eq-success (make_postings cancelled (suc (length scan.records)) b.token_sets) _ h'' in
      let at =
        add_records-IsAt cancelled 0 scan.records empty_building b
          (record { records = refl; names = refl; positions = tt }) added in
      subst
        (λ s. (s.generation ≡ generation) × (length s.records ≡ length scan.records) × IsIndexed s)
        (success-injective h''')
        (refl, at.records ∙ omega arith, at_IsIndexed scan generation b postings at)
]
