-- ===== src/Store/Resumes.antt =====
-- `load_page_replay` of crates/server/src/realtime/store.rs returns what a client that stopped at a
-- serial has missed.
use v_note.Base.{
  ℕ, ◌<◌, ◌^◌, ◌≡◌, refl, Bool, true, ◌&&◌, String, same, List, [], ◌∷◌, ◌++◌, map, map-append,
  arith, retain, retain-retain, All, All-map, All-retain, leb, ltb, ◌∙◌, ap, sym, Bool-cases, inl,
  inr, dec_le,
}
use v_note.Base.Sort.{sort, IsSorted, sort_of_IsSorted}
use v_note.Store.Tables.{Db, Postgres, StrokeBatchRow, batches_of, after_seq}
use v_note.Store.Replay.{load_page_replay, load_batches_after, to_stroke_batch, seq_le}
use v_note.Store.Sound.{IsSound}

module _ {F : Type 0} where
  seq_le_of_lt :
      (rows : List (StrokeBatchRow F))
      → IsSorted (λ a b. ltb a.seq b.seq) rows
      → IsSorted seq_le rows
  seq_le_of_lt [] h = tt
  seq_le_of_lt (r ∷ rows) h = (All-map _ _ rows (λ q lt. ground arith) h.0, seq_le_of_lt rows h.1)

  IsSorted-retain :
      (p : StrokeBatchRow F → Bool) (rows : List (StrokeBatchRow F))
      → IsSorted seq_le rows
      → IsSorted seq_le (retain p rows)
  IsSorted-retain p [] h = tt
  IsSorted-retain p (r ∷ rows) h = elim (Bool-cases (p r)) [
    | inl e ↦ rw e (All-retain _ p rows h.0, IsSorted-retain p rows h.1)
    | inr e ↦ rw e (IsSorted-retain p rows h.1)
  ]

  retain-above :
      (k : ℕ) (r : StrokeBatchRow F) (rows : List (StrokeBatchRow F))
      → k < r.seq
      → k < 2 ^ 63
      → All (λ b. seq_le r b ≡ true) rows
      → (retain (λ b. leb b.seq k) rows ≡ []) × (retain (λ b. after_seq k b.seq) rows ≡ rows)
  retain-above k r [] lt small h = (refl, refl)
  retain-above k r (b ∷ rows) lt small h =
      let (none_below, all_above) = retain-above k r rows lt small h.1 in
      (ground arith, ground arith)

  retain-split :
      (k : ℕ) (rows : List (StrokeBatchRow F))
      → k < 2 ^ 63
      → IsSorted seq_le rows
      → retain (λ b. leb b.seq k) rows ++ retain (λ b. after_seq k b.seq) rows ≡ rows
  retain-split k [] small h = refl
  retain-split k (r ∷ rows) small h = elim (dec_le r.seq k) [
    | yes le ↦ ground (arith, retain-split k rows small h.1)
    | no gt ↦
        let (none_below, all_above) = retain-above k r rows (omega arith) small h.0 in
        ground (arith, none_below, all_above)
  ]

  -- On a sound page, the batches up to a serial and those that `load_page_replay` returns from it
  -- are, one after the other, all the batches of the page in the order of their serials: a client
  -- that has the first misses exactly the second.
  pub load_page_replay-gap :
      (pg : Postgres) (page_id : String) (revision from_seq : ℕ) (db : Db F)
      → IsSound page_id revision db
      → from_seq < 2 ^ 63
      → map to_stroke_batch
            (retain (λ b. leb b.seq from_seq) (batches_of page_id db.stroke_batches))
          ++ (load_page_replay pg page_id from_seq db).0
        ≡ map to_stroke_batch (batches_of page_id db.stroke_batches)
  unfolding load_page_replay load_batches_after
  load_page_replay-gap pg page_id revision from_seq db sound small =
      let rows = batches_of page_id db.stroke_batches in
      let sorted = seq_le_of_lt rows sound.serials in
      let late = retain (λ b. after_seq from_seq b.seq) rows in
      let same_rows : retain (λ r. same r.page_id page_id && after_seq from_seq r.seq)
            db.stroke_batches
          ≡ late =
        sym (retain-retain _ _ db.stroke_batches) in
      let loaded : sort seq_le
            (retain (λ r. same r.page_id page_id && after_seq from_seq r.seq) db.stroke_batches)
          ≡ late =
        ap (sort seq_le) same_rows ∙ sort_of_IsSorted seq_le late (IsSorted-retain _ rows sorted) in
      ap
        (λ rest.
          map to_stroke_batch (retain (λ b. leb b.seq from_seq) rows) ++ map to_stroke_batch rest)
        loaded
      ∙ (sym (map-append to_stroke_batch (retain (λ b. leb b.seq from_seq) rows) late)
          ∙ ap (map to_stroke_batch) (retain-split from_seq rows small sorted))
