-- ===== src/Telemetry/Outbox.antt =====
-- `Outbox` of frontend/src/telemetry/outbox.rs: a FIFO that discards its oldest entry when full.
use v_note.Base.{
  ℕ_discrete, ℕ, zero, dec_lt, suc, ◌+◌, ◌-◌, ◌≤◌, ◌≡◌, refl, List, [], ◌∷◌, ◌++◌, arith, length,
  length-append, take, drop, length-drop, drop_append, min, if◌then◌else◌, ltb, ◌==◌, append-nil,
  append_assoc, drop-drop, take-append-drop, ap, sym, ◌∙◌,
}

pub record Outbox {ℓ} (T : Type ℓ) : Type ℓ where
  pub items : List T
  pub capacity : ℕ
  pub dropped : ℕ

module _ {ℓ} {T : Type ℓ} where
  unfoldable pub new : ℕ → Outbox T
  new capacity = record { items = []; capacity = capacity; dropped = 0 }

  unfoldable pub push : T → Outbox T → Outbox T
  push item o =
      if o.capacity == 0
      then record o { dropped = o.dropped + 1 }
      else if length o.items == o.capacity
      then record o { items = drop 1 o.items ++ item ∷ []; dropped = o.dropped + 1 }
      else record o { items = o.items ++ item ∷ [] }

  -- `while self.items.len() > capacity { pop_front(); dropped += 1 }`.
  unfoldable pub trim : ℕ → List T → ℕ → List T × ℕ
  trim capacity [] dropped = ([], dropped)
  trim capacity (x ∷ xs) dropped =
      let rest = trim capacity xs (dropped + 1) in
      if ltb capacity (length (x ∷ xs)) then rest else (x ∷ xs, dropped)

  unfoldable pub set_capacity : ℕ → Outbox T → Outbox T
  unfolding trim
  set_capacity capacity o =
      let (items, dropped) = trim capacity o.items o.dropped in
      record { items = items; capacity = capacity; dropped = dropped }

  unfoldable pub take_batch : ℕ → Outbox T → Outbox T × List T
  take_batch max o =
      let count = min max (length o.items) in
      (record o { items = drop count o.items }, take count o.items)

  unfoldable pub clear : Outbox T → Outbox T
  clear o = record o { items = [] }

  unfoldable pub push_all : List T → Outbox T → Outbox T
  push_all [] o = o
  push_all (x ∷ xs) o = push_all xs (push x o)

  nil_of_length : (xs : List T) → length xs ≤ 0 → xs ≡ []
  nil_of_length [] h = refl
  nil_of_length (x ∷ xs) h = absurd (omega arith)

  -- Pushing keeps the newest entries that fit.
  items-push :
      (item : T) (o : Outbox T)
      → length o.items ≤ o.capacity
      → (push item o).items ≡ drop (suc (length o.items) - o.capacity) (o.items ++ item ∷ [])
  unfolding push
  items-push item o h = elim (ℕ_discrete o.capacity 0) [
    | yes e ↦ rw (nil_of_length o.items (omega arith)) (ground arith)
    | no ne ↦ elim (ℕ_discrete (length o.items) o.capacity) [
      | yes full ↦ ground (
        arith,
        drop_append 1 o.items (item ∷ []),
        ap (λ (n : ℕ). drop n (o.items ++ item ∷ []))
            (let one : suc (length o.items) - o.capacity ≡ 1 = omega arith in one),
      )
      | no room ↦ ground (
        arith,
        ap (λ (n : ℕ). drop n (o.items ++ item ∷ []))
            (let none : suc (length o.items) - o.capacity ≡ 0 = omega arith in none),
      )
    ]
  ]

  dropped-push :
      (item : T) (o : Outbox T)
      → length o.items ≤ o.capacity
      → ((push item o).dropped ≡ o.dropped + (suc (length o.items) - o.capacity))
        × ((push item o).capacity ≡ o.capacity)
  unfolding push
  dropped-push item o h = ground arith

  length-push :
      (item : T) (o : Outbox T)
      → length o.items ≤ o.capacity
      → length (push item o).items ≡ min (suc (length o.items)) o.capacity
  length-push item o h = omega (
    arith,
    ap length (items-push item o h),
    length-drop (suc (length o.items) - o.capacity) (o.items ++ item ∷ []),
    length-append o.items (item ∷ []),
  )

  drop-drop_append :
      (k m : ℕ) (ys : List T) (x : T) (xs : List T)
      → k ≤ length (ys ++ x ∷ [])
      → drop m (drop k (ys ++ x ∷ []) ++ xs) ≡ drop (k + m) (ys ++ x ∷ xs)
  drop-drop_append k m ys x xs h =
      ap (drop m) (sym (drop_append k (ys ++ x ∷ []) xs h))
      ∙ (drop-drop m k ((ys ++ x ∷ []) ++ xs) ∙ ap (drop (k + m)) (append_assoc ys (x ∷ []) xs))

  -- However many entries are pushed onto an outbox that is not over its capacity, it keeps the
  -- newest that fit, in order, and counts every other as dropped.
  pub push_all_lem :
      (xs : List T) (o : Outbox T)
      → length o.items ≤ o.capacity
      → ((push_all xs o).items ≡ drop (length o.items + length xs - o.capacity) (o.items ++ xs))
        × ((push_all xs o).dropped ≡ o.dropped + (length o.items + length xs - o.capacity))
  unfolding push_all
  push_all_lem [] o h = (
    ground (
      arith,
      append-nil o.items,
      ap (λ (n : ℕ). drop n (o.items ++ []))
          (let none : length o.items + 0 - o.capacity ≡ 0 = omega arith in none),
    ),
    omega arith,
  )
  push_all_lem (x ∷ xs) o h =
      let k = suc (length o.items) - o.capacity in
      let len = length-push x o h in
      let counts = dropped-push x o h in
      let (items, dropped) = push_all_lem xs (push x o) (omega (arith, len, counts.1)) in
      let m = length (push x o).items + length xs - (push x o).capacity in
      let n : k + m ≡ length o.items + suc (length xs) - o.capacity =
        omega (arith, len, counts.1) in
      let k_le : k ≤ length (o.items ++ x ∷ []) = omega (arith, length-append o.items (x ∷ [])) in
      (
        items
            ∙ (ap (λ (ys : List T). drop m (ys ++ xs)) (items-push x o h)
                ∙ (drop-drop_append k m o.items x xs k_le
                    ∙ ap (λ (j : ℕ). drop j (o.items ++ x ∷ xs)) n)),
        omega (arith, dropped, len, counts.0, counts.1),
      )

  trim_lem :
      (capacity : ℕ) (xs : List T) (dropped : ℕ)
      → trim capacity xs dropped
        ≡ (drop (length xs - capacity) xs, dropped + (length xs - capacity))
  unfolding trim
  trim_lem capacity [] dropped = ground arith
  trim_lem capacity (x ∷ xs) dropped = elim (dec_lt capacity (suc (length xs))) [
    | yes over ↦
        let more : suc (length xs) - capacity ≡ suc (length xs - capacity) = omega arith in
        ground
          (arith, trim_lem capacity xs (dropped + 1), ap (λ (n : ℕ). drop n (x ∷ xs)) more, more)
    | no fits ↦
        let none : suc (length xs) - capacity ≡ 0 = omega arith in
        ground (arith, ap (λ (n : ℕ). drop n (x ∷ xs)) none)
  ]

  -- Setting a capacity drops the oldest entries beyond it, counts each of them, and keeps the
  -- others in order.
  pub set_capacity_lem :
      (capacity : ℕ) (o : Outbox T)
      → ((set_capacity capacity o).items ≡ drop (length o.items - capacity) o.items)
        × (((set_capacity capacity o).dropped ≡ o.dropped + (length o.items - capacity))
            × ((set_capacity capacity o).capacity ≡ capacity))
  unfolding set_capacity
  set_capacity_lem capacity o =
      let e = trim_lem capacity o.items o.dropped in (ap (λ r. r.0) e, (ap (λ r. r.1) e, refl))

  length-take : (n : ℕ) (xs : List T) → n ≤ length xs → length (take n xs) ≡ n
  length-take zero xs h = refl
  length-take (suc n) [] h = absurd (omega arith)
  length-take (suc n) (x ∷ xs) h = omega (arith, length-take n xs (omega arith))

  -- A batch is the oldest entries in order, no more than asked for, and the outbox keeps the rest.
  pub take_batch_lem :
      (max : ℕ) (o : Outbox T)
      → ((take_batch max o).1 ++ (take_batch max o).0.items ≡ o.items)
        × (length (take_batch max o).1 ≡ min max (length o.items))
  unfolding take_batch
  take_batch_lem max o = (
    take-append-drop (min max (length o.items)) o.items,
    length-take (min max (length o.items)) o.items (omega arith),
  )
