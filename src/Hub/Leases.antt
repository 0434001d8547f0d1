-- ===== src/Hub/Leases.antt =====
-- The single-editor edit lease of crates/server/src/realtime/hub.rs.
use v_note.Base.{
  ℕ, ◌+◌, ◌<◌, ◌≡◌, ◌≢◌, ◌⊎◌, inl, inr, ◌∙◌, String, List, [], ◌∷◌, Option, none, some, true, false,
  arith, All, Option-cases, str_dec,
}
use v_note.Hub.{
  RealtimeHub, Lease, granted, denied, acquire_lease, release_lease, current_lease_holder,
  live_lease, seconds, lease_ttl_seconds,
}

abbrev pub lease_until : String → ℕ → Lease
lease_until session_id time = record { holder = session_id; expires_at = time }

-- No other session has a lease on the page that has not run out.
abbrev pub MayEdit : ℕ → String → Option Lease → Type 0
MayEdit now session_id lease =
    (live_lease now lease ≡ none)
    ⊎ ((l : Lease) × (live_lease now lease ≡ some l) × (l.holder ≡ session_id))

module _ {F : Type 0} (now : ℕ) (page_id session_id : String) (hub : RealtimeHub F) where
  -- Where no other session has a live lease, `acquire_lease` grants one for 30 seconds from now,
  -- and leaves the leases of the other pages as they were.
  pub acquire_lease-granted :
      MayEdit now session_id (hub.leases page_id)
      → let (hub', outcome) = acquire_lease now page_id session_id hub in
        (outcome ≡ granted)
        × (hub'.leases page_id ≡ some (lease_until session_id (now + seconds lease_ttl_seconds)))
        × ((other : String) → page_id ≢ other → hub'.leases other ≡ hub.leases other)
  unfolding acquire_lease
  acquire_lease-granted (inl h) = (ground arith, ground arith, λ other ne. ground arith)
  acquire_lease-granted (inr (l, h, e)) = (ground arith, ground arith, λ other ne. ground arith)

  leases-acquire_lease-ne :
      (other : String)
      → page_id ≢ other
      → (acquire_lease now page_id session_id hub).0.leases other ≡ hub.leases other
  unfolding acquire_lease
  leases-acquire_lease-ne other ne = elim (Option-cases (hub.leases page_id)) [
    | inl e ↦ ground arith
    | inr (l, e) ↦ ground arith
  ]

  -- Where another session has one, it is named and nothing changes.
  pub acquire_lease-denied :
      (l : Lease)
      → live_lease now (hub.leases page_id) ≡ some l
      → l.holder ≢ session_id
      → acquire_lease now page_id session_id hub ≡ (hub, denied l.holder)
  unfolding acquire_lease
  acquire_lease-denied l h e = ground arith

  -- What `current_lease_holder` reports is the session that every other session is denied by.
  pub current_lease_holder_lem :
      (holder : String)
      → (current_lease_holder now page_id hub).1 ≡ some holder
      → holder ≢ session_id
      → acquire_lease now page_id session_id hub ≡ (hub, denied holder)
  unfolding acquire_lease current_lease_holder
  current_lease_holder_lem holder h e = ground arith

module _ {F : Type 0} (page_id session_id : String) (hub : RealtimeHub F) where
  -- The holder's release frees the page at once; a release by any other session changes nothing.
  pub release_lease_lem :
      (l : Lease)
      → hub.leases page_id ≡ some l
      → ((l.holder ≡ session_id)
          × ((release_lease page_id session_id hub).1 ≡ true)
          × ((release_lease page_id session_id hub).0.leases page_id ≡ none))
        ⊎ ((l.holder ≢ session_id) × (release_lease page_id session_id hub ≡ (hub, false)))
  unfolding release_lease
  release_lease_lem l h = ground arith

-- The calls that touch leases, in the order in which they take the lease mutex.
pub data LeaseCall : Type 0 where
  acquires : String → String → LeaseCall
  releases : String → String → LeaseCall
  reads : String → LeaseCall

-- The call comes before `time` and is by another session than `session_id`.
abbrev pub ByOther : String → ℕ → ℕ × LeaseCall → Type 0
ByOther session_id time (now, acquires _ s) = (now < time) × (s ≢ session_id)
ByOther session_id time (now, releases _ s) = (now < time) × (s ≢ session_id)
ByOther session_id time (now, reads _) = (now < time) × Unit {0}

module _ {F : Type 0} where
  unfoldable pub step : RealtimeHub F → ℕ × LeaseCall → RealtimeHub F
  step hub (now, acquires page_id session_id) = (acquire_lease now page_id session_id hub).0
  step hub (now, releases page_id session_id) = (release_lease page_id session_id hub).0
  step hub (now, reads page_id) = (current_lease_holder now page_id hub).0

  unfoldable pub run : RealtimeHub F → List (ℕ × LeaseCall) → RealtimeHub F
  run hub [] = hub
  run hub (call ∷ calls) = run (step hub call) calls

  step-keeps :
      (page_id session_id : String) (time : ℕ) (hub : RealtimeHub F) (call : ℕ × LeaseCall)
      → ByOther session_id time call
      → hub.leases page_id ≡ some (lease_until session_id time)
      → (step hub call).leases page_id ≡ some (lease_until session_id time)
  unfolding step release_lease current_lease_holder
  step-keeps page_id session_id time hub (now, acquires p s) h e = elim (str_dec p page_id) [
    | yes same ↦ ground (arith, acquire_lease-denied now p s hub (lease_until session_id time))
    | no other ↦ leases-acquire_lease-ne now p s hub page_id other ∙ e
  ]
  step-keeps page_id session_id time hub (now, releases p s) h e = ground arith
  step-keeps page_id session_id time hub (now, reads p) h e = ground arith

  run-keeps :
      (page_id session_id : String) (time : ℕ) (hub : RealtimeHub F) (calls : List (ℕ × LeaseCall))
      → All (ByOther session_id time) calls
      → hub.leases page_id ≡ some (lease_until session_id time)
      → (run hub calls).leases page_id ≡ some (lease_until session_id time)
  unfolding run
  run-keeps page_id session_id time hub [] h e = e
  run-keeps page_id session_id time hub (call ∷ calls) h e =
      run-keeps page_id session_id time (step hub call) calls h.1
        (step-keeps page_id session_id time hub call h.0 e)

  -- Single active editor: once a lease is granted at `now`, and whatever calls other sessions make
  -- on any page before it runs out, another session that asks for the page before then is denied,
  -- with the holder's name.
  pub acquire_lease-exclusive :
      (page_id session_id other : String) (now later : ℕ) (hub : RealtimeHub F)
      (calls : List (ℕ × LeaseCall))
      → MayEdit now session_id (hub.leases page_id)
      → All (ByOther session_id (now + seconds lease_ttl_seconds)) calls
      → later < now + seconds lease_ttl_seconds
      → session_id ≢ other
      → let hub' = (acquire_lease now page_id session_id hub).0 in
        (acquire_lease later page_id other (run hub' calls)).1 ≡ denied session_id
  acquire_lease-exclusive page_id session_id other now later hub calls free quiet early ne =
      let time = now + seconds lease_ttl_seconds in
      let hub' = (acquire_lease now page_id session_id hub).0 in
      let held =
        run-keeps page_id session_id time hub' calls quiet
          (acquire_lease-granted now page_id session_id hub free).1 in
      λ i.
        (acquire_lease-denied later page_id other (run hub' calls) (lease_until session_id time)
          (ground (arith, held)) ne i).1
