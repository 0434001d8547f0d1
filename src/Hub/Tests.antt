-- ===== src/Hub/Tests.antt =====
-- Runs of the hub, and its theorems at concrete inputs.
use v_note.Base.{ℕ, ◌≡◌, ◌≢◌, refl, inl, inr, String, [], ◌∷◌, some, arith, ne_of_test}
use v_note.Hub.{
  RealtimeHub, new_hub, denied, granted, acquire_lease, consume_ticket, issue_ticket, seconds,
}
use v_note.Hub.Leases.{
  acquire_lease-granted, acquire_lease-denied, acquire_lease-exclusive, acquires, reads, run,
  lease_until,
}
use v_note.Hub.Tickets.{consume_ticket-issue_ticket}

abbrev fresh : RealtimeHub ℕ
fresh = new_hub

-- session_a has every page for thirty seconds.
abbrev held : RealtimeHub ℕ
held = record fresh { leases = λ page. some (lease_until "session_a" (seconds 30)) }

a-ne-b : ◌≢◌ {A = String} "session_a" "session_b"
a-ne-b = ne_of_test "session_a" "session_b" refl

b-ne-a : ◌≢◌ {A = String} "session_b" "session_a"
b-ne-a = ne_of_test "session_b" "session_a" refl

acquire_lease-granted_example : (acquire_lease 5 "page_1" "session_a" held).1 ≡ granted
acquire_lease-granted_example =
    (acquire_lease-granted 5 "page_1" "session_a" held
      (inr (lease_until "session_a" (seconds 30), refl, refl))).0

acquire_lease-denied_example :
    acquire_lease 5 "page_1" "session_b" held ≡ (held, denied "session_a")
acquire_lease-denied_example =
    acquire_lease-denied 5 "page_1" "session_b" held (lease_until "session_a" (seconds 30)) refl
      a-ne-b

acquire_lease-exclusive_example :
    (acquire_lease (seconds 20) "page_1" "session_b" (
      run
        (acquire_lease 5 "page_1" "session_a" fresh).0
        ((6, acquires "page_1" "session_b") ∷ (7, reads "page_1") ∷ []))).1
    ≡ denied "session_a"
acquire_lease-exclusive_example =
    acquire_lease-exclusive "page_1" "session_a" "session_b" 5 (seconds 20) fresh
      ((6, acquires "page_1" "session_b") ∷ (7, reads "page_1") ∷ []) (inl refl)
      ((omega arith, b-ne-a), ((omega arith, tt), tt)) (omega arith) a-ne-b

consume_ticket-issue_ticket_example :
    (consume_ticket (seconds 59) "ticket_ab" (issue_ticket (λ t. "") 0 "ab" "owner" fresh).0).1
    ≡ some "owner"
unfolding issue_ticket
consume_ticket-issue_ticket_example =
    consume_ticket-issue_ticket (λ t. "") 0 (seconds 59) "ab" "owner" fresh

-- A hub that has issued one ticket.
abbrev issued : RealtimeHub ℕ
issued = (issue_ticket (λ t. "") 0 "ab" "owner" fresh).0

ticket_xy-ne-ticket_ab : ◌≢◌ {A = String} "ticket_xy" "ticket_ab"
ticket_xy-ne-ticket_ab = ne_of_test "ticket_xy" "ticket_ab" refl
