-- ===== src/Hub/Tickets.antt =====
-- The realtime tickets of crates/server/src/realtime/hub.rs: short-lived and good for one use.
use v_note.Base.{
  ℕ, ◌+◌, ◌≤◌, ◌≡◌, ◌≢◌, String, none, some, arith, ltb, if◌then◌else◌, Option-cases, inl, inr,
}
use v_note.Hub.{RealtimeHub, issue_ticket, consume_ticket, seconds, ticket_ttl_seconds}

module _ {F : Type 0} where
  -- A ticket redeems for its owner before it is 60 seconds old, and for nobody after.
  pub consume_ticket-issue_ticket :
      (to_rfc3339 : ℕ → String) (now later : ℕ) (hex owner_id : String) (hub : RealtimeHub F)
      → let (hub', response) = issue_ticket to_rfc3339 now hex owner_id hub in
        (consume_ticket later response.ticket hub').1
        ≡ (if ltb later (now + seconds ticket_ttl_seconds) then some owner_id else none)
  unfolding issue_ticket consume_ticket
  consume_ticket-issue_ticket to_rfc3339 now later hex owner_id hub = ground arith

  -- Whatever a first redemption answered, a second of the same ticket, at any time, is refused.
  pub consume_ticket-once :
      (now later : ℕ) (ticket : String) (hub : RealtimeHub F)
      → (consume_ticket later ticket (consume_ticket now ticket hub).0).1 ≡ none
  unfolding consume_ticket
  consume_ticket-once now later ticket hub = ground arith

  -- Redeeming one ticket leaves every other ticket redeemable for as long as it was.
  pub consume_ticket-others :
      (now later : ℕ) (ticket other : String) (hub : RealtimeHub F)
      → ticket ≢ other
      → now ≤ later
      → (consume_ticket later other (consume_ticket now ticket hub).0).1
        ≡ (consume_ticket later other hub).1
  unfolding consume_ticket
  consume_ticket-others now later ticket other hub ne h = elim (Option-cases (hub.tickets other)) [
    | inl e ↦ ground arith
    | inr (t, e) ↦ ground arith
  ]
