-- ===== src/Sockets/LibrarySocket.antt =====
-- The library's connection of crates/server/src/realtime/socket.rs, which only ever sends.
use v_note.Base.{
  ℕ, suc, ◌≡◌, ◌⊎◌, refl, sym, ◌∙◌, subst, Bool, String, List, [], ◌∷◌, ◌++◌, append-nil,
  append_assoc, Option, none, some, Result, ok, err, take, Bool-cases, inl, inr, if◌then◌else◌,
}
use v_note.Protocol.Messages.{LibraryEvent}
use v_note.Sockets.{RecvError, lagged, closed, lagged_close_code}

pub data LibrarySocketEvent : Type 0 where
  fanned_out : Result LibraryEvent RecvError → LibrarySocketEvent
  close_frame other_frame stream_end : LibrarySocketEvent

pub record LibraryConnection : Type 0 where
  pub sent : List LibraryEvent
  pub close : Option (ℕ × String)
  pub reason : Option String

module _ (encode : LibraryEvent → Option String) (sends : List LibraryEvent → String → Bool) where
  abbrev ended : String → List LibraryEvent → LibraryConnection
  ended reason sent = record { sent = sent; close = none; reason = some reason }

  abbrev goes_on : List LibraryEvent → LibraryConnection
  goes_on sent = record { sent = sent; close = none; reason = none }

  -- An event that does not serialise is skipped.
  unfoldable pub forward_library_fanout :
      Result LibraryEvent RecvError → List LibraryEvent → LibraryConnection
  forward_library_fanout (ok event) sent = elim (encode event) [
    | none ↦ goes_on sent
    | some payload ↦
        if sends sent payload then goes_on (sent ++ event ∷ []) else ended "send failed" sent
  ]
  forward_library_fanout (err (lagged skipped)) sent = record {
    sent = sent;
    close = some (lagged_close_code, "lagged");
    reason = some "lagged: the subscriber fell behind the library channel";
  }
  forward_library_fanout (err closed) sent = ended "library channel closed" sent

  unfoldable pub round : LibrarySocketEvent → List LibraryEvent → LibraryConnection
  unfolding forward_library_fanout
  round (fanned_out event) sent = forward_library_fanout event sent
  round close_frame sent = ended "client closed" sent
  round other_frame sent = goes_on sent
  round stream_end sent = ended "stream ended without a close frame" sent

  abbrev unless_ended :
      (List LibraryEvent → LibraryConnection) → LibraryConnection → LibraryConnection
  unless_ended next c = elim c.reason [ none ↦ next c.sent | some reason ↦ c ]

  unfoldable pub handle_library_socket :
      List LibrarySocketEvent → List LibraryEvent → LibraryConnection
  unfolding round
  handle_library_socket [] sent = goes_on sent
  handle_library_socket (e ∷ events) sent =
      unless_ended (handle_library_socket events) (round e sent)

  -- What the channel carried before the subscriber fell behind.
  abbrev pub carried : List LibrarySocketEvent → List LibraryEvent
  carried [] = []
  carried (fanned_out (ok event) ∷ events) = event ∷ carried events
  carried (fanned_out (err e) ∷ events) = []
  carried (close_frame ∷ events) = carried events
  carried (other_frame ∷ events) = carried events
  carried (stream_end ∷ events) = carried events

  module _
      (encodes : (event : LibraryEvent) → (payload : String) × (encode event ≡ some payload)) where
    forwarded :
        (event : LibraryEvent) (sent : List LibraryEvent)
        → (round (fanned_out (ok event)) sent ≡ goes_on (sent ++ event ∷ []))
          ⊎ (round (fanned_out (ok event)) sent ≡ ended "send failed" sent)
    unfolding round forward_library_fanout
    forwarded event sent =
        let (payload, e) = encodes event in
        elim (Bool-cases (sends sent payload)) [
          | inl s ↦ inl (rw (round, forward_library_fanout, e, s) refl)
          | inr s ↦ inr (rw (round, forward_library_fanout, e, s) refl)
        ]

    -- A connection that is open has sent all that its channel carried, and one that has ended an
    -- unbroken prefix of it.
    abbrev pub SentPrefix : List LibraryEvent → List LibraryEvent → LibraryConnection → Type 0
    SentPrefix before all c =
        ((c.reason ≡ none) × (c.sent ≡ before ++ all))
        ⊎ ((reason : String) × (n : ℕ) × (c.reason ≡ some reason) × (c.sent ≡ before ++ take n all))

    SentPrefix-cons :
        (before all : List LibraryEvent) (event : LibraryEvent) (c : LibraryConnection)
        → SentPrefix (before ++ event ∷ []) all c
        → SentPrefix before (event ∷ all) c
    SentPrefix-cons before all event c (inl (open_, h)) =
        inl (open_, h ∙ append_assoc before (event ∷ []) all)
    SentPrefix-cons before all event c (inr (reason, n, ended_, h)) =
        inr (reason, suc n, ended_, h ∙ append_assoc before (event ∷ []) (take n all))

    -- What a library connection has sent is all that its channel carried while it is open, and an
    -- unbroken prefix of that when it has ended.
    pub handle_library_socket-SentPrefix :
        (events : List LibrarySocketEvent) (sent : List LibraryEvent)
        → SentPrefix sent (carried events) (handle_library_socket events sent)
    unfolding handle_library_socket round forward_library_fanout
    handle_library_socket-SentPrefix [] sent = inl (refl, sym (append-nil sent))
    handle_library_socket-SentPrefix (fanned_out (ok event) ∷ events) sent =
        elim (forwarded event sent) [
          | inl e ↦
              subst
                (λ c.
                  SentPrefix sent (event ∷ carried events)
                    (unless_ended (handle_library_socket events) c))
                (sym e)
                (SentPrefix-cons sent (carried events) event
                  (handle_library_socket events (sent ++ event ∷ []))
                  (handle_library_socket-SentPrefix events (sent ++ event ∷ [])))
          | inr e ↦
              subst
                (λ c.
                  SentPrefix sent (event ∷ carried events)
                    (unless_ended (handle_library_socket events) c))
                (sym e) (inr ("send failed", 0, refl, sym (append-nil sent)))
        ]
    handle_library_socket-SentPrefix (fanned_out (err (lagged skipped)) ∷ events) sent =
        inr (_, 0, refl, sym (append-nil sent))
    handle_library_socket-SentPrefix (fanned_out (err closed) ∷ events) sent =
        inr (_, 0, refl, sym (append-nil sent))
    handle_library_socket-SentPrefix (close_frame ∷ events) sent =
        inr (_, 0, refl, sym (append-nil sent))
    handle_library_socket-SentPrefix (other_frame ∷ events) sent =
        handle_library_socket-SentPrefix events sent
    handle_library_socket-SentPrefix (stream_end ∷ events) sent =
        inr (_, 0, refl, sym (append-nil sent))
