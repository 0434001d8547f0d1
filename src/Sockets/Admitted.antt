-- ===== src/Sockets/Admitted.antt =====
-- Whose realtime connections crates/server/src/realtime/socket.rs upgrades.
use v_note.Base.{ℕ, ◌≡◌, refl, Bool, true, false, String, List, Option, none, some, Result, ok, err}
use v_note.Auth.{Jwt, Jwk, AuthConfig, Claims, TokenValidationError, validate_jwt, extract_bearer}
use v_note.Auth.Validated.{IsVouched, validate_jwt-IsVouched}
use v_note.Hub
use v_note.Dispatch.Context.{PageStore}
use v_note.Sockets.{
  AuthState, authenticate_realtime, authenticate_bearer, page_socket, checked_page, owned,
  subject_of, redeemed,
}

redeemed-ok : (o : Option String) (owner_id : String) → redeemed o ≡ ok owner_id → o ≡ some owner_id
redeemed-ok none owner_id h = cc
redeemed-ok (some o) owner_id h = cc

subject_of-ok :
    (r : Result Claims TokenValidationError) (owner_id : String)
    → subject_of r ≡ ok owner_id
    → (claims : Claims) × (r ≡ ok claims) × (claims.sub ≡ owner_id)
subject_of-ok (ok claims) owner_id h = (claims, refl, cc)
subject_of-ok (err e) owner_id h = cc

module _ {F : Type 0} (jwt : Jwt) (fetched : Result (List Jwk) String) (config : AuthConfig)
    (now : ℕ) where
  -- The caller is the owner whom a ticket was issued to, or, without a ticket, the subject of a
  -- bearer token that is vouched for.
  pub data IsCaller (authorization ticket : Option String) (a : AuthState F jwt.DecodingKey)
      (owner_id : String) : Type 0 where
    by_ticket :
        (t : String)
        → ticket ≡ some t
        → (Hub.consume_ticket now t a.hub).1 ≡ some owner_id
        → IsCaller authorization ticket a owner_id
    by_bearer :
        (token : String) (claims : Claims)
        → ticket ≡ none
        → extract_bearer authorization ≡ some token
        → IsVouched jwt config (validate_jwt jwt fetched token config a.keys).0 token claims
        → claims.sub ≡ owner_id
        → IsCaller authorization ticket a owner_id

  module _ (authorization : Option String) (a : AuthState F jwt.DecodingKey)
      (owner_id : String) where
    bearer-IsCaller :
        (o : Option String)
        → extract_bearer authorization ≡ o
        → (authenticate_bearer jwt fetched config now o a).1 ≡ ok owner_id
        → IsCaller authorization none a owner_id
    bearer-IsCaller none e h = cc
    bearer-IsCaller (some token) e h =
        let (claims, validated, sub) =
          subject_of-ok (validate_jwt jwt fetched token config a.keys).1 owner_id h in
        by_bearer token claims refl e
          (validate_jwt-IsVouched jwt fetched token config a.keys claims validated) sub

    authenticate-IsCaller :
        (ticket : Option String)
        → (authenticate_realtime jwt fetched config now authorization ticket a).1 ≡ ok owner_id
        → IsCaller authorization ticket a owner_id
    unfolding authenticate_realtime
    authenticate-IsCaller none h = bearer-IsCaller (extract_bearer authorization) refl h
    authenticate-IsCaller (some t) h =
        by_ticket t refl (redeemed-ok (Hub.consume_ticket now t a.hub).1 owner_id h)

  module _ (store : PageStore F) (page_id : String) (s : store.State) where
    owned-ok : (r : Result Bool store.Error) → owned r ≡ ok tt → r ≡ ok true
    owned-ok (ok true) h = refl
    owned-ok (ok false) h = cc
    owned-ok (err e) h = cc

    checked_page-ok :
        (caller : Result String ℕ)
        → checked_page store page_id s caller ≡ ok tt
        → (owner_id : String) × (caller ≡ ok owner_id)
          × (store.page_belongs_to_owner page_id owner_id s ≡ ok true)
    checked_page-ok (err status) h = cc
    checked_page-ok (ok owner_id) h = (owner_id, refl, owned-ok _ h)

    -- A page's connection is upgraded only for an authenticated caller who owns the page.
    pub page_socket-ok :
        (authorization ticket : Option String) (a : AuthState F jwt.DecodingKey)
        → (page_socket store jwt fetched config now page_id authorization ticket s a).1 ≡ ok tt
        → (owner_id : String) × IsCaller authorization ticket a owner_id
          × (store.page_belongs_to_owner page_id owner_id s ≡ ok true)
    unfolding page_socket
    page_socket-ok authorization ticket a h =
        let (owner_id, caller, owns) =
          checked_page-ok (authenticate_realtime jwt fetched config now authorization ticket a).1
            h in
        (owner_id, authenticate-IsCaller authorization a owner_id ticket caller, owns)
