-- ===== src/Login/Tests.antt =====
-- A login at a concrete provider.
use v_note.Base.{◌≡◌, refl, String, List, none, some, str_dec}
use v_note.Base.Map.{empty, insert}
use v_note.Auth.{validate_jwt, get_key}
use v_note.Auth.Tests.{jwt, config, fetched, no_keys}
use v_note.Login.{
  Jar, Posted, answered, CallbackQuery, callback, transient_auth_cookie, state_cookie, pkce_cookie,
  auth_cookie, redirects, responds, escape_html, escape_js_string, exchange_code, value_of,
  clear_flow_cookies,
}
use v_note.Login.Mobile.{custom_scheme_url}
use v_note.Login.Flow.{Ended, callback-Ended}

abbrev post : String → List (String × String) → Posted
post url form = answered (some "token_1")

abbrev jar : Jar
jar =
    insert (insert empty state_cookie (transient_auth_cookie "nonce")) pkce_cookie
      (transient_auth_cookie "verifier")

abbrev params : CallbackQuery
params = record { code = some "code"; state = "nonce"; error = none }

session_set :
    ((callback jwt fetched config post params jar no_keys).1.1 ≡ redirects "/")
    × (value_of ((callback jwt fetched config post params jar no_keys).1.0 auth_cookie)
        ≡ some "token_1")
unfolding callback exchange_code validate_jwt get_key str_dec transient_auth_cookie
    clear_flow_cookies
session_set = (refl, refl)

foreign_state :
    (callback jwt fetched config post
      (record { code = some "code"; state = "x"; error = none })
      jar
      no_keys).1.1
    ≡ responds 400 "state mismatch"
unfolding callback str_dec transient_auth_cookie
foreign_state = refl

escaped :
    (escape_html "a<b>&'\"" ≡ "a&lt;b&gt;&amp;&#39;&quot;")
    × (escape_js_string "it's\n" ≡ "it\\'s\\n")
unfolding escape_html escape_js_string
escaped = (refl, refl)

callback-Ended_example :
    Ended jwt fetched config post jar no_keys params
      (callback jwt fetched config post params jar no_keys)
callback-Ended_example = callback-Ended jwt fetched config post jar no_keys params

mobile :
    (custom_scheme_url (some "") ≡ "link.desync.vnote:/oauth2redirect")
    × (custom_scheme_url (some "code=1") ≡ "link.desync.vnote:/oauth2redirect?code=1")
unfolding custom_scheme_url
mobile = (refl, refl)
