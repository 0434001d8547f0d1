-- ===== src/Login/Mobile.antt =====
-- crates/server/src/routes/auth.rs: the page that hands a login over to the mobile client, and the
-- statement file of its links.
use Prim.Native.String.{◌++◌ as ◌<>◌}
use v_note.Base.{not, String, List, [], ◌∷◌, Option, none, some, if◌then◌else◌}
use v_note.Base.Whitespace.{is_empty_text}
use v_note.Login.{Answer, responds, escape_html, escape_js_string}

-- `OriginalUri::query`.
unfoldable pub custom_scheme_url : Option String → String
custom_scheme_url none = "link.desync.vnote:/oauth2redirect"
custom_scheme_url (some query) =
    if not (is_empty_text query)
    then "link.desync.vnote:/oauth2redirect?" <> query
    else "link.desync.vnote:/oauth2redirect"

abbrev joined : List String → String
joined [] = ""
joined (line ∷ lines) = line <> joined lines

unfoldable pub mobile_callback : Option String → String
mobile_callback query =
    let url = custom_scheme_url query in
    joined (
      "<!doctype html>\n"
      ∷ "<html lang=\"en\">\n"
      ∷ "  <head>\n"
      ∷ "    <meta charset=\"utf-8\">\n"
      ∷ "    <meta name=\"viewport\" content=\"width=device-width, initial-scale=1\">\n"
      ∷ "    <title>v-note mobile auth callback</title>\n"
      ∷ "  </head>\n"
      ∷ "  <body style=\"font-family: system-ui, sans-serif; padding: 2rem; line-height: 1.5;\">\n"
      ∷ "    <p>Returning to v-note…</p>\n"
      ∷ "    <p><a href=\""
      ∷ escape_html url
      ∷ "\">Open the app</a></p>\n"
      ∷ "    <script>\n"
      ∷ "      const appUrl = '"
      ∷ escape_js_string url
      ∷ "';\n"
      ∷ "      window.location.replace(appUrl);\n"
      ∷ "      window.setTimeout(() => window.location.assign(appUrl), 250);\n"
      ∷ "    </script>\n"
      ∷ "  </body>\n"
      ∷ "</html>"
      ∷ [])

unfoldable pub assetlinks : Option String → Answer
assetlinks (some json) = responds 200 json
assetlinks none = responds 404 "assetlinks not configured"
