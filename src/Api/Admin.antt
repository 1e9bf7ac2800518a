-- ===== src/Api/Admin.antt =====
-- internal/api/admin.go: the admin handlers and their guard.
use slim_m_relay.Prelude.{ℕ, Bool, ◌&&◌, Option, none, some, List, length, ◌==◌, if◌then◌else◌}
use slim_m_relay.Prelude.Int.{ℤ}
use slim_m_relay.Text.{Str, codes, str_eq}
use slim_m_relay.Config.{atoi}
use slim_m_relay.Keys.Sql.{not_found, Result, ok, err}
use slim_m_relay.Keys.Store.{Key, list_keys, revoke}
use slim_m_relay.Api.Http.{Response, write_err, bearer_token, keys_body, no_body}
use slim_m_relay.Api.Server.{Server}

-- `len(got) == len(want) && subtle.ConstantTimeCompare(got, want) == 1`
unfoldable pub is_admin : Str → Str → Bool
unfolding bearer_token str_eq
is_admin want header = let got = bearer_token header in length got == length want && str_eq got want

-- `requireAdmin` around a handler
unfoldable pub require_admin : Str → Str → (Server → Server × Response) → Server → Server × Response
unfolding is_admin
require_admin want header next s =
    if is_admin want header then next s else (s, write_err 401 (codes "unauthorized"))

abbrev pub list_reply : Result (List Key) → Response
list_reply (ok keys) = record { status = 200; body = keys_body keys }
list_reply (err e) = write_err 500 (codes "server error")

unfoldable pub handle_admin_list_keys : Server → Server × Response
unfolding list_keys
handle_admin_list_keys s =
    let (r, store) = list_keys s.store in (record s { store = store }, list_reply r)

abbrev pub revoke_reply : Result (Unit {0}) → Response
revoke_reply (ok _) = record { status = 204; body = no_body }
revoke_reply (err not_found) = write_err 404 (codes "no such key")
revoke_reply (err e) = write_err 500 (codes "server error")

abbrev pub revoke_parsed : Option ℤ → ℕ → Server → Server × Response
revoke_parsed none now s = (s, write_err 400 (codes "invalid id"))
revoke_parsed (some id) now s =
    let (r, store) = revoke id now s.store in (record s { store = store }, revoke_reply r)

-- `strconv.ParseInt(id, 10, 64)` reads what `strconv.Atoi` does
unfoldable pub handle_admin_revoke_key : Str → ℕ → Server → Server × Response
unfolding atoi revoke
handle_admin_revoke_key id now s = revoke_parsed (atoi id) now s
