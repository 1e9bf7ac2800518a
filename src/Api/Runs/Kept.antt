-- ===== src/Api/Runs/Kept.antt =====
-- A key of internal/keys through requests to internal/api that do not carry the admin token.
use slim_m_relay.Prelude.{◌≢◌}
use slim_m_relay.Keys.Sql.{Store}
use slim_m_relay.Api.Http.{bearer_token}
use slim_m_relay.Api.Server.{Wiring, Server}
use slim_m_relay.Api.Router.{Request}
use slim_m_relay.Api.Runs.{Runs}

-- the request's bearer token is not the configured admin token
abbrev pub IsPlain : Wiring → Request → Type 0
IsPlain w r = bearer_token r.exchange.authorization ≢ w.config.admin_token
