-- ===== src/Api/Send/Replies.antt =====
-- The reply of `handleSend` in internal/api/send.go that carries results.
use slim_m_relay.Prelude.{List}
use slim_m_relay.Push.{Outcome}
use slim_m_relay.Api.Http.{Response, Body, results_body}

abbrev pub results_of : List Outcome → Body → List Outcome
results_of old (results_body rs) = rs
results_of old _ = old

abbrev pub success : List Outcome → Response
success results = record { status = 200; body = results_body results }
