-- ===== src/Api/Server.antt =====
-- The server of internal/api/server.go: its settings and senders, and the state that its handlers
-- share.
use slim_m_relay.Prelude.{ℕ}
use slim_m_relay.Prelude.Int.{pos, ◌*ℤ◌}
use slim_m_relay.RateLimit.{Limiter, new}
use slim_m_relay.Keys.Sql.{Store}
use slim_m_relay.Config.{Config}
use slim_m_relay.Push.{Sender}

-- what does not change
pub record Wiring : Type 0 where
  pub config : Config
  pub ios_sender : Sender
  pub android_sender : Sender

pub record Server : Type 0 where
  pub store : Store
  pub register_lim : Limiter
  pub send_lim : Limiter
  pub call_lim : Limiter

-- `New`: the limiters take rates by the minute, and the one for registrations a sixtieth of its rate
-- by the hour
unfoldable pub new_server : Config → Store → ℕ → Server
unfolding new ◌*ℤ◌
new_server cfg store now = record {
  store = store;
  register_lim = new cfg.register_per_hour cfg.register_burst now;
  send_lim = new (cfg.send_per_minute *ℤ pos 60) cfg.send_burst now;
  call_lim = new (cfg.call_send_per_minute *ℤ pos 60) cfg.call_send_burst now;
}
