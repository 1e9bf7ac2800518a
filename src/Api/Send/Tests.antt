-- ===== src/Api/Send/Tests.antt =====
-- A refund of internal/api/send.go, at a request with one call that was not attempted.
use slim_m_relay.Prelude.{◌+◌, ◌*◌, ◌≡◌, refl, List, [], ◌∷◌, min, arith, if◌then◌else◌}
use slim_m_relay.Prelude.Int.{pos}
use slim_m_relay.Text.{codes, str_eq}
use slim_m_relay.Push.{Outcome, call, wake, delivered, not_attempted, unconfigured}
use slim_m_relay.Dispatch.{Item}
use slim_m_relay.RateLimit.{Limiter, new, allow, token_unit}
use slim_m_relay.RateLimit.Level.{IsLimiter, level}
use slim_m_relay.RateLimit.Budget.{allow-level}
use slim_m_relay.RateLimit.Bound.{new-IsLimiter}
use slim_m_relay.Api.Send.{refund_calls}
use slim_m_relay.Api.Send.Refunds.{owed, refund_calls-level}

-- ten calls a minute, in bursts of two; one is paid for
abbrev paid_once : Limiter
paid_once = (allow (new (pos 600) (pos 2) 0) (codes "7") 1).0

paid_once-IsLimiter : IsLimiter 600 (2 * token_unit) 1 paid_once
paid_once-IsLimiter =
    (allow-level 600 (2 * token_unit) (new (pos 600) (pos 2) 0) (codes "7") (codes "7") 0 1
      (omega arith) (omega arith) (omega arith) (new-IsLimiter 600 2 0)).2

abbrev items : List Item
items =
    record {
      result_idx = 0;
      sender = unconfigured;
      msg = record { token = codes "a"; kind = wake; payload = [] };
    }
    ∷ record {
      result_idx = 1;
      sender = unconfigured;
      msg = record { token = codes "b"; kind = call; payload = [] };
    }
    ∷ []

abbrev results : List Outcome
results =
    record { token = codes "a"; status = delivered }
    ∷ record { token = codes "b"; status = not_attempted }
    ∷ []

one_owed : owed results items ≡ 1
one_owed = refl

refund_calls-level_example :
    (level (refund_calls (codes "7") items results paid_once) (codes "7") 1 ≡ (
      if str_eq (codes "7") (codes "7")
      then min (2 * token_unit) (level paid_once (codes "7") 1 + owed results items * token_unit)
      else level paid_once (codes "7") 1))
    × IsLimiter 600 (2 * token_unit) 1 (refund_calls (codes "7") items results paid_once)
refund_calls-level_example =
    refund_calls-level 600 (2 * token_unit) (codes "7") (codes "7") 1 results items paid_once
      paid_once-IsLimiter
