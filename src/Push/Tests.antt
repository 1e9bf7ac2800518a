-- ===== src/Push/Tests.antt =====
-- The theorem on the log of internal/push/push.go at a concrete request.
use slim_m_relay.Prelude.{◌≡◌, some, [], ◌∷◌, if◌then◌else◌}
use slim_m_relay.Text.{codes}
use slim_m_relay.Push.{is_logged}
use slim_m_relay.Push.Logging.{lines, lines-eq}

lines-eq_example :
    lines (codes "fcm") (some []) (codes "fcm" ∷ codes "fcm" ∷ [])
    ≡ (if is_logged (codes "fcm") (codes "fcm" ∷ codes "fcm" ∷ []) then 1 else 0)
lines-eq_example = lines-eq (codes "fcm") (codes "fcm" ∷ codes "fcm" ∷ [])
