-- ===== src/Apns/Tests.antt =====
-- The theorems on the iOS sender of internal/apns/apns.go at concrete messages.
use slim_m_relay.Prelude.{zero, suc, ◌≡◌, refl, true, false, [], ◌∷◌}
use slim_m_relay.Text.{codes}
use slim_m_relay.Push.{Message, call, delivered, unregistered, error, IsSender, send_each}
use slim_m_relay.Apns.{
  Client, no_reply, replied, device_unregistered, other_reason, apns_sender, apns_sender-IsSender,
  notification, status_of_reply,
}
use slim_m_relay.Apns.Routing.{
  IsRouted, without_payload, notification-IsRouted, notification-without_payload,
}

-- one delivery, one dead token, then no answers
abbrev gateway : Client
gateway n zero x = replied true (other_reason [])
gateway n (suc zero) x = replied false device_unregistered
gateway n (suc (suc i)) x = no_reply

abbrev ringing : Message
ringing = record { token = codes "a"; kind = call; payload = codes "x" }

abbrev ringing_other : Message
ringing_other = record { token = codes "b"; kind = call; payload = codes "yz" }

apns_sender_sample :
    (apns_sender gateway (codes "app")).send 0 (ringing ∷ ringing_other ∷ ringing ∷ [])
    ≡ record { token = codes "a"; status = delivered }
      ∷ record { token = codes "b"; status = unregistered }
      ∷ record { token = codes "a"; status = error }
      ∷ []
unfolding apns_sender status_of_reply send_each
apns_sender_sample = refl

apns_sender-IsSender_example : IsSender (apns_sender gateway (codes "app"))
apns_sender-IsSender_example = apns_sender-IsSender gateway (codes "app")

notification-IsRouted_example : IsRouted (codes "app") call (notification (codes "app") ringing)
notification-IsRouted_example = notification-IsRouted (codes "app") ringing

notification-without_payload_example :
    (without_payload (notification (codes "app") ringing)
      ≡ without_payload (notification (codes "app") ringing_other))
    × ((notification (codes "app") ringing).aps.payload ≡ codes "x")
notification-without_payload_example =
    notification-without_payload (codes "app") ringing ringing_other refl
