-- ===== src/Apns/Routing.antt =====
-- What a notification of internal/apns/apns.go carries and how it travels, by the kind of its message.
use slim_m_relay.Prelude.{
  ◌+◌, ◌≡◌, ◌≢◌, ◌↔◌, ◌∙◌, ap, refl, true, none, [], ◌++◌, arith, length, length-append,
}
use slim_m_relay.Text.{Str}
use slim_m_relay.Push.{Kind, message, mention, call, wake, Message}
use slim_m_relay.Apns.{
  Notification, background, alert_push, voip, low, voip_topic_suffix, generic_alert, silent,
  with_alert, with_voip, notification,
}

abbrev pub IsRouted : Str → Kind → Notification → Type 0
IsRouted bundle_id kind n =
    ((n.push_type ≡ voip) ↔ (kind ≡ call))
    × ((n.topic ≡ bundle_id ++ voip_topic_suffix) ↔ (kind ≡ call))
    × ((n.priority ≡ low) ↔ (n.push_type ≡ background))
    × ((n.push_type ≡ alert_push) ↔ (n.aps.alert ≢ none))
    × ((n.aps.content_available ≡ true) ↔ (n.aps.alert ≡ none))

abbrev pub without_payload : Notification → Notification
without_payload n = record n { device_token = []; aps = record n.aps { payload = [] } }

-- the notification for `m` as if it were of kind `k`
abbrev of_kind : Str → Message → Kind → Notification
of_kind bundle_id m k =
    with_voip bundle_id k (with_alert (generic_alert k) (silent bundle_id (record m { kind = k })))

-- A notification depends on the text of its message only in the token and the opaque payload that it
-- carries: two messages of one kind, from whatever servers, give otherwise the same.
pub notification-without_payload :
    (bundle_id : Str) (m m' : Message)
    → m.kind ≡ m'.kind
    → (without_payload (notification bundle_id m) ≡ without_payload (notification bundle_id m'))
      × ((notification bundle_id m).aps.payload ≡ m.payload)
unfolding notification generic_alert
notification-without_payload bundle_id m m' e = rw e (go m'.kind)
  where
    go :
        (k : Kind)
        → (without_payload (of_kind bundle_id m k) ≡ without_payload (of_kind bundle_id m' k))
          × ((of_kind bundle_id m k).aps.payload ≡ m.payload)
    go message = (refl, refl)
    go mention = (refl, refl)
    go call = (refl, refl)
    go wake = (refl, refl)

other_topic : (bundle_id : Str) → bundle_id ≢ bundle_id ++ voip_topic_suffix
other_topic bundle_id e =
    let shorter : length bundle_id ≡ length bundle_id + length voip_topic_suffix =
      ap length e ∙ length-append bundle_id voip_topic_suffix in
    omega arith

-- A notification goes to the VoIP topic, as a VoIP push, exactly when its message is a call; it has
-- low priority exactly when it is a background push; it is an alert push exactly when it carries an
-- alert; and it wakes the app in the background exactly when it carries none.
pub notification-IsRouted :
    (bundle_id : Str) (m : Message) → IsRouted bundle_id m.kind (notification bundle_id m)
unfolding notification generic_alert
notification-IsRouted bundle_id m = go m.kind
  where
    go : (k : Kind) → IsRouted bundle_id k (of_kind bundle_id m k)
    go message = ground (arith, other_topic bundle_id)
    go mention = ground (arith, other_topic bundle_id)
    go call = ground (arith, other_topic bundle_id)
    go wake = ground (arith, other_topic bundle_id)
