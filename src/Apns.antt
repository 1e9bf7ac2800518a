-- ===== src/Apns.antt =====
-- internal/apns/apns.go: the sender for iOS. The client of github.com/sideshow/apns2 is a parameter:
-- what it answers to a notification, by the call of the request and the message's place in it.
pub mod Routing
mod Tests
use slim_m_relay.Prelude.{
  ℕ, ◌+◌, ◌≡◌, ◌≢◌, ◌↔◌, ◌∙◌, ap, length, length-append, refl, Bool, true, false, Option, none,
  some, List, [], ◌∷◌, ◌++◌, arith, if◌then◌else◌,
}
use slim_m_relay.Text.{Str, codes}
use slim_m_relay.Push.{
  Kind, message, mention, call, wake, kind_text, Message, Status, blank, delivered, unregistered,
  error, not_attempted, Sender, IsSender, send_each, send_each-tokens, send_each-answers,
}

-- the constants of apns2 that the source names
pub data PushType : Type 0 where
  background alert_push voip : PushType

pub data Priority : Type 0 where
  low high : Priority

pub data Reason : Type 0 where
  device_unregistered bad_device_token expired_token : Reason
  other_reason : Str → Reason

-- what the calls of apns2's payload builder set
pub record Aps : Type 0 where
  pub mutable_content : Bool
  pub content_available : Bool
  pub alert : Option Str
  pub sound : Option Str
  pub kind : Str
  pub payload : Str

pub record Notification : Type 0 where
  pub device_token : Str
  pub topic : Str
  pub push_type : PushType
  pub priority : Priority
  pub aps : Aps

-- an error, or a response with what its `Sent()` says
pub data Reply : Type 0 where
  no_reply : Reply
  replied : Bool → Reason → Reply

abbrev pub Client : Type 0
Client = ℕ → ℕ → Notification → Reply

abbrev pub voip_topic_suffix : Str
voip_topic_suffix = codes ".voip"

unfoldable pub generic_alert : Kind → Option Str
generic_alert message = some (codes "New message")
generic_alert mention = some (codes "You were mentioned")
generic_alert _ = none

-- the notification before its alert: low priority, on the plain topic
abbrev pub silent : Str → Message → Notification
silent bundle_id m = record {
  device_token = m.token;
  topic = bundle_id;
  push_type = background;
  priority = low;
  aps = record {
    mutable_content = true;
    content_available = false;
    alert = none;
    sound = none;
    kind = kind_text m.kind;
    payload = m.payload;
  };
}

-- `if alert, ok := genericAlert[m.Kind]; ok { … } else { p.ContentAvailable() }`
abbrev pub with_alert : Option Str → Notification → Notification
with_alert none n = record n { aps = record n.aps { content_available = true } }
with_alert (some text) n = record n {
  push_type = alert_push;
  priority = high;
  aps = record n.aps { alert = some text; sound = some (codes "default") };
}

-- `if m.Kind == push.KindCall`
abbrev pub with_voip : Str → Kind → Notification → Notification
with_voip bundle_id call n = record n {
  topic = bundle_id ++ voip_topic_suffix;
  push_type = voip;
  priority = high;
}
with_voip bundle_id _ n = n

unfoldable pub notification : Str → Message → Notification
unfolding generic_alert kind_text
notification bundle_id m =
    with_voip bundle_id m.kind (with_alert (generic_alert m.kind) (silent bundle_id m))

unfoldable pub status_of_reply : Reply → Status
status_of_reply no_reply = error
status_of_reply (replied true reason) = delivered
status_of_reply (replied false (other_reason s)) = error
status_of_reply (replied false _) = unregistered

-- `Send` and `sendOne`
unfoldable pub apns_sender : Client → Str → Sender
unfolding send_each notification status_of_reply
apns_sender client bundle_id = record {
  send = λ n ms. send_each (λ i m. status_of_reply (client n i (notification bundle_id m))) 0 ms;
}

status_of_reply-answers :
    (r : Reply) → (status_of_reply r ≢ blank) × (status_of_reply r ≢ not_attempted)
unfolding status_of_reply
status_of_reply-answers no_reply = (λ e. cc, λ e. cc)
status_of_reply-answers (replied true reason) = (λ e. cc, λ e. cc)
status_of_reply-answers (replied false device_unregistered) = (λ e. cc, λ e. cc)
status_of_reply-answers (replied false bad_device_token) = (λ e. cc, λ e. cc)
status_of_reply-answers (replied false expired_token) = (λ e. cc, λ e. cc)
status_of_reply-answers (replied false (other_reason s)) = (λ e. cc, λ e. cc)

-- Whatever APNs answers, the iOS sender gives one result for each message, in their order and with
-- their tokens, and none is blank or "not attempted".
pub apns_sender-IsSender :
    (client : Client) (bundle_id : Str) → IsSender (apns_sender client bundle_id)
unfolding apns_sender
apns_sender-IsSender client bundle_id = record {
  tokens = λ n ms. send_each-tokens _ 0 ms;
  answers = λ n ms. send_each-answers _ (λ i m. status_of_reply-answers _) 0 ms;
}
