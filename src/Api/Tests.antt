-- ===== src/Api/Tests.antt =====
-- A request to internal/api, followed through, and the theorems at it.
use slim_m_relay.Prelude.{
  ◌*◌, ◌++◌, ◌≢◌, ◌≤◌, length, arith, if◌then◌else◌, none, true, ◌+◌, ◌≡◌, refl, some, List, [],
  ◌∷◌,
}
use slim_m_relay.Prelude.Int.{pos, ◌*ℤ◌, ◌+ℤ◌, ◌-ℤ◌}
use slim_m_relay.Prelude.Assoc.{lookup, insert}
use slim_m_relay.Text.{Str, codes, format_int, str_eq, trim_space}
use slim_m_relay.RateLimit.{token_unit, allow, give_back}
use slim_m_relay.Config.{load, Config}
use slim_m_relay.Push.{
  delivered, error, not_attempted, Outcome, Sender, unconfigured, send_each, call, Message,
}
use slim_m_relay.Dispatch.{attempt}
use slim_m_relay.Keys.Tables.{stamp_key}
use slim_m_relay.Keys.Sql.{Store, ok}
use slim_m_relay.Keys.Store.{issue, verify, bind_token, Key, list_keys}
use slim_m_relay.Api.Address.{client_ip, client_ip-forwarded}
use slim_m_relay.Api.Register.{RegisterRequest, RegisterTimes, handle_register}
use slim_m_relay.Api.Register.Effects.{IsRegistration, handle_register-IsRegistration}
use slim_m_relay.Api.Admin.{handle_admin_list_keys, is_admin, require_admin}
use slim_m_relay.Api.Router.{Request, match, serve}
use slim_m_relay.Api.Router.Access.{serve-keys_body}
use slim_m_relay.Api.Http.{bearer_token, keys_body, value, Payload}
use slim_m_relay.Api.Server.{Wiring, Server, new_server}
use slim_m_relay.Api.Send.Accepted.{IsSenderOf, IsKindOf, IsFreeFor, HasPaid, look_at-accepts}
use slim_m_relay.RateLimit.Level.{IsLimiter, level}
use slim_m_relay.Api.Send.Admitted.{handle_send-admitted}
use slim_m_relay.RateLimit.Bound.{new-IsLimiter}
use slim_m_relay.Api.Send.{
  max_payload_bytes, Moment, look_at, accept, SendMessage, SendTimes, handle_send,
}
use slim_m_relay.Api.Send.Replies.{success}

abbrev plain_hash : Str → Str
plain_hash s = s

abbrev delivering : Sender
delivering = record { send = λ n ms. send_each (λ _ _. delivered) 0 ms }

abbrev wiring : Wiring
wiring = record { config = load (λ _. []); ios_sender = delivering; android_sender = unconfigured }

abbrev empty_store : Store
empty_store = record {
  db = record { keys = []; key_seq = 0; tokens = []; token_seq = 0 };
  last_prune = 0;
  faults = [];
}

-- one key issued
abbrev server : Server
server = new_server wiring.config (issue plain_hash (some (1 ∷ [])) [] (pos 5) 1 empty_store).1 0

abbrev header : Str
header = codes "Bearer smr_AQ"

abbrev wanted : List SendMessage
wanted =
    record { platform = codes "ios"; token = codes "a"; kind = codes "wake"; payload = [] }
    ∷ record { platform = codes "web"; token = codes "b"; kind = codes "wake"; payload = [] }
    ∷ record { platform = codes "ios"; token = []; kind = codes "wake"; payload = [] }
    ∷ record { platform = codes "ios"; token = codes "c"; kind = codes "call"; payload = [] }
    ∷ []

abbrev times : SendTimes
times = record {
  verify_at = 2;
  allow_at = 3;
  clock = λ n. record {
    allow_at = n + 4;
    bind_at = n + 4;
    prune_at = record { since = n + 4; stamp = n + 4; cutoff = n + 4 };
  };
  cut = 1;
}

abbrev request : Payload (List SendMessage)
request = record { size = 300; parsed = value wanted }

abbrev answered : List Outcome
answered =
    record { token = codes "a"; status = delivered }
    ∷ record { token = codes "b"; status = error }
    ∷ record { token = codes "c"; status = not_attempted }
    ∷ []

answered_lem : (handle_send plain_hash wiring times header request server).1 ≡ success answered
unfolding handle_send load issue verify bind_token new_server allow give_back lookup insert str_eq
    stamp_key attempt send_each ◌+ℤ◌ ◌-ℤ◌ ◌*ℤ◌
answered_lem = refl

-- behind a proxy, with an admin token and room for two keys
abbrev proxied : Config
proxied = record (load (λ _. [])) {
  trust_proxy = true;
  admin_token = codes "t";
  max_registrations = pos 2;
}

abbrev proxied_wiring : Wiring
proxied_wiring = record wiring { config = proxied }

client_ip-forwarded_example :
    client_ip proxied (codes "10.0.0.1:80") (codes "forged" ++ b',' ∷ codes " 192.0.2.7") ≡ (
      if proxied.trust_proxy
      then trim_space (codes " 192.0.2.7")
      else client_ip proxied (codes "10.0.0.1:80") [])
client_ip-forwarded_example =
    client_ip-forwarded proxied (codes "10.0.0.1:80") (codes "forged") (codes " 192.0.2.7") refl

abbrev registration : RegisterRequest
registration = record {
  remote = codes "10.0.0.1:80";
  forwarded_for = codes "192.0.2.7";
  public_url = record { size = 20; parsed = value (codes " https://a ") };
}

abbrev register_times : RegisterTimes
register_times = record { allow_at = 5; issue_at = 6; raw = some (2 ∷ []) }

handle_register-IsRegistration_example :
    IsRegistration plain_hash proxied.max_registrations 6 server.store.db
      (handle_register plain_hash proxied_wiring register_times registration server)
handle_register-IsRegistration_example =
    handle_register-IsRegistration plain_hash proxied_wiring register_times registration server

abbrev admin_request : Request
admin_request = record {
  method = codes "GET";
  path = codes "admin" ∷ codes "keys" ∷ [];
  exchange = record {
    authorization = codes "Bearer t";
    registration = registration;
    register_times = register_times;
    messages = request;
    send_times = times;
    revoke_at = 7;
  };
}

abbrev register_request : Request
register_request = record admin_request {
  method = codes "POST";
  path = codes "v1" ∷ codes "register" ∷ [];
}

abbrev the_key : Key
the_key = record { id = 1; label = []; created_at = 0; last_used_at = none; revoked_at = none }

admin_served :
    serve plain_hash proxied_wiring admin_request.method admin_request.path admin_request.exchange
      server
    ≡ some (server, record { status = 200; body = keys_body (the_key ∷ []) })
unfolding serve match require_admin is_admin bearer_token handle_admin_list_keys list_keys load
    issue new_server str_eq
admin_served = refl

serve-keys_body_example : (bearer_token (codes "Bearer t") ≡ codes "t") × (codes "t" ≢ [])
serve-keys_body_example =
    serve-keys_body plain_hash proxied_wiring admin_request.method admin_request.path
      admin_request.exchange server server
      (record { status = 200; body = keys_body (the_key ∷ []) }) (the_key ∷ []) admin_served refl

server_keys : length server.store.db.keys ≤ 2
unfolding issue new_server load str_eq
server_keys = omega arith

abbrev moment : Moment
moment = times.clock 0

abbrev ring : SendMessage
ring = record { platform = codes "ios"; token = codes "a"; kind = codes "call"; payload = [] }

abbrev ringing : Message
ringing = record { token = codes "a"; kind = call; payload = [] }

ring_verdict : (look_at wiring 1 moment ring server).1 ≡ accept delivering ringing
unfolding look_at load issue new_server bind_token str_eq allow lookup insert ◌+ℤ◌ ◌-ℤ◌ ◌*ℤ◌
ring_verdict = refl

call_lim-IsLimiter : IsLimiter 600 (5 * token_unit) 0 server.call_lim
unfolding load new_server
call_lim-IsLimiter = new-IsLimiter 600 5 0

look_at-accepts_example :
    IsSenderOf wiring (codes "ios") delivering
    × IsKindOf (codes "call") call
    × (codes "a" ≢ [])
    × IsFreeFor 1 (codes "ios") (codes "a") server.store
    × (0 ≤ max_payload_bytes)
    × HasPaid 1 4 call server (look_at wiring 1 moment ring server).0
    × (ringing ≡ record { token = codes "a"; kind = call; payload = [] })
look_at-accepts_example =
    look_at-accepts wiring 600 (5 * token_unit) 0 1 moment ring server delivering ringing
      (omega arith) (omega arith) (omega arith) call_lim-IsLimiter ring_verdict

send_lim-IsLimiter : IsLimiter 7200 (60 * token_unit) 0 server.send_lim
unfolding load new_server
send_lim-IsLimiter = new-IsLimiter 7200 60 0

handle_send-admitted_example :
    (k : Key) × ((verify plain_hash (bearer_token header) 2 server.store).0 ≡ ok k)
    × (level
            (handle_send plain_hash wiring times header request server).0.send_lim
            (format_int k.id)
            3
          + token_unit
        ≡ level server.send_lim (format_int k.id) 3)
handle_send-admitted_example =
    handle_send-admitted plain_hash wiring 7200 (60 * token_unit) 0 times header request server
      answered (omega arith) (omega arith) (omega arith) send_lim-IsLimiter answered_lem

-- a send, and a request to revoke the key under another token than the admin's
abbrev requests : List Request
requests =
    record {
      method = codes "POST";
      path = codes "v1" ∷ codes "send" ∷ [];
      exchange = record admin_request.exchange { authorization = header };
    }
    ∷ record {
      method = codes "POST";
      path = codes "admin" ∷ codes "keys" ∷ codes "1" ∷ codes "revoke" ∷ [];
      exchange = record admin_request.exchange { authorization = codes "Bearer u" };
    }
    ∷ []
