-- ===== src/Startup/Tests.antt =====
-- Starts of the process of cmd/relay/main.go, and the theorems at them.
use slim_m_relay.Prelude.{◌≡◌, refl, true, none, some, [], if◌then◌else◌}
use slim_m_relay.Text.{codes, str_eq, format_int}
use slim_m_relay.Push.{Sender}
use slim_m_relay.Apns.{apns_sender, replied, other_reason}
use slim_m_relay.Fcm.{cancelled, failed, fcm_sender}
use slim_m_relay.Config.{Config, Environment, load, getenv}
use slim_m_relay.Startup.{IsAndroidSender, IsIosSender, Host, fcm_endpoint, build_fcm, build_apns}
use slim_m_relay.Startup.Boot.{Process, start, start-senders}
use slim_m_relay.Keys.Migrate.{File, no_table, migrate, open_store}
use slim_m_relay.Api.Server.{new_server}
use slim_m_relay.Startup.Health.{listen_address, health_url}

-- every file can be read, and every credential is good
abbrev host : Host
host = record {
  read_file = λ path. some path;
  credentials = λ text. some (record { race = λ n. cancelled; project_id = codes "p" });
  json = record { error_body = λ s. none; error_details = λ s. none };
  network = λ n i r. failed;
  auth_key = λ path. some path;
  client = λ production key id team n i x. replied true (other_reason []);
}

abbrev configured : Config
configured = record (load (λ _. [])) {
  fcm_credentials_file = codes "f";
  apns_key_path = codes "k";
  apns_key_id = codes "i";
  apns_team_id = codes "t";
  apns_bundle_id = codes "b";
}

abbrev android : Sender
android = fcm_sender host.json (λ n. cancelled) host.network fcm_endpoint (codes "p")

abbrev iphone : Sender
iphone = apns_sender (λ n i x. replied true (other_reason [])) (codes "b")

built : (build_fcm host configured ≡ some android) × (build_apns host configured ≡ some iphone)
unfolding build_fcm build_apns
built = (refl, refl)

abbrev credentials : Environment
credentials key = if str_eq key (codes "RELAY_APNS_PRODUCTION") then [] else codes "7"

abbrev new_file : File
new_file = record { key_table = none; token_table = no_table; faults = [] }

abbrev process : Process
process = record {
  wiring = record {
    config = load credentials;
    ios_sender = apns_sender (λ n i x. replied true (other_reason [])) (codes "7");
    android_sender = android;
  };
  server =
      new_server (load credentials)
        (record {
          db = record { keys = []; key_seq = 0; tokens = []; token_seq = 0 };
          last_prune = 1;
          faults = [];
        })
        3;
  address = listen_address (load credentials);
}

process_started : start host credentials 1 2 3 new_file ≡ some process
unfolding start load build_fcm build_apns open_store str_eq getenv migrate
process_started = refl

start-senders_example :
    (process.wiring.config ≡ load credentials)
    × IsAndroidSender host (load credentials) process.wiring.android_sender
    × IsIosSender host (load credentials) process.wiring.ios_sender
start-senders_example = start-senders host credentials 1 2 3 new_file process process_started

-- RELAY_PORT=http: the relay listens on 8090, and the probe asks elsewhere
abbrev on_http : Environment
on_http key = if str_eq key (codes "RELAY_PORT") then codes "http" else []

probe_elsewhere :
    (listen_address (load on_http) ≡ codes ":8090")
    × (health_url on_http ≡ codes "http://127.0.0.1:http/healthz")
unfolding load health_url str_eq format_int
probe_elsewhere = (refl, refl)
