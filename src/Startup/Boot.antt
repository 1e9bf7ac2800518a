-- ===== src/Startup/Boot.antt =====
-- `main` of cmd/relay/main.go up to the server that it starts.
use slim_m_relay.Prelude.{ℕ, ◌≡◌, ap, sym, Option, none, some, some-injective}
use slim_m_relay.Text.{Str}
use slim_m_relay.Push.{Sender}
use slim_m_relay.Keys.Sql.{Store}
use slim_m_relay.Keys.Migrate.{File, open_store}
use slim_m_relay.Config.{Config, Environment, load}
use slim_m_relay.Api.Server.{Wiring, Server, new_server}
use slim_m_relay.Startup.{
  Host, build_fcm, build_apns, IsAndroidSender, IsIosSender, build_fcm-IsAndroidSender,
  build_apns-IsIosSender,
}
use slim_m_relay.Startup.Health.{listen_address}

-- what the process serves with: the settings and senders, the state, and the address
pub record Process : Type 0 where
  pub wiring : Wiring
  pub server : Server
  pub address : Str

-- the rest of `main`, once both senders are there and `keys.Open` is back
abbrev pub serve_with : Config → ℕ → Sender → Sender → Option Store → Option Process
serve_with cfg now android iphone none = none
serve_with cfg now android iphone (some store) = some (record {
  wiring = record { config = cfg; ios_sender = iphone; android_sender = android };
  server = new_server cfg store now;
  address = listen_address cfg;
})

abbrev pub with_senders : Config → ℕ → Option Store → Option Sender → Option Sender → Option Process
with_senders cfg now store none iphone = none
with_senders cfg now store (some android) none = none
with_senders cfg now store (some android) (some iphone) = serve_with cfg now android iphone store

-- `none` is log.Fatalf; `opened_at`, `filled_at` and `now` are readings of the clock
unfoldable pub start : Host → Environment → ℕ → ℕ → ℕ → File → Option Process
unfolding load build_fcm build_apns open_store new_server
start host env opened_at filled_at now file =
    with_senders (load env) now (open_store opened_at filled_at file).0 (build_fcm host (load env))
      (build_apns host (load env))

served_senders :
    (cfg : Config) (now : ℕ) (store : Option Store) (android iphone : Option Sender) (p : Process)
    → with_senders cfg now store android iphone ≡ some p
    → (android ≡ some p.wiring.android_sender)
      × (iphone ≡ some p.wiring.ios_sender)
      × (p.wiring.config ≡ cfg)
served_senders cfg now store none iphone p e = absurd (cc)
served_senders cfg now store (some android) none p e = absurd (cc)
served_senders cfg now none (some android) (some iphone) p e = absurd (cc)
served_senders cfg now (some store) (some android) (some iphone) p e =
    let made = some-injective _ _ e in
    (
      ap (λ (q : Process). some q.wiring.android_sender) made,
      ap (λ (q : Process). some q.wiring.ios_sender) made,
      sym (ap (λ (q : Process). q.wiring.config) made),
    )

-- A process that comes to serve requests does so with the settings of its environment, and each
-- platform with the sender that they ask for: the stub exactly where they are missing in part, and
-- otherwise a sender with the credentials that were read, for the bundle or for a project with a name.
pub start-senders :
    (host : Host) (env : Environment) (opened_at filled_at now : ℕ) (file : File) (p : Process)
    → start host env opened_at filled_at now file ≡ some p
    → (p.wiring.config ≡ load env)
      × IsAndroidSender host (load env) p.wiring.android_sender
      × IsIosSender host (load env) p.wiring.ios_sender
unfolding start
start-senders host env opened_at filled_at now file p e =
    let (android, iphone, settings) =
      served_senders (load env) now (open_store opened_at filled_at file).0
        (build_fcm host (load env)) (build_apns host (load env)) p e in
    (
      settings,
      build_fcm-IsAndroidSender host (load env) p.wiring.android_sender android,
      build_apns-IsIosSender host (load env) p.wiring.ios_sender iphone,
    )
