-- ===== src/Api/Threads/Tests/Owned.antt =====
-- A device token that is bound while requests to internal/api run, and the theorems at it.
use slim_m_relay.Prelude.{
  ℕ, zero, suc, ◌≡◌, refl, true, some, List, [], ◌∷◌, get_elem?, arith, subst, ap, some-injective,
  All,
}
use slim_m_relay.Prelude.Int.{◌*ℤ◌, ◌+ℤ◌, ◌-ℤ◌, wrap64}
use slim_m_relay.Prelude.Assoc.{lookup, insert}
use slim_m_relay.Text.{Str, codes, str_eq}
use slim_m_relay.RateLimit.{give_back}
use slim_m_relay.Config.{load}
use slim_m_relay.Push.{platform_text, ios, send_each}
use slim_m_relay.Dispatch.{attempt}
use slim_m_relay.Keys.Tables.{stamp_key, owner_of, insert_token, touch_token}
use slim_m_relay.Keys.Sql.{ok}
use slim_m_relay.Keys.Store.{issue, bind_in_transaction}
use slim_m_relay.Api.Http.{Parsed, value}
use slim_m_relay.Api.Server.{Server, new_server}
use slim_m_relay.Api.Send.{SendMessage, retention_of}
use slim_m_relay.Api.Router.{Request, send}
use slim_m_relay.Api.Threads.Owner.{ComesInTime, IsTimely, comes-IsTimely, Reach-owner}
use slim_m_relay.Api.Threads.{perform, bind}
use slim_m_relay.Api.Threads.Steps.{System, Thread, here}
use slim_m_relay.Api.Threads.Foreign.Outcomes.{IsRefusal}
use slim_m_relay.Api.Threads.Foreign.Refused.{Reach-IsSpared}
use slim_m_relay.Api.Threads.Programs.{key_program, program}
use slim_m_relay.Api.Threads.Steps.Schedule.{turns, turns-Reach}
use slim_m_relay.Api.Threads.Tests.{
  plain_hash, config, wiring, server, times, send_request, first_request, second_request, both_in,
  order, refused, replied,
}

-- the token bound to the second key, with both requests still to run
abbrev bound_server : Server
bound_server = (perform plain_hash wiring (bind 2 (codes "ios") (codes "a") 4) server).0

abbrev owned : System
owned = record both_in { server = bound_server }

owned_first :
    perform plain_hash wiring (bind 2 (codes "ios") (codes "a") 4) server ≡ (bound_server, ok 2)
unfolding perform issue new_server load str_eq bind_in_transaction
owned_first = refl

abbrev InTime : Request → Type 0
InTime = ComesInTime (retention_of config) 4

in_time : (key : Str) → InTime (send_request key)
unfolding retention_of load ◌*ℤ◌ wrap64
in_time key = λ n. (omega arith, omega arith)

threads-IsTimely : (i : ℕ) (t : Thread) → get_elem? owned.threads i ≡ some t → IsTimely 4 t
threads-IsTimely zero t e =
    subst (IsTimely 4) (some-injective _ _ e)
      (comes-IsTimely plain_hash wiring 4 first_request send (in_time (codes "smr_AQ")))
threads-IsTimely (suc zero) t e =
    subst (IsTimely 4) (some-injective _ _ e)
      (comes-IsTimely plain_hash wiring 4 second_request send (in_time (codes "smr_Ag")))
threads-IsTimely (suc (suc i)) t e = absurd (cc)

abbrev later_system : System
later_system = turns plain_hash wiring owned order

-- the first key asks once more
later_bind :
    perform plain_hash wiring (bind 1 (codes "ios") (codes "a") 9) later_system.server
    ≡ ((perform plain_hash wiring (bind 1 (codes "ios") (codes "a") 9) later_system.server).0, ok 2)
unfolding turns program perform load issue new_server str_eq give_back lookup insert attempt
    send_each ◌+ℤ◌ ◌-ℤ◌ ◌*ℤ◌ stamp_key owner_of insert_token bind_in_transaction touch_token
later_bind = refl

Reach-owner_example : ◌≡◌ {A = ℕ} 2 2
Reach-owner_example =
    Reach-owner plain_hash wiring 4 2 1 2 9 (codes "ios") (codes "a") server
      (perform plain_hash wiring (bind 1 (codes "ios") (codes "a") 9) later_system.server).0 owned
      later_system owned_first threads-IsTimely
      (turns-Reach plain_hash wiring InTime owned owned order here refl) later_bind

-- the first request is past `Verify`, and then runs to its end
abbrev past_verify : System
past_verify = turns plain_hash wiring owned (0 ∷ 0 ∷ [])

abbrev ran_out : System
ran_out = turns plain_hash wiring past_verify (0 ∷ 1 ∷ 0 ∷ 1 ∷ 0 ∷ 1 ∷ 0 ∷ 0 ∷ [])

abbrev first_key : Thread
first_key = record {
  request = first_request;
  endpoint = send;
  rest = key_program wiring times first_request.exchange.messages 1;
}

past_verify_thread : get_elem? past_verify.threads 0 ≡ some first_key
unfolding turns program perform load issue new_server str_eq stamp_key
past_verify_thread = refl

past_verify_running : past_verify.running ≡ true
unfolding turns program new_server
past_verify_running = refl

ran_out_thread : get_elem? ran_out.threads 0 ≡ some replied
unfolding turns program perform load issue new_server str_eq give_back lookup insert attempt
    send_each ◌+ℤ◌ ◌-ℤ◌ ◌*ℤ◌ stamp_key owner_of insert_token bind_in_transaction touch_token
ran_out_thread = refl

for_ios :
    (ms : List SendMessage)
    → first_request.exchange.messages.parsed ≡ value ms
    → All (λ m. m.token ≡ codes "a" → m.platform ≡ platform_text ios) ms
unfolding platform_text
for_ios ms e =
    subst (All (λ (m : SendMessage). m.token ≡ codes "a" → m.platform ≡ platform_text ios))
      (ap (λ (p : Parsed (List SendMessage)). value_or [] p) e) ((λ q. refl), tt)
  where
    value_or : List SendMessage → Parsed (List SendMessage) → List SendMessage
    value_or old (value ms) = ms
    value_or old _ = old

owned_by_second :
    perform plain_hash wiring (bind 2 (platform_text ios) (codes "a") 4) server
    ≡ (bound_server, ok 2)
unfolding platform_text
owned_by_second = owned_first

Reach-IsSpared_example : All (λ r. r.token ≡ codes "a" → IsRefusal r.status) refused
Reach-IsSpared_example =
    Reach-IsSpared plain_hash wiring 4 2 1 0 ios (codes "a") server owned past_verify ran_out
      first_key replied times first_request.exchange.messages refused (omega arith) owned_by_second
      threads-IsTimely (turns-Reach plain_hash wiring InTime owned owned (0 ∷ 0 ∷ []) here refl)
      past_verify_thread refl for_ios
      (turns-Reach plain_hash wiring InTime past_verify past_verify
        (0 ∷ 1 ∷ 0 ∷ 1 ∷ 0 ∷ 1 ∷ 0 ∷ 0 ∷ []) here past_verify_running)
      ran_out_thread refl
