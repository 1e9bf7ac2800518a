-- ===== src/Api/Threads/Tests.antt =====
-- Requests to internal/api that run side by side, and the theorems at them.
mod Owned
mod Closing
use slim_m_relay.Prelude.{
  ◌+◌, ℕ, zero, suc, ◌≤◌, ◌≡◌, ◌≢◌, refl, true, false, Option, none, some, List, [], ◌∷◌, ◌++◌,
  length, get_elem?, arith, ◌*◌, subst, ap, some-injective, All,
}
use slim_m_relay.Prelude.Int.{pos, ◌*ℤ◌, ◌+ℤ◌, ◌-ℤ◌, wrap64}
use slim_m_relay.Prelude.Assoc.{lookup, insert}
use slim_m_relay.Text.{format_int, Str, codes, str_eq}
use slim_m_relay.RateLimit.{give_back}
use slim_m_relay.Config.{Config, load}
use slim_m_relay.Push.{
  platform_text, ios, delivered, forbidden, Outcome, Sender, unconfigured, send_each,
}
use slim_m_relay.Dispatch.{attempt}
use slim_m_relay.Keys.Tables.{
  stamp_key, owner_of, insert_token, touch_token, revoke_key, rows_affected,
}
use slim_m_relay.Keys.Sql.{Store, ok}
use slim_m_relay.Keys.Store.{issue, scan_key, bind_in_transaction, revoke}
use slim_m_relay.Api.Http.{Parsed, value, Response}
use slim_m_relay.Api.Server.{Wiring, Server, new_server}
use slim_m_relay.Api.Send.{SendMessage, SendTimes, retention_of}
use slim_m_relay.Api.Send.Results.{Answers}
use slim_m_relay.Api.Send.Replies.{success}
use slim_m_relay.Api.Router.{Request, match, send, serve_endpoint}
use slim_m_relay.Api.Threads.Owner.{ComesInTime, IsTimely, comes-IsTimely, Reach-owner}
use slim_m_relay.Api.Threads.{
  run_alone, perform, finish, bind, act, stamp, revoke_id, Answer, Program, ◌>>=◌,
}
use slim_m_relay.Api.Threads.Steps.{System, Thread, started, Reach, here, later, come_in, signal}
use slim_m_relay.Api.Threads.Bounds.{request_acts}
use slim_m_relay.Api.Threads.Cutoff.{Reach-NotFor}
use slim_m_relay.RateLimit.{token_unit}
use slim_m_relay.RateLimit.Ledger.{InTurn, refunded}
use slim_m_relay.Api.Threads.Drain.{steps, shutdown_bound}
use slim_m_relay.Api.Threads.Drain.Acts.{IsReplied}
use slim_m_relay.Api.Threads.Foreign.Outcomes.{IsRefusal}
use slim_m_relay.Api.Threads.Foreign.Refused.{Reach-IsSpared}
use slim_m_relay.Api.Threads.Programs.{key_program, stamped_key, verified_program, program}
use slim_m_relay.Api.Threads.Serial.{program-serve_endpoint}
use slim_m_relay.Api.Threads.Safety.{Reach-Answers, Reach-le-ceiling}
use slim_m_relay.Api.Threads.Steps.Schedule.{arrived, turns, turns-Reach, turns-Runs}

abbrev pub plain_hash : Str → Str
plain_hash s = s

abbrev delivering : Sender
delivering = record { send = λ n ms. send_each (λ _ _. delivered) 0 ms }

-- room for two keys
abbrev pub config : Config
config = record (load (λ _. [])) { max_registrations = pos 2 }

abbrev pub wiring : Wiring
wiring = record { config = config; ios_sender = delivering; android_sender = unconfigured }

abbrev pub empty_store : Store
empty_store = record {
  db = record { keys = []; key_seq = 0; tokens = []; token_seq = 0 };
  last_prune = 0;
  faults = [];
}

-- two keys issued
abbrev pub server : Server
server =
    new_server config
      (issue plain_hash (some (2 ∷ [])) [] (pos 2) 1
        (issue plain_hash (some (1 ∷ [])) [] (pos 2) 1 empty_store).1).1
      0

-- one message for one token
abbrev pub message : SendMessage
message = record { platform = codes "ios"; token = codes "a"; kind = codes "call"; payload = [] }

abbrev pub times : SendTimes
times = record {
  verify_at = 2;
  allow_at = 3;
  clock = λ _. record {
    allow_at = 4;
    bind_at = 4;
    prune_at = record { since = 5; stamp = 5; cutoff = 5 };
  };
  cut = 1;
}

abbrev pub send_request : Str → Request
send_request key = record {
  method = codes "POST";
  path = codes "v1" ∷ codes "send" ∷ [];
  exchange = record {
    authorization = codes "Bearer " ++ key;
    registration = record {
      remote = codes "10.0.0.1:80";
      forwarded_for = [];
      public_url = record { size = 0; parsed = value [] };
    };
    register_times = record { allow_at = 5; issue_at = 6; raw = some (3 ∷ []) };
    messages = record { size = 90; parsed = value (message ∷ []) };
    send_times = times;
    revoke_at = 7;
  };
}

abbrev pub first_request : Request
first_request = send_request (codes "smr_AQ")

abbrev pub second_request : Request
second_request = send_request (codes "smr_Ag")

abbrev pub Any : Request → Type 0
Any r = Unit

-- two servers with a call for the same device, at once
abbrev pub both_in : System
both_in =
    arrived plain_hash wiring (arrived plain_hash wiring (started server) first_request send)
      second_request send

pub is_send : match config.admin_token first_request.method first_request.path ≡ some send
unfolding match load str_eq
is_send = refl

abbrev pub both_in_path : Reach plain_hash wiring Any (started server) both_in
both_in_path =
    later (later here (come_in first_request send tt refl is_send refl))
      (come_in second_request send tt refl is_send refl)

-- the acts take turns, and the second thread is the first to bind the token
abbrev pub order : List ℕ
order = 0 ∷ 1 ∷ 0 ∷ 1 ∷ 0 ∷ 1 ∷ 0 ∷ 1 ∷ 1 ∷ 0 ∷ 1 ∷ 0 ∷ 0 ∷ []

abbrev pub after : System
after = turns plain_hash wiring both_in order

abbrev pub refused : List Outcome
refused = record { token = codes "a"; status = forbidden } ∷ []

abbrev pub replied : Thread
replied = record { request = first_request; endpoint = send; rest = finish (success refused) }

after_rest : get_elem? after.threads 0 ≡ some replied
unfolding turns program perform load issue new_server str_eq give_back lookup insert attempt
    send_each ◌+ℤ◌ ◌-ℤ◌ ◌*ℤ◌ stamp_key owner_of insert_token
after_rest = refl

Reach-Answers_example : Answers (message ∷ []) refused
Reach-Answers_example =
    Reach-Answers plain_hash wiring Any server after 0 replied (message ∷ []) refused
      (turns-Reach plain_hash wiring Any (started server) both_in order both_in_path refl)
      after_rest refl refl refl

server_keys : length server.store.db.keys ≤ 2
unfolding issue new_server load str_eq
server_keys = omega arith

Reach-le-ceiling_example : length after.server.store.db.keys ≤ 2
Reach-le-ceiling_example =
    Reach-le-ceiling plain_hash wiring Any 2 (started server) after refl (omega arith) server_keys
      (turns-Reach plain_hash wiring Any (started server) both_in order both_in_path refl)
