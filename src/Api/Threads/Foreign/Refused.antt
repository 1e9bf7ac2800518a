-- ===== src/Api/Threads/Foreign/Refused.antt =====
-- Requests to internal/api side by side: no delivery to a device token of another key.
use slim_m_relay.Prelude.{
  ℕ, ◌<◌, ◌≡◌, ◌≢◌, refl, sym, ◌∙◌, ap, some, some-injective, List, length, get_elem?, get_elem?-lt,
  All, subst, arith,
}
use slim_m_relay.Text.{Str}
use slim_m_relay.Keys.Sql.{ok}
use slim_m_relay.Push.{Platform, platform_text, Outcome}
use slim_m_relay.Api.Http.{Payload, Response, value}
use slim_m_relay.Api.Server.{Wiring, Server}
use slim_m_relay.Api.Send.{SendMessage, SendTimes, retention_of}
use slim_m_relay.Api.Send.Replies.{success}
use slim_m_relay.Api.Threads.{
  Act, Answer, Program, finish, act, perform, allow_register, allow_send, allow_call, return_call,
  find_key, stamp, issue_key, list_all, revoke_id, bind, prune_due, sweep_tokens,
}
use slim_m_relay.Api.Threads.Programs.{key_program}
use slim_m_relay.Api.Threads.Promises.{Promises}
use slim_m_relay.Api.Threads.Owner.{
  IsTimely, ComesInTime, Held, Held-IsKept, bound-Held, Held-owner,
}
use slim_m_relay.Api.Threads.Foreign.{AnyAct, ComesBack, IsSparing, key-IsSparing}
use slim_m_relay.Api.Threads.Foreign.Outcomes.{IsRefusal}
use slim_m_relay.Api.Threads.Steps.{Thread, System, Reach}
use slim_m_relay.Api.Threads.Steps.Kept.{IsKept, Reach-Holds}

module _ (hash_key : Str → Str) (w : Wiring) (start k n : ℕ) (differ : n ≢ k) (platform : Platform)
    (token : Str) where
  -- every bind of a held token comes back with its owner
  perform-ComesBack :
      (a : Act) (s : Server)
      → Held hash_key w start k (platform_text platform) token s
      → ComesBack k n differ platform token a (perform hash_key w a s).1
  unfolding perform Held
  perform-ComesBack (bind id p t now) s held = λ on same o e.
      Held-owner hash_key w start k (platform_text platform) token id o now s held (
        subst (λ (z : Str). (perform hash_key w (bind id z token now) s).1 ≡ ok o) on
          (subst (λ (z : Str). (perform hash_key w (bind id p z now) s).1 ≡ ok o) same e))
  perform-ComesBack (allow_register key now) s held = tt
  perform-ComesBack (allow_send id now) s held = tt
  perform-ComesBack (allow_call id now) s held = tt
  perform-ComesBack (return_call id) s held = tt
  perform-ComesBack (find_key hash) s held = tt
  perform-ComesBack (stamp id now) s held = tt
  perform-ComesBack (issue_key raw label now) s held = tt
  perform-ComesBack list_all s held = tt
  perform-ComesBack (revoke_id id now) s held = tt
  perform-ComesBack (prune_due since mark) s held = tt
  perform-ComesBack (sweep_tokens cutoff) s held = tt

  module _ (i base : ℕ) (early : i < base) where
    -- what thread `i` promises besides
    Sparing : ℕ → Thread → Type 0
    Sparing j t =
        IsTimely start t
        × (j ≡ i
            → Promises (AnyAct k n differ platform token) (ComesBack k n differ platform token)
                (IsSparing k n differ platform token w) t.rest)

    Sparing-IsKept :
        IsKept hash_key w
          (ComesInTime (retention_of w.config) start)
          base
          (Held hash_key w start k (platform_text platform) token)
          Sparing
    unfolding Sparing
    Sparing-IsKept =
        let owned = Held-IsKept hash_key w start k (platform_text platform) token in
        record {
          comes_in = λ j r endpoint le c.
              (owned.comes_in j r endpoint (omega arith) c, λ same. absurd (omega arith));
          advances = λ j t a f s e both held.
              let kept = owned.advances j t a f s e both.0 held in
              (kept.0, (kept.1, λ same. next t a f s e (both.1 same) held));
          panics = λ j t both. (owned.panics j t both.0, λ same results e. absurd (cc));
        }
      where
        next :
            (t : Thread) (a : Act) (f : Answer a → Program Response) (s : Server)
            → t.rest ≡ act a f
            → Promises
                (AnyAct k n differ platform token)
                (ComesBack k n differ platform token)
                (IsSparing k n differ platform token w)
                t.rest
            → Held hash_key w start k (platform_text platform) token s
            → Promises
                (AnyAct k n differ platform token)
                (ComesBack k n differ platform token)
                (IsSparing k n differ platform token w)
                (f (perform hash_key w a s).1)
        next t a f s e h held =
            let both : Promises (AnyAct k n differ platform token)
                (ComesBack k n differ platform token) (IsSparing k n differ platform token w)
                (act a f) =
              subst
                (Promises (AnyAct k n differ platform token) (ComesBack k n differ platform token)
                  (IsSparing k n differ platform token w))
                e h in
            both.1 (perform hash_key w a s).1 (perform-ComesBack a s held)

-- Once a transaction of `BindToken` for key `k` has come back with `k`, the reply to a send that
-- `Verify` then lets through for another key never says of the token that it was delivered to, is
-- unregistered or was not attempted, however the requests interleave, fail or panic. The requests read
-- the clock from then on, and sweep, if at all, by a cutoff within the retention; and the messages of
-- that send for the token name the platform on which it is bound.
pub Reach-IsSpared :
    (hash_key : Str → Str) (w : Wiring) (start k n i : ℕ) (platform : Platform) (token : Str)
    (s : Server) (p mid q : System) (t t' : Thread) (times : SendTimes)
    (body : Payload (List SendMessage)) (results : List Outcome)
    → n ≢ k
    → perform hash_key w (bind k (platform_text platform) token start) s ≡ (p.server, ok k)
    → ((j : ℕ) (u : Thread) → get_elem? p.threads j ≡ some u → IsTimely start u)
    → Reach hash_key w (ComesInTime (retention_of w.config) start) p mid
    → get_elem? mid.threads i ≡ some t
    → t.rest ≡ key_program w times body n
    → ((ms : List SendMessage)
        → body.parsed ≡ value ms
        → All (λ m. m.token ≡ token → m.platform ≡ platform_text platform) ms)
    → Reach hash_key w (ComesInTime (retention_of w.config) start) mid q
    → get_elem? q.threads i ≡ some t'
    → t'.rest ≡ finish (success results)
    → All (λ r. r.token ≡ token → IsRefusal r.status) results
unfolding Sparing
Reach-IsSpared hash_key w start k n i platform token s p mid q t t' times body results differ first
      timely before at rest on after done replied =
    let name = platform_text platform in
    let kept =
      Reach-Holds hash_key w (ComesInTime (retention_of w.config) start) 0
        (Held hash_key w start k name token) (λ j. IsTimely start) p mid
        (Held-IsKept hash_key w start k name token) before
        (record {
          older = omega arith;
          server = bound-Held hash_key w start k name token s p.server first;
          each = timely;
        }) in
    let early : i < length mid.threads = get_elem?-lt i mid.threads t at in
    let promised : Promises (AnyAct k n differ platform token) (ComesBack k n differ platform token)
        (IsSparing k n differ platform token w) t.rest =
      subst
        (Promises (AnyAct k n differ platform token) (ComesBack k n differ platform token)
          (IsSparing k n differ platform token w))
        (sym rest) (key-IsSparing k n differ platform token w times body on) in
    let spared =
      Reach-Holds hash_key w (ComesInTime (retention_of w.config) start) (length mid.threads)
        (Held hash_key w start k name token)
        (Sparing hash_key w start k n differ platform token i (length mid.threads) early) mid q
        (Sparing-IsKept hash_key w start k n differ platform token i (length mid.threads) early)
        after
        (record {
          older = omega arith;
          server = kept.server;
          each = λ j u e. (
            kept.each j u e,
            λ same.
                subst
                  (λ (z : Thread).
                    Promises (AnyAct k n differ platform token)
                      (ComesBack k n differ platform token) (IsSparing k n differ platform token w)
                      z.rest)
                  (some-injective _ _ (sym at ∙ ap (get_elem? mid.threads) (sym same) ∙ e))
                  promised,
          );
        }) in
    let last : IsSparing k n differ platform token w (success results) =
      subst
        (Promises (AnyAct k n differ platform token) (ComesBack k n differ platform token)
          (IsSparing k n differ platform token w))
        replied ((spared.each i t' done).1 refl) in
    last results refl
