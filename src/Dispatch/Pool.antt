-- ===== src/Dispatch/Pool.antt =====
-- The goroutines of `dispatch` in internal/api/send.go as a step relation.
use slim_m_relay.Prelude.{
  ℕ, suc, ◌-◌, ◌<◌, ◌≡◌, Bool, true, false, some, List, length, get_elem?, set, ◌==◌, if◌then◌else◌,
}
use slim_m_relay.Push.{Outcome}
use slim_m_relay.Dispatch.{Item, attempt}

-- where an item is: before the feed loop, with a worker, or answered
pub data Phase : Type 0 where
  waiting sending sent : Phase

-- `idle` goroutines wait for an item, and `active` ones are in a `Send`.
pub record Pool : Type 0 where
  pub handed : ℕ
  pub feeding : Bool
  pub expired : Bool
  pub idle : ℕ
  pub active : ℕ
  pub phase : ℕ → Phase
  pub results : List Outcome

abbrev pub update : (ℕ → Phase) → ℕ → Phase → ℕ → Phase
update f i p j = if i == j then p else f j

-- `workers` goroutines are started
abbrev pub start : ℕ → List Outcome → Pool
start workers results = record {
  handed = 0;
  feeding = true;
  expired = false;
  idle = workers;
  active = 0;
  phase = λ _. waiting;
  results = results;
}

module _ (items : List Item) where
  pub data Step (p q : Pool) : Type 0 where
    -- `work <- idx` to a goroutine that receives; also after the deadline, as `select` picks at random
    hand :
        p.feeding ≡ true
        → p.handed < length items
        → 0 < p.idle
        → q ≡ record p {
          handed = suc p.handed;
          idle = p.idle - 1;
          active = suc p.active;
          phase = update p.phase p.handed sending;
        }
        → Step p q
    -- `ctx` is done: the deadline fires, or the client goes away
    expire : p.expired ≡ false → q ≡ record p { expired = true } → Step p q
    -- `<-ctx.Done()`: `break feed`, and the channel is closed
    stop :
        p.feeding ≡ true
        → p.expired ≡ true
        → p.handed < length items
        → q ≡ record p { feeding = false }
        → Step p q
    -- the feed loop ends, and the channel is closed
    close : p.feeding ≡ true → p.handed ≡ length items → q ≡ record p { feeding = false } → Step p q
    -- a goroutine's `Send` comes back, and it receives again
    finish :
        (n : ℕ) (item : Item)
        → p.phase n ≡ sending
        → get_elem? items n ≡ some item
        → q ≡ record p {
          idle = suc p.idle;
          active = p.active - 1;
          phase = update p.phase n sent;
          results = set p.results item.result_idx (attempt n item);
        }
        → Step p q

  pub data Reach (p : Pool) : Pool → Type 0 where
    here : Reach p p
    later : {q r : Pool} → Reach p q → Step q r → Reach p r

-- `wg.Wait()` returns
abbrev pub IsDone : Pool → Type 0
IsDone p = (p.feeding ≡ false) × (p.active ≡ 0)
