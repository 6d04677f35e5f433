-- ===== src/Orchestrator/Restore.antt =====
-- `Orchestrator.restore_state` and `Orchestrator._verify_balance` (backend/orchestrator/wiring.py): the state that
-- the program builds at startup from what the stores gave.
pub mod Found
use polyfast.Base.{
  ℕ, ◌+◌, String, Bool, true, false, Option, none, some, List, [], ◌∷◌, if◌then◌else◌, Error,
  Result, ok, err, ltb,
}
use polyfast.Base.Dict.{Dict, put}
use polyfast.Base.Lists.{length}
use polyfast.Float.{Float}
use polyfast.Balance.{update}
use polyfast.Position.Record.{PositionRecord, is_pending}
use polyfast.Position.Tracker.{Tracker, Call, restore_position, reject_fill, open_position_count}
use polyfast.Claims.Record.{ClaimRecord}
use polyfast.Claims.Manager.{Claims, restore_claim, pending_count}
use polyfast.Ptb.Record.{PtbRecord}
use polyfast.Registry.Status.{RegistryRecord}
use polyfast.Settings.Coin.{CoinSettings}
use polyfast.Settings.Store.{Store, set_settings}

-- What the stores' loads gave: `load_all`, `load_active`, `load_locked`, `load_all`, `load_all`.
pub record Loaded (N : Type 0) : Type 0 where
  pub settings : List (CoinSettings N)
  pub events : List RegistryRecord
  pub prices : List (PtbRecord N)
  pub positions : List (PositionRecord N)
  pub claims : List (ClaimRecord N)

-- The components' states.
pub record App (N : Type 0) : Type 0 where
  pub settings : Store N
  pub registry : Dict RegistryRecord
  pub prices : Dict (PtbRecord N)
  pub tracker : Tracker N
  pub claims : Claims N
  pub trading_enabled : Bool

-- The report that is returned.
pub record Report : Type 0 where
  pub positions_restored : ℕ
  pub pending_cleaned : ℕ
  pub claims_restored : ℕ
  pub settings_restored : ℕ
  pub registry_restored : ℕ
  pub ptb_restored : ℕ
  pub open_positions : ℕ
  pub pending_claims : ℕ
  pub trading_mode_normal : Bool  -- "NORMAL", else "DEGRADED"
  pub session_resumed : Bool  -- "resumed", else "new"

-- `for rec in records: d[rec.key] = rec`
unfoldable pub put_all : {A : Type 0} → (A → String) → List A → Dict A → Dict A
put_all key [] d = d
put_all key (a ∷ rest) d = put_all key rest (put d (key a) a)

-- The loop's variables over the positions.
pub record Restoring (N : Type 0) : Type 0 where
  pub restored : ℕ
  pub cleaned : ℕ
  pub tracker : Tracker N

module _ {N : Type 0} (upper : String → String) where
  unfoldable pub restore_settings : List (CoinSettings N) → Store N → Store N
  restore_settings [] s = s
  restore_settings (c ∷ cs) s = restore_settings cs (set_settings upper c s)

module _ {N : Type 0} where
  unfoldable pub restore_claims : List (ClaimRecord N) → Claims N → Claims N
  restore_claims [] s = s
  restore_claims (c ∷ cs) s = restore_claims cs (restore_claim c s)

module _ {N : Type 0} ⦃f : Float N⦄ where
  abbrev pub after_reject : Restoring N → Call N → Option Error × Restoring N
  after_reject s (ok r, t) = (none, record s { cleaned = s.cleaned + 1; tracker = t })
  after_reject s (err e, t) = (some e, record s { tracker = t })

  -- One turn of the loop: an exception, or none, and the variables. A pending position is restored
  -- and rejected.
  unfoldable pub restore_one : ℕ → PositionRecord N → Restoring N → Option Error × Restoring N
  restore_one now p s =
      let t = restore_position p s.tracker in
      if is_pending p
      then after_reject s (reject_fill p.position_id now t)
      else (none, record s { restored = s.restored + 1; tracker = t })

  unfoldable pub restore_positions :
      ℕ → List (PositionRecord N) → Restoring N → Option Error × Restoring N
  restore_positions now [] s = (none, s)
  restore_positions now (p ∷ ps) s =
      let (raised, s') = restore_one now p s in
      elim raised [ none ↦ restore_positions now ps s' | some e ↦ (some e, s') ]

  -- `_verify_balance`, where `get_balance` gave the available balance and perhaps a total; `none`
  -- where it gave nothing or raised.
  unfoldable pub verify_balance : Option (N × Option N) → ℕ → Claims N → Bool × Claims N
  verify_balance none now c = (false, c)
  verify_balance (some (available, total)) now c =
      (true, record c { balance = update available total now c.balance })

  -- The steps after the positions.
  unfoldable pub finish_restore :
      Loaded N → Option (N × Option N) → ℕ → Restoring N → App N → Report × App N
  finish_restore l reply now s a =
      let verified = verify_balance reply now (restore_claims l.claims a.claims) in
      (
        record {
          positions_restored = s.restored;
          pending_cleaned = s.cleaned;
          claims_restored = length l.claims;
          settings_restored = length l.settings;
          registry_restored = length l.events;
          ptb_restored = length l.prices;
          open_positions = open_position_count s.tracker;
          pending_claims = pending_count (restore_claims l.claims a.claims);
          trading_mode_normal = verified.0;
          session_resumed = ltb 0 s.restored;
        },
        record a { claims = verified.1; trading_enabled = verified.0 },
      )

  after_positions :
      Loaded N
      → Option (N × Option N)
      → ℕ
      → App N
      → Option Error × Restoring N
      → Result Report × App N
  after_positions l reply now a (some e, s) = (err e, record a { tracker = s.tracker })
  after_positions l reply now a (none, s) =
      let done = finish_restore l reply now s (record a { tracker = s.tracker }) in
      (ok done.0, done.1)

  -- `restore_state`
  unfoldable pub restore_state :
      (String → String) → Loaded N → Option (N × Option N) → ℕ → App N → Result Report × App N
  unfolding after_positions
  restore_state upper l reply now a =
      let filled = record a {
        settings = restore_settings upper l.settings a.settings;
        registry = put_all (λ r. r.condition_id) l.events a.registry;
        prices = put_all (λ r. r.condition_id) l.prices a.prices;
      } in
      after_positions l reply now filled (
        restore_positions now l.positions
          (record { restored = 0; cleaned = 0; tracker = a.tracker }))
