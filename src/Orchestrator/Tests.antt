-- ===== src/Orchestrator/Tests.antt =====
-- Runs of the orchestrator.
use polyfast.Base.{
  ℕ, String, subst, arith, eq_iff, ◌+◌, true, false, ◌≡◌, none, some, List, [], ◌∷◌, refl, ok,
  str_ne, sym, ap, ◌∙◌,
}
use mathlib.Core.Option.{map as map_option}
use polyfast.Base.Int.{ℤ, pos}
use polyfast.Base.Lists.{IsIn, in_head, in_tail}
use polyfast.Float.Fixed.{fixed}
use polyfast.Position.Record.{PositionRecord, is_open}
use polyfast.Position.Tracker.{get_position, new_record}
use polyfast.Position.Samples.{pending_five, open_five, empty_tracker}
use polyfast.Base.Dict.{get, values}
use polyfast.Position.Samples.{tracker_of}
use polyfast.Claims.Record.{ClaimRecord, new_claim}
use polyfast.Claims.Manager.{settled_record}
use polyfast.Exit.Evaluator.{ExitConfig}
use polyfast.Settlement.Pass.{Settling}
use polyfast.Orchestrator.ExitCycle.{
  Inputs, Exits, trigger_exits, is_position_in_retry, reconcile_external,
}
use polyfast.Orchestrator.ExitCycle.Loop.{AreOpen, IsTriggered, trigger_exits-IsTriggered}
use polyfast.Orchestrator.ExitCycle.Reconcile.{AreKeyed, reconciled, get-reconcile_external}
use polyfast.Orchestrator.Restore.{Loaded, App, Report, restore_state}
use polyfast.Orchestrator.Restore.Found.{
  AreDistinct, none_same, more_distinct, restored_record, restore_state-restores,
}

abbrev two : List (PositionRecord ℤ)
two = record pending_five { position_id = "p2" } ∷ open_five ∷ []

abbrev loaded : Loaded ℤ
loaded = record { settings = []; events = []; prices = []; positions = two; claims = [] }

abbrev empty_app : App ℤ
empty_app = record {
  settings = [];
  registry = [];
  prices = [];
  tracker = empty_tracker;
  claims = record {
    claims = [];
    balance = record {
      available = pos 0;
      total = pos 0;
      updated_at = none;
      stale_threshold = 90;
      fetch_count = 0;
    };
    claim_count = 0;
    paper_mode = true;
    store_set = true;
    scheduled = [];
  };
  trading_enabled = false;
}

two-AreDistinct : AreDistinct two
unfolding new_record
two-AreDistinct =
    more_distinct
      (λ q i. elim i [
        | in_head same ↦ λ h. str_ne "p1" "p2" refl (sym (ap (λ r. r.position_id) same) ∙ h)
        | in_tail j ↦ elim j [ ]
      ])
      (more_distinct (λ q i. elim i [ ]) none_same)

restore_state-restores_example :
    let done = restore_state (λ s. s) loaded (some (pos 2000, none)) 60 empty_app in
    (report : Report) × (done.0 ≡ ok report)
    × (report.positions_restored + report.pending_cleaned ≡ 2)
    × ((p : PositionRecord ℤ)
        → IsIn p two
        → get_position done.1.tracker p.position_id ≡ some (restored_record 60 p))
    × (done.1.trading_enabled ≡ true)
restore_state-restores_example =
    restore_state-restores (λ s. s) loaded (some (pos 2000, none)) 60 empty_app two-AreDistinct

abbrev exit_config : ExitConfig ℤ
exit_config = record {
  tp_pct = pos 2000;
  sl_enabled = true;
  sl_pct = pos 1000;
  sl_jump_threshold = pos 15;
  tp_reevaluate = true;
  fs_time_enabled = true;
  fs_time_seconds = pos 3000;
  fs_pnl_enabled = true;
  fs_pnl_pct = pos 500;
}

abbrev inputs : Inputs ℤ
inputs = record {
  current_prices = ("BTC", pos 70) ∷ [];
  remaining_seconds = ("BTC", pos 12000) ∷ [];
  stale_assets = [];
}

-- One claim waits for a retry, another does not.
abbrev claim : String → String → ClaimRecord ℤ
claim id pid = new_claim id 300 "c1" pid "BTC" "UP"

abbrev settling : Settling ℤ
settling = record {
  claims = record (empty_app.claims) {
    claims = ("k1", claim "k1" "p1") ∷ ("k2", claim "k2" "p2") ∷ [];
  };
  retries =
      (
        "p1",
        record {
          position_id = "p1";
          claim_id = "k1";
          attempt_count = 1;
          next_retry_at = 400;
          exhausted = false;
        },
      )
      ∷ [];
  winner_cache = [];
  settlement_count = 0;
}

abbrev exits : Exits ℤ
exits = record {
  seller = record {
    tracker = tracker_of open_five;
    balance = empty_app.claims.balance;
    close_count = 0;
    retry_count = 0;
    last_close_fail_at = [];
  };
  last_prices = [];
  settling = settling;
  cycle_count = 0;
}

open_five-AreOpen : AreOpen (open_five ∷ []) exits
unfolding AreOpen get new_record
open_five-AreOpen p i = elim i [
  | in_head same ↦
      subst (λ r. (get_position exits.seller.tracker r.position_id ≡ some r) × (is_open r ≡ true))
        (sym same) (refl, refl)
  | in_tail j ↦ elim j [ ]
]

trigger_exits-IsTriggered_example :
    (n : ℕ) × (s' : Exits ℤ) × (trigger_exits exit_config inputs 60 (open_five ∷ []) exits
      ≡ (none, n, s'))
    × IsTriggered exit_config inputs 60 (open_five ∷ []) exits s'
trigger_exits-IsTriggered_example =
    trigger_exits-IsTriggered exit_config inputs 60 (open_five ∷ []) exits
      (more_distinct (λ q i. elim i [ ]) none_same) open_five-AreOpen

settling-AreKeyed : AreKeyed settling.claims
unfolding get new_claim values
settling-AreKeyed = record {
  own_key = λ cid r h. ground (arith, eq_iff "k1" cid, eq_iff "k2" cid);
  once = λ r i. elim i [
    | in_head e ↦ subst (λ c. get settling.claims.claims c.claim_id ≡ some c) (sym e) refl
    | in_tail j ↦ elim j [
      | in_head e ↦ subst (λ c. get settling.claims.claims c.claim_id ≡ some c) (sym e) refl
      | in_tail k ↦ elim k [ ]
    ]
  ];
}

get-reconcile_external_example :
    let s' = (reconcile_external 310 settling).1 in
    (get s'.claims.claims "k1"
      ≡ map_option (reconciled 310 settling) (get settling.claims.claims "k1"))
    × (s'.retries ≡ settling.retries)
get-reconcile_external_example = get-reconcile_external 310 settling "k1" settling-AreKeyed

-- The claim that waits stays, the other one is closed.
reconciled-pair :
    (reconciled 310 settling (claim "k1" "p1") ≡ claim "k1" "p1")
    × (reconciled 310 settling (claim "k2" "p2") ≡ settled_record 310 (claim "k2" "p2"))
unfolding reconciled new_claim get is_position_in_retry settled_record
reconciled-pair = (refl, refl)
