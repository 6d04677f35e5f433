-- ===== src/Market/LivePrice/Runs.antt =====
-- Runs of the pipeline's calls, and one event's view of them. `get_record_by_asset` is left out: which
-- record it checks depends on all events.
use polyfast.Base.{
  ℕ, String, ◌≡◌, Option, none, some, List, [], ◌∷◌, if◌then◌else◌, str_eq, eq_iff, refl, ap,
  Bool-cases, Option-cases, inl, inr, ◌∙◌, arith,
}
use mathlib.Core.Option.{map as map_option}
use polyfast.Base.Dict.{Dict, get, put, get-put, get-remove}
use polyfast.Float.{Float}
use polyfast.Market.LivePrice.{
  LivePriceRecord, Pipeline, OutcomePrices, check_freshness, new_price, ws_record, gamma_record,
  price_of, update_from_ws, update_from_gamma, get_record, get_all_records, check_all, clear_event,
}

-- A call that may change the records.
pub data PriceCall (N : Type 0) : Type 0 where
  from_ws : String → String → String → N → N → ℕ → PriceCall N
  from_gamma : String → String → OutcomePrices N → N → ℕ → PriceCall N
  look : String → ℕ → PriceCall N
  look_all : ℕ → PriceCall N
  clear : String → PriceCall N

module _ {N : Type 0} ⦃f : Float N⦄ (lower : String → String) where
  unfoldable pub apply : PriceCall N → Pipeline N → Pipeline N
  apply (from_ws cid asset side bid ask now) p = update_from_ws lower cid asset side bid ask now p
  apply (from_gamma cid asset raw spread now) p = update_from_gamma cid asset raw spread now p
  apply (look cid now) p = (get_record cid now p).1
  apply (look_all now) p = (get_all_records now p).1
  apply (clear cid) p = clear_event cid p

  unfoldable pub run : List (PriceCall N) → Pipeline N → Pipeline N
  run [] p = p
  run (c ∷ cs) p = run cs (apply c p)

-- One event alone: its record, if it has one.
module _ {N : Type 0} ⦃f : Float N⦄ (lower : String → String) (cid : String) (threshold : ℕ) where
  abbrev pub own_or_new : String → Option (LivePriceRecord N) → LivePriceRecord N
  own_or_new asset none = new_price cid asset threshold
  own_or_new asset (some r) = r

  unfoldable pub event_step : PriceCall N → Option (LivePriceRecord N) → Option (LivePriceRecord N)
  event_step (from_ws c asset side bid ask now) o =
      if str_eq c cid then some (ws_record lower side bid ask now (own_or_new asset o)) else o
  event_step (from_gamma c asset raw spread now) o =
      if str_eq c cid then some (gamma_record raw spread now (own_or_new asset o)) else o
  event_step (look c now) o = if str_eq c cid then map_option (check_freshness now) o else o
  event_step (look_all now) o = map_option (check_freshness now) o
  event_step (clear c) o = if str_eq c cid then none else o

  unfoldable pub event_run :
      List (PriceCall N) → Option (LivePriceRecord N) → Option (LivePriceRecord N)
  event_run [] o = o
  event_run (c ∷ cs) o = event_run cs (event_step c o)

module _ {N : Type 0} where
  get-check_all :
      (now : ℕ) (d : Dict (LivePriceRecord N)) (k : String)
      → get (check_all now d) k ≡ map_option (check_freshness now) (get d k)
  unfolding get check_all
  get-check_all now [] k = refl
  get-check_all now ((j, r) ∷ d) k = ground (arith, get-check_all now d k)

module _ {N : Type 0} ⦃f : Float N⦄ (lower : String → String) where
  price_of-own :
      (p : Pipeline N) (cid asset : String)
      → price_of p cid asset ≡ own_or_new lower cid p.threshold asset (get p.records cid)
  unfolding price_of
  price_of-own p cid asset = ground arith

  put-price_of :
      (g : LivePriceRecord N → LivePriceRecord N) (p : Pipeline N) (k cid asset : String)
      → get (put p.records k (g (price_of p k asset))) cid ≡ (
          if str_eq k cid
          then some (g (own_or_new lower cid p.threshold asset (get p.records cid)))
          else get p.records cid)
  put-price_of g p k cid asset =
      get-put p.records k cid (g (price_of p k asset)) ∙ (elim (Bool-cases (str_eq k cid)) [
        | inl same ↦ rw same (
            ap (λ r. some (g r))
              (price_of-own p k asset
                ∙ ap (λ j. own_or_new lower j p.threshold asset (get p.records j))
                    ((eq_iff k cid).0 same)))
        | inr other ↦ rw other refl
      ])

  apply-threshold : (c : PriceCall N) (p : Pipeline N) → (apply lower c p).threshold ≡ p.threshold
  unfolding apply update_from_ws update_from_gamma get_record get_all_records clear_event
  apply-threshold (from_ws cid asset side bid ask now) p = refl
  apply-threshold (from_gamma cid asset raw spread now) p = refl
  apply-threshold (look cid now) p = ground arith
  apply-threshold (look_all now) p = refl
  apply-threshold (clear cid) p = refl

  get-get_record :
      (k cid : String) (now : ℕ) (p : Pipeline N)
      → get (get_record k now p).1.records cid ≡ (
          if str_eq k cid
          then map_option (check_freshness now) (get p.records cid)
          else get p.records cid)
  unfolding get_record
  get-get_record k cid now p = elim (Option-cases (get p.records k)) [
    | inl e ↦ ground (arith, e, eq_iff k cid)
    | inr (r, e) ↦ ground (arith, e, eq_iff k cid, get-put p.records k cid (check_freshness now r))
  ]

  get-apply :
      (c : PriceCall N) (p : Pipeline N) (cid : String)
      → get (apply lower c p).records cid ≡ event_step lower cid p.threshold c (get p.records cid)
  unfolding apply update_from_ws update_from_gamma get_record get_all_records clear_event event_step
  get-apply (from_ws k asset side bid ask now) p cid =
      put-price_of (ws_record lower side bid ask now) p k cid asset
  get-apply (from_gamma k asset raw spread now) p cid =
      put-price_of (gamma_record raw spread now) p k cid asset
  get-apply (look k now) p cid = get-get_record k cid now p
  get-apply (look_all now) p cid = get-check_all now p.records cid
  get-apply (clear k) p cid = get-remove p.records k cid

  -- A run of calls leaves for each event what the calls that name it, and the checks of all records,
  -- make of its own record alone: no event's prices reach another event.
  pub get-run :
      (cs : List (PriceCall N)) (p : Pipeline N) (cid : String)
      → get (run lower cs p).records cid ≡ event_run lower cid p.threshold cs (get p.records cid)
  unfolding run event_run
  get-run [] p cid = refl
  get-run (c ∷ cs) p cid =
      get-run cs (apply lower c p) cid ∙ rw (apply-threshold c p, get-apply c p cid) refl
