-- ===== src/Market/LivePrice/Sent.antt =====
-- The quotes that were accepted for an event, told from the calls alone.
use polyfast.Base.{
  ℕ, String, ◌&&◌, ◌≡◌, Option, none, some, List, [], ◌∷◌, if◌then◌else◌, str_eq, refl, arith, ◌∙◌,
  ap,
}
use mathlib.Core.Option.{map as map_option}
use polyfast.Float.{Float}
use polyfast.Market.LivePrice.{
  LivePriceRecord, OutcomePrices, check_freshness, new_price, ws_record, gamma_record, quoted,
  is_valid_price, parse_outcome_prices,
}
use polyfast.Market.LivePrice.Runs.{
  PriceCall, from_ws, from_gamma, look, look_all, clear, own_or_new, event_step, event_run,
}

-- The bid and the ask of both sides.
pub record Quotes (N : Type 0) : Type 0 where
  pub up_bid : N
  pub up_ask : N
  pub down_bid : N
  pub down_ask : N

module _ {N : Type 0} ⦃f : Float N⦄ where
  abbrev pub quotes_of : LivePriceRecord N → Quotes N
  quotes_of r = record {
    up_bid = r.up_bid;
    up_ask = r.up_ask;
    down_bid = r.down_bid;
    down_ask = r.down_ask;
  }

  -- No side has been sent.
  abbrev pub unsent : Quotes N
  unsent = record { up_bid = f.zero_f; up_ask = f.zero_f; down_bid = f.zero_f; down_ask = f.zero_f }

  -- A quote of the WebSocket counts for its side where its bid and its ask are valid.
  unfoldable ws_sent : (String → String) → String → N → N → Quotes N → Quotes N
  ws_sent lower side bid ask q =
      if is_valid_price bid && is_valid_price ask
      then if str_eq (lower side) "up"
        then record q { up_bid = bid; up_ask = ask }
        else if str_eq (lower side) "down"
        then record q { down_bid = bid; down_ask = ask }
        else q
      else q

  -- A pair of the API counts for both sides where both of its prices are valid.
  unfoldable gamma_sent : OutcomePrices N → Quotes N → Quotes N
  gamma_sent raw q = elim (parse_outcome_prices raw) [
    | none ↦ q
    | some pair ↦
        if is_valid_price pair.0 && is_valid_price pair.1
        then record { up_bid = pair.0; up_ask = pair.0; down_bid = pair.1; down_ask = pair.1 }
        else q
  ]

  -- What a call leaves of the last accepted quotes of the event: only a quote for this event that is
  -- accepted changes them, and a clear of this event forgets them.
  unfoldable pub last_quote : (String → String) → String → PriceCall N → Quotes N → Quotes N
  unfolding ws_sent gamma_sent
  last_quote lower cid (from_ws k asset side bid ask now) q =
      if str_eq k cid then ws_sent lower side bid ask q else q
  last_quote lower cid (from_gamma k asset raw spread now) q =
      if str_eq k cid then gamma_sent raw q else q
  last_quote lower cid (look k now) q = q
  last_quote lower cid (look_all now) q = q
  last_quote lower cid (clear k) q = if str_eq k cid then unsent else q

  -- The last accepted quotes after a sequence of calls.
  unfoldable pub last_quotes : (String → String) → String → List (PriceCall N) → Quotes N → Quotes N
  last_quotes lower cid [] q = q
  last_quotes lower cid (c ∷ cs) q = last_quotes lower cid cs (last_quote lower cid c q)

  -- The quotes of a record, or of none.
  abbrev pub quotes_of_any : Option (LivePriceRecord N) → Quotes N
  quotes_of_any none = unsent
  quotes_of_any (some r) = quotes_of r

  ws_record-quotes :
      (lower : String → String) (side : String) (bid ask : N) (now : ℕ) (r : LivePriceRecord N)
      → quotes_of (ws_record lower side bid ask now r) ≡ ws_sent lower side bid ask (quotes_of r)
  unfolding ws_record quoted ws_sent
  ws_record-quotes lower side bid ask now r = ground arith

  gamma_record-quotes :
      (raw : OutcomePrices N) (spread : N) (now : ℕ) (r : LivePriceRecord N)
      → quotes_of (gamma_record raw spread now r) ≡ gamma_sent raw (quotes_of r)
  unfolding gamma_record gamma_sent
  gamma_record-quotes raw spread now r = ground arith

  check_freshness-quotes :
      (now : ℕ) (r : LivePriceRecord N) → quotes_of (check_freshness now r) ≡ quotes_of r
  unfolding check_freshness
  check_freshness-quotes now r = ground arith

module _ {N : Type 0} ⦃f : Float N⦄ (lower : String → String) (cid : String) (n : ℕ) where
  own_or_new-quotes :
      (asset : String) (o : Option (LivePriceRecord N))
      → quotes_of (own_or_new lower cid n asset o) ≡ quotes_of_any o
  unfolding new_price
  own_or_new-quotes asset none = refl
  own_or_new-quotes asset (some r) = refl

  checked-quotes :
      (now : ℕ) (o : Option (LivePriceRecord N))
      → quotes_of_any (map_option (check_freshness now) o) ≡ quotes_of_any o
  checked-quotes now none = refl
  checked-quotes now (some r) = check_freshness-quotes now r

  event_step-quotes :
      (c : PriceCall N) (o : Option (LivePriceRecord N))
      → quotes_of_any (event_step lower cid n c o) ≡ last_quote lower cid c (quotes_of_any o)
  unfolding event_step last_quote
  event_step-quotes (from_ws k asset side bid ask now) o =
      let r = own_or_new lower cid n asset o in
      let sent =
        ws_record-quotes lower side bid ask now r
        ∙ ap (ws_sent lower side bid ask) (own_or_new-quotes asset o) in
      ground (arith, sent)
  event_step-quotes (from_gamma k asset raw spread now) o =
      let r = own_or_new lower cid n asset o in
      let sent =
        gamma_record-quotes raw spread now r ∙ ap (gamma_sent raw) (own_or_new-quotes asset o) in
      ground (arith, sent)
  event_step-quotes (look k now) o = ground (arith, checked-quotes now o)
  event_step-quotes (look_all now) o = checked-quotes now o
  event_step-quotes (clear k) o = ground arith

  pub event_run-quotes :
      (cs : List (PriceCall N)) (o : Option (LivePriceRecord N))
      → quotes_of_any (event_run lower cid n cs o) ≡ last_quotes lower cid cs (quotes_of_any o)
  unfolding event_run last_quotes
  event_run-quotes [] o = refl
  event_run-quotes (c ∷ cs) o =
      event_run-quotes cs (event_step lower cid n c o)
      ∙ ap (last_quotes lower cid cs) (event_step-quotes c o)
