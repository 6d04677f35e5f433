-- ===== src/Market/LivePrice/Sound.antt =====
-- The prices that a run leaves.
use polyfast.Base.{
  ℕ, String, true, not, ◌||◌, ◌≡◌, ◌⊎◌, inl, inr, Option, none, some, List, [], ◌∷◌, if◌then◌else◌,
  str_eq, refl, ap, arith, Option-cases, subst, sym, ◌∙◌, if-cases,
}
use mathlib.Core.Option.{map as map_option}
use polyfast.Base.Dict.{Dict, get}
use polyfast.Float.{Float, ◌<?◌, ◌≤?◌}
use polyfast.Market.LivePrice.{
  PriceStatus, invalid, stale, LivePriceRecord, Pipeline, OutcomePrices, check_freshness, new_price,
  ws_record, gamma_record, quoted, is_valid_price, is_status, waiting, parse_outcome_prices,
  is_stale,
}
use polyfast.Market.LivePrice.Runs.{
  PriceCall, from_ws, from_gamma, look, look_all, clear, own_or_new, event_step, event_run, run,
  get-run,
}
use polyfast.Market.LivePrice.Sent.{quotes_of, quotes_of_any, unsent, last_quotes, event_run-quotes}

module _ {N : Type 0} ⦃f : Float N⦄ where
  -- The price of a quote: one that was never set, or one above 0 and at most 1.
  pub IsQuote : N → Type 0
  IsQuote x = (x ≡ f.zero_f) ⊎ (((f.zero_f <? x) ≡ true) × ((x ≤? f.one_f) ≡ true))

  -- Both prices of a side are quotes.
  pub record IsQuoted (r : LivePriceRecord N) : Type 0 where
    pub up_bid_quote : IsQuote r.up_bid
    pub up_ask_quote : IsQuote r.up_ask
    pub down_bid_quote : IsQuote r.down_bid
    pub down_ask_quote : IsQuote r.down_ask

  -- Nothing but the status has changed.
  same_prices :
      {r : LivePriceRecord N} {s : PriceStatus} → IsQuoted r → IsQuoted (record r { status = s })
  same_prices q = record {
    up_bid_quote = q.up_bid_quote;
    up_ask_quote = q.up_ask_quote;
    down_bid_quote = q.down_bid_quote;
    down_ask_quote = q.down_ask_quote;
  }

  check_freshness-IsQuoted :
      (now : ℕ) (r : LivePriceRecord N) → IsQuoted r → IsQuoted (check_freshness now r)
  unfolding check_freshness
  check_freshness-IsQuoted now r q =
      if-cases IsQuoted (is_status r.status invalid || is_status r.status waiting) r
        (if is_stale now r then record r { status = stale } else r) (λ h. q)
        (λ h.
          if-cases IsQuoted (is_stale now r) (record r { status = stale }) r (λ h. same_prices q)
            (λ h. q))

  new_price-IsQuoted : (cid asset : String) (n : ℕ) → IsQuoted (new_price cid asset n)
  unfolding new_price IsQuote
  new_price-IsQuoted cid asset n = record {
    up_bid_quote = inl refl;
    up_ask_quote = inl refl;
    down_bid_quote = inl refl;
    down_ask_quote = inl refl;
  }

  ws_record-IsQuoted :
      (lower : String → String) (side : String) (bid ask : N) (now : ℕ) (r : LivePriceRecord N)
      → IsQuoted r
      → IsQuoted (ws_record lower side bid ask now r)
  unfolding ws_record quoted IsQuote is_valid_price
  ws_record-IsQuoted lower side bid ask now r q =
      let bad = not (is_valid_price bid) || not (is_valid_price ask) in
      if-cases IsQuoted bad _ _
        (λ h.
          if-cases IsQuoted (is_status r.status waiting) (record r { status = invalid }) r
            (λ h. same_prices q) (λ h. q))
        (λ good.
          if-cases IsQuoted (str_eq (lower side) "up")
            (quoted now (record r { up_bid = bid; up_ask = ask })) _
            (λ h. record {
              up_bid_quote = inr (ground arith, ground arith);
              up_ask_quote = inr (ground arith, ground arith);
              down_bid_quote = q.down_bid_quote;
              down_ask_quote = q.down_ask_quote;
            })
            (λ h.
              if-cases IsQuoted (str_eq (lower side) "down")
                (quoted now (record r { down_bid = bid; down_ask = ask })) r
                (λ h. record {
                  up_bid_quote = q.up_bid_quote;
                  up_ask_quote = q.up_ask_quote;
                  down_bid_quote = inr (ground arith, ground arith);
                  down_ask_quote = inr (ground arith, ground arith);
                })
                (λ h. q)))

  gamma_record-IsQuoted :
      (raw : OutcomePrices N) (spread : N) (now : ℕ) (r : LivePriceRecord N)
      → IsQuoted r
      → IsQuoted (gamma_record raw spread now r)
  unfolding gamma_record IsQuote is_valid_price
  gamma_record-IsQuoted raw spread now r q = elim (Option-cases (parse_outcome_prices raw)) [
    | inl e ↦ rw (e, gamma_record) (same_prices q)
    | inr (pair, e) ↦
        rw (e, gamma_record)
          (if-cases IsQuoted (not (is_valid_price pair.0) || not (is_valid_price pair.1))
            (record r { status = invalid }) _ (λ h. same_prices q)
            (λ good. record {
              up_bid_quote = inr (ground arith, ground arith);
              up_ask_quote = inr (ground arith, ground arith);
              down_bid_quote = inr (ground arith, ground arith);
              down_ask_quote = inr (ground arith, ground arith);
            }))
  ]

-- A record, if there is one, has quotes.
IsQuotedIfAny : {N : Type 0} ⦃f : Float N⦄ → Option (LivePriceRecord N) → Type 0
IsQuotedIfAny {N} o = (r : LivePriceRecord N) → o ≡ some r → IsQuoted r

none-IsQuoted : (N : Type 0) ⦃f : Float N⦄ → IsQuotedIfAny {N = N} none
unfolding IsQuotedIfAny
none-IsQuoted N s e = absurd (ground arith)

module _ {N : Type 0} ⦃f : Float N⦄ (lower : String → String) (cid : String) (n : ℕ) where
  own_or_new-IsQuoted :
      (asset : String) (o : Option (LivePriceRecord N))
      → IsQuotedIfAny o
      → IsQuoted (own_or_new lower cid n asset o)
  unfolding IsQuotedIfAny
  own_or_new-IsQuoted asset none q = new_price-IsQuoted cid asset n
  own_or_new-IsQuoted asset (some r) q = q r refl

  some-IsQuoted : (r : LivePriceRecord N) → IsQuoted r → IsQuotedIfAny (some r)
  unfolding IsQuotedIfAny
  some-IsQuoted r q s e = subst IsQuoted (ground arith) q

  checked-IsQuoted :
      (now : ℕ) (o : Option (LivePriceRecord N))
      → IsQuotedIfAny o
      → IsQuotedIfAny (map_option (check_freshness now) o)
  checked-IsQuoted now none q = q
  checked-IsQuoted now (some r) q =
      some-IsQuoted (check_freshness now r)
        (check_freshness-IsQuoted now r (own_or_new-IsQuoted "" (some r) q))

  event_step-IsQuoted :
      (c : PriceCall N) (o : Option (LivePriceRecord N))
      → IsQuotedIfAny o
      → IsQuotedIfAny (event_step lower cid n c o)
  unfolding event_step
  event_step-IsQuoted (from_ws k asset side bid ask now) o q =
      if-cases IsQuotedIfAny (str_eq k cid) _ o
        (λ h. some-IsQuoted _ (
          ws_record-IsQuoted lower side bid ask now (own_or_new lower cid n asset o)
            (own_or_new-IsQuoted asset o q)))
        (λ h. q)
  event_step-IsQuoted (from_gamma k asset raw spread now) o q =
      if-cases IsQuotedIfAny (str_eq k cid) _ o
        (λ h. some-IsQuoted _ (
          gamma_record-IsQuoted raw spread now (own_or_new lower cid n asset o)
            (own_or_new-IsQuoted asset o q)))
        (λ h. q)
  event_step-IsQuoted (look k now) o q =
      if-cases IsQuotedIfAny (str_eq k cid) _ o (λ h. checked-IsQuoted now o q) (λ h. q)
  event_step-IsQuoted (look_all now) o q = checked-IsQuoted now o q
  event_step-IsQuoted (clear k) o q =
      if-cases IsQuotedIfAny (str_eq k cid) none o (λ h. none-IsQuoted N) (λ h. q)

  event_run-IsQuoted :
      (cs : List (PriceCall N)) (o : Option (LivePriceRecord N))
      → IsQuotedIfAny o
      → IsQuotedIfAny (event_run lower cid n cs o)
  unfolding event_run
  event_run-IsQuoted [] o q = q
  event_run-IsQuoted (c ∷ cs) o q =
      event_run-IsQuoted cs (event_step lower cid n c o) (event_step-IsQuoted c o q)

module _ {N : Type 0} ⦃f : Float N⦄ (lower : String → String) where
  -- Whatever the WebSocket and the API send, a record that a run of calls makes from an empty
  -- pipeline holds on each side the last quote that was accepted for its event since it was last
  -- cleared, and 0 where none was; a price that is not such a 0 is above 0 and at most 1.
  pub run-IsQuoted :
      (cs : List (PriceCall N)) (p : Pipeline N) (cid : String) (r : LivePriceRecord N)
      → p.records ≡ []
      → get (run lower cs p).records cid ≡ some r
      → (quotes_of r ≡ last_quotes lower cid cs unsent) × IsQuoted r
  unfolding IsQuotedIfAny get
  run-IsQuoted cs p cid r empty found =
      let left : event_run lower cid p.threshold cs (get p.records cid) ≡ some r =
        sym (get-run lower cs p cid) ∙ found in
      (
        sym (ap quotes_of_any left)
            ∙ event_run-quotes lower cid p.threshold cs (get p.records cid)
            ∙ ap
                (λ (d : Dict (LivePriceRecord N)).
                  last_quotes lower cid cs (quotes_of_any (get d cid)))
                empty,
        event_run-IsQuoted lower cid p.threshold cs (get p.records cid) (rw empty (none-IsQuoted N))
            r left,
      )
