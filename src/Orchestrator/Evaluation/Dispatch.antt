-- ===== src/Orchestrator/Evaluation/Dispatch.antt =====
-- Which orders the evaluation sends, and when.
use polyfast.Base.{
  ℕ, ◌+◌, String, true, false, ◌&&◌, ◌||◌, ◌≡◌, ◌⊎◌, inl, inr, refl, ap, ◌∙◌, subst, Option, none,
  some, if◌then◌else◌, str_eq, arith, Option-cases, Bool-cases, if-cases,
}
use polyfast.Base.Dict.{Dict, values}
use polyfast.Float.{Float, ◌≤?◌}
use polyfast.Settings.Coin.{CoinSettings}
use polyfast.Registry.Service.{Records}
use polyfast.Market.Bridge.{TokenRoute}
use polyfast.Strategy.Context.{EvaluationContext, evaluated_side}
use polyfast.Orders.Intent.{OrderIntent, side_value}
use polyfast.Orders.Executor.{Desk, execute}
use polyfast.Market.LivePrice.{LivePriceRecord, Pipeline, get_record}
use polyfast.Orchestrator.Evaluation.Lookup.{
  Moment, find_current, find_token, quotes_of, context_of,
}
use polyfast.Orchestrator.Evaluation.{
  Trader, EvaluationConfig, OrderReply, is_entry, current_cid, evaluate_single, entry_price,
  side_of, intent_of, place_order, dispatch_on, dispatch_entry, evaluate_coin, is_out_of_slot,
}
use polyfast.Orchestrator.Evaluation.Found.{
  HasLive, HasRoute, find_current-HasLive, find_token-HasRoute,
}
use polyfast.Orchestrator.Evaluation.Judged.{
  judged_price, entry_price-judged_price, side_of-evaluated_side, price_record-again,
}

module _ {N : Type 0} ⦃f : Float N⦄ (upper : String → String) (num : ℕ → N) (k : EvaluationConfig N)
    (m : Moment N) where
  -- The order names a live event of the coin that the registry knows, a token with a route to the
  -- side of that event, the coin's amount, and this price, which is above 0.
  pub record IsSound (c : CoinSettings N) (registry : Records) (routes : Dict TokenRoute)
      (side : String) (price : N) (i : OrderIntent N) : Type 0 where
    pub live : HasLive upper c.coin m.unix i.condition_id (values registry)
    pub routed : HasRoute upper c.coin side i.condition_id i.token_id routes
    pub its_coin : i.asset ≡ c.coin
    pub its_side : side_value i.side ≡ side
    pub its_amount : i.amount_usd ≡ c.order_amount
    pub its_limit : i.event_max ≡ c.event_max
    pub its_price : i.dominant_price ≡ price
    pub positive : (price ≤? f.zero_f) ≡ false

  -- Why no order goes out: the coin has no live event, the event has no price record, it is out of its
  -- slot, its side has no token, or the price is not above 0.
  pub data Withheld (c : CoinSettings N) (registry : Records) (routes : Dict TokenRoute)
      (p : Pipeline N) (side : String) (price : N) : Type 0 where
    no_event :
        str_eq (find_current upper c.coin m.unix (values registry)) "" ≡ true
        → Withheld c registry routes p side price
    no_quote :
        (get_record (find_current upper c.coin m.unix (values registry)) m.now p).0 ≡ none
        → Withheld c registry routes p side price
    out_of_slot :
        is_out_of_slot m.unix (find_current upper c.coin m.unix (values registry)) registry ≡ true
        → Withheld c registry routes p side price
    no_token :
        str_eq
            (find_token upper c.coin side
              (find_current upper c.coin m.unix (values registry))
              routes)
            ""
          ≡ true
        → Withheld c registry routes p side price
    no_price : (price ≤? f.zero_f) ≡ true → Withheld c registry routes p side price

  intent_of-Withheld :
      (c : CoinSettings N) (side : String) (r : LivePriceRecord N) (t : Trader N)
      → intent_of upper num k m c side r t ≡ none
      → Withheld c t.registry t.token_routes t.pipeline side (entry_price side r)
  unfolding intent_of current_cid
  intent_of-Withheld c side r t h =
      let cid = find_current upper c.coin m.unix (values t.registry) in
      elim (Bool-cases (is_out_of_slot m.unix cid t.registry)) [
        | inl out ↦ out_of_slot out
        | inr within ↦
            elim (Bool-cases (str_eq (find_token upper c.coin side cid t.token_routes) "")) [
              | inl without ↦ no_token without
              | inr token ↦ elim (Bool-cases (entry_price side r ≤? f.zero_f)) [
                | inl low ↦ no_price low
                | inr above ↦ absurd (ground arith)
              ]
            ]
      ]

  intent_of-IsSound :
      (c : CoinSettings N) (side : String) (r : LivePriceRecord N) (t : Trader N)
      (i : OrderIntent N)
      → str_eq (current_cid upper num k m c t) "" ≡ false
      → side_value (side_of side) ≡ side
      → intent_of upper num k m c side r t ≡ some i
      → IsSound c t.registry t.token_routes side (entry_price side r) i
  unfolding intent_of current_cid
  intent_of-IsSound c side r t i named known h =
      let cid = current_cid upper num k m c t in
      let token = find_token upper c.coin side cid t.token_routes in
      let tokened : str_eq token "" ≡ false = ground arith in
      let i_cid : i.condition_id ≡ cid = ground arith in
      let i_token : i.token_id ≡ token = ground arith in
      let i_side : i.side ≡ side_of side = ground arith in
      record {
        live = rw i_cid (find_current-HasLive upper c.coin m.unix (values t.registry) named);
        routed =
            rw (i_cid, i_token) (find_token-HasRoute upper c.coin side cid t.token_routes tokened);
        its_coin = ground arith;
        its_side = ap side_value i_side ∙ known;
        its_amount = ground arith;
        its_limit = ground arith;
        its_price = ground arith;
        positive = ground arith;
      }

  -- What a dispatch may leave of the desk.
  abbrev Dispatched :
      CoinSettings N → EvaluationContext N → OrderReply N → Trader N → Desk N → Type 0
  Dispatched c x w t d =
      (Withheld c t.registry t.token_routes t.pipeline (evaluated_side x) (judged_price x)
        × (d ≡ t.desk))
      ⊎ ((i : OrderIntent N) × IsSound c t.registry t.token_routes (evaluated_side x)
            (judged_price x) i
          × (d ≡ (execute k.orders w.pid m.now i w.reply w.fetched t.desk).1))

  place_order-Dispatched :
      (c : CoinSettings N) (x : EvaluationContext N) (r : LivePriceRecord N) (p : Pipeline N)
      (w : OrderReply N) (t : Trader N)
      → str_eq (current_cid upper num k m c t) "" ≡ false
      → entry_price (evaluated_side x) r ≡ judged_price x
      → Dispatched c x w t (dispatch_on upper num k m c (evaluated_side x) w t (some r, p)).desk
  unfolding dispatch_on place_order
  place_order-Dispatched c x r p w t named price =
      elim (Option-cases (intent_of upper num k m c (evaluated_side x) r t)) [
        | inl nothing ↦ inl (
          subst (Withheld c t.registry t.token_routes t.pipeline (evaluated_side x)) price
              (intent_of-Withheld c (evaluated_side x) r t nothing),
          rw (nothing, place_order) refl,
        )
        | inr (i, h) ↦
            let sound =
              intent_of-IsSound c (evaluated_side x) r t i named (side_of-evaluated_side x) h in
            inr (
              i,
              subst (λ y. IsSound c t.registry t.token_routes (evaluated_side x) y i) price sound,
              rw (h, place_order) refl,
            )
      ]

  dispatch_entry-Dispatched :
      (c : CoinSettings N) (x : EvaluationContext N) (w : OrderReply N) (t : Trader N)
      → ((r : LivePriceRecord N)
          → str_eq (current_cid upper num k m c t) "" ≡ false
          → (get_record (current_cid upper num k m c t) m.now t.pipeline).0 ≡ some r
          → entry_price (evaluated_side x) r ≡ judged_price x)
      → Dispatched c x w t (dispatch_entry upper num k m c (evaluated_side x) w t).desk
  unfolding dispatch_entry dispatch_on current_cid
  dispatch_entry-Dispatched c x w t price =
      let cid = current_cid upper num k m c t in
      if-cases (λ (t' : Trader N). Dispatched c x w t t'.desk) (str_eq cid "") _ _
        (λ h. inl (no_event h, refl)) λ named. found named (get_record cid m.now t.pipeline) refl
    where
      found :
          str_eq (current_cid upper num k m c t) "" ≡ false
          → (g : Option (LivePriceRecord N) × Pipeline N)
          → get_record (current_cid upper num k m c t) m.now t.pipeline ≡ g
          → Dispatched c x w t (dispatch_on upper num k m c (evaluated_side x) w t g).desk
      found named (none, p) e =
          inl (no_quote (ap (λ (g : Option (LivePriceRecord N) × Pipeline N). g.0) e), refl)
      found named (some r, p) e =
          place_order-Dispatched c x r p w t named
            (price r named (ap (λ (g : Option (LivePriceRecord N) × Pipeline N). g.0) e))

  -- The record that is read for the order quotes what was judged.
  judged :
      (c : CoinSettings N) (t : Trader N) (r : LivePriceRecord N)
      → let (result, x, t') = evaluate_single upper num k m c t in
        str_eq (current_cid upper num k m c t) "" ≡ false
        → (get_record (current_cid upper num k m c t) m.now t'.pipeline).0 ≡ some r
        → entry_price (evaluated_side x) r ≡ judged_price x
  unfolding evaluate_single quotes_of context_of
  judged c t r named e =
      let cid = current_cid upper num k m c t in
      let (q, found, (a, b, u, v)) =
        price_record-again upper cid c.coin m.now t.pipeline r named e in
      entry_price-judged_price (evaluate_single upper num k m c t).1 r
        (ap (λ o. (quotes_of o).up_bid) found ∙ a) (ap (λ o. (quotes_of o).up_ask) found ∙ b)
        (ap (λ o. (quotes_of o).down_bid) found ∙ u) (ap (λ o. (quotes_of o).down_ask) found ∙ v)

  -- Where the rules do not decide on an entry, or no orders may be sent, a coin's evaluation leaves the
  -- desk as it was. Else the desk stays for one of five reasons: the coin has no live event, the
  -- event has no price record, it is out of its slot, its side has no token, or the price is not
  -- above 0; or one order was executed: for a live event of the coin that the registry knows, with
  -- a token that has a route to the side of that event which was judged, for the coin's amount and
  -- limit, at the ask of that side in the context that was judged, or its bid where the ask is not
  -- above 0; that price is above 0.
  pub evaluate_coin-IsSound :
      (w : OrderReply N) (c : CoinSettings N) (t : Trader N)
      → let (result, x, t') = evaluate_single upper num k m c t in
        let d = (evaluate_coin upper num k m w c t).desk in
        let goes = is_entry result.decision && (t.order_dispatch_enabled || k.paper_mode) in
        ((goes ≡ false) × (d ≡ t.desk))
        ⊎ ((goes ≡ true)
            × ((Withheld c t.registry t.token_routes t'.pipeline (evaluated_side x) (judged_price x)
                  × (d ≡ t.desk))
                ⊎ ((i : OrderIntent N) × IsSound c t.registry t.token_routes
                      (evaluated_side x)
                      (judged_price x)
                      i
                    × (d ≡ (execute k.orders w.pid m.now i w.reply w.fetched t.desk).1))))
  unfolding evaluate_coin evaluate_single current_cid
  evaluate_coin-IsSound w c t =
      let (result, x, t') = evaluate_single upper num k m c t in
      let seen : Trader N = record t' {
        eval_count = t'.eval_count + 1;
        entry_count = if is_entry result.decision then t'.entry_count + 1 else t'.entry_count;
      } in
      let goes = is_entry result.decision && (t.order_dispatch_enabled || k.paper_mode) in
      if-cases
        (λ (t2 : Trader N).
          ((goes ≡ false) × (t2.desk ≡ t.desk)) ⊎ ((goes ≡ true) × Dispatched c x w seen t2.desk))
        goes (dispatch_entry upper num k m c (evaluated_side x) w seen) seen
        (λ allowed. inr (allowed, dispatch_entry-Dispatched c x w seen (judged c t)))
        (λ forbidden. inl (forbidden, refl))
