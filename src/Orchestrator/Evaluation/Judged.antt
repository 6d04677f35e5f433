-- ===== src/Orchestrator/Evaluation/Judged.antt =====
-- What the lookups of an evaluation find.
use polyfast.Base.{
  ℕ, String, false, ◌≡◌, ◌⊎◌, inl, inr, refl, sym, ap, ◌∙◌, none, some, if◌then◌else◌, str_eq,
  arith, Bool-cases, Option-cases,
}
use polyfast.Base.Dict.{get, put, get-put_self}
use polyfast.Float.{Float, ◌<?◌, ◌≤?◌}
use polyfast.Strategy.Context.{
  SideMode, EvaluationContext, evaluated_side, entry_ref_price, exit_ref_price, dominant_only,
  up_only, down_only,
}
use polyfast.Orders.Intent.{side_value}
use polyfast.Market.LivePrice.{
  LivePriceRecord, Pipeline, check_freshness, get_record, get_record_by_asset,
}
use polyfast.Market.LivePrice.Reads.{get_record_by_asset-none, check_freshness-quotes}
use polyfast.Orchestrator.Evaluation.Lookup.{price_record, read_by_cid, or_by_asset}
use polyfast.Orchestrator.Evaluation.{entry_price, side_of}

SideMode-cases : (m : SideMode) → ((m ≡ up_only) ⊎ (m ≡ down_only)) ⊎ (m ≡ dominant_only)
SideMode-cases dominant_only = inr refl
SideMode-cases up_only = inl (inl refl)
SideMode-cases down_only = inl (inr refl)

module _ {N : Type 0} ⦃f : Float N⦄ where
  -- The two records quote the same.
  abbrev pub SameQuotes : LivePriceRecord N → LivePriceRecord N → Type 0
  SameQuotes r q =
      (r.up_bid ≡ q.up_bid)
      × (r.up_ask ≡ q.up_ask)
      × (r.down_bid ≡ q.down_bid)
      × (r.down_ask ≡ q.down_ask)

  -- The ask of the side that is judged, or its bid where the ask is not above 0.
  abbrev pub judged_price : EvaluationContext N → N
  judged_price x = if f.zero_f <? entry_ref_price x then entry_ref_price x else exit_ref_price x

  -- The side that is judged, with its prices.
  evaluated_side_cases :
      (x : EvaluationContext N)
      → ((evaluated_side x ≡ "UP") × (entry_ref_price x ≡ x.up_ask) × (exit_ref_price x ≡ x.up_bid))
        ⊎ ((evaluated_side x ≡ "DOWN")
            × (entry_ref_price x ≡ x.down_ask)
            × (exit_ref_price x ≡ x.down_bid))
  unfolding evaluated_side entry_ref_price exit_ref_price
  evaluated_side_cases x = elim (SideMode-cases x.side_mode) [
    | inl (inl ups) ↦ inl (ground arith, ground arith, ground arith)
    | inl (inr downs) ↦ inr (ground arith, ground arith, ground arith)
    | inr dominant ↦ (elim (Bool-cases (x.down_bid ≤? x.up_bid)) [
      | inl u ↦ inl (ground arith, ground arith, ground arith)
      | inr d ↦ inr (ground arith, ground arith, ground arith)
    ])
  ]

  pub entry_price-judged_price :
      (x : EvaluationContext N) (r : LivePriceRecord N)
      → x.up_bid ≡ r.up_bid
      → x.up_ask ≡ r.up_ask
      → x.down_bid ≡ r.down_bid
      → x.down_ask ≡ r.down_ask
      → entry_price (evaluated_side x) r ≡ judged_price x
  unfolding entry_price
  entry_price-judged_price x r a b c d = elim (evaluated_side_cases x) [
    | inl (side, ask, bid) ↦ rw (side, ask, bid, a, b) refl
    | inr (side, ask, bid) ↦ rw (side, ask, bid, c, d) refl
  ]

  pub side_of-evaluated_side :
      (x : EvaluationContext N) → side_value (side_of (evaluated_side x)) ≡ evaluated_side x
  side_of-evaluated_side x = elim (evaluated_side_cases x) [
    | inl (side, ask, bid) ↦ rw side refl
    | inr (side, ask, bid) ↦ rw side refl
  ]

  read_by_cid-get :
      (cid : String) (now : ℕ) (p : Pipeline N)
      → str_eq cid "" ≡ false
      → read_by_cid cid now p ≡ get_record cid now p
  unfolding read_by_cid
  read_by_cid-get cid now p named = rw named refl

  get_record-some :
      (cid : String) (now : ℕ) (p : Pipeline N) (o : LivePriceRecord N)
      → get p.records cid ≡ some o
      → get_record cid now p ≡ (
        some (check_freshness now o),
        record p { records = put p.records cid (check_freshness now o) },
      )
  unfolding get_record
  get_record-some cid now p o e = rw (e, get_record) refl

  get_record-none :
      (cid : String) (now : ℕ) (p : Pipeline N)
      → get p.records cid ≡ none
      → get_record cid now p ≡ (none, p)
  unfolding get_record
  get_record-none cid now p e = rw (e, get_record) refl

  price_record-found :
      (upper : String → String) (cid asset : String) (now : ℕ) (p : Pipeline N)
      (o : LivePriceRecord N)
      → str_eq cid "" ≡ false
      → get p.records cid ≡ some o
      → price_record upper cid asset now p ≡ (
        some (check_freshness now o),
        record p { records = put p.records cid (check_freshness now o) },
      )
  unfolding price_record or_by_asset
  price_record-found upper cid asset now p o named e =
      ap (or_by_asset upper asset now)
        (read_by_cid-get cid now p named ∙ get_record-some cid now p o e)

  price_record-missing :
      (upper : String → String) (cid asset : String) (now : ℕ) (p : Pipeline N)
      → str_eq cid "" ≡ false
      → get p.records cid ≡ none
      → price_record upper cid asset now p ≡ get_record_by_asset upper asset now p
  unfolding price_record or_by_asset
  price_record-missing upper cid asset now p named e =
      ap (or_by_asset upper asset now)
        (read_by_cid-get cid now p named ∙ get_record-none cid now p e)

  -- A record that is read again by the event's condition is the one that was judged.
  pub price_record-again :
      (upper : String → String) (cid asset : String) (now : ℕ) (p : Pipeline N)
      (r : LivePriceRecord N)
      → str_eq cid "" ≡ false
      → (get_record cid now (price_record upper cid asset now p).1).0 ≡ some r
      → (q : LivePriceRecord N) × ((price_record upper cid asset now p).0 ≡ some q) × SameQuotes q r
  unfolding get_record
  price_record-again upper cid asset now p r named h = elim (Option-cases (get p.records cid)) [
    | inl missing ↦
        let eq = price_record-missing upper cid asset now p named missing in
        let gone = get_record_by_asset-none upper asset now cid p missing in
        let h' : (get_record cid now (get_record_by_asset upper asset now p).1).0 ≡ some r =
          rw eq at h in
        absurd (ground arith)
    | inr (o, e) ↦
        let eq = price_record-found upper cid asset now p o named e in
        let o' = check_freshness now o in
        let p' : Pipeline N = record p { records = put p.records cid o' } in
        let h' : (get_record cid now p').0 ≡ some r = rw eq at h in
        let there : check_freshness now o' ≡ r = ground (arith, get-put_self p.records cid o') in
        let (a, b, c, d) = check_freshness-quotes now o' in
        (
          o',
          rw eq refl,
          (
            sym a ∙ ap (λ (x : LivePriceRecord N). x.up_bid) there,
            sym b ∙ ap (λ (x : LivePriceRecord N). x.up_ask) there,
            sym c ∙ ap (λ (x : LivePriceRecord N). x.down_bid) there,
            sym d ∙ ap (λ (x : LivePriceRecord N). x.down_ask) there,
          ),
        )
  ]
