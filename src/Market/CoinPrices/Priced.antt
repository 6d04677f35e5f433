-- ===== src/Market/CoinPrices/Priced.antt =====
-- The prices that the client gives out are ones that it accepted.
use polyfast.Base.{
  ℕ, true, ◌≡◌, ◌⊎◌, inl, inr, refl, none, some, List, [], ◌∷◌, arith, subst, sym, Bool-cases,
  str_eq, ltb, ◌&&◌, String, Option-cases, if-cases, is_some,
}
use polyfast.Base.Dict.{Dict, get, put, get-put_cases}
use polyfast.Float.{Float}
use polyfast.Market.CoinPrices.{
  fresh, stale, waiting, CoinPriceRecord, CoinPrices, Payload, PriceBounds, is_stale,
  check_freshness, check_coins, get_price, extract_price, new_coin_price, create_records,
  is_valid_usd, coin_price_of, update_record, on_payload, symbol_to_coin, is_unset, get_usd_price,
  is_fresh_status,
}
use polyfast.Base.Lists.{length}
use polyfast.Market.CoinPrices.Stream.{
  Received, nothing, broken, payload, Streaming, resubscribe_due, stream_turns, on_polled,
  poll_turns,
}

module _ {N : Type 0} ⦃f : Float N⦄ (b : PriceBounds N) where
  -- The record waits, without a price or a time; or it is fresh or stale, with a time, and its price
  -- lies within the bounds.
  abbrev pub IsPriced : CoinPriceRecord N → Type 0
  IsPriced r =
      ((r.status ≡ waiting) × (r.usd_price ≡ f.zero_f) × (r.updated_at ≡ none))
      ⊎ (((r.status ≡ fresh) ⊎ (r.status ≡ stale))
          × (is_valid_usd b r.usd_price ≡ true)
          × ((at : ℕ) × (r.updated_at ≡ some at)))

  check_freshness-IsPriced :
      (now : ℕ) (r : CoinPriceRecord N) → IsPriced r → IsPriced (check_freshness now r)
  unfolding check_freshness
  check_freshness-IsPriced now r h =
      if-cases IsPriced (is_unset r.status) _ _ (λ u. h)
        λ set.
          if-cases IsPriced (is_stale now r) _ _
            (λ old. elim h [
              | inl (w, z, u) ↦ absurd (ground arith)
              | inr (st, v, at) ↦ inr (inr refl, v, at)
            ])
            (λ young. h)

  abbrev pub AllPriced : Dict (CoinPriceRecord N) → Type 0
  AllPriced d = (c : String) (r : CoinPriceRecord N) → get d c ≡ some r → IsPriced r

  put-AllPriced :
      (d : Dict (CoinPriceRecord N)) (c : String) (r : CoinPriceRecord N)
      → AllPriced d
      → IsPriced r
      → AllPriced (put d c r)
  put-AllPriced d c r all h k q e = elim (get-put_cases d c k r e) [
    | inl (same, written) ↦ subst IsPriced written h
    | inr before ↦ all k q before
  ]

  pub create_records-AllPriced :
      (cs : List String) (threshold : ℕ) (d : Dict (CoinPriceRecord N))
      → AllPriced d
      → AllPriced (create_records cs threshold d)
  unfolding create_records new_coin_price
  create_records-AllPriced [] threshold d all = all
  create_records-AllPriced (c ∷ cs) threshold d all = create_records-AllPriced cs threshold _ (
      if-cases AllPriced (is_some (get d c)) _ _ (λ h. all)
        (λ h. put-AllPriced d c _ all (inl (refl, refl, refl))))

  pub get_price-AllPriced :
      (coin : String) (now : ℕ) (s : CoinPrices N)
      → AllPriced s.records
      → AllPriced (get_price coin now s).1.records
  unfolding get_price
  get_price-AllPriced coin now s all = elim (Option-cases (get s.records coin)) [
    | inl no_record ↦ rw (no_record, get_price) all
    | inr (r, e) ↦
        rw (e, get_price)
          (put-AllPriced s.records coin _ all (check_freshness-IsPriced now r (all coin r e)))
  ]

  get-check_coins :
      (now : ℕ) (d : Dict (CoinPriceRecord N)) (c : String) (r : CoinPriceRecord N)
      → get (check_coins now d) c ≡ some r
      → (q : CoinPriceRecord N) × (get d c ≡ some q) × (r ≡ check_freshness now q)
  unfolding get check_coins
  get-check_coins now [] c r h = absurd (ground arith)
  get-check_coins now ((k, q) ∷ d) c r h = elim (Bool-cases (str_eq k c)) [
    | inl same ↦ (q, ground arith, ground arith)
    | inr other ↦
        let (p, there, checked) = get-check_coins now d c r (ground arith) in
        (p, ground arith, checked)
  ]

  pub check_coins-AllPriced :
      (now : ℕ) (d : Dict (CoinPriceRecord N)) → AllPriced d → AllPriced (check_coins now d)
  check_coins-AllPriced now d all c r h =
      let (q, there, checked) = get-check_coins now d c r h in
      subst IsPriced (sym checked) (check_freshness-IsPriced now q (all c q there))

  pub on_payload-AllPriced :
      (now : ℕ) (p : Payload N) (s : CoinPrices N)
      → AllPriced s.records
      → AllPriced (on_payload b now p s).records
  unfolding on_payload update_record
  on_payload-AllPriced now p s all = elim (Option-cases (get symbol_to_coin p.symbol)) [
    | inl unknown ↦ rw (unknown, on_payload) all
    | inr (coin, known) ↦ elim (Option-cases (extract_price p)) [
      | inl without ↦ rw (known, on_payload) (rw without all)
      | inr (price, with_price) ↦
          rw (known, on_payload)
            (rw with_price (
              if-cases (λ (s' : CoinPrices N). AllPriced s'.records) (is_valid_usd b price) _ _
                (λ valid.
                  put-AllPriced s.records coin
                    (record (coin_price_of s coin) {
                      usd_price = price;
                      status = fresh;
                      updated_at = some now;
                    })
                    all (inr (inl refl, valid, (now, refl))))
                (λ wrong. all)))
    ]
  ]

  pub get_usd_price_cases :
      (coin : String) (now : ℕ) (s : CoinPrices N)
      → AllPriced s.records
      → ((get_usd_price coin now s).0 ≡ f.zero_f)
        ⊎ (is_valid_usd b (get_usd_price coin now s).0 ≡ true)
  unfolding get_usd_price get_price
  get_usd_price_cases coin now s all = elim (Option-cases (get s.records coin)) [
    | inl no_record ↦ rw (no_record, get_usd_price) (inl refl)
    | inr (r, e) ↦
        rw (e, get_usd_price)
          (if-cases (λ x. (x ≡ f.zero_f) ⊎ (is_valid_usd b x ≡ true))
            (is_fresh_status (check_freshness now r).status) _ _
            (λ h. elim (check_freshness-IsPriced now r (all coin r e)) [
              | inl (w, z, u) ↦ inl z
              | inr (st, v, at) ↦ inr v
            ])
            (λ h. inl refl))
  ]

  on_polled-on_payload :
      (now : ℕ) (p : Payload N) (c : Dict N × CoinPrices N)
      → (on_polled b now p c).1 ≡ on_payload b now p (c.1)
  unfolding on_polled on_payload
  on_polled-on_payload now p c = ground arith

  pub poll_turns-AllPriced :
      (deadline wanted : ℕ) (ts : List (ℕ × ℕ × Received N)) (c : Dict N × CoinPrices N)
      → AllPriced (c.1).records
      → AllPriced (poll_turns b deadline wanted ts c).1.records
  unfolding poll_turns
  poll_turns-AllPriced deadline wanted [] c all = all
  poll_turns-AllPriced deadline wanted ((at, now, nothing) ∷ ts) c all =
      if-cases (λ (d : Dict N × CoinPrices N). AllPriced (d.1).records)
        (ltb (length (c.0)) wanted && ltb at deadline) _ _
        (λ goes_on. poll_turns-AllPriced deadline wanted ts c all) (λ ends. all)
  poll_turns-AllPriced deadline wanted ((at, now, broken) ∷ ts) c all = all
  poll_turns-AllPriced deadline wanted ((at, now, payload p) ∷ ts) c all =
      if-cases (λ (d : Dict N × CoinPrices N). AllPriced (d.1).records)
        (ltb (length (c.0)) wanted && ltb at deadline) _ _
        (λ goes_on. poll_turns-AllPriced deadline wanted ts (on_polled b now p c) (
          subst (λ (t : CoinPrices N). AllPriced t.records) (sym (on_polled-on_payload now p c))
            (on_payload-AllPriced now p (c.1) all)))
        (λ ends. all)

  resubscribe_due-prices :
      (interval : ℕ) (symbols : List String) (now : ℕ) (s : Streaming N)
      → (resubscribe_due b interval symbols now s).prices ≡ s.prices
  unfolding resubscribe_due
  resubscribe_due-prices interval symbols now s = ground arith

  pub stream_turns-AllPriced :
      (interval : ℕ) (symbols : List String) (ts : List (ℕ × Received N)) (s : Streaming N)
      → AllPriced s.prices.records
      → AllPriced (stream_turns b interval symbols ts s).1.prices.records
  unfolding stream_turns
  stream_turns-AllPriced interval symbols [] s all = all
  stream_turns-AllPriced interval symbols ((now, nothing) ∷ ts) s all =
      stream_turns-AllPriced interval symbols ts _
        (rw (resubscribe_due-prices interval symbols now s) all)
  stream_turns-AllPriced interval symbols ((now, broken) ∷ ts) s all =
      rw (resubscribe_due-prices interval symbols now s) all
  stream_turns-AllPriced interval symbols ((now, payload p) ∷ ts) s all =
      stream_turns-AllPriced interval symbols ts _ (
        rw (resubscribe_due-prices interval symbols now s)
          (on_payload-AllPriced now p s.prices all))
