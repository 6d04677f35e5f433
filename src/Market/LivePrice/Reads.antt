-- ===== src/Market/LivePrice/Reads.antt =====
-- What a read of the pipeline leaves alone.
use polyfast.Base.{ℕ, String, ◌≡◌, none, [], ◌∷◌, arith}
use polyfast.Base.Dict.{Dict, get}
use polyfast.Market.LivePrice.{
  LivePriceRecord, Pipeline, check_freshness, find_asset, get_record_by_asset,
}

module _ {N : Type 0} (upper : String → String) (asset : String) (now : ℕ) (cid : String) where
  find_asset-none :
      (d : Dict (LivePriceRecord N))
      → get d cid ≡ none
      → get (find_asset upper asset now d).1 cid ≡ none
  unfolding find_asset get
  find_asset-none [] h = h
  find_asset-none ((k, r) ∷ d) h = ground (arith, find_asset-none d)

  -- A read by asset makes no record.
  pub get_record_by_asset-none :
      (p : Pipeline N)
      → get p.records cid ≡ none
      → get (get_record_by_asset upper asset now p).1.records cid ≡ none
  unfolding get_record_by_asset
  get_record_by_asset-none p h = find_asset-none p.records h

module _ {N : Type 0} (now : ℕ) (r : LivePriceRecord N) where
  -- The check of its freshness changes no price and no name of a record.
  pub check_freshness-quotes :
      (check_freshness now r).up_bid ≡ r.up_bid
      × ((check_freshness now r).up_ask ≡ r.up_ask)
      × ((check_freshness now r).down_bid ≡ r.down_bid)
      × ((check_freshness now r).down_ask ≡ r.down_ask)
  unfolding check_freshness
  check_freshness-quotes = (ground arith, ground arith, ground arith, ground arith)
