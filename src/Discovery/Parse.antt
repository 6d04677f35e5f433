-- ===== src/Discovery/Parse.antt =====
-- `DiscoveredEvent.from_api_event` and its helpers (backend/discovery/models.py). An event's JSON is
-- given in the fields that the code reads: a field that is missing has the default of its `get`,
-- and what `json.loads` makes of a text is part of the reading. `lower` and `upper` are Python's
-- `str.lower` and `str.upper`.
use polyfast.Base.{
  ℕ, String, Bool, true, false, ◌&&◌, ◌||◌, Option, none, some, List, [], ◌∷◌, if◌then◌else◌,
  str_eq, ◌==◌,
}
use polyfast.Base.Sets.{codes, contains}
use polyfast.Registry.Service.{DiscoveredEvent}

-- A tag: a dict with this slug, a text, another value, or a dict whose slug is no text, on which
-- `lower` raises.
pub data Tag : Type 0 where
  tag_dict tag_text : String → Tag
  no_tag : Tag
  bad_tag : Tag

-- The first market of an event.
pub record RawMarket : Type 0 where
  pub condition_id : String
  pub question : Option (Option String)  -- none where it is missing, `some none` where it is null
  pub clob_token_ids : List String
  pub outcomes : List String
  pub outcome_prices : String

pub record RawEvent : Type 0 where
  pub title : Option String  -- none where it is null or no text; a missing one is ""
  pub slug : Option String  -- the same
  pub tags : List Tag
  pub end_date : Option (Option ℕ)  -- none where it is empty; `fromisoformat`, none where that raises
  pub market : Option RawMarket

-- `t.startswith(s)`, by code points.
unfoldable pub is_prefix : List ℕ → List ℕ → Bool
is_prefix [] ds = true
is_prefix (c ∷ cs) [] = false
is_prefix (c ∷ cs) (d ∷ ds) = c == d && is_prefix cs ds

-- `s in t`
unfoldable pub is_infix : List ℕ → List ℕ → Bool
is_infix s [] = is_prefix s []
is_infix s (d ∷ ds) = is_prefix s (d ∷ ds) || is_infix s ds

module _ (lower : String → String) where
  -- `tag_slugs`, none where it raises.
  unfoldable pub tag_slugs : List Tag → Option (List String)
  tag_slugs [] = some []
  tag_slugs (bad_tag ∷ ts) = none
  tag_slugs (no_tag ∷ ts) = tag_slugs ts
  tag_slugs (tag_dict s ∷ ts) = elim (tag_slugs ts) [ none ↦ none | some l ↦ some (lower s ∷ l) ]
  tag_slugs (tag_text s ∷ ts) = elim (tag_slugs ts) [ none ↦ none | some l ↦ some (lower s ∷ l) ]

  -- `_extract_category_from_tags`
  unfoldable pub extract_category : List Tag → Option String
  extract_category ts = elim (tag_slugs ts) [
    | none ↦ none
    | some l ↦
        some (if contains l "crypto" || contains l "crypto-prices" then "crypto" else "unknown")
  ]

  abbrev pub is_duration : String → Bool
  is_duration s = str_eq s "5m" || str_eq s "15m" || str_eq s "1h" || str_eq s "4h"

  -- The slug of a tag in the loop of `_extract_duration_from_tags`, none where it raises.
  unfoldable pub duration_slug : Tag → Option String
  duration_slug bad_tag = none
  duration_slug no_tag = some ""
  duration_slug (tag_dict s) = some (lower s)
  duration_slug (tag_text s) = some (lower s)

  -- `_extract_duration_from_tags`; the tags after the first duration are not looked at.
  unfoldable pub extract_duration : List Tag → Option String
  extract_duration [] = some "unknown"
  extract_duration (t ∷ ts) =
      let rest = extract_duration ts in
      elim (duration_slug t) [ none ↦ none | some s ↦ if is_duration s then some s else rest ]

-- The first symbol, of those with their texts, whose text passes the test.
unfoldable pub first_symbol : (String → Bool) → List (String × String) → Option String
first_symbol test [] = none
first_symbol test ((s, symbol) ∷ l) =
    let rest = first_symbol test l in if test s then some symbol else rest

abbrev pub slug_symbols : List (String × String)
slug_symbols =
    ("BTC-", "BTC")
    ∷ ("ETH-", "ETH")
    ∷ ("SOL-", "SOL")
    ∷ ("DOGE-", "DOGE")
    ∷ ("XRP-", "XRP")
    ∷ ("BNB-", "BNB")
    ∷ ("HYPE-", "HYPE")
    ∷ ("ADA-", "ADA")
    ∷ ("AVAX-", "AVAX")
    ∷ ("DOT-", "DOT")
    ∷ ("SHIB-", "SHIB")
    ∷ ("LTC-", "LTC")
    ∷ ("UNI-", "UNI")
    ∷ ("ATOM-", "ATOM")
    ∷ []

-- `asset_map`, and then the symbols themselves.
abbrev pub title_symbols : List (String × String)
title_symbols =
    ("BITCOIN", "BTC")
    ∷ ("ETHEREUM", "ETH")
    ∷ ("SOLANA", "SOL")
    ∷ ("DOGECOIN", "DOGE")
    ∷ ("HYPERLIQUID", "HYPE")
    ∷ ("BTC", "BTC")
    ∷ ("ETH", "ETH")
    ∷ ("SOL", "SOL")
    ∷ ("DOGE", "DOGE")
    ∷ ("XRP", "XRP")
    ∷ ("BNB", "BNB")
    ∷ []

-- The second part of `_extract_asset_from_slug`, none where `title.upper` raises.
unfoldable pub asset_from_title : (String → String) → Option String → Option String
unfolding first_symbol is_infix
asset_from_title upper none = none
asset_from_title upper (some title) =
    elim (first_symbol (λ s. is_infix (codes s) (codes (upper title))) title_symbols) [
      | some symbol ↦ some symbol
      | none ↦ some "UNKNOWN"
    ]

-- `_extract_asset_from_slug`; the title is looked at where the slug has no known prefix.
unfoldable pub extract_asset : (String → String) → String → Option String → Option String
unfolding first_symbol is_prefix asset_from_title
extract_asset upper slug title =
    elim (first_symbol (λ s. is_prefix (codes s) (codes (upper slug))) slug_symbols) [
      | some symbol ↦ some symbol
      | none ↦ asset_from_title upper title
    ]

module _ (lower upper : String → String) (now : ℕ) where
  -- The event of a market with a condition. A question that is null stays so.
  unfoldable pub event_from :
      RawEvent → RawMarket → String → String → String → String → ℕ → DiscoveredEvent
  event_from raw m category duration slug asset end_date = record {
    condition_id = m.condition_id;
    asset = asset;
    question = elim m.question [ none ↦ raw.title | some q ↦ q ];
    slug = slug;
    end_date = end_date;
    discovered_at = now;
    duration = duration;
    category = category;
    clob_token_ids = m.clob_token_ids;
    outcomes = m.outcomes;
    outcome_prices = m.outcome_prices;
  }

  abbrev pub end_date_of : RawEvent → Option ℕ
  end_date_of raw = elim raw.end_date [ none ↦ some now | some parsed ↦ parsed ]

  -- The part that reads the market.
  unfoldable pub market_event :
      RawEvent → String → String → String → String → ℕ → Option DiscoveredEvent
  market_event raw category duration slug asset end_date = elim raw.market [
    | none ↦ none
    | some m ↦
        if str_eq m.condition_id ""
        then none
        else some (event_from raw m category duration slug asset end_date)
  ]

  -- `from_api_event`; every exception makes it None.
  unfoldable pub from_api_event : RawEvent → Option DiscoveredEvent
  from_api_event raw = elim (extract_category lower raw.tags) [
    | none ↦ none
    | some category ↦ (elim (extract_duration lower raw.tags) [
      | none ↦ none
      | some duration ↦ (elim raw.slug [
        | none ↦ none
        | some slug ↦ (elim (extract_asset upper slug raw.title) [
          | none ↦ none
          | some asset ↦ (elim (end_date_of raw) [
            | none ↦ none
            | some end_date ↦ market_event raw category duration slug asset end_date
          ])
        ])
      ])
    ])
  ]
