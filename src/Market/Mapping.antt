-- ===== src/Market/Mapping.antt =====
-- `MarketMapper` and `MarketMap` (backend/market_data/mapping.py): the tokens of an event with their sides.
-- An event's JSON is given in the fields that the code reads, with what `json.loads` makes of a
-- text as part of the reading. `lower` and `upper` are Python's `str.lower` and `str.upper`.
use polyfast.Base.{
  String, Bool, true, false, ◌&&◌, ◌||◌, Option, none, some, List, [], ◌∷◌, ◌++◌, if◌then◌else◌,
  str_eq, is_some,
}
use polyfast.Base.Sets.{codes}
use polyfast.Discovery.Parse.{is_infix, first_symbol}

-- `MarketSide`
pub data MarketSide : Type 0 where
  up_side down_side : MarketSide

abbrev pub is_side : MarketSide → MarketSide → Bool
is_side up_side up_side = true
is_side down_side down_side = true
is_side _ _ = false

-- `MappingStatus`, of which the mapper uses two.
pub data MappingStatus : Type 0 where
  mapped unmappable : MappingStatus

pub record TokenMapping : Type 0 where
  pub token_id : String
  pub side : MarketSide
  pub outcome : String

pub record MarketMap : Type 0 where
  pub condition_id : String
  pub asset : String
  pub tokens : List TokenMapping
  pub status : MappingStatus

unfoldable pub token_by_side : MarketSide → List TokenMapping → Option TokenMapping
token_by_side side [] = none
token_by_side side (t ∷ ts) =
    let rest = token_by_side side ts in if is_side t.side side then some t else rest

-- `get_token_by_side`
abbrev pub get_token_by_side : MarketSide → MarketMap → Option TokenMapping
get_token_by_side side m = token_by_side side m.tokens

-- `is_complete`
unfoldable pub is_complete : MarketMap → Bool
is_complete m = is_some (get_token_by_side up_side m) && is_some (get_token_by_side down_side m)

-- A token of the CLOB form.
pub record TokenDict : Type 0 where
  pub token_id : String
  pub outcome : String

-- A market of the Gamma form.
pub record RawMarket : Type 0 where
  pub clob_token_ids : List String
  pub outcomes : List String
  pub tokens : List TokenDict

pub record RawMapping : Type 0 where
  pub condition_id : String
  pub question : String  -- or the title
  pub tokens : List TokenDict
  pub markets : List RawMarket

module _ (lower : String → String) where
  -- `_classify_side`
  unfoldable pub classify_side : String → MarketSide
  classify_side outcome =
      let o = lower outcome in
      if str_eq o "up" || str_eq o "yes" || str_eq o "higher" || str_eq o "above"
      then up_side
      else down_side

  abbrev pub mapping_of : String → String → TokenMapping
  mapping_of token_id outcome = record {
    token_id = token_id;
    side = classify_side outcome;
    outcome = outcome;
  }

  -- `_parse_token_dicts`
  unfoldable pub parse_token_dicts : List TokenDict → List TokenMapping
  parse_token_dicts [] = []
  parse_token_dicts (t ∷ ts) =
      let rest = parse_token_dicts ts in
      if str_eq t.token_id "" then rest else mapping_of t.token_id t.outcome ∷ rest

  -- The tokens with their outcomes, "" where there are fewer.
  unfoldable pub pair_outcomes : List String → List String → List TokenMapping
  pair_outcomes [] os = []
  pair_outcomes (t ∷ ts) [] =
      let rest = pair_outcomes ts [] in if str_eq t "" then rest else mapping_of t "" ∷ rest
  pair_outcomes (t ∷ ts) (o ∷ os) =
      let rest = pair_outcomes ts os in if str_eq t "" then rest else mapping_of t o ∷ rest

  unfoldable pub market_tokens : List RawMarket → List TokenMapping
  market_tokens [] = []
  market_tokens (m ∷ ms) =
      pair_outcomes m.clob_token_ids m.outcomes ++ (parse_token_dicts m.tokens ++ market_tokens ms)

  -- `_extract_tokens`
  unfoldable pub extract_tokens : RawMapping → List TokenMapping
  extract_tokens e = elim e.tokens [
    | [] ↦ market_tokens e.markets
    | t ∷ ts ↦ parse_token_dicts (t ∷ ts)
  ]

abbrev pub question_symbols : List (String × String)
question_symbols =
    ("BTC", "BTC")
    ∷ ("ETH", "ETH")
    ∷ ("SOL", "SOL")
    ∷ ("DOGE", "DOGE")
    ∷ ("XRP", "XRP")
    ∷ ("BNB", "BNB")
    ∷ ("MATIC", "MATIC")
    ∷ ("LINK", "LINK")
    ∷ ("ADA", "ADA")
    ∷ ("AVAX", "AVAX")
    ∷ ("DOT", "DOT")
    ∷ ("SHIB", "SHIB")
    ∷ ("LTC", "LTC")
    ∷ ("UNI", "UNI")
    ∷ ("ATOM", "ATOM")
    ∷ []

-- `_extract_asset`
unfoldable pub question_asset : (String → String) → RawMapping → String
question_asset upper e =
    elim (first_symbol (λ s. is_infix (codes s) (codes (upper e.question))) question_symbols) [
      | some symbol ↦ symbol
      | none ↦ "UNKNOWN"
    ]

module _ (lower upper : String → String) where
  abbrev pub map_of : RawMapping → MappingStatus → List TokenMapping → MarketMap
  map_of e status tokens = record {
    condition_id = e.condition_id;
    asset = question_asset upper e;
    tokens = tokens;
    status = status;
  }

  -- The map of an event with a condition and these tokens.
  unfoldable pub with_tokens : RawMapping → List TokenMapping → MarketMap
  with_tokens e [] = map_of e unmappable []
  with_tokens e (t ∷ ts) = map_of e mapped (t ∷ ts)

  -- `map_event`
  unfoldable pub map_event : RawMapping → MarketMap
  map_event e =
      if str_eq e.condition_id ""
      then map_of e unmappable []
      else with_tokens e (extract_tokens lower e)
