-- ===== src/Market/Cleanup.antt =====
-- `EventCleanup` (backend/orchestrator/cleanup.py): what is removed when an event ends.
use polyfast.Base.{
  ℕ, ◌+◌, String, true, ◌≡◌, ◌≢◌, inl, inr, none, some, List, [], ◌∷◌, if◌then◌else◌, str_eq,
  eq_iff, eq_refl, sym, ◌∙◌, arith, Bool-cases, if-cases,
}
use polyfast.Base.Dict.{Dict, get, get-remove}
use polyfast.Base.Lists.{IsIn, in_head, in_tail, length}
use polyfast.Float.{Float}
use polyfast.Ptb.Fetcher.{PtbRecords, clear_event as clear_ptb}
use polyfast.Market.LivePrice.{clear_event}
use polyfast.Market.Bridge.{TokenRoute, Bridge, Feed, WsMessage, unregister_token, on_messages}
use polyfast.Market.Bridge.Silent.{IsUnrouted, on_messages-IsSilent}

-- The parts that the cleanup works on.
pub record Watched (N : Type 0) : Type 0 where
  pub feed : Feed N
  pub prices_to_beat : PtbRecords N
  pub cleaned_count : ℕ

-- `[tid for tid, route in routes.items() if route.condition_id == cid]`
unfoldable pub tokens_of : String → Dict TokenRoute → List String
tokens_of cid [] = []
tokens_of cid ((tid, r) ∷ d) =
    let rest = tokens_of cid d in if str_eq r.condition_id cid then tid ∷ rest else rest

unfoldable pub unregister_tokens : List String → Bridge → Bridge
unregister_tokens [] b = b
unregister_tokens (tid ∷ tids) b = unregister_tokens tids (unregister_token tid b)

module _ {N : Type 0} where
  unfoldable pub cleanup_event : String → Watched N → Watched N
  cleanup_event cid w = record {
    feed = record {
      pipeline = clear_event cid w.feed.pipeline;
      bridge = unregister_tokens (tokens_of cid w.feed.bridge.token_routes) w.feed.bridge;
    };
    prices_to_beat = clear_ptb cid w.prices_to_beat;
    cleaned_count = w.cleaned_count + 1;
  }

  clean_each : List String → Watched N → Watched N
  clean_each [] w = w
  clean_each (cid ∷ cids) w = clean_each cids (cleanup_event cid w)

  -- `cleanup_expired_events`
  unfoldable pub cleanup_expired_events : List String → Watched N → ℕ × Watched N
  unfolding clean_each
  cleanup_expired_events cids w = (length cids, clean_each cids w)

tokens_of-IsIn :
    (cid : String) (d : Dict TokenRoute) (tid : String) (r : TokenRoute)
    → get d tid ≡ some r
    → r.condition_id ≡ cid
    → IsIn tid (tokens_of cid d)
unfolding get tokens_of
tokens_of-IsIn cid [] tid r h e = absurd (ground arith)
tokens_of-IsIn cid ((t, q) ∷ d) tid r h e = elim (Bool-cases (str_eq t tid)) [
  | inl same ↦
      let here : str_eq q.condition_id cid ≡ true = ground (arith, eq_iff q.condition_id cid) in
      rw here (in_head (ground (arith, eq_iff t tid)))
  | inr other ↦
      let i = tokens_of-IsIn cid d tid r (ground arith) e in
      if-cases (IsIn tid) (str_eq q.condition_id cid) _ _ (λ h. in_tail i) (λ h. i)
]

-- A route that is left was there before, and its token was not removed.
pub get-unregister_tokens :
    (tids : List String) (b : Bridge) (tid : String) (r : TokenRoute)
    → get (unregister_tokens tids b).token_routes tid ≡ some r
    → (get b.token_routes tid ≡ some r) × (IsIn tid tids → ⊥)
unfolding unregister_tokens unregister_token
get-unregister_tokens [] b tid r h = (h, λ i. elim i [ ])
get-unregister_tokens (t ∷ tids) b tid r h =
    let (h', others) = get-unregister_tokens tids (unregister_token t b) tid r h in
    let kept : get b.token_routes tid ≡ some r = ground (arith, get-remove b.token_routes t tid) in
    let other : t ≢ tid = λ e. ground (arith, get-remove b.token_routes t tid, eq_iff t tid) in
    (kept, λ i. elim i [ in_head e ↦ other (sym e) | in_tail j ↦ others j ])

cleaned-IsUnrouted :
    (cid : String) (b : Bridge)
    → IsUnrouted cid (unregister_tokens (tokens_of cid b.token_routes) b)
unfolding IsUnrouted
cleaned-IsUnrouted cid b tid r h e =
    let left = get-unregister_tokens (tokens_of cid b.token_routes) b tid r h in
    left.1 (tokens_of-IsIn cid b.token_routes tid r left.0 e)

module _ {N : Type 0} ⦃f : Float N⦄ (lower : String → String) where
  -- After the cleanup of an event its live price and its price to beat are gone and no token leads to
  -- it, and whatever messages follow, its live price does not come back. The live prices and the
  -- prices to beat of the other events stay.
  pub cleanup_event-removes :
      (cid : String) (w : Watched N) (ms : List (ℕ × WsMessage N))
      → let w' = cleanup_event cid w in
        (get (on_messages lower ms w'.feed).pipeline.records cid ≡ none)
        × (get w'.prices_to_beat cid ≡ none)
        × IsUnrouted cid w'.feed.bridge
        × ((j : String)
            → cid ≢ j
            → (get w'.feed.pipeline.records j ≡ get w.feed.pipeline.records j)
              × (get w'.prices_to_beat j ≡ get w.prices_to_beat j))
  unfolding cleanup_event clear_event
  cleanup_event-removes cid w ms =
      let w' = cleanup_event cid w in
      let free = cleaned-IsUnrouted cid w.feed.bridge in
      (
        (on_messages-IsSilent lower cid ms w'.feed free).price_kept
            ∙ ground (arith, get-remove w.feed.pipeline.records cid cid, eq_refl cid),
        ground (arith, get-remove w.prices_to_beat cid cid, eq_refl cid),
        free,
        λ j other. (
          ground (arith, get-remove w.feed.pipeline.records cid j, eq_iff cid j),
          ground (arith, get-remove w.prices_to_beat cid j, eq_iff cid j),
        ),
      )
