-- ===== src/Market/Subscriptions/Routed.antt =====
-- Every token with a route belongs to the active event of its asset.
use polyfast.Base.{
  String, Bool, true, false, not, ◌||◌, ◌≡◌, ◌≢◌, ◌⊎◌, inl, inr, sym, ap, ◌∙◌, none, some, List, [],
  ◌∷◌, map, str_eq, eq_iff, eq_refl, arith, Bool-cases, if-cases,
}
use polyfast.Base.Dict.{
  Dict, get, put, get-put, get-put_self, get-put_ne, get-put_cases, get-remove,
}
use polyfast.Base.Lists.{IsIn, in_head, in_tail}
use polyfast.Base.Sets.{
  contains, keys, sorted_set, contains-select, contains-sorted_set, contains-keys,
}
use polyfast.Float.{Float}
use polyfast.Market.Bridge.{TokenRoute, Bridge, register_token}
use polyfast.Market.Cleanup.{get-unregister_tokens}
use polyfast.Market.Rtds.{is_empty}
use polyfast.Market.Subscriptions.{
  EventData, Subscriptions, event_of, register_tokens, asset_tokens, unsubscribe_asset,
  subscribe_asset, subscribe_all, unsubscribe_all, rotate, rotate_all, needs_rotation,
  resubscribe_rtds, apply_diff, compute_diff,
}

abbrev IsRouteOf : String → String → TokenRoute → Type 0
IsRouteOf cid asset r = (r.condition_id ≡ cid) × (r.asset ≡ asset)

-- A route after one registration is the new one, or was there.
get-register_token :
    (t cid asset side : String) (b : Bridge) (tid : String) (r : TokenRoute)
    → get (register_token t cid asset side b).token_routes tid ≡ some r
    → IsRouteOf cid asset r ⊎ (get b.token_routes tid ≡ some r)
unfolding register_token
get-register_token t cid asset side b tid r h = elim (get-put_cases b.token_routes t tid _ h) [
  | inl (same, new) ↦ inl (ap (λ q. q.condition_id) (sym new), ap (λ q. q.asset) (sym new))
  | inr old ↦ inr old
]

get-register_tokens :
    (cid asset : String) (ts sides : List String) (b : Bridge) (tid : String) (r : TokenRoute)
    → get (register_tokens cid asset ts sides b).token_routes tid ≡ some r
    → IsRouteOf cid asset r ⊎ (get b.token_routes tid ≡ some r)
unfolding register_tokens
get-register_tokens cid asset [] sides b tid r h = inr h
get-register_tokens cid asset (t ∷ ts) [] b tid r h =
    elim (get-register_tokens cid asset ts [] (register_token t cid asset "up" b) tid r h) [
      | inl own ↦ inl own
      | inr before ↦ get-register_token t cid asset "up" b tid r before
    ]
get-register_tokens cid asset (t ∷ ts) (side ∷ sides) b tid r h =
    elim (get-register_tokens cid asset ts sides (register_token t cid asset side b) tid r h) [
      | inl own ↦ inl own
      | inr before ↦ get-register_token t cid asset side b tid r before
    ]

asset_tokens-IsIn :
    (upper : String → String) (asset : String) (d : Dict TokenRoute) (tid : String) (r : TokenRoute)
    → get d tid ≡ some r
    → r.asset ≡ asset
    → IsIn tid (asset_tokens upper asset d)
unfolding get asset_tokens
asset_tokens-IsIn upper asset [] tid r h e = absurd (ground arith)
asset_tokens-IsIn upper asset ((t, q) ∷ d) tid r h e = elim (Bool-cases (str_eq t tid)) [
  | inl same ↦
      let q_is : q ≡ r = ground arith in
      let here : str_eq (upper q.asset) (upper asset) ≡ true =
        (eq_iff _ _).1 (ap (λ (x : TokenRoute). upper x.asset) q_is ∙ ap upper e) in
      rw here (in_head (ground (arith, eq_iff t tid)))
  | inr other ↦
      let i = asset_tokens-IsIn upper asset d tid r (ground arith) e in
      if-cases (IsIn tid) (str_eq (upper q.asset) (upper asset)) _ _ (λ h. in_tail i) (λ h. i)
]

-- Every route is one of the active event of its asset.
abbrev pub IsRouted : {N : Type 0} → Subscriptions N → Type 0
IsRouted s =
    (tid : String) (r : TokenRoute)
    → get s.bridge.token_routes tid ≡ some r
    → get s.active_events r.asset ≡ some r.condition_id

module _ {N : Type 0} (upper : String → String) (a : String) (s : Subscriptions N) where
  get-unsubscribe_asset :
      (tid : String) (r : TokenRoute)
      → get (unsubscribe_asset upper a s).bridge.token_routes tid ≡ some r
      → (get s.bridge.token_routes tid ≡ some r) × (r.asset ≢ a)
  unfolding unsubscribe_asset
  get-unsubscribe_asset tid r h =
      let (before, kept) =
        get-unregister_tokens (asset_tokens upper a s.bridge.token_routes) s.bridge tid r h in
      (before, λ e. kept (asset_tokens-IsIn upper a s.bridge.token_routes tid r before e))

module _ (events : Dict EventData) where
  abbrev pub cid_of : String → String
  cid_of a = (event_of events a).condition_id

  -- An asset has no active event, or the one that is about to be made its active event.
  abbrev IsFree : String → Dict String → Type 0
  IsFree a active = (get active a ≡ none) ⊎ (get active a ≡ some (cid_of a))

  put-IsFree :
      (x a : String) (active : Dict String) → IsFree a active → IsFree a (put active x (cid_of x))
  put-IsFree x a active h = elim (Bool-cases (str_eq x a)) [
    | inl same ↦
        let e : x ≡ a = (eq_iff x a).0 same in inr (rw e (get-put_self active a (cid_of a)))
    | inr other ↦ rw (get-put active x a (cid_of x)) (rw other h)
  ]

  -- After an asset has its event, the routes of that event and the others' routes are in order.
  put-routed :
      (a : String) (active : Dict String) (r : TokenRoute)
      → IsRouteOf (cid_of a) a r ⊎ ((get active r.asset ≡ some r.condition_id) × (r.asset ≢ a))
      → get (put active a (cid_of a)) r.asset ≡ some r.condition_id
  put-routed a active r (inl (c, e)) = rw (e, c) (get-put_self active a (cid_of a))
  put-routed a active r (inr (h, other)) =
      get-put_ne active a r.asset (cid_of a) (λ e. other (sym e)) ∙ h

module _ {N : Type 0} ⦃f : Float N⦄ (upper : String → String) (events : Dict EventData) where
  subscribe_asset-routed :
      (x : String) (s : Subscriptions N) (tid : String) (r : TokenRoute)
      → IsRouted s
      → IsFree events x s.active_events
      → get (subscribe_asset upper x (event_of events x) s).bridge.token_routes tid ≡ some r
      → get (put s.active_events x (cid_of events x)) r.asset ≡ some r.condition_id
  unfolding subscribe_asset
  subscribe_asset-routed x s tid r h free e =
      put-routed events x s.active_events r
        (elim (get-register_tokens (cid_of events x) x _ _ s.bridge tid r e) [
          | inl own ↦ inl own
          | inr before ↦ (elim (Bool-cases (str_eq r.asset x)) [
            | inl same ↦
                let here : r.asset ≡ x = (eq_iff r.asset x).0 same in
                inl (ground (arith, h tid r before, free), here)
            | inr other ↦ inr (h tid r before, λ here. ground (arith, eq_iff r.asset x))
          ])
        ])

  subscribe_all-IsRouted :
      (xs : List String) (s : Subscriptions N)
      → IsRouted s
      → ((a : String) → contains xs a ≡ true → IsFree events a s.active_events)
      → IsRouted (subscribe_all upper events xs s)
  unfolding subscribe_all contains subscribe_asset event_of
  subscribe_all-IsRouted [] s h free = h
  subscribe_all-IsRouted (x ∷ xs) s h free =
      let first : IsFree events x s.active_events = free x (ground (arith, eq_refl x)) in
      subscribe_all-IsRouted xs _ (λ tid r e. subscribe_asset-routed x s tid r h first e)
        (λ a i. put-IsFree events x a s.active_events (free a (ground arith)))

  unsubscribe_all-IsRouted :
      (xs : List String) (s : Subscriptions N) → IsRouted s → IsRouted (unsubscribe_all upper xs s)
  unfolding unsubscribe_all unsubscribe_asset
  unsubscribe_all-IsRouted [] s h = h
  unsubscribe_all-IsRouted (x ∷ xs) s h = unsubscribe_all-IsRouted xs _ λ tid r e.
      let (before, other) = get-unsubscribe_asset upper x s tid r e in
      let kept = h tid r before in
      let apart : str_eq x r.asset ≡ false = ground (arith, eq_iff x r.asset) in
      ground (arith, get-remove s.active_events x r.asset)

  rotate-IsRouted :
      (a : String) (s : Subscriptions N) → IsRouted s → IsRouted (rotate upper events a s)
  unfolding rotate subscribe_asset unsubscribe_asset
  rotate-IsRouted a s h tid r e =
      put-routed events a s.active_events r
        (elim (get-register_tokens (cid_of events a) a _ _ (unsubscribe_asset upper a s).bridge tid
          r e) [
            | inl own ↦ inl own
            | inr before ↦
                (let (there, other) = get-unsubscribe_asset upper a s tid r before in
                  inr (h tid r there, other))
          ])

  rotate_all-IsRouted :
      (xs : List String) (c : Bool × Subscriptions N)
      → IsRouted (c.1)
      → IsRouted (rotate_all upper events xs c).1
  unfolding rotate_all
  rotate_all-IsRouted [] c h = h
  rotate_all-IsRouted (x ∷ xs) c h = rotate_all-IsRouted xs _ (
      if-cases (λ (d : Bool × Subscriptions N). IsRouted (d.1))
        (needs_rotation upper events x (c.1)) _ _ (λ turns. rotate-IsRouted x (c.1) h) (λ stays. h))

  resubscribe_rtds-IsRouted :
      (went : Bool) (s : Subscriptions N) → IsRouted s → IsRouted (resubscribe_rtds went s)
  unfolding resubscribe_rtds
  resubscribe_rtds-IsRouted went s h = h

  -- An asset that the diff subscribes to has no active event.
  to_subscribe-none :
      (assets : List String) (s : Subscriptions N) (a : String)
      → contains (compute_diff upper assets s).to_subscribe a ≡ true
      → get s.active_events a ≡ none
  unfolding compute_diff
  to_subscribe-none assets s a h =
      let had = sorted_set (keys s.active_events) in
      let wanted = sorted_set (map upper assets) in
      ground (
        arith,
        contains-select (λ x. not (contains had x)) wanted a,
        contains-sorted_set (keys s.active_events) a,
        contains-keys s.active_events a,
      )

  pub apply_diff-IsRouted :
      (assets : List String) (went : Bool) (s : Subscriptions N)
      → IsRouted s
      → IsRouted (apply_diff upper (compute_diff upper assets s) events went s)
  unfolding apply_diff
  apply_diff-IsRouted assets went s h =
      let diff = compute_diff upper assets s in
      let started = subscribe_all upper events diff.to_subscribe s in
      let left = unsubscribe_all upper diff.to_unsubscribe started in
      let last = rotate_all upper events diff.unchanged (false, left) in
      let done : IsRouted (last.1) =
        rotate_all-IsRouted diff.unchanged (false, left)
          (unsubscribe_all-IsRouted diff.to_unsubscribe started (
            subscribe_all-IsRouted diff.to_subscribe s h
              (λ a i. inl (to_subscribe-none assets s a i)))) in
      if-cases IsRouted
        (not (is_empty diff.to_subscribe) || not (is_empty diff.to_unsubscribe) || last.0)
        (resubscribe_rtds went (last.1)) (last.1)
        (λ changed. resubscribe_rtds-IsRouted went (last.1) done) (λ same. done)
