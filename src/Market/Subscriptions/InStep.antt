-- ===== src/Market/Subscriptions/InStep.antt =====
-- The RTDS client tracks the tokens that have a route.
use polyfast.Base.{
  String, Bool, true, false, ◌≡◌, inl, inr, refl, sym, ap, ◌∙◌, subst, some, List, [], ◌∷◌,
  if◌then◌else◌, arith, Bool-cases, Option-cases, if-cases,
}
use polyfast.Base.Dict.{Dict}
use polyfast.Base.Sets.{keys}
use polyfast.Float.{Float}
use polyfast.Market.Rtds.{Rtds, subscribe, update_subscription, is_empty}
use polyfast.Market.Subscriptions.{
  EventData, Subscriptions, SubscriptionDiff, subscribe_all, unsubscribe_all, rotate, rotate_all,
  needs_rotation, renew, resubscribe_rtds, apply_diff,
}

abbrev pub IsInStep : {N : Type 0} → Subscriptions N → Type 0
IsInStep s = (r : Rtds) → s.rtds ≡ some r → r.subscribed_tokens ≡ keys s.bridge.token_routes

renew-tokens :
    (went : Bool) (tokens : List String) (r : Rtds)
    → (renew went tokens r).subscribed_tokens ≡ tokens
unfolding renew update_subscription subscribe
renew-tokens went tokens r = ground arith

module _ {N : Type 0} where
  resubscribe_rtds-IsInStep :
      (went : Bool) (s : Subscriptions N) → IsInStep (resubscribe_rtds went s)
  unfolding resubscribe_rtds
  resubscribe_rtds-IsInStep went s r h = elim (Option-cases s.rtds) [
    | inl missing ↦ absurd (ground arith)
    | inr (q, e) ↦
        let now : r ≡ renew went (keys s.bridge.token_routes) q = ground arith in
        rw now (renew-tokens went (keys s.bridge.token_routes) q)
  ]

module _ {N : Type 0} ⦃f : Float N⦄ (upper : String → String) (events : Dict EventData) where
  subscribe_all-none :
      (xs : List String) (s : Subscriptions N)
      → is_empty xs ≡ true
      → subscribe_all upper events xs s ≡ s
  unfolding subscribe_all
  subscribe_all-none [] s h = refl
  subscribe_all-none (x ∷ xs) s h = absurd (ground arith)

  unsubscribe_all-none :
      (xs : List String) (s : Subscriptions N) → is_empty xs ≡ true → unsubscribe_all upper xs s ≡ s
  unfolding unsubscribe_all
  unsubscribe_all-none [] s h = refl
  unsubscribe_all-none (x ∷ xs) s h = absurd (ground arith)

  rotate_all-none :
      (xs : List String) (c : Bool × Subscriptions N)
      → (rotate_all upper events xs c).0 ≡ false
      → (c.0 ≡ false) × ((rotate_all upper events xs c).1 ≡ c.1)
  unfolding rotate_all
  rotate_all-none [] c h = (h, refl)
  rotate_all-none (x ∷ xs) c h =
      let c' : Bool × Subscriptions N =
        if needs_rotation upper events x (c.1) then (true, rotate upper events x (c.1)) else c in
      let (never, same) = rotate_all-none xs c' h in
      elim (Bool-cases (needs_rotation upper events x (c.1))) [
        | inl turns ↦ let e : c' ≡ (true, rotate upper events x (c.1)) = rw turns refl in cc
        | inr stays ↦
            let e : c' ≡ c = rw stays refl in
            (
              ap (λ (d : Bool × Subscriptions N). d.0) (sym e) ∙ never,
              same ∙ ap (λ (d : Bool × Subscriptions N). d.1) e,
            )
      ]

  pub apply_diff-IsInStep :
      (diff : SubscriptionDiff) (went : Bool) (s : Subscriptions N)
      → IsInStep s
      → IsInStep (apply_diff upper diff events went s)
  unfolding apply_diff
  apply_diff-IsInStep diff went s h =
      let started = subscribe_all upper events diff.to_subscribe s in
      let left = unsubscribe_all upper diff.to_unsubscribe started in
      let last = rotate_all upper events diff.unchanged (false, left) in
      if-cases IsInStep _ _ _ (λ changed. resubscribe_rtds-IsInStep went (last.1))
        λ unchanged.
          let none_new : is_empty diff.to_subscribe ≡ true = ground arith in
          let none_left : is_empty diff.to_unsubscribe ≡ true = ground arith in
          let none_turned : last.0 ≡ false = ground arith in
          let same : last.1 ≡ s =
            (rotate_all-none diff.unchanged (false, left) none_turned).1
            ∙ unsubscribe_all-none diff.to_unsubscribe started none_left
            ∙ subscribe_all-none diff.to_subscribe s none_new in
          subst IsInStep (sym same) h
