-- ===== src/Market/Subscriptions/Active.antt =====
-- Which events are active after an update of the subscriptions.
use polyfast.Base.{
  String, Bool, true, false, not, ◌&&◌, ◌||◌, ◌≡◌, inl, inr, refl, ◌∙◌, Option, none, some, List,
  [], ◌∷◌, map, is_some, if◌then◌else◌, str_eq, eq_iff, eq_refl, arith, Bool-cases, if-cases,
}
use polyfast.Base.Dict.{Dict, get, put, remove, get-put, get-remove}
use polyfast.Base.Sets.{
  contains, keys, sorted_set, contains-select, contains-sorted_set, contains-keys,
}
use polyfast.Float.{Float}
use polyfast.Market.Rtds.{is_empty}
use polyfast.Market.Subscriptions.{
  EventData, Subscriptions, SubscriptionDiff, event_of, is_rotated, or_empty, unsubscribe_asset,
  subscribe_asset, subscribe_all, unsubscribe_all, rotate, rotate_all, needs_rotation,
  resubscribe_rtds, apply_diff, update_subscriptions, compute_diff,
}
use polyfast.Market.Subscriptions.Routed.{IsRouted, cid_of, apply_diff-IsRouted}
use polyfast.Market.Subscriptions.InStep.{IsInStep, apply_diff-IsInStep}

-- The condition that an eligible asset is to have, by the one that it had: its event's, unless it had
-- one that is the same, or one of the two is empty.
abbrev pub next_event : String → Option String → String
next_event cid none = cid
next_event cid (some old) = if is_rotated cid old then cid else old

-- The condition of an asset whose event may turn.
turn : String → Option String → Option String
turn cid old = if is_rotated cid (or_empty old) then some cid else old

turn-turn : (cid : String) (old : Option String) → turn cid (turn cid old) ≡ turn cid old
unfolding turn is_rotated
turn-turn cid old = ground (arith, eq_refl cid)

combine :
    (same later : Bool) (cid : String) (old : Option String)
    → (let mid = if same then turn cid old else old in if later then turn cid mid else mid)
      ≡ (if same || later then turn cid old else old)
combine true true cid old = turn-turn cid old
combine true false cid old = refl
combine false true cid old = refl
combine false false cid old = refl

-- What the three loops make of an asset's condition, by the parts of the diff that it stands in.
merge : Bool → Bool → Bool → String → Option String → Option String
unfolding turn
merge starts leaves stays cid old =
    let started = if starts then some cid else old in
    let left = if leaves then none else started in if stays then turn cid left else left

merge-next_event :
    (wanted : Bool) (cid : String) (old : Option String)
    → merge
        (wanted && not (is_some old))
        (is_some old && not wanted)
        (wanted && is_some old)
        cid
        old
      ≡ (if wanted then some (next_event cid old) else none)
unfolding merge
merge-next_event true cid none = refl
merge-next_event true cid (some o) = ground arith
merge-next_event false cid none = refl
merge-next_event false cid (some o) = refl

module _ {N : Type 0} ⦃f : Float N⦄ (upper : String → String) (events : Dict EventData) where
  subscribe_all-active :
      (xs : List String) (s : Subscriptions N) (a : String)
      → get (subscribe_all upper events xs s).active_events a
        ≡ (if contains xs a then some (cid_of events a) else get s.active_events a)
  unfolding subscribe_all subscribe_asset contains
  subscribe_all-active [] s a = refl
  subscribe_all-active (x ∷ xs) s a =
      let s' = subscribe_asset upper x (event_of events x) s in
      let t : Subscriptions N = record s' {
        active_events = put s'.active_events x (cid_of events x);
      } in
      subscribe_all-active xs t a ∙ elim (Bool-cases (str_eq x a)) [
        | inl same ↦
            let e : x ≡ a = (eq_iff x a).0 same in
            rw e (ground (arith, get-put s.active_events a a (cid_of events a), eq_refl a))
        | inr other ↦ ground (arith, get-put s.active_events x a (cid_of events x))
      ]

  unsubscribe_all-active :
      (xs : List String) (s : Subscriptions N) (a : String)
      → get (unsubscribe_all upper xs s).active_events a
        ≡ (if contains xs a then none else get s.active_events a)
  unfolding unsubscribe_all unsubscribe_asset contains
  unsubscribe_all-active [] s a = refl
  unsubscribe_all-active (x ∷ xs) s a =
      let s' = unsubscribe_asset upper x s in
      let t : Subscriptions N = record s' { active_events = remove s'.active_events x } in
      unsubscribe_all-active xs t a ∙ ground (arith, get-remove s.active_events x a)

  abbrev rotate_one : String → Bool × Subscriptions N → Bool × Subscriptions N
  rotate_one x c =
      if needs_rotation upper events x (c.1) then (true, rotate upper events x (c.1)) else c

  rotate_one-active :
      (x : String) (c : Bool × Subscriptions N) (a : String)
      → get (rotate_one x c).1.active_events a ≡ (
          if str_eq x a
          then turn (cid_of events a) (get (c.1).active_events a)
          else get (c.1).active_events a)
  unfolding turn rotate subscribe_asset unsubscribe_asset needs_rotation
  rotate_one-active x c a = elim (Bool-cases (str_eq x a)) [
    | inl same ↦
        let e : x ≡ a = (eq_iff x a).0 same in
        rw e (ground (arith, get-put (c.1).active_events a a (cid_of events a), eq_refl a))
    | inr other ↦ ground (arith, get-put (c.1).active_events x a (cid_of events x))
  ]

  rotate_all-active :
      (xs : List String) (c : Bool × Subscriptions N) (a : String)
      → get (rotate_all upper events xs c).1.active_events a ≡ (
          if contains xs a
          then turn (cid_of events a) (get (c.1).active_events a)
          else get (c.1).active_events a)
  unfolding rotate_all contains
  rotate_all-active [] c a = refl
  rotate_all-active (x ∷ xs) c a =
      rotate_all-active xs (rotate_one x c) a
      ∙ rw (rotate_one-active x c a)
          (combine (str_eq x a) (contains xs a) (cid_of events a) (get (c.1).active_events a))

  -- The three loops of `apply_diff` together.
  apply_diff-active :
      (diff : SubscriptionDiff) (went : Bool) (s : Subscriptions N) (a : String)
      → get (apply_diff upper diff events went s).active_events a
        ≡ merge
            (contains diff.to_subscribe a)
            (contains diff.to_unsubscribe a)
            (contains diff.unchanged a)
            (cid_of events a)
            (get s.active_events a)
  unfolding apply_diff resubscribe_rtds merge
  apply_diff-active diff went s a =
      let started = subscribe_all upper events diff.to_subscribe s in
      let left = unsubscribe_all upper diff.to_unsubscribe started in
      let last = rotate_all upper events diff.unchanged (false, left) in
      let merged =
        merge (contains diff.to_subscribe a) (contains diff.to_unsubscribe a)
          (contains diff.unchanged a) (cid_of events a) (get s.active_events a) in
      let all : get (last.1).active_events a ≡ merged =
        rotate_all-active diff.unchanged (false, left) a
        ∙ rw
            (
              unsubscribe_all-active diff.to_unsubscribe started a,
              subscribe_all-active diff.to_subscribe s a,
            )
            refl in
      if-cases (λ (t : Subscriptions N). get t.active_events a ≡ merged)
        (not (is_empty diff.to_subscribe) || not (is_empty diff.to_unsubscribe) || last.0)
        (resubscribe_rtds went (last.1)) (last.1) (λ changed. all) (λ same. all)

  compute_diff-merge :
      (assets : List String) (s : Subscriptions N) (a : String)
      → let diff = compute_diff upper assets s in
        merge
          (contains diff.to_subscribe a)
          (contains diff.to_unsubscribe a)
          (contains diff.unchanged a)
          (cid_of events a)
          (get s.active_events a)
        ≡ (if contains (map upper assets) a
            then some (next_event (cid_of events a) (get s.active_events a))
            else none)
  unfolding compute_diff
  compute_diff-merge assets s a =
      let had = sorted_set (keys s.active_events) in
      let wanted = sorted_set (map upper assets) in
      rw
        (
          contains-select (λ x. not (contains had x)) wanted a,
          contains-select (λ x. not (contains wanted x)) had a,
          contains-select (contains had) wanted a,
          contains-sorted_set (keys s.active_events) a,
          contains-sorted_set (map upper assets) a,
          contains-keys s.active_events a,
        )
        (merge-next_event (contains (map upper assets) a) (cid_of events a) (get s.active_events a))

  -- Where every token's route is one of the active event of its asset, and an RTDS client tracks
  -- exactly the tokens with routes, so it is after an update; and then exactly the eligible assets
  -- have an active event: the one that `next_event` gives.
  pub update_subscriptions-IsRouted :
      (assets : List String) (went : Bool) (s : Subscriptions N)
      → IsRouted s
      → IsInStep s
      → let s' = update_subscriptions upper assets events went s in
        ((a : String)
          → get s'.active_events a ≡ (
              if contains (map upper assets) a
              then some (next_event (cid_of events a) (get s.active_events a))
              else none))
        × IsRouted s'
        × IsInStep s'
  unfolding update_subscriptions
  update_subscriptions-IsRouted assets went s h k = (
    λ a. apply_diff-active (compute_diff upper assets s) went s a ∙ compute_diff-merge assets s a,
    apply_diff-IsRouted upper events assets went s h,
    apply_diff-IsInStep upper events (compute_diff upper assets s) went s k,
  )
