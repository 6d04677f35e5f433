-- ===== src/Market/Rtds/Reconnect.antt =====
-- The reconnection of the price WebSocket ends and brings the subscription back.
use polyfast.Base.{
  ℕ, zero, suc, ◌+◌, ◌-◌, ◌<◌, ◌^◌, String, Bool, true, false, ◌≡◌, ◌⊎◌, inl, inr, refl, Option,
  some, List, ◌∷◌, if◌then◌else◌, ltb, leb, arith, Bool-cases, if-cases,
}
use native.Mathlib.Numerals.{unary_clauses}
use polyfast.Market.Rtds.{
  Rtds, connected, failed, reconnecting, Reconnecting, backoff, reconnect_from, reconnect,
  resubscribe, subscribe, is_empty,
}

leb-lt : (a b : ℕ) → leb a b ≡ false → b < a
leb-lt a b h = ground arith

-- How a reconnection ends: with a connection over which the tokens were sent, as the last thing,
-- if there are any and the send goes through; or failed; or shut down.
pub data Reconnected (c : Reconnecting) (tokens : List String) : Bool → Rtds → Type 0 where
  is_back :
      {r : Rtds} (n : ℕ)
      → c.opens n ≡ true
      → r.state ≡ connected
      → r.ws_open ≡ true
      → r.subscribed_tokens ≡ tokens
      → (is_empty tokens ≡ true)
        ⊎ (c.sends n ≡ false)
        ⊎ ((earlier : List (List String)) × (r.sent ≡ tokens ∷ earlier))
      → Reconnected c tokens true r
  has_failed :
      {r : Rtds} → r.state ≡ failed → r.subscribed_tokens ≡ tokens → Reconnected c tokens false r
  was_shut :
      {r : Rtds} (n : ℕ)
      → c.is_shut n ≡ true
      → r.subscribed_tokens ≡ tokens
      → Reconnected c tokens false r

pow_pos : (b n : ℕ) → 0 < b → 0 < b ^ n
pow_pos b zero h = simp unary_clauses (omega arith)
pow_pos b (suc n) h = let ih = pow_pos b n h in simp unary_clauses (grind arith)

backoff_pos : (c : Reconnecting) (n : ℕ) → 0 < c.base → 0 < c.longest → 0 < backoff c n
unfolding backoff
backoff_pos c n h k = ground (arith, pow_pos c.base (if ltb n 5 then n else 5) h)

module _ (went : Bool) (r : Rtds) (h : r.state ≡ connected) (k : r.ws_open ≡ true) where
  resubscribe-state : (resubscribe went r).1.state ≡ connected
  unfolding resubscribe subscribe
  resubscribe-state = ground arith

  resubscribe-ws_open : (resubscribe went r).1.ws_open ≡ true
  unfolding resubscribe subscribe
  resubscribe-ws_open = ground arith

  resubscribe-tokens : (resubscribe went r).1.subscribed_tokens ≡ r.subscribed_tokens
  unfolding resubscribe subscribe
  resubscribe-tokens = ground arith

  resubscribe-sent :
      (is_empty r.subscribed_tokens ≡ true)
      ⊎ (went ≡ false)
      ⊎ ((earlier : List (List String)) × ((resubscribe went r).1.sent
            ≡ r.subscribed_tokens ∷ earlier))
  unfolding resubscribe subscribe
  resubscribe-sent = elim (Bool-cases (is_empty r.subscribed_tokens)) [
    | inl nothing ↦ inl nothing
    | inr some_left ↦ elim (Bool-cases went) [
      | inl goes ↦ inr (inr (r.sent, ground arith))
      | inr lost ↦ inr (inl lost)
    ]
  ]

resubscribed :
    (c : Reconnecting) (n : ℕ) (r : Rtds)
    → c.opens n ≡ true
    → r.state ≡ connected
    → r.ws_open ≡ true
    → Reconnected c r.subscribed_tokens true (resubscribe (c.sends n) r).1
resubscribed c n r o h k =
    is_back n o (resubscribe-state _ r h k) (resubscribe-ws_open _ r h k)
      (resubscribe-tokens _ r h k) (resubscribe-sent _ r h k)

abbrev Ends : Reconnecting → List String → Option (Bool × Rtds) → Type 0
Ends c tokens o = (b : Bool) × (r : Rtds) × (o ≡ some (b, r)) × Reconnected c tokens b r

reconnect_from-Reconnected :
    (fuel : ℕ) (c : Reconnecting) (deadline attempt now : ℕ) (r : Rtds)
    → 0 < c.base
    → 0 < c.longest
    → deadline < now + fuel
    → 0 < fuel
    → Ends c r.subscribed_tokens (reconnect_from fuel c (some deadline) attempt now r)
unfolding reconnect_from
reconnect_from-Reconnected zero c deadline attempt now r b l h z = absurd (omega arith)
reconnect_from-Reconnected (suc fuel) c deadline attempt now r b l h z =
    let r' : Rtds = record r { reconnect_attempts = attempt } in
    let woken = now + backoff c attempt + c.lag attempt in
    if-cases (Ends c r.subscribed_tokens) (leb deadline now) _ _
      (λ late. (false, record r' { state = failed }, refl, has_failed refl refl))
      λ early.
        if-cases (Ends c r.subscribed_tokens) (c.is_shut attempt) _ _
          (λ shut. (false, r', refl, was_shut attempt shut refl))
          λ up.
            if-cases (Ends c r.subscribed_tokens) (leb deadline woken) _ _
              (λ late. (false, record r' { state = failed }, refl, has_failed refl refl))
              λ in_time.
                if-cases (Ends c r.subscribed_tokens) (c.opens attempt) _ _
                  (λ opened. (
                    true,
                    (resubscribe (c.sends attempt)
                        (record r' { state = connected; ws_open = true })).1,
                    refl,
                    resubscribed c attempt (record r' { state = connected; ws_open = true }) opened
                        refl refl,
                  ))
                  λ closed.
                    reconnect_from-Reconnected fuel c deadline (attempt + 1)
                      (woken + c.latency attempt) r' b l (omega (arith, backoff_pos c attempt b l))
                      (omega (arith, leb-lt deadline woken in_time, backoff_pos c attempt b l))

-- With positive waits, as many turns as there are seconds to the deadline, and one more, are
-- enough: the call returns. True comes with an open connection over which the tokens that were
-- tracked before were sent, if there are any and the send goes through; False where the state is
-- FAILED afterwards or the client was found shut down at an attempt. The tokens stay.
pub reconnect-Reconnected :
    (c : Reconnecting) (deadline now : ℕ) (r : Rtds)
    → 0 < c.base
    → 0 < c.longest
    → Ends c r.subscribed_tokens (reconnect (suc (deadline - now)) c (some deadline) now r)
unfolding reconnect
reconnect-Reconnected c deadline now r b l =
    reconnect_from-Reconnected (suc (deadline - now)) c deadline 1 now
      (record r { state = reconnecting }) b l (omega arith) (omega arith)
