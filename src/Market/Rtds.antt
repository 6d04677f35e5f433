-- ===== src/Market/Rtds.antt =====
-- `RTDSClient` (backend/market_data/rtds_client.py): the connection of the price WebSocket and the
-- tokens that it is subscribed to. `sent` lists the subscriptions that went out, the latest
-- first. Health incidents, times of the connection and the tasks' handles are left out.
pub mod Reconnect
mod Tests
use polyfast.Base.{
  ℕ, zero, suc, ◌+◌, ◌^◌, String, Bool, true, false, not, ◌&&◌, ◌||◌, Option, none, some, List, [],
  ◌∷◌, if◌then◌else◌, ltb, leb,
}
use polyfast.Float.{Float}
use polyfast.Market.Bridge.{Feed, WsMessage, on_ws_message}

-- `ConnectionState`
pub data ConnectionState : Type 0 where
  disconnected connecting connected reconnecting failed : ConnectionState

abbrev pub is_connected_state : ConnectionState → Bool
is_connected_state connected = true
is_connected_state _ = false

pub record Rtds : Type 0 where
  pub state : ConnectionState
  pub ws_open : Bool  -- `_ws is not None`
  pub reconnect_attempts : ℕ
  pub total_messages : ℕ
  pub subscribed_tokens : List String
  pub shut_down : Bool  -- `_shutdown_event`
  pub sent : List (List String)

abbrev pub is_connected : Rtds → Bool
is_connected r = is_connected_state r.state

abbrev pub is_empty {ℓ} : {A : Type ℓ} → List A → Bool
is_empty [] = true
is_empty (x ∷ xs) = false

-- `connect`; `opened` says whether `websockets.connect` returned.
unfoldable pub connect : Bool → Rtds → Bool × Rtds
connect true r = (true, record r { state = connected; ws_open = true; reconnect_attempts = 0 })
connect false r = (false, record r { state = failed })

-- `disconnect`
unfoldable pub disconnect : Rtds → Rtds
disconnect r = record r { shut_down = true; ws_open = false; state = disconnected }

-- `subscribe`; `went` says whether the send returned.
unfoldable pub subscribe : List String → Bool → Rtds → Bool × Rtds
subscribe tokens went r =
    if not (is_connected r) || not r.ws_open || is_empty tokens
    then (false, r)
    else if went
    then (true, record r { subscribed_tokens = tokens; sent = tokens ∷ r.sent })
    else (false, record r { subscribed_tokens = tokens })

-- `_resubscribe`
unfoldable pub resubscribe : Bool → Rtds → Bool × Rtds
resubscribe went r =
    if is_empty r.subscribed_tokens then (true, r) else subscribe r.subscribed_tokens went r

-- `update_subscription`
unfoldable pub update_subscription : List String → Rtds → Rtds
update_subscription tokens r = record r { subscribed_tokens = tokens }

-- The settings of `reconnect`, in whole seconds, and what its attempts meet: how much longer than
-- asked each sleep takes, and each connection, whether the client has been shut down, whether the
-- connection opens, and whether the subscription goes out.
pub record Reconnecting : Type 0 where
  pub base : ℕ
  pub longest : ℕ
  pub lag : ℕ → ℕ
  pub latency : ℕ → ℕ
  pub is_shut : ℕ → Bool
  pub opens : ℕ → Bool
  pub sends : ℕ → Bool

-- `min(base ** min(attempt, 5), max)`
unfoldable pub backoff : Reconnecting → ℕ → ℕ
backoff c attempt =
    let wait = c.base ^ (if ltb attempt 5 then attempt else 5) in
    if ltb wait c.longest then wait else c.longest

-- `deadline is not None and now >= deadline`
abbrev pub has_passed : Option ℕ → ℕ → Bool
has_passed none now = false
has_passed (some deadline) now = leb deadline now

-- The loop of `reconnect` from an attempt and a time on. None is where the fuel has run out.
unfoldable pub reconnect_from : ℕ → Reconnecting → Option ℕ → ℕ → ℕ → Rtds → Option (Bool × Rtds)
reconnect_from zero c deadline attempt now r = none
reconnect_from (suc fuel) c deadline attempt now r =
    let r' = record r { reconnect_attempts = attempt } in
    let woken = now + backoff c attempt + c.lag attempt in
    let rest = reconnect_from fuel c deadline (attempt + 1) (woken + c.latency attempt) r' in
    if has_passed deadline now
    then some (false, record r' { state = failed })
    else if c.is_shut attempt
    then some (false, r')
    else if has_passed deadline woken
    then some (false, record r' { state = failed })
    else if c.opens attempt
    then some
        (true, (resubscribe (c.sends attempt) (record r' { state = connected; ws_open = true })).1)
    else rest

-- `reconnect`
unfoldable pub reconnect : ℕ → Reconnecting → Option ℕ → ℕ → Rtds → Option (Bool × Rtds)
reconnect fuel c deadline now r =
    reconnect_from fuel c deadline 1 now (record r { state = reconnecting })

module _ {N : Type 0} ⦃f : Float N⦄ (lower : String → String) where
  -- The messages of `_receive_loop`, with their times, none where `json.loads` raises; the callback
  -- is the bridge's.
  unfoldable pub receive : List (ℕ × Option (WsMessage N)) → Rtds × Feed N → Rtds × Feed N
  receive [] s = s
  receive ((now, none) ∷ ms) (r, d) =
      receive ms (record r { total_messages = r.total_messages + 1 }, d)
  receive ((now, some m) ∷ ms) (r, d) =
      receive ms (record r { total_messages = r.total_messages + 1 }, on_ws_message lower now m d)

  -- `_receive_loop`: the connection is open, gives these messages, and ends.
  unfoldable pub receive_loop : List (ℕ × Option (WsMessage N)) → Rtds × Feed N → Rtds × Feed N
  receive_loop ms s =
      if not (s.0).ws_open
      then s
      else let (r, d) = receive ms s in
        (if is_connected r then record r { state = disconnected } else r, d)

abbrev map_option : (Bool × Rtds → Bool × Rtds) → Option (Bool × Rtds) → Option (Bool × Rtds)
map_option f none = none
map_option f (some p) = some (f p)

-- A turn of `run_forever` up to the receive loop: whether it goes on to receive. `dials` says
-- whether a first connection opens, and the second flag whether its subscription goes out.
unfoldable pub ensure_connected : ℕ → Reconnecting → ℕ → Bool → Bool → Rtds → Option (Bool × Rtds)
ensure_connected fuel c now dials went r =
    let after : Bool × Rtds → Bool × Rtds = λ p.
      if p.0
      then (true, if is_empty (p.1).subscribed_tokens then p.1 else (resubscribe went (p.1)).1)
      else p in
    elim r.state [
      | connected ↦ some (true, r)
      | disconnected ↦ some (after (connect dials r))
      | failed ↦ map_option after (reconnect fuel c none now r)
      | reconnecting ↦ map_option after (reconnect fuel c none now r)
      | connecting ↦ some (false, r)
    ]
