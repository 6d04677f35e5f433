-- ===== src/Market/Rtds/Tests.antt =====
-- A reconnection whose second attempt succeeds.
use polyfast.Base.{ℕ, zero, suc, ◌≡◌, true, false, Bool, some, [], ◌∷◌, arith, ◌-◌}
use polyfast.Market.Rtds.{Rtds, failed, Reconnecting, reconnect}
use polyfast.Market.Rtds.Reconnect.{Reconnected, reconnect-Reconnected}

abbrev second_opens : ℕ → Bool
second_opens n = elim n [ zero ↦ false | suc m ↦ elim m [ zero ↦ false | suc k ↦ true ] ]

abbrev reconnecting_c : Reconnecting
reconnecting_c = record {
  base = 2;
  longest = 30;
  lag = λ n. 0;
  latency = λ n. 1;
  is_shut = λ n. false;
  opens = second_opens;
  sends = λ n. true;
}

abbrev lost : Rtds
lost = record {
  state = failed;
  ws_open = false;
  reconnect_attempts = 0;
  total_messages = 7;
  subscribed_tokens = "k1" ∷ [];
  shut_down = false;
  sent = [];
}

reconnect-Reconnected_example :
    (b : Bool) × (r : Rtds) × (reconnect (suc (130 - 100)) reconnecting_c (some 130) 100 lost
      ≡ some (b, r))
    × Reconnected reconnecting_c lost.subscribed_tokens b r
reconnect-Reconnected_example =
    reconnect-Reconnected reconnecting_c 130 100 lost (omega arith) (omega arith)
