-- ===== src/Ptb/Tests.antt =====
-- Runs of the fetcher on sample sources.
use polyfast.Base.{ℕ, suc, zero, ◌≡◌, false, some, refl, [], ◌∷◌, arith}
use polyfast.Base.Dict.{get}
use polyfast.Ptb.Record.{PtbRecord, is_locked, fresh_record, locked_with}
use polyfast.Ptb.Fetcher.{
  SourceReply, found, not_found, PtbRecords, Fetched, record_of, Retrying, wait_of,
  fetch_ptb_with_retry,
}
use polyfast.Ptb.Fetcher.Retry.{AllPositive, Settled, fetch_ptb_with_retry-Settled}

-- The source gives the price at the third attempt.
abbrev third_time : ℕ → SourceReply ℕ
third_time n = elim n [
  | zero ↦ not_found "timeout"
  | suc zero ↦ not_found "timeout"
  | suc (suc m) ↦ found 67260 "ssr_open_price"
]

abbrev retrying : Retrying ℕ
retrying = record {
  schedule = 2 ∷ 4 ∷ 8 ∷ 16 ∷ [];
  steady = 10;
  event_end = 300;
  replies = third_time;
  lag = λ n. 0;
  latency = λ n. 1;
}

abbrev locked_btc : PtbRecord ℕ
locked_btc = locked_with 67260 "ssr_open_price" 5 (fresh_record "c1" "BTC")

abbrev records_btc : PtbRecords ℕ
records_btc = ("c1", locked_btc) ∷ []

get-btc : get records_btc "c1" ≡ some locked_btc
unfolding get
get-btc = refl

not_locked : is_locked (record_of {N = ℕ} "c1" "BTC" []) ≡ false
unfolding record_of get fresh_record
not_locked = refl

schedule-AllPositive : AllPositive retrying.schedule
unfolding AllPositive wait_of
schedule-AllPositive zero = ground arith
schedule-AllPositive (suc zero) = ground arith
schedule-AllPositive (suc (suc zero)) = ground arith
schedule-AllPositive (suc (suc (suc zero))) = ground arith
schedule-AllPositive (suc (suc (suc (suc n)))) = ground arith

fetch_ptb_with_retry-Settled_example :
    (res : Fetched ℕ) × (fetch_ptb_with_retry 301 retrying "c1" "BTC" 0 [] ≡ some res)
    × Settled retrying "c1" res
fetch_ptb_with_retry-Settled_example =
    fetch_ptb_with_retry-Settled 300 retrying "c1" "BTC" 0 [] (ground arith) schedule-AllPositive
      (ground arith) not_locked
