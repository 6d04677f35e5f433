-- ===== src/Ptb/Fetcher.antt =====
-- `PTBFetcher` (backend/ptb/fetcher.py). The source's replies are arguments, numbered by the attempt
-- of the retry loop; between a request and its reply no other task touches the records. The clock
-- of the loop is a number of seconds.
pub mod Lock
pub mod Retry
use polyfast.Base.{
  ℕ, zero, suc, ◌+◌, String, Bool, true, false, Option, none, some, List, [], ◌∷◌, if◌then◌else◌,
  leb, Result, ok, err,
}
use polyfast.Base.Dict.{Dict, get, put, remove}
use polyfast.Ptb.Record.{PtbRecord, fresh_record, is_locked, lock, record_failure, record_retry}

-- The result of the source's `fetch_ptb`: a value, or an error's text.
pub data SourceReply (N : Type 0) : Type 0 where
  found : N → String → SourceReply N  -- value, source_name
  not_found : String → SourceReply N

-- `_records`
abbrev pub PtbRecords : Type 0 → Type 0
PtbRecords N = Dict (PtbRecord N)

-- What a call leaves: the record or an exception, and the records.
abbrev pub Fetched : Type 0 → Type 0
Fetched N = Result (PtbRecord N) × PtbRecords N

module _ {N : Type 0} where
  unfoldable pub record_of : String → String → PtbRecords N → PtbRecord N
  record_of cid asset d = elim (get d cid) [ none ↦ fresh_record cid asset | some r ↦ r ]

  -- `get_or_create_record`: the records with the event's record among them.
  unfoldable pub get_or_create_record : String → String → PtbRecords N → PtbRecords N
  get_or_create_record cid asset d = put d cid (record_of cid asset d)

  -- The record after a reply.
  unfoldable pub take_reply : SourceReply N → ℕ → PtbRecord N → Result (PtbRecord N)
  take_reply (found value source) now r = lock value source now r
  take_reply (not_found error) now r = ok (record_failure error r)

  -- `fetch_ptb`
  unfoldable pub fetch_ptb : String → String → SourceReply N → ℕ → PtbRecords N → Fetched N
  fetch_ptb cid asset reply now d =
      let r = record_of cid asset d in
      if is_locked r
      then (ok r, get_or_create_record cid asset d)
      else (elim (take_reply reply now (record_retry r)) [
        | err e ↦ (err e, put d cid (record_retry r))
        | ok r' ↦ (ok r', put d cid r')
      ])

  -- `clear_event`
  abbrev pub clear_event : String → PtbRecords N → PtbRecords N
  clear_event cid d = remove d cid

-- The wait before an attempt: the schedule, then the steady interval.
unfoldable pub wait_of : List ℕ → ℕ → ℕ → ℕ
wait_of [] steady n = steady
wait_of (w ∷ ws) steady zero = w
wait_of (w ∷ ws) steady (suc n) = wait_of ws steady n

-- The loop's settings: the schedule, the end of the event, the replies, and how much longer than
-- asked each sleep takes, and each request.
pub record Retrying (N : Type 0) : Type 0 where
  pub schedule : List ℕ
  pub steady : ℕ
  pub event_end : ℕ
  pub replies : ℕ → SourceReply N
  pub lag : ℕ → ℕ
  pub latency : ℕ → ℕ

module _ {N : Type 0} where
  -- What follows the loop: a record that is not locked has failed.
  unfoldable pub give_up_ptb : String → String → PtbRecords N → Fetched N
  give_up_ptb cid asset d =
      let r = record_of cid asset d in
      let r' = if is_locked r then r else record_failure "Event expired before PTB acquired" r in
      (ok r', put d cid r')

  -- The loop from an attempt and a time on. None is where the fuel has run out.
  unfoldable pub retry_loop :
      ℕ → Retrying N → String → String → ℕ → ℕ → PtbRecords N → Option (Fetched N)
  retry_loop zero c cid asset attempt now d = none
  retry_loop (suc fuel) c cid asset attempt now d =
      let woken = now + wait_of c.schedule c.steady attempt + c.lag attempt in
      let d' = (fetch_ptb cid asset (c.replies attempt) woken d).1 in
      let r' = record_of cid asset d' in
      let rest = retry_loop fuel c cid asset (attempt + 1) (woken + c.latency attempt) d' in
      if leb c.event_end now
      then some (give_up_ptb cid asset d)
      else if leb c.event_end woken
      then some (give_up_ptb cid asset d)
      else if is_locked r'
      then some (ok r', d')
      else rest

  -- `fetch_ptb_with_retry`
  unfoldable pub fetch_ptb_with_retry :
      ℕ → Retrying N → String → String → ℕ → PtbRecords N → Option (Fetched N)
  fetch_ptb_with_retry fuel c cid asset now d =
      let r = record_of cid asset d in
      if is_locked r
      then some (ok r, get_or_create_record cid asset d)
      else retry_loop fuel c cid asset 0 now (get_or_create_record cid asset d)
