-- ===== src/Ptb/Fetcher/Lock.antt =====
-- A single attempt of `PTBFetcher.fetch_ptb`.
use polyfast.Base.{ℕ, String, true, false, ◌≡◌, some, arith, ok, eq_iff}
use polyfast.Base.Dict.{get, put, get-put}
use polyfast.Ptb.Record.{PtbRecord, is_locked, locked_with, lock, record_failure, record_retry}
use polyfast.Ptb.Fetcher.{
  SourceReply, found, not_found, PtbRecords, record_of, get_or_create_record, take_reply, fetch_ptb,
}

module _ {N : Type 0} where
  -- A locked price stays: whatever the source would reply, an attempt returns the same record and
  -- every event's record stays as it is.
  pub fetch_ptb-locked :
      (cid asset : String) (reply : SourceReply N) (now : ℕ) (d : PtbRecords N) (r : PtbRecord N)
      → get d cid ≡ some r
      → is_locked r ≡ true
      → let (outcome, d') = fetch_ptb cid asset reply now d in
        (outcome ≡ ok r) × ((k : String) → get d' k ≡ get d k)
  unfolding fetch_ptb record_of get_or_create_record
  fetch_ptb-locked cid asset reply now d r here h =
      (ground arith, λ k. ground (arith, get-put d cid k r, eq_iff cid k))

  -- The record after an attempt on one that is not locked.
  unfoldable pub attempted : SourceReply N → ℕ → PtbRecord N → PtbRecord N
  attempted (found value source) now r = locked_with value source now (record_retry r)
  attempted (not_found error) now r = record_failure error (record_retry r)

  -- An attempt on a record that is not locked never raises: it locks the value that the source
  -- gives, or marks the record as failed, and leaves the other events' records.
  pub fetch_ptb-unlocked :
      (cid asset : String) (reply : SourceReply N) (now : ℕ) (d : PtbRecords N)
      → is_locked (record_of cid asset d) ≡ false
      → fetch_ptb cid asset reply now d ≡ (
        ok (attempted reply now (record_of cid asset d)),
        put d cid (attempted reply now (record_of cid asset d)),
      )
  unfolding fetch_ptb take_reply lock attempted
  fetch_ptb-unlocked cid asset (found value source) now d h = ground arith
  fetch_ptb-unlocked cid asset (not_found error) now d h = ground arith
