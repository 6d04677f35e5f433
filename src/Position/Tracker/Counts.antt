-- ===== src/Position/Tracker/Counts.antt =====
-- How a count over a dict's values changes when one key is written.
use polyfast.Base.{one_if, ◌+◌, ◌<◌, String, Bool, true, ◌≡◌, none, some, [], ◌∷◌, arith}
use polyfast.Base.Dict.{Dict, get, put, values}
use polyfast.Base.Lists.{count_if}

module _ {ℓ} {V : Type ℓ} where
  -- A key that is there: its old value leaves the count and its new value enters.
  pub count_if-put :
      (p : V → Bool) (d : Dict V) (k : String) (old v : V)
      → get d k ≡ some old
      → count_if p (values (put d k v)) + one_if (p old) ≡ count_if p (values d) + one_if (p v)
  unfolding get put values count_if
  count_if-put p [] k old v h = ground arith
  count_if-put p ((j, w) ∷ d) k old v h = ground (arith, count_if-put p d k old v)

  -- A key that is not there: its value enters the count.
  pub count_if-put_new :
      (p : V → Bool) (d : Dict V) (k : String) (v : V)
      → get d k ≡ none
      → count_if p (values (put d k v)) ≡ count_if p (values d) + one_if (p v)
  unfolding get put values count_if
  count_if-put_new p [] k v h = ground arith
  count_if-put_new p ((j, w) ∷ d) k v h = ground (arith, count_if-put_new p d k v)

  -- A value that is there and passes is counted.
  pub count_if-pos :
      (p : V → Bool) (d : Dict V) (k : String) (v : V)
      → get d k ≡ some v
      → p v ≡ true
      → 0 < count_if p (values d)
  unfolding get values count_if
  count_if-pos p [] k v h e = ground arith
  count_if-pos p ((j, w) ∷ d) k v h e = ground (arith, count_if-pos p d k v)
