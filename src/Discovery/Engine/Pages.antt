-- ===== src/Discovery/Engine/Pages.antt =====
-- The pages together are the first 500 events.
use polyfast.Base.{
  ℕ, zero, suc, ◌+◌, ◌*◌, true, ◌≡◌, refl, sym, ap, ◌∙◌, some, List, [], ◌∷◌, ◌++◌, ltb, arith,
  Bool-cases, inl, inr,
}
use polyfast.Base.Lists.{length}
use polyfast.Discovery.Engine.{PageReply, fetch_pages, fetch_events}

suc_add : (a b : ℕ) → suc (a + b) ≡ suc a + b
suc_add a b = omega arith

zero_add : (b : ℕ) → b ≡ 0 + b
zero_add b = omega arith

none_left : (size : ℕ) → 0 ≡ 0 * size
none_left size = grind arith

next_first : (n size : ℕ) → size + n * size ≡ suc n * size
next_first n size = grind arith

next : (n size : ℕ) → suc n * size ≡ n * size + size
next n size = grind arith

module _ {A : Type 0} where
  -- `l[:n]` and `l[n:]`
  unfoldable pub take : ℕ → List A → List A
  take zero l = []
  take (suc n) [] = []
  take (suc n) (x ∷ l) = x ∷ take n l

  unfoldable pub drop : ℕ → List A → List A
  drop zero l = l
  drop (suc n) [] = []
  drop (suc n) (x ∷ l) = drop n l

  take-nil : (n : ℕ) → take n [] ≡ []
  unfolding take
  take-nil zero = refl
  take-nil (suc n) = refl

  drop-nil : (n : ℕ) → drop n [] ≡ []
  unfolding drop
  drop-nil zero = refl
  drop-nil (suc n) = refl

  drop-drop : (a b : ℕ) (l : List A) → drop b (drop a l) ≡ drop (a + b) l
  unfolding drop
  drop-drop zero b l = ap (λ n. drop n l) (zero_add b)
  drop-drop (suc a) b [] = drop-nil b ∙ sym (drop-nil (suc a + b))
  drop-drop (suc a) b (x ∷ l) = drop-drop a b l ∙ ap (λ n. drop n (x ∷ l)) (suc_add a b)

  -- A part and what follows it.
  take-append : (a b : ℕ) (l : List A) → take a l ++ take b (drop a l) ≡ take (a + b) l
  unfolding take drop
  take-append zero b l = ap (λ n. take n l) (zero_add b)
  take-append (suc a) b [] = take-nil b ∙ sym (take-nil (suc a + b))
  take-append (suc a) b (x ∷ l) =
      ap (λ r. x ∷ r) (take-append a b l) ∙ ap (λ n. take n (x ∷ l)) (suc_add a b)

  -- A part that is not full is the whole rest, as is any longer one.
  take_short : (a b : ℕ) (l : List A) → ltb (length (take a l)) a ≡ true → take a l ≡ take (a + b) l
  unfolding take
  take_short zero b l h = absurd (ground arith)
  take_short (suc a) b [] h = sym (take-nil (suc a + b))
  take_short (suc a) b (x ∷ l) h =
      ap (λ r. x ∷ r) (take_short a b l (ground arith)) ∙ ap (λ n. take n (x ∷ l)) (suc_add a b)

  -- Where the API serves the parts of a list, the loop gives the first pages together.
  fetch_pages-take :
      (pages : ℕ → ℕ → PageReply A) (all : List A) (size left n : ℕ)
      → ((limit offset : ℕ) → pages limit offset ≡ some (take limit (drop offset all)))
      → fetch_pages pages size left n ≡ some (take (left * size) (drop (n * size) all))
  unfolding fetch_pages take
  fetch_pages-take pages all size zero n h =
      ap (λ k. some (take k (drop (n * size) all))) (none_left size)
  fetch_pages-take pages all size (suc left) n h =
      let l = drop (n * size) all in
      let rest : fetch_pages pages size left (suc n) ≡ some (take (left * size) (drop size l)) =
        fetch_pages-take pages all size left (suc n) h
        ∙ ap (λ k. some (take (left * size) k))
            (ap (λ k. drop k all) (next n size) ∙ sym (drop-drop (n * size) size all)) in
      elim (Bool-cases (ltb (length (take size l)) size)) [
        | inl last ↦
            rw (h size (n * size), fetch_pages)
              (rw last (
                ap some (
                  take_short size (left * size) l last
                  ∙ ap (λ k. take k l) (next_first left size))))
        | inr full ↦
            rw (h size (n * size), fetch_pages)
              (rw full (
                rw rest (
                  ap some (
                    take-append size (left * size) l ∙ ap (λ k. take k l) (next_first left size)))))
      ]

  -- `_fetch_events` gives the first 500 events.
  pub fetch_events-take :
      (pages : ℕ → ℕ → PageReply A) (all : List A)
      → ((limit offset : ℕ) → pages limit offset ≡ some (take limit (drop offset all)))
      → fetch_events pages ≡ some (take 500 all)
  unfolding fetch_events drop
  fetch_events-take pages all h = fetch_pages-take pages all 100 5 0 h
