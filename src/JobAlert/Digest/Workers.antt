-- ===== src/JobAlert/Digest/Workers.antt =====
-- `runWithConcurrency`: the workers of one batch share the index of the next item. A step is a task
-- that ends, in whatever order; its worker then takes the next item or stops.
use recruitment_platform_be.Prelude.{
  ℕ, zero, suc, ◌+◌, ◌≡◌, ◌≤◌, ◌<◌, ◌⊎◌, inl, inr, Bool, List, [], ◌∷◌, ◌++◌, take, drop, count,
  length, length-append, length-take, refl, ◌∙◌, arith,
}

-- The items in flight, those from the index on, and those that are done.
pub record Pool (A : Type 0) : Type 0 where
  pub running : List A
  pub queue : List A
  pub completed : List A

module _ {A : Type 0} where
  -- `Math.min(concurrency, items.length)` workers take an item each.
  unfoldable pub start : (concurrency : ℕ) → List A → Pool A
  start concurrency items = record {
    running = take concurrency items;
    queue = drop concurrency items;
    completed = [];
  }

  -- The worker between the two lists has done `x`.
  unfoldable pub resume : (before after : List A) (x : A) (queue completed : List A) → Pool A
  resume before after x [] completed = record {
    running = before ++ after;
    queue = [];
    completed = completed ++ x ∷ [];
  }
  resume before after x (y ∷ queue) completed = record {
    running = before ++ y ∷ after;
    queue = queue;
    completed = completed ++ x ∷ [];
  }

  pub data Step : Pool A → Pool A → Type 0 where
    finish :
        (before after : List A) (x : A) (p : Pool A)
        → p.running ≡ before ++ x ∷ after
        → Step p (resume before after x p.queue p.completed)

  -- So many tasks have ended.
  pub data Steps (p : Pool A) : ℕ → Pool A → Type 0 where
    here : Steps p 0 p
    later : {n : ℕ} {q r : Pool A} → Steps p n q → Step q r → Steps p (suc n) r

  abbrev pub occurrences : (A → Bool) → Pool A → ℕ
  occurrences f p = count f p.completed + count f p.running + count f p.queue

  abbrev pub remaining : Pool A → ℕ
  remaining p = length p.running + length p.queue

  count-append : (f : A → Bool) (xs ys : List A) → count f (xs ++ ys) ≡ count f xs + count f ys
  count-append f [] ys = omega arith
  count-append f (x ∷ xs) ys = ground (arith, count-append f xs ys)

  start-occurrences :
      (f : A → Bool) (n : ℕ) (items : List A) → occurrences f (start n items) ≡ count f items
  unfolding start
  start-occurrences f n [] = refl
  start-occurrences f zero (x ∷ xs) = omega arith
  start-occurrences f (suc n) (x ∷ xs) = ground (arith, start-occurrences f n xs)

  start-remaining : (n : ℕ) (items : List A) → remaining (start n items) ≡ length items
  unfolding start
  start-remaining n [] = refl
  start-remaining zero (x ∷ xs) = omega arith
  start-remaining (suc n) (x ∷ xs) = omega (arith, start-remaining n xs)

  resume-occurrences :
      (f : A → Bool) (before after : List A) (x : A) (queue completed : List A)
      → occurrences f (resume before after x queue completed)
        ≡ count f completed + count f (before ++ x ∷ after) + count f queue
  unfolding resume
  resume-occurrences f before after x [] completed = ground (
    arith,
    count-append f completed (x ∷ []),
    count-append f before after,
    count-append f before (x ∷ after),
  )
  resume-occurrences f before after x (y ∷ queue) completed = ground (
    arith,
    count-append f completed (x ∷ []),
    count-append f before (y ∷ after),
    count-append f before (x ∷ after),
  )

  resume-remaining :
      (before after : List A) (x : A) (queue completed : List A)
      → (remaining (resume before after x queue completed) + 1
          ≡ length (before ++ x ∷ after) + length queue)
        × (length (resume before after x queue completed).running ≤ length (before ++ x ∷ after))
  unfolding resume
  resume-remaining before after x [] completed =
      omega (arith, length-append before after, length-append before (x ∷ after))
  resume-remaining before after x (y ∷ queue) completed =
      omega (arith, length-append before (y ∷ after), length-append before (x ∷ after))

  Step-occurrences : (f : A → Bool) {p q : Pool A} → Step p q → occurrences f q ≡ occurrences f p
  Step-occurrences f (finish before after x p e) =
      rw e (resume-occurrences f before after x p.queue p.completed)

  Step-remaining :
      {p q : Pool A}
      → Step p q
      → (remaining q + 1 ≡ remaining p) × (length q.running ≤ length p.running)
  Step-remaining (finish before after x p e) =
      rw e (resume-remaining before after x p.queue p.completed)

  Steps-occurrences :
      (f : A → Bool) {p : Pool A} {n : ℕ} {q : Pool A}
      → Steps p n q
      → occurrences f q ≡ occurrences f p
  Steps-occurrences f here = refl
  Steps-occurrences f (later run step) = Step-occurrences f step ∙ Steps-occurrences f run

  Steps-remaining :
      {p : Pool A} {n : ℕ} {q : Pool A}
      → Steps p n q
      → (n + remaining q ≡ remaining p) × (length q.running ≤ length p.running)
  Steps-remaining here = omega arith
  Steps-remaining (later run step) = omega (arith, Steps-remaining run, Step-remaining step)

  -- The index is at the end, or an item is in flight.
  abbrev IsBusy : Pool A → Type 0
  IsBusy p = (p.queue ≡ []) ⊎ (0 < length p.running)

  start-IsBusy : (n : ℕ) (items : List A) → 0 < n → IsBusy (start n items)
  unfolding start
  start-IsBusy zero items h = absurd (omega arith)
  start-IsBusy (suc n) [] h = inl refl
  start-IsBusy (suc n) (x ∷ xs) h = inr (omega arith)

  resume-IsBusy :
      (before after : List A) (x : A) (queue completed : List A)
      → IsBusy (resume before after x queue completed)
  unfolding resume
  resume-IsBusy before after x [] completed = inl refl
  resume-IsBusy before after x (y ∷ queue) completed =
      inr (omega (arith, length-append before (y ∷ after)))

  Step-IsBusy : {p q : Pool A} → Step p q → IsBusy q
  Step-IsBusy (finish before after x p e) = resume-IsBusy before after x p.queue p.completed

  Steps-IsBusy : {p : Pool A} {n : ℕ} {q : Pool A} → IsBusy p → Steps p n q → IsBusy q
  Steps-IsBusy busy here = busy
  Steps-IsBusy busy (later run step) = Step-IsBusy step

  nonempty : (xs : List A) → (xs ≡ []) ⊎ ((x : A) × (rest : List A) × (xs ≡ x ∷ rest))
  nonempty [] = inl refl
  nonempty (x ∷ rest) = inr (x, rest, refl)

  all_done :
      (f : A → Bool) (p : Pool A) (n total : ℕ) (items : List A)
      → IsBusy p
      → p.running ≡ []
      → n + remaining p ≡ total
      → occurrences f p ≡ count f items
      → (n ≡ total) × (count f p.completed ≡ count f items)
  all_done f p n total items busy idle left kept = (ground arith, ground arith)

  -- After `n` tasks of a batch have ended, in whatever order, at most as many are in flight as may
  -- be, every item is as often done, in flight or waiting as it is in the batch, and `n` is at most
  -- the number of items. Another task can end, or all have ended, each item once.
  pub workers_complete :
      (concurrency : ℕ) (items : List A) (f : A → Bool) (n : ℕ) (p : Pool A)
      → 0 < concurrency
      → Steps (start concurrency items) n p
      → (length p.running ≤ concurrency)
        × (n ≤ length items)
        × (occurrences f p ≡ count f items)
        × (((q : Pool A) × Step p q) ⊎ ((n ≡ length items) × (count f p.completed ≡ count f items)))
  unfolding start
  workers_complete concurrency items f n p some_worker run =
      let (left, in_flight) = Steps-remaining run in
      let kept = Steps-occurrences f run ∙ start-occurrences f concurrency items in
      let total = left ∙ start-remaining concurrency items in
      (
        omega (arith, in_flight, length-take concurrency items),
        omega (arith, total),
        kept,
        elim (nonempty p.running) [
          | inr (x, rest, e) ↦ inl (resume [] rest x p.queue p.completed, finish [] rest x p e)
          | inl idle ↦ inr (
              all_done f p n (length items) items
                (Steps-IsBusy (start-IsBusy concurrency items some_worker) run) idle total kept)
        ],
      )
