-- ===== src/Transformer/Retry.antt =====
-- The Transformer's loop between batches (`Start`, `handleError` and `Stop` of
-- go-indexer/indexer/transformer.go): the count of errors, the wait after each, and the stop.
use vault_indexer.Prelude.{
  Text, ℕ, ◌+◌, ◌*◌, ◌≡◌, refl, Bool, true, false, Option, none, some, List, [], ◌∷◌, arith, leb,
  if◌then◌else◌, ap, ◌∙◌, zero, Bool-cases, inl, inr, suc, sym,
}

-- The fields of the Transformer that the loop keeps; `stopped` is the cancelled context.
pub record Retries : Type 0 where
  pub max_retries : ℕ
  pub retry_count : ℕ
  pub last_error : Option Text
  pub stopped : Bool

-- `maxRetries` of a new transformer is 0.
abbrev pub new_retries : ℕ → Retries
new_retries max = record { max_retries = max; retry_count = 0; last_error = none; stopped = false }

abbrev second : ℕ
second = 1000000000

-- retryCount² seconds, and the jitter.
unfoldable pub backoff : ℕ → ℕ → ℕ
backoff retry_count jitter = retry_count * retry_count * second + jitter

abbrev stop : Retries → Retries
stop t = record {
  max_retries = t.max_retries;
  retry_count = t.retry_count;
  last_error = t.last_error;
  stopped = true;
}

-- An error that is not the first one since the last success.
abbrev count_error : Retries → ℕ → Retries × Option ℕ
count_error t jitter =
    if leb t.max_retries t.retry_count
    then (stop t, none)
    else (t, some (backoff t.retry_count jitter))

-- handleError: the fields, and the nanoseconds that it waits. It stops the transformer without a wait.
unfoldable pub handle_error : Text → ℕ → Retries → Retries × Option ℕ
handle_error e jitter t = elim t.last_error [
  | some _ ↦
      count_error
        (record {
          max_retries = t.max_retries;
          retry_count = t.retry_count + 1;
          last_error = t.last_error;
          stopped = t.stopped;
        })
        jitter
  | none ↦ (
    record {
      max_retries = t.max_retries;
      retry_count = 0;
      last_error = some e;
      stopped = t.stopped;
    },
    some (backoff 0 jitter),
  )
]

-- How a turn of the loop ends: no event is waiting, the batch succeeds, or the query or the batch
-- fails and `jitter` is drawn.
pub data Turn : Type 0 where
  idle : Turn
  succeeded : Turn
  failed : Text → ℕ → Turn

unfoldable pub turn : Turn → Retries → Retries
unfolding handle_error
turn idle t = t
turn succeeded t = record {
  max_retries = t.max_retries;
  retry_count = 0;
  last_error = none;
  stopped = t.stopped;
}
turn (failed e jitter) t = (handle_error e jitter t).0

-- The turns of the loop until its context is cancelled.
unfoldable pub start : List Turn → Retries → Retries
start [] t = t
start (c ∷ cs) t = let rest = start cs (turn c t) in if t.stopped then t else rest

-- A count alone: whether some `limit` errors come with no success between them, `k` having come.
abbrev exhausted : ℕ → ℕ → List Turn → Bool
exhausted limit k [] = leb limit k
exhausted limit k (idle ∷ cs) = if leb limit k then true else exhausted limit k cs
exhausted limit k (succeeded ∷ cs) = if leb limit k then true else exhausted limit 0 cs
exhausted limit k (failed e jitter ∷ cs) = if leb limit k then true else exhausted limit (suc k) cs

-- The errors that stop a transformer: never fewer than two.
abbrev pub limit_of : ℕ → ℕ
limit_of max = if leb max 1 then 2 else max + 1

-- The fields after `k` errors in a row, of which `e` was the first.
abbrev pub after : ℕ → Text → ℕ → Retries
after max e zero = new_retries max
after max e (suc k) = record {
  max_retries = max;
  retry_count = k;
  last_error = some e;
  stopped = leb (limit_of max) (suc k);
}

module _ (max : ℕ) where
  limit_above_zero : leb (limit_of max) 0 ≡ false
  limit_above_zero = ground arith

  limit_above_one : leb (limit_of max) 1 ≡ false
  limit_above_one = ground arith

  -- After `k + 2` errors the count of retries is `k + 1`.
  limit_after : (k : ℕ) → leb (limit_of max) (suc (suc k)) ≡ leb max (suc k)
  limit_after k = ground arith

  pub after-stopped : (e : Text) (k : ℕ) → (after max e k).stopped ≡ leb (limit_of max) k
  after-stopped e zero = sym limit_above_zero
  after-stopped e (suc k) = refl

  pub after-max_retries : (e : Text) (k : ℕ) → (after max e k).max_retries ≡ max
  after-max_retries e zero = refl
  after-max_retries e (suc k) = refl

  -- The first of the errors after one more.
  abbrev pub first_of : Text → ℕ → Text → Text
  first_of e zero e' = e'
  first_of e (suc k) e' = e

  pub turn_failed :
      (e : Text) (k : ℕ) (e' : Text) (jitter : ℕ)
      → leb (limit_of max) k ≡ false
      → turn (failed e' jitter) (after max e k) ≡ after max (first_of e k e') (suc k)
  unfolding turn handle_error
  turn_failed e zero e' jitter h =
      ap (λ b. record { max_retries = max; retry_count = 0; last_error = some e'; stopped = b })
        (sym limit_above_one)
  turn_failed e (suc k) e' jitter h = elim (Bool-cases (leb max (suc k))) [
    | inl r ↦
        let n : k + 1 ≡ suc k = omega arith in rw (turn, handle_error, n, r, limit_after k, r) refl
    | inr r ↦
        let n : k + 1 ≡ suc k = omega arith in
        rw (turn, handle_error, n, r, limit_after k, h, r) refl
  ]

  -- From the fields after `k` errors, the loop is stopped exactly if the count of the errors since the
  -- last success reaches the limit: `max_retries + 1`, or 2 where that is less.
  start_from :
      (cs : List Turn) (e : Text) (k : ℕ)
      → (start cs (after max e k)).stopped ≡ exhausted (limit_of max) k cs
  unfolding start turn
  start_from [] e k = after-stopped e k
  start_from (idle ∷ cs) e k = elim (Bool-cases (leb (limit_of max) k)) [
    | inl h ↦ rw (after-stopped e k, h) (after-stopped e k ∙ h)
    | inr h ↦ rw (after-stopped e k, h) (start_from cs e k)
  ]
  start_from (succeeded ∷ cs) e k = elim (Bool-cases (leb (limit_of max) k)) [
    | inl h ↦ rw (after-stopped e k, h) (after-stopped e k ∙ h)
    | inr h ↦ rw (after-stopped e k, h, after-max_retries e k) (start_from cs e zero)
  ]
  start_from (failed e' jitter ∷ cs) e k = elim (Bool-cases (leb (limit_of max) k)) [
    | inl h ↦ rw (after-stopped e k, h) (after-stopped e k ∙ h)
    | inr h ↦
        rw (after-stopped e k, h, turn_failed e k e' jitter h)
          (start_from cs (first_of e k e') (suc k))
  ]

-- A new transformer's loop stops by itself exactly if the errors of its queries and batches reach
-- `max_retries + 1`, or 2 where that is less, with no successful batch between them; a turn that finds
-- no event does not end such a row of errors.
pub start-limit :
    (max : ℕ) (cs : List Turn)
    → (start cs (new_retries max)).stopped ≡ exhausted (limit_of max) 0 cs
start-limit max cs = start_from max cs [] zero
