-- ===== src/Reorg/Nearest.antt =====
-- What getNearestIngestedEvent (go-indexer/indexer/reorg-handler.go) returns, from what the database answers to
-- the query that it builds.
use vault_indexer.Prelude.{
  ℤ, ◌≤ℤ◌, ◌<ℤ◌, ◌≡◌, refl, Option, none, some, List, [], ◌∷◌, All, All_of, Any, Result, ok, err,
  arith, sym, Any-map, contains, text, set_string-print_ℤ, subst,
}
use vault_indexer.Database.Events.{PublicEventsSelect}
use vault_indexer.Query.{Reply, failed, malformed, body}
use vault_indexer.Query.Answers.{Selected}
use vault_indexer.Query.First.{no_row, first_row}
use vault_indexer.Query.Events.{event_text, event_integer, block_column, AllShown, EventReplies}
use vault_indexer.Reorg.{Sources, nearest_query, get_nearest_ingested_event, first_event}

-- Nothing, and every event of the table is above `n`; or an event of the table up to `n`, and no event between
-- them.
abbrev pub Nearest : List PublicEventsSelect → ℤ → Option PublicEventsSelect → Type 0
Nearest table n none = All (λ q. n <ℤ q.block_number) table
Nearest table n (some e) =
    Any (λ q. (q.block_number ≡ e.block_number) × (q.block_hash ≡ e.block_hash)) table
    × (e.block_number ≤ℤ n)
    × All (λ q. q.block_number ≤ℤ n → q.block_number ≤ℤ e.block_number) table

abbrev pub Outcome :
    List PublicEventsSelect
    → ℤ
    → Reply (List PublicEventsSelect)
    → Result (Option PublicEventsSelect)
    → Type 0
Outcome table n (failed e) result = result ≡ err e
Outcome table n (malformed e) result = result ≡ err e
Outcome table n (body es) result =
    (found : Option PublicEventsSelect) × (result ≡ ok found) × Nearest table n found

above : (a n : ℤ) → ¬ (a ≤ℤ n) → n <ℤ a
above a n h = omega arith

module _ (n : ℤ) where
  selects :
      (e : PublicEventsSelect)
      → e.block_number ≤ℤ n
      → Selected event_text event_integer (nearest_query n) e
  selects e h = ((e.block_number, n, block_column e, set_string-print_ℤ n, h), tt)

  selected :
      (e : PublicEventsSelect)
      → Selected event_text event_integer (nearest_query n) e
      → e.block_number ≤ℤ n
  selected e ((a, b, p, q, h), u) =
      let same : a ≡ e.block_number = let c = block_column e in cc in
      let bound : b ≡ n = let c = set_string-print_ℤ n in cc in
      subst (λ z. z ≤ℤ n) same (subst (λ z. a ≤ℤ z) bound h)

  shown :
      (r e : PublicEventsSelect)
      → AllShown (nearest_query n).columns (r ∷ []) (e ∷ [])
      → (r.block_number ≡ e.block_number) × (r.block_hash ≡ e.block_hash)
  unfolding contains text
  shown r e (h, u) = (h.0 refl, h.1 refl)

  as_shown :
      (q r e : PublicEventsSelect)
      → q ≡ r
      → (r.block_number ≡ e.block_number) × (r.block_hash ≡ e.block_hash)
      → (q.block_number ≡ e.block_number) × (q.block_hash ≡ e.block_hash)
  as_shown q r e p same =
      subst
        (λ (x : PublicEventsSelect).
          (x.block_number ≡ e.block_number) × (x.block_hash ≡ e.block_hash))
        (sym p) same

  first_event-Outcome :
      (table : List PublicEventsSelect) (reply : Reply (List PublicEventsSelect))
      → EventReplies (nearest_query n) table reply
      → Outcome table n reply (first_event reply)
  first_event-Outcome table (failed e) h = refl
  first_event-Outcome table (malformed e) h = refl
  first_event-Outcome table (body []) ([], h, s) = (
    none,
    refl,
    All_of (λ q k. above q.block_number n (λ le. k (selects q le))) table
        (no_row event_text event_integer _ _ _ _ _ _ table h),
  )
  first_event-Outcome table (body []) (r ∷ rs, h, s) = absurd s
  first_event-Outcome table (body (e ∷ es)) ([], h, s) = absurd s
  first_event-Outcome table (body (e ∷ es)) (r ∷ rs, h, (s, ss)) =
      let (there, match, below) =
        first_row event_text event_integer _ _ _ _ _ _ (λ q. q.block_number) block_column table rs r
          h in
      let same = shown r e (s, tt) in
      (
        some e,
        refl,
        (
          Any-map (λ q p. as_shown q r e p same) table there,
          subst (λ z. z ≤ℤ n) same.0 (selected r match),
          All_of (λ q k le. subst (λ z. q.block_number ≤ℤ z) same.0 (k (selects q le))) table below,
        ),
      )

  -- getNearestIngestedEvent returns an event of the table whose block is the highest up to the given one, and nothing
  -- exactly if all its events are above that. A request that fails and an answer that does not unmarshal
  -- are its errors.
  -- The database answers the query that the code builds with the rows that satisfy its filters, in its
  -- order and up to its limit.
  pub get_nearest_ingested_event_correct :
      (sources : Sources) (table : List PublicEventsSelect)
      → EventReplies (nearest_query n) table (sources.execute (nearest_query n))
      → Outcome table n (sources.execute (nearest_query n)) (get_nearest_ingested_event sources n)
  unfolding get_nearest_ingested_event
  get_nearest_ingested_event_correct sources table h =
      first_event-Outcome table (sources.execute (nearest_query n)) h
