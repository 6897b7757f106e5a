-- ===== src/Finality/Monotone.antt =====
-- What a turn of the finality processor establishes, and what it does not look at.
use vault_indexer.Prelude.{
  Text, ℤ, ◌≤ℤ◌, ◌<ℤ◌, ◌≡◌, refl, sym, subst, ap, Bool, true, false, Option, none, some, List, [],
  ◌∷◌, All, Any, Any-map, Result, ok, ◌>>=◌, bind-ok, ok-injective, arith, ltb_ℤ, Bool-cases, inl,
  inr,
}
use vault_indexer.Database.Events.{PublicEventsSelect, BlockFinalityUpsert}
use vault_indexer.Query.{Reply, body, failed, malformed}
use vault_indexer.Reorg.{check_canonical_block, first_event}
use vault_indexer.Finality.{
  Calls, Verdict, waits, validated, reorg, validate_tag, validate, settle, next_query,
  get_last_validated_block_number, get_next_event_to_validate, update_last_validated_block_number,
  written,
}

-- The reply to the query for the next event behind block `n`: an error, no row if the table has none, or
-- one of its rows, such that no row behind `n` is below it.
abbrev pub IsNext : List PublicEventsSelect → ℤ → Reply (List PublicEventsSelect) → Type 0
IsNext table n (failed e) = Unit
IsNext table n (malformed e) = Unit
IsNext table n (body []) = All (λ q. q.block_number ≤ℤ n) table
IsNext table n (body (e ∷ es)) =
    Any (λ q. q ≡ e) table
    × (n <ℤ e.block_number)
    × All (λ q. n <ℤ q.block_number → e.block_number ≤ℤ q.block_number) table

-- The event of the table that a turn was about: behind `last`, with none between, and answered so.
pub record Looked (calls : Calls) (table : List PublicEventsSelect) (last : ℤ) (answer : Bool)
    (number : ℤ) (hash : Text) : Type 0 where
  pub behind : last <ℤ number
  pub next : All (λ q. last <ℤ q.block_number → number ≤ℤ q.block_number) table
  pub present : Any (λ q. (q.block_number ≡ number) × (q.block_hash ≡ hash)) table
  pub checked : check_canonical_block calls.sources number hash ≡ ok answer

-- What a turn for a tag, with `last` as its validated block, has done.
abbrev pub Established : Calls → List PublicEventsSelect → Text → ℤ → Verdict → Type 0
Established calls table tag last waits = All (λ q. q.block_number ≤ℤ last) table
Established calls table tag last (validated row) =
    (row.block_tag ≡ tag)
    × ((hash : Text) × Looked calls table last true row.last_validated_block_number hash)
Established calls table tag last (reorg e) =
    (e.block_tag ≡ tag) × Looked calls table last false e.block_number e.block_hash

written-ok :
    (row : BlockFinalityUpsert) (e : Option Text) (v : Verdict)
    → written row e ≡ ok v
    → v ≡ validated row
unfolding written
written-ok row none v h = sym (ok-injective (validated row) v h)
written-ok row (some e) v h = absurd (ground arith)

module _ (calls : Calls) (table : List PublicEventsSelect) (tag : Text) (last : ℤ) where
  updated :
      (e : PublicEventsSelect) (v : Verdict)
      → update_last_validated_block_number calls tag e.block_number ≡ ok v
      → v ≡ validated (record { block_tag = tag; last_validated_block_number = e.block_number })
  unfolding update_last_validated_block_number
  updated e v h = written-ok _ (calls.upsert _) v h

  looked :
      (e : PublicEventsSelect) (answer : Bool)
      → Any (λ q. q ≡ e) table
      → last <ℤ e.block_number
      → All (λ q. last <ℤ q.block_number → e.block_number ≤ℤ q.block_number) table
      → check_canonical_block calls.sources e.block_number e.block_hash ≡ ok answer
      → Looked calls table last answer e.block_number e.block_hash
  looked e answer m lt up c = record {
    behind = lt;
    next = up;
    present = Any-map (λ q p. (ap (λ r. r.block_number) p, ap (λ r. r.block_hash) p)) table m;
    checked = c;
  }

  settled :
      (e : PublicEventsSelect) (v : Verdict)
      → Any (λ q. q ≡ e) table
      → last <ℤ e.block_number
      → All (λ q. last <ℤ q.block_number → e.block_number ≤ℤ q.block_number) table
      → (answer : Bool)
      → check_canonical_block calls.sources e.block_number e.block_hash ≡ ok answer
      → settle calls tag e answer ≡ ok v
      → Established calls table tag last v
  settled e v m lt up true c h =
      subst (Established calls table tag last) (sym (updated e v h))
        (refl, (e.block_hash, looked e true m lt up c))
  settled e v m lt up false c h =
      subst (Established calls table tag last) (ok-injective _ v h) (refl, looked e false m lt up c)

  of_reply :
      (reply : Reply (List PublicEventsSelect))
      → IsNext table last reply
      → (v : Verdict) → (first_event reply >>= validate calls tag last) ≡ ok v
      → Established calls table tag last v
  of_reply (failed e) a v h = absurd (ground arith)
  of_reply (malformed e) a v h = absurd (ground arith)
  of_reply (body []) a v h = subst (Established calls table tag last) (ok-injective waits v h) a
  of_reply (body (e ∷ es)) (m, lt, up) v h = elim (Bool-cases (ltb_ℤ e.block_number last)) [
    | inl l ↦ absurd (ground arith)
    | inr n ↦
        let step =
          bind-ok (check_canonical_block calls.sources e.block_number e.block_hash)
            (settle calls tag e) v (rw n at h) in
        settled e v m lt up step.0 step.1 step.2
  ]

  -- A turn of the finality processor that ends without an error has looked at the first event behind the
  -- last validated block: it waits only if no event is behind that block; it writes the tag's row with
  -- the event's block, a higher one, only if the event is canonical; and it reports the event only if it is not.
  pub validate_tag_correct :
      get_last_validated_block_number calls tag ≡ ok last
      → IsNext table last (calls.sources.execute (next_query last))
      → (v : Verdict) → validate_tag calls tag ≡ ok v
      → Established calls table tag last v
  unfolding validate_tag get_next_event_to_validate
  validate_tag_correct g a v h =
      let step = bind-ok (calls.header_by_tag tag) _ v h in
      of_reply (calls.sources.execute (next_query last)) a v (rw g at step.2)

-- The block that the chain calls finalized or safe makes no difference, as long as it can be fetched: an
-- event above it is validated like one below it.
validate_tag_ignores_head :
    (calls : Calls) (head head' : Text → Result ℤ) (tag : Text) (n n' : ℤ)
    → head tag ≡ ok n
    → head' tag ≡ ok n'
    → validate_tag (record calls { header_by_tag = head }) tag
      ≡ validate_tag (record calls { header_by_tag = head' }) tag
unfolding validate_tag get_last_validated_block_number get_next_event_to_validate
    update_last_validated_block_number
validate_tag_ignores_head calls head head' tag n n' h h' = rw (h, h') refl
