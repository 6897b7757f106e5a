-- ===== src/Reorg/Search.antt =====
-- The search ends, and at the highest block that it may go back to.
use vault_indexer.Prelude.{
  ℕ, zero, suc, ◌+◌, ◌^◌, ◌≤◌, ◌<◌, ◌≡◌, refl, sym, ap, subst, ℤ, pos, negsuc, ◌≤ℤ◌, ◌<ℤ◌, Bool,
  true, false, Option, none, some, List, [], ◌∷◌, All, Any, Any-map, Result, ok, err, inl, inr, ◌⊎◌,
  arith, Bool-cases, ltb, ltb→lt, dec_int64,
}
use vault_indexer.Database.Events.{PublicEventsSelect}
use vault_indexer.Query.{Reply, body, malformed}
use vault_indexer.Reorg.{
  Sources, check_canonical_block, nearest_query, get_nearest_ingested_event, judge, round, search,
  first_event, find_last_consistent_block,
}

-- The row has a block number that a chain reaches.
abbrev pub HasBlock : PublicEventsSelect → Type 0
HasBlock e = (k : ℕ) × (e.block_number ≡ pos k) × (k < 2 ^ 63)

-- The reply to the query for the highest block up to `n`: an error, no row if the table has none, or
-- one of its rows, such that no row is above it and not above `n`.
abbrev pub IsNearest : List PublicEventsSelect → ℤ → Reply (List PublicEventsSelect) → Type 0
IsNearest table n (Reply.failed e) = Unit
IsNearest table n (malformed e) = Unit
IsNearest table n (body []) = All (λ q. n <ℤ q.block_number) table
IsNearest table n (body (e ∷ es)) =
    Any (λ q. q ≡ e) table
    × (e.block_number ≤ℤ n)
    × All (λ q. q.block_number ≤ℤ n → q.block_number ≤ℤ e.block_number) table

module _ (sources : Sources) (table : List PublicEventsSelect) where
  -- Some event of the block was checked, with this answer.
  abbrev Checked : Bool → ℤ → Type 0
  Checked b n =
      Any
        (λ q.
          (q.block_number ≡ n) × (check_canonical_block sources q.block_number q.block_hash ≡ ok b))
        table

  -- The block is at most `n`, one of its events is canonical, and of each block with events between
  -- it and `n` one is not.
  pub record LastConsistent (n b : ℤ) : Type 0 where
    pub at_most : b ≤ℤ n
    pub canonical : Checked true b
    pub above :
        All (λ q. b <ℤ q.block_number → q.block_number ≤ℤ n → Checked false q.block_number) table

  -- How a search that started at `n` ends: with an error, or with a block.
  abbrev pub EndsAt : ℤ → Option (Result ℤ) → Type 0
  EndsAt n none = ⊥
  EndsAt n (some (err e)) = Unit
  EndsAt n (some (ok b)) = LastConsistent n b

all_at :
    (P : PublicEventsSelect → Type 0) (e : PublicEventsSelect) (xs : List PublicEventsSelect)
    → All P xs
    → Any (λ q. q ≡ e) xs
    → P e
all_at P e [] a m = absurd m
all_at P e (x ∷ xs) a (inl p) = subst P p a.0
all_at P e (x ∷ xs) a (inr m) = all_at P e xs a.1 m

all_from_three :
    (P Q R S : PublicEventsSelect → Type 0)
    → ((e : PublicEventsSelect) → P e → Q e → R e → S e)
    → (xs : List PublicEventsSelect) → All P xs
    → All Q xs
    → All R xs
    → All S xs
all_from_three P Q R S f [] p q r = tt
all_from_three P Q R S f (x ∷ xs) p q r = (f x p.0 q.0 r.0, all_from_three P Q R S f xs p.1 q.1 r.1)

-- The fuel that a search from `n` needs.
abbrev need : ℤ → ℕ
need (pos k) = k + 2
need (negsuc k) = 1

dec_zero : dec_int64 (pos 0) ≡ negsuc 0
unfolding dec_int64
dec_zero = refl

dec_suc : (j : ℕ) → suc j < 2 ^ 63 → dec_int64 (pos (suc j)) ≡ pos j
unfolding dec_int64
dec_suc j h = ground arith

dec-at_most : (j : ℕ) → j < 2 ^ 63 → dec_int64 (pos j) ≤ℤ pos j
dec-at_most zero h = rw dec_zero (omega arith)
dec-at_most (suc j) h = rw (dec_suc j h) (omega arith)

dec-above : (i j : ℕ) → j < 2 ^ 63 → i < j → pos i ≤ℤ dec_int64 (pos j)
dec-above i zero h l = absurd (omega arith)
dec-above i (suc j) h l = rw (dec_suc j h) (omega arith)

need-dec : (j k : ℕ) → j < 2 ^ 63 → j ≤ k → need (dec_int64 (pos j)) ≤ k + 1
need-dec zero k h l = rw dec_zero (omega arith)
need-dec (suc j) k h l = rw (dec_suc j h) (omega arith)

need-lower :
    (n z : ℤ) (j f : ℕ)
    → z ≡ pos j
    → j < 2 ^ 63
    → pos j ≤ℤ n
    → need n ≤ suc f
    → need (dec_int64 z) ≤ f
need-lower (pos k) z j f p h l e =
    let d : need (dec_int64 (pos j)) ≤ k + 1 = need-dec j k h (omega arith) in
    rw p (omega (arith, d))
need-lower (negsuc k) z j f p h l e = absurd (omega arith)

at_most-dec : (z : ℤ) (j : ℕ) → z ≡ pos j → j < 2 ^ 63 → dec_int64 z ≤ℤ z
at_most-dec z j p h = rw p (dec-at_most j h)

equal_or_below :
    (x y : ℤ) (i j : ℕ) → x ≡ pos i → y ≡ pos j → j < 2 ^ 63 → x ≤ℤ y → (x ≡ y) ⊎ (x ≤ℤ dec_int64 y)
equal_or_below x y i j p q h l = elim (Bool-cases (ltb i j)) [
  | inl t ↦ inr (rw (p, q) (dec-above i j h (ltb→lt i j t)))
  | inr f ↦ inl (rw (p, q) (ap pos (equal (rw (p, q) at l) f)))
]
  where
    equal : pos i ≤ℤ pos j → ltb i j ≡ false → i ≡ j
    equal l f = ground arith

module _ (sources : Sources) (table : List PublicEventsSelect) (blocks : All HasBlock table)
    (answers : (n : ℤ) → IsNearest table n (sources.execute (nearest_query n))) where
  as_checked :
      (e : PublicEventsSelect) (b : Bool)
      → Any (λ q. q ≡ e) table
      → check_canonical_block sources e.block_number e.block_hash ≡ ok b
      → Checked sources table b e.block_number
  as_checked e b m c =
      Any-map
        (λ q p.
          subst
            (λ (r : PublicEventsSelect).
              (r.block_number ≡ e.block_number)
              × (check_canonical_block sources r.block_number r.block_hash ≡ ok b))
            (sym p) (refl, c))
        table m

  -- A block that is found below an event that is not canonical is what the search from above it finds.
  widen :
      (n b : ℤ) (e : PublicEventsSelect) (j : ℕ)
      → e.block_number ≡ pos j
      → j < 2 ^ 63
      → e.block_number ≤ℤ n
      → All (λ q. q.block_number ≤ℤ n → q.block_number ≤ℤ e.block_number) table
      → Checked sources table false e.block_number
      → LastConsistent sources table (dec_int64 e.block_number) b
      → LastConsistent sources table n b
  widen n b e j p h le up c last = record {
    at_most = let d = at_most-dec e.block_number j p h in omega (arith, last.at_most, le, d);
    canonical = last.canonical;
    above = all_from_three HasBlock _ _ _ merge table blocks up last.above;
  }
    where
      merge :
          (q : PublicEventsSelect)
          → HasBlock q
          → (q.block_number ≤ℤ n → q.block_number ≤ℤ e.block_number)
          → (b <ℤ q.block_number
              → q.block_number ≤ℤ dec_int64 e.block_number
              → Checked sources table false q.block_number)
          → b <ℤ q.block_number
          → q.block_number ≤ℤ n
          → Checked sources table false q.block_number
      merge q (i, qi, hi) top below lo hi' =
          elim (equal_or_below q.block_number e.block_number i j qi p h (top hi')) [
            | inl same ↦ subst (Checked sources table false) (sym same) c
            | inr lower ↦ below lo lower
          ]

  -- A round that finds `e`, by the answer of the check.
  judged :
      (n : ℤ) (e : PublicEventsSelect) (j : ℕ)
      → e.block_number ≡ pos j
      → j < 2 ^ 63
      → Any (λ q. q ≡ e) table
      → e.block_number ≤ℤ n
      → All (λ q. q.block_number ≤ℤ n → q.block_number ≤ℤ e.block_number) table
      → (checked : Result Bool)
      → check_canonical_block sources e.block_number e.block_hash ≡ checked
      → (rest : Option (Result ℤ)) → EndsAt sources table (dec_int64 e.block_number) rest
      → EndsAt sources table n (judge e.block_number checked rest)
  judged n e j p h m le up (err x) c rest ends = tt
  judged n e j p h m le up (ok true) c rest ends = record {
    at_most = le;
    canonical = as_checked e true m c;
    above =
        all_from_three HasBlock _ _ _
          (λ q b top top' lo hi. absurd (let t = top hi in omega (arith, t, lo))) table blocks up
          up;
  }
  judged n e j p h m le up (ok false) c none ends = ends
  judged n e j p h m le up (ok false) c (some (err x)) ends = tt
  judged n e j p h m le up (ok false) c (some (ok b)) ends =
      widen n b e j p h le up (as_checked e false m c) ends

  round-EndsAt :
      (f : ℕ) (n : ℤ)
      → need n ≤ suc f
      → ((m : ℤ) → need m ≤ f → EndsAt sources table m (search sources f m))
      → (reply : Reply (List PublicEventsSelect)) → IsNearest table n reply
      → EndsAt sources table n (round sources n (first_event reply) (search sources f))
  round-EndsAt f n h ih (Reply.failed e) a = tt
  round-EndsAt f n h ih (malformed e) a = tt
  round-EndsAt f n h ih (body []) a = tt
  round-EndsAt f n h ih (body (e ∷ es)) (m, le, up) =
      let (j, p, b) = all_at HasBlock e table blocks m in
      judged n e j p b m le up _ refl (search sources f (dec_int64 e.block_number)) (
        ih (dec_int64 e.block_number)
          (need-lower n e.block_number j f p b (subst (λ z. z ≤ℤ n) p le) h))

  search-EndsAt : (f : ℕ) (n : ℤ) → need n ≤ f → EndsAt sources table n (search sources f n)
  unfolding search get_nearest_ingested_event
  search-EndsAt zero (pos k) h = absurd (omega arith)
  search-EndsAt zero (negsuc k) h = absurd (omega arith)
  search-EndsAt (suc f) n h =
      round-EndsAt f n h (search-EndsAt f) (sources.execute (nearest_query n)) (answers n)

  -- From an event of block `d` on, the search ends within `d + 1` rounds: with the error of a request,
  -- with the error that no event is left, or at a block that has a canonical event, while each higher
  -- block below `d` that has events has one that is not canonical.
  pub find_last_consistent_block_correct :
      (d : ℕ)
      → d < 2 ^ 63
      → EndsAt sources table
          (dec_int64 (pos d))
          (find_last_consistent_block sources (d + 1) (pos d))
  unfolding find_last_consistent_block
  find_last_consistent_block_correct d h =
      search-EndsAt (d + 1) (dec_int64 (pos d)) (need-dec d d h (omega arith))
