-- ===== src/Transformer/Cleanup/Consistent.antt =====
-- What the cleanup after a reorg leaves in the tables.
use vault_indexer.Prelude.{
  Text, ◌≡◌, refl, ℤ, ltb_ℤ, leb_ℤ, leb_ℤ→le, le→leb_ℤ, ltb_ℤ→lt, lt→ltb_ℤ, Bool, true, false,
  Option, none, some, List, [], ◌∷◌, map, ok, arith, ap, ◌∙◌, keep, All, Contains, keep-Contains,
  map-Contains, keep-All, keep-of_All, map-All, map-of_All, ◌≤ℤ◌, ◌<ℤ◌, Bool-cases, bind-ok,
  ok-injective, inl, inr, sym, subst,
}
use vault_indexer.Database.{PublicPositionsSelect}
use vault_indexer.Database.Events.{PublicEventsSelect}
use vault_indexer.Transformer.Cleanup.{
  Tables, Database, Sql, ends_after, reopen, run_sql, exec_all, or_error, cleanup_statements,
  delete_events, handle_cleanup_from_block,
}

-- The tables without what came after block `n`, and without the events of `n` itself.
abbrev pub cleaned : ℤ → Tables → Tables
cleaned n t = record {
  withdraw_requests = keep (λ r. leb_ℤ r.block_number n) t.withdraw_requests;
  rate_updates = keep (λ r. leb_ℤ r.block_number n) t.rate_updates;
  positions = map (reopen n) (keep (λ p. leb_ℤ p.position_start_height n) t.positions);
  events = keep (λ e. ltb_ℤ e.block_number n) t.events;
}

-- No end is a height that is not reached.
abbrev EndsBy : ℤ → Option ℤ → Type 0
EndsBy n none = Unit
EndsBy n (some h) = h ≤ℤ n

abbrev pub PositionUpTo : ℤ → PublicPositionsSelect → Type 0
PositionUpTo n p = (p.position_start_height ≤ℤ n) × EndsBy n p.position_end_height

-- Tables that mention no block after `n`, and no event of `n`.
pub record UpTo (n : ℤ) (t : Tables) : Type 0 where
  pub withdraw_requests : All (λ r. r.block_number ≤ℤ n) t.withdraw_requests
  pub rate_updates : All (λ r. r.block_number ≤ℤ n) t.rate_updates
  pub positions : All (PositionUpTo n) t.positions
  pub events : All (λ e. e.block_number <ℤ n) t.events

-- A database that answers every call.
pub record Available (db : Database) : Type 0 where
  pub begin : db.begin ≡ none
  pub exec : (s : Sql) → db.exec s ≡ none
  pub commit : db.commit ≡ none

reopen-PositionUpTo :
    (n : ℤ) (p : PublicPositionsSelect) → p.position_start_height ≤ℤ n → PositionUpTo n (reopen n p)
reopen-PositionUpTo n p h = elim (Bool-cases (ends_after n p.position_end_height)) [
  | inl e ↦ rw e (h, tt)
  | inr e ↦ rw e (h, ends_by p.position_end_height e)
]
  where
    ends_by : (o : Option ℤ) → ends_after n o ≡ false → EndsBy n o
    ends_by none e = tt
    ends_by (some k) e = ground arith

pub reopen-of_EndsBy :
    (n : ℤ) (p : PublicPositionsSelect) → EndsBy n p.position_end_height → reopen n p ≡ p
reopen-of_EndsBy n p h = rw (not_after p.position_end_height h) refl
  where
    not_after : (o : Option ℤ) → EndsBy n o → ends_after n o ≡ false
    not_after none e = refl
    not_after (some k) e = ground arith

cleaned-UpTo : (n : ℤ) (t : Tables) → UpTo n (cleaned n t)
cleaned-UpTo n t = record {
  withdraw_requests = keep-All _ (λ r. leb_ℤ→le r.block_number n) t.withdraw_requests;
  rate_updates = keep-All _ (λ r. leb_ℤ→le r.block_number n) t.rate_updates;
  positions =
      map-All (PositionUpTo n) (reopen n) (λ p h. reopen-PositionUpTo n p h) _
        (keep-All _ (λ p. leb_ℤ→le p.position_start_height n) t.positions);
  events = keep-All _ (λ e. ltb_ℤ→lt e.block_number n) t.events;
}

cleaned-of_UpTo : (n : ℤ) (t : Tables) → UpTo n t → cleaned n t ≡ t
cleaned-of_UpTo n t u =
    let w =
      keep-of_All _ (λ r. le→leb_ℤ r.block_number n) t.withdraw_requests u.withdraw_requests in
    let r = keep-of_All _ (λ r. le→leb_ℤ r.block_number n) t.rate_updates u.rate_updates in
    let p = keep-of_All _ (λ p h. le→leb_ℤ p.position_start_height n h.0) t.positions u.positions in
    let q = map-of_All (reopen n) (λ p h. reopen-of_EndsBy n p h.1) t.positions u.positions in
    let e = keep-of_All _ (λ e. lt→ltb_ℤ e.block_number n) t.events u.events in
    rw (w, r, p, q, e) refl

handle-Available :
    (db : Database) (n : ℤ) (t : Tables)
    → Available db
    → handle_cleanup_from_block db true n t ≡ ok (cleaned n t)
unfolding handle_cleanup_from_block
handle-Available db n t a = simp (a.begin, a.commit, a.exec) refl

or_error-ok : (e : Option Text) (a b : Tables) → or_error e a ≡ ok b → b ≡ a
or_error-ok none a b h = sym (ok-injective a b h)
or_error-ok (some e) a b h = ground arith

-- The statements one after the other.
abbrev run_all : List Sql → ℤ → Tables → Tables
run_all [] n t = t
run_all (s ∷ ss) n t = run_all ss n (run_sql s n t)

exec_all-ok :
    (db : Database) (ss : List Sql) (n : ℤ) (t u : Tables)
    → exec_all db ss n t ≡ ok u
    → u ≡ run_all ss n t
unfolding exec_all
exec_all-ok db [] n t u h = sym (ok-injective t u h)
exec_all-ok db (s ∷ ss) n t u h =
    let step = bind-ok (or_error (db.exec s) (run_sql s n t)) (exec_all db ss n) u h in
    exec_all-ok db ss n step.0 u step.2
    ∙ ap (run_all ss n) (or_error-ok (db.exec s) (run_sql s n t) step.0 step.1)

handle-cleaned :
    (db : Database) (halted : Bool) (n : ℤ) (t left : Tables)
    → handle_cleanup_from_block db halted n t ≡ ok left
    → (halted ≡ true) × (left ≡ cleaned n t)
unfolding handle_cleanup_from_block run_sql
handle-cleaned db false n t left h = ground arith
handle-cleaned db true n t left h =
    let begun = bind-ok (or_error db.begin t) _ left h in
    let first = bind-ok (exec_all db cleanup_statements n begun.0) _ left begun.2 in
    let last = bind-ok (exec_all db (delete_events ∷ []) n first.0) _ left first.2 in
    (
      refl,
      or_error-ok db.commit last.0 left last.2
          ∙ exec_all-ok db (delete_events ∷ []) n first.0 last.0 last.1
          ∙ ap (run_all (delete_events ∷ []) n) (
              exec_all-ok db cleanup_statements n begun.0 first.0 first.1
              ∙ ap (run_all cleanup_statements n) (or_error-ok db.begin t begun.0 begun.1)),
    )

-- A cleanup to block `n` that succeeds was made while halted, and leaves tables that mention no block
-- after `n`: no later withdraw request or rate update, no position that starts or ends later, and no
-- event of `n` itself.
pub cleanup-UpTo :
    (db : Database) (halted : Bool) (n : ℤ) (t left : Tables)
    → handle_cleanup_from_block db halted n t ≡ ok left
    → (halted ≡ true) × UpTo n left
cleanup-UpTo db halted n t left h =
    let c = handle-cleaned db halted n t left h in
    (c.0, subst (UpTo n) (sym c.1) (cleaned-UpTo n t))

-- Nothing else is lost: a position that neither starts nor ends after `n` is left as it is, also one that
-- an event of `n` itself opened, and so is every event before `n`.
pub cleanup_keeps :
    (db : Database) (halted : Bool) (n : ℤ) (t left : Tables)
    → handle_cleanup_from_block db halted n t ≡ ok left
    → ((p : PublicPositionsSelect)
        → Contains t.positions p
        → PositionUpTo n p
        → Contains left.positions p)
      × ((e : PublicEventsSelect)
          → Contains t.events e
          → e.block_number <ℤ n
          → Contains left.events e)
cleanup_keeps db halted n t left h =
    let c = sym (handle-cleaned db halted n t left h).1 in
    let started = λ (p : PublicPositionsSelect). leb_ℤ p.position_start_height n in
    (
      (λ p m u.
          subst (λ ts. Contains ts.positions p) c
            (subst (Contains (cleaned n t).positions) (reopen-of_EndsBy n p u.1) (
              map-Contains (reopen n) p (keep started t.positions)
                (keep-Contains started p t.positions (le→leb_ℤ p.position_start_height n u.0) m)))),
      (λ e m u.
          subst (λ ts. Contains ts.events e) c
            (keep-Contains (λ (r : PublicEventsSelect). ltb_ℤ r.block_number n) e t.events
              (lt→ltb_ℤ e.block_number n u) m)),
    )

-- A second cleanup to the same block changes nothing.
cleanup_twice :
    (db : Database) (halted : Bool) (n : ℤ) (t left : Tables)
    → Available db
    → handle_cleanup_from_block db halted n t ≡ ok left
    → handle_cleanup_from_block db true n left ≡ ok left
cleanup_twice db halted n t left a h =
    handle-Available db n left a
    ∙ ap ok (cleaned-of_UpTo n left (cleanup-UpTo db halted n t left h).1)
