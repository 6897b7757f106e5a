-- ===== src/Ingestion/Chain.antt =====
-- A chain client that filters a list of logs, for the tests.
use vault_indexer.Prelude.{
  Text, ℕ, ℤ, pos, leb_ℤ, leb_ℤ→le, le→leb_ℤ, ◌≡◌, ◌↔◌, refl, sym, subst, ap, ◌∙◌, Bool, true,
  false, ◌&&◌, ◌||◌, Option, none, some, List, [], ◌∷◌, Contains, keep, keep-Contains, Result, ok,
  ok-injective, Bool-cases, and-true, eq_text, eq_text→eq, eq_text_refl, inl, inr, ◌⊎◌, arith,
}
use vault_indexer.Extractor.{Log}
use vault_indexer.Ingestion.{FilterQuery, Sources}
use vault_indexer.Ingestion.Backfill.{TopicsFit, FromFits, ToFits, Filters}

abbrev contains_text : List Text → Text → Bool
contains_text [] t = false
contains_text (s ∷ ss) t = eq_text t s || contains_text ss t

abbrev topics_fit : List (List Text) → List Text → Bool
topics_fit [] topics = true
topics_fit (ids ∷ query) [] = false
topics_fit ([] ∷ query) (t ∷ topics) = topics_fit query topics
topics_fit ((id ∷ ids) ∷ query) (t ∷ topics) = contains_text (id ∷ ids) t && topics_fit query topics

abbrev from_fits : Option ℤ → ℕ → Bool
from_fits none n = true
from_fits (some z) n = leb_ℤ z (pos n)

abbrev to_fits : Option ℤ → ℕ → Bool
to_fits none n = true
to_fits (some z) n = leb_ℤ (pos n) z

abbrev fits : FilterQuery → Log → Bool
fits q log =
    contains_text q.addresses log.address
    && (topics_fit q.topics log.topics
        && (from_fits q.from_block log.block_number && to_fits q.to_block log.block_number))

or-true : (a b : Bool) → (a || b) ≡ true → (a ≡ true) ⊎ (b ≡ true)
or-true true b h = inl refl
or-true false b h = inr h

or-true_right : (a b : Bool) → b ≡ true → (a || b) ≡ true
or-true_right true b h = refl
or-true_right false b h = h

listed-Contains : (ss : List Text) (t : Text) → (contains_text ss t ≡ true) ↔ Contains ss t
listed-Contains [] t = (λ h. absurd (ground arith), λ m. elim m [ ])
listed-Contains (s ∷ ss) t =
    let rest = listed-Contains ss t in
    (
      λ h. elim (or-true (eq_text t s) (contains_text ss t) h) [
        | inl e ↦ inl (eq_text→eq t s e)
        | inr m ↦ inr (rest.0 m)
      ],
      λ m. elim m [
        | inl e ↦ rw (sym e, eq_text_refl t) refl
        | inr m' ↦ or-true_right (eq_text t s) (contains_text ss t) (rest.1 m')
      ],
    )

and_both : (a b : Bool) → a ≡ true → b ≡ true → (a && b) ≡ true
and_both a b p q = rw (p, q) refl

topics-TopicsFit :
    (qs : List (List Text)) (ts : List Text) → (topics_fit qs ts ≡ true) ↔ TopicsFit qs ts
topics-TopicsFit [] ts = (λ h. tt, λ h. refl)
topics-TopicsFit (ids ∷ qs) [] = (λ h. absurd (ground arith), λ h. absurd h)
topics-TopicsFit ([] ∷ qs) (t ∷ ts) = topics-TopicsFit qs ts
topics-TopicsFit ((id ∷ ids) ∷ qs) (t ∷ ts) =
    let here = listed-Contains (id ∷ ids) t in
    let rest = topics-TopicsFit qs ts in
    (
      λ h.
          let (a, b) = and-true (contains_text (id ∷ ids) t) (topics_fit qs ts) h in
          (here.0 a, rest.0 b),
      λ h. and_both (contains_text (id ∷ ids) t) (topics_fit qs ts) (here.1 h.0) (rest.1 h.1),
    )

from-FromFits : (z : Option ℤ) (n : ℕ) → (from_fits z n ≡ true) ↔ FromFits z n
from-FromFits none n = (λ h. tt, λ h. refl)
from-FromFits (some z) n = (leb_ℤ→le z (pos n), le→leb_ℤ z (pos n))

to-ToFits : (z : Option ℤ) (n : ℕ) → (to_fits z n ≡ true) ↔ ToFits z n
to-ToFits none n = (λ h. tt, λ h. refl)
to-ToFits (some z) n = (leb_ℤ→le (pos n) z, le→leb_ℤ (pos n) z)

keep_of :
    (p : Log → Bool) (x : Log) (xs : List Log)
    → Contains (keep p xs) x
    → Contains xs x × (p x ≡ true)
keep_of p x [] m = elim m [ ]
keep_of p x (y ∷ ys) m = elim (Bool-cases (p y)) [
  | inl t ↦ first t (keep_of p x ys) (rw t at m)
  | inr f ↦ let (c, q) = keep_of p x ys (rw f at m) in (inr c, q)
]
  where
    first :
        p y ≡ true
        → (Contains (keep p ys) x → Contains ys x × (p x ≡ true))
        → Contains (y ∷ keep p ys) x
        → Contains (y ∷ ys) x × (p x ≡ true)
    first t ih (inl e) = (inl e, ap p e ∙ t)
    first t ih (inr m') = let (c, q) = ih m' in (inr c, q)

module _ (chain : List Log) where
  abbrev pub filter_chain : FilterQuery → Result (List Log)
  filter_chain q = ok (keep (fits q) chain)

  fits_iff :
      (q : FilterQuery) (log : Log)
      → (fits q log ≡ true) ↔ (
          Contains q.addresses log.address
          × TopicsFit q.topics log.topics
          × FromFits q.from_block log.block_number
          × ToFits q.to_block log.block_number)
  fits_iff q log =
      let a = listed-Contains q.addresses log.address in
      let t = topics-TopicsFit q.topics log.topics in
      let f = from-FromFits q.from_block log.block_number in
      let u = to-ToFits q.to_block log.block_number in
      (
        λ h.
            let (x, h) = and-true (contains_text q.addresses log.address) _ h in
            let (y, h) = and-true (topics_fit q.topics log.topics) _ h in
            let (z, w) = and-true (from_fits q.from_block log.block_number) _ h in
            (a.0 x, t.0 y, f.0 z, u.0 w),
        λ h. and_both _ _ (a.1 h.0) (and_both _ _ (t.1 h.1) (and_both _ _ (f.1 h.2) (u.1 h.3))),
      )

  pub filter_chain-Filters :
      (sources : Sources) → sources.filter_logs ≡ filter_chain → Filters sources chain
  filter_chain-Filters sources e q logs h log =
      let same : keep (fits q) chain ≡ logs =
        ok-injective _ _ (sym (ap (λ (f : FilterQuery → Result (List Log)). f q) e) ∙ h) in
      (
        λ m.
            let (c, f) = keep_of (fits q) log chain (subst (λ ls. Contains ls log) (sym same) m) in
            let (a, t, b, u) = (fits_iff q log).0 f in (c, a, t, b, u),
        λ h'.
            subst (λ ls. Contains ls log) same
              (keep-Contains (fits q) log chain ((fits_iff q log).1 (h'.1, h'.2, h'.3, h'.4)) h'.0),
      )
