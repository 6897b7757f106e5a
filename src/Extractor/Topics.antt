-- ===== src/Extractor/Topics.antt =====
-- The topics that the indexed parameters of an event are read from.
use native.Mathlib.Nat.{pow-suc}
use vault_indexer.Prelude.{
  Text, ℕ, zero, suc, ◌+◌, ◌*◌, ◌/◌, ◌%◌, ◌^◌, ◌<◌, ◌≡◌, refl, ap, ◌∙◌, sym, subst, ◌⊎◌, false,
  none, some, List, [], ◌∷◌, ◌++◌, All, Result, ok, err, ◌>>=◌, arith, if◌then◌else◌, Bool-cases,
  inl, inr,
}
use vault_indexer.Extractor.{
  Argument, EventMap, address_ty, uint_ty, topic_value, topic_at, add_topic, indexed_parameters,
  set_bytes, address, number,
}

-- By the ABI, each indexed parameter takes the next topic; one whose topic is missing gets no value.
abbrev pub by_order : List Argument → List Text → EventMap → Result EventMap
by_order [] topics d = ok d
by_order (input ∷ inputs) [] d = ok d
by_order (input ∷ inputs) (topic ∷ topics) d =
    if input.indexed
    then (add_topic input (some topic) d >>= by_order inputs topics)
    else by_order inputs (topic ∷ topics) d

-- Every indexed parameter stands before every other one.
abbrev IndexedFirst : List Argument → Type 0
IndexedFirst [] = Unit
IndexedFirst (input ∷ inputs) =
    if input.indexed then IndexedFirst inputs else All (λ a. a.indexed ≡ false) inputs

abbrev skip : ℕ → List Text → List Text
skip zero ts = ts
skip (suc n) [] = []
skip (suc n) (t ∷ ts) = skip n ts

skip_more : (n : ℕ) (ts : List Text) → skip n ts ≡ [] → skip (suc n) ts ≡ []
skip_more zero [] h = refl
skip_more zero (t ∷ ts) h = absurd (ground arith)
skip_more (suc n) [] h = refl
skip_more (suc n) (t ∷ ts) h = skip_more n ts h

-- The topic at an index is the first of those that are left there.
skip-cases :
    (n : ℕ) (ts : List Text)
    → ((skip n ts ≡ []) × (topic_at n ts ≡ none))
      ⊎ ((t : Text) × (rest : List Text) × (skip n ts ≡ t ∷ rest)
          × (topic_at n ts ≡ some t)
          × (skip (suc n) ts ≡ rest))
skip-cases zero [] = inl (refl, refl)
skip-cases zero (t ∷ ts) = inr (t, ts, refl, refl, refl)
skip-cases (suc n) [] = inl (refl, refl)
skip-cases (suc n) (t ∷ ts) = skip-cases n ts

bind-ext :
    (m : Result EventMap) (f g : EventMap → Result EventMap)
    → ((d : EventMap) → f d ≡ g d)
    → (m >>= f) ≡ (m >>= g)
bind-ext (ok d) f g h = h d
bind-ext (err e) f g h = refl

-- Parameters that are not indexed take no topic.
plain :
    (topics : List Text) (inputs : List Argument) (i : ℕ) (d : EventMap)
    → All (λ a. a.indexed ≡ false) inputs
    → indexed_parameters topics inputs i d ≡ ok d
unfolding indexed_parameters
plain topics [] i d h = refl
plain topics (input ∷ inputs) i d h = rw h.0 (plain topics inputs (suc i) d h.1)

by_order_plain :
    (inputs : List Argument) (topics : List Text) (d : EventMap)
    → All (λ a. a.indexed ≡ false) inputs
    → by_order inputs topics d ≡ ok d
by_order_plain [] topics d h = refl
by_order_plain (input ∷ inputs) [] d h = refl
by_order_plain (input ∷ inputs) (t ∷ topics) d h = rw h.0 (by_order_plain inputs (t ∷ topics) d h.1)

-- Without a topic left, no parameter gets a value.
none_left :
    (topics : List Text) (inputs : List Argument) (i : ℕ) (d : EventMap)
    → skip (suc i) topics ≡ []
    → indexed_parameters topics inputs i d ≡ ok d
unfolding indexed_parameters
none_left topics [] i d h = refl
none_left topics (input ∷ inputs) i d h = elim (Bool-cases input.indexed) [
  | inr e ↦ rw e (none_left topics inputs (suc i) d (skip_more (suc i) topics h))
  | inl e ↦ elim (skip-cases (suc i) topics) [
    | inl (k, t) ↦ rw (e, t) (none_left topics inputs (suc i) d (skip_more (suc i) topics h))
    | inr (t, rest, k, at', k') ↦ absurd (cons_absurd t rest (sym k ∙ h))
  ]
]
  where
    cons_absurd : (t : Text) (rest : List Text) → t ∷ rest ≡ [] → ⊥
    cons_absurd t rest h = ground arith

from_index :
    (inputs : List Argument) (topics : List Text) (i : ℕ) (d : EventMap)
    → IndexedFirst inputs
    → indexed_parameters topics inputs i d ≡ by_order inputs (skip (suc i) topics) d
unfolding indexed_parameters
from_index [] topics i d h = refl
from_index (input ∷ inputs) topics i d h = elim (Bool-cases input.indexed) [
  | inr e ↦
      rw e (plain topics inputs (suc i) d (rw e at h))
      ∙ sym (by_order_plain (input ∷ inputs) (skip (suc i) topics) d (e, rw e at h))
  | inl e ↦ elim (skip-cases (suc i) topics) [
    | inl (k, t) ↦ rw (e, t, k) (none_left topics inputs (suc i) d (skip_more (suc i) topics k))
    | inr (t, rest, k, at', k') ↦
        simp (e, at', k)
          (bind-ext (add_topic input (some t) d) (indexed_parameters topics inputs (suc i))
            (by_order inputs rest)
            (λ d'.
              from_index inputs topics (suc i) d' (rw e at h)
              ∙ ap (λ ts. by_order inputs ts d') k'))
  ]
]

-- The 32 bytes of a number, big end first, and more generally its `w` bytes.
unfoldable pub big_endian : ℕ → ℕ → Text
big_endian zero n = []
big_endian (suc w) n = big_endian w (n / 256) ++ (n % 256) ∷ []

set_bytes-append : (s : Text) (m b : ℕ) → set_bytes m (s ++ b ∷ []) ≡ set_bytes m s * 256 + b
unfolding set_bytes
set_bytes-append [] m b = refl
set_bytes-append (c ∷ s) m b = set_bytes-append s (m * 256 + c) b

divide_bound : (n m : ℕ) → n < m * 256 → n / 256 < m
divide_bound n m h = omega arith

divided : (w n : ℕ) → n < 256 ^ suc w → n / 256 < 256 ^ w
divided w n h = divide_bound n (256 ^ w) (subst (λ m. n < m) (pow-suc 256 w) h)

set_bytes-big_endian : (w n : ℕ) → n < 256 ^ w → set_bytes 0 (big_endian w n) ≡ n
unfolding set_bytes big_endian
set_bytes-big_endian zero n h = omega arith
set_bytes-big_endian (suc w) n h =
    let ih = set_bytes-big_endian w (n / 256) (divided w n h) in
    set_bytes-append (big_endian w (n / 256)) 0 (n % 256) ∙ rw ih (omega arith)

abbrev pub zeros : ℕ → Text
zeros zero = []
zeros (suc n) = 0 ∷ zeros n

-- An unsigned number below 2 ^ 256 and an address are read back from the topics that the chain encodes
-- them in: 32 bytes with the big end first, and twelve zeros before the address.
pub topic_value_round_trip :
    (n : ℕ) (a : Text)
    → n < 2 ^ 256
    → (topic_value uint_ty (big_endian 32 n) ≡ ok (number n))
      × (topic_value address_ty (zeros 12 ++ a) ≡ ok (address a))
unfolding topic_value
topic_value_round_trip n a h = (ap (λ k. ok (number k)) (set_bytes-big_endian 32 n h), refl)

-- Where the indexed parameters of an event stand before the others, each takes the topic that the ABI
-- gives it, behind the first topic, which is the event's signature.
pub indexed_parameters_correct :
    (inputs : List Argument) (signature : Text) (topics : List Text)
    → IndexedFirst inputs
    → indexed_parameters (signature ∷ topics) inputs 0 [] ≡ by_order inputs topics []
indexed_parameters_correct inputs signature topics h = from_index inputs (signature ∷ topics) 0 [] h
