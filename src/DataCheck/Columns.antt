-- ===== src/DataCheck/Columns.antt =====
-- The columns that the comparison of two rows reads, and that it decides whether they are equal.
use vault_indexer.Prelude.{
  Text, ℤ, eqb_ℤ, ◌≡◌, refl, sym, subst, ap, Bool, true, false, ◌&&◌, Option, none, some, eqb_ℤ→eq,
  eqb_ℤ_refl, and-true, eq_text, eq_text→eq, eq_text_refl, arith,
}
use vault_indexer.Database.{
  PublicPositionsSelect, PublicWithdrawRequestsSelect, PublicRateUpdatesSelect,
}
use vault_indexer.Database.Events.{PublicEventsSelect}
use vault_indexer.DataCheck.{
  same_event, same_rate_update, same_withdraw_request, same_position, compare_ptr, eq_bool,
}

-- The columns that are compared.
abbrev EventColumns : Type 0
EventColumns = ℤ × Text × ℤ × Text

abbrev pub event_columns : PublicEventsSelect → EventColumns
event_columns r = (r.block_number, r.event_name, r.log_index, r.transaction_hash)

abbrev pub rate_update_columns : PublicRateUpdatesSelect → Text × ℤ
rate_update_columns r = (r.rate, r.block_number)

-- Without the owner.
abbrev pub withdraw_request_columns : PublicWithdrawRequestsSelect → Text × ℤ × Text × ℤ
withdraw_request_columns r = (r.amount, r.block_number, r.receiver_address, r.withdraw_id)

abbrev pub position_columns :
    PublicPositionsSelect → Text × Bool × Text × Option ℤ × ℤ × ℤ × Option Text
position_columns r = (
  r.amount_shares, r.is_terminated, r.owner_address, r.position_end_height, r.position_index_id,
  r.position_start_height, r.withdraw_receiver_address,
)

eq_bool→eq : (a b : Bool) → eq_bool a b ≡ true → a ≡ b
eq_bool→eq true b h = sym h
eq_bool→eq false true h = absurd (ground arith)
eq_bool→eq false false h = refl

eq_bool_refl : (a : Bool) → eq_bool a a ≡ true
eq_bool_refl true = refl
eq_bool_refl false = refl

compare_ptr→eq {ℓ} :
    {A : Type ℓ} (same : A → A → Bool)
    → ((a b : A) → same a b ≡ true → a ≡ b)
    → (x y : Option A) → compare_ptr same x y ≡ true
    → x ≡ y
compare_ptr→eq same s none none h = refl
compare_ptr→eq same s none (some b) h = absurd (ground arith)
compare_ptr→eq same s (some a) none h = absurd (ground arith)
compare_ptr→eq same s (some a) (some b) h = ap some (s a b h)

compare_ptr_refl {ℓ} :
    {A : Type ℓ} (same : A → A → Bool)
    → ((a : A) → same a a ≡ true)
    → (x : Option A) → compare_ptr same x x ≡ true
compare_ptr_refl same s none = refl
compare_ptr_refl same s (some a) = s a

-- A test of two rows that looks at these columns.
pub record Compares {A V : Type 0} (columns : A → V) (same : A → A → Bool) : Type 0 where
  pub agree : (l r : A) → same l r ≡ true → columns l ≡ columns r
  pub accepts : (l r : A) → columns l ≡ columns r → same l r ≡ true

pub events-Compares : Compares event_columns same_event
events-Compares = record {
  agree = λ l r h.
      let (h, e3) = and-true _ _ h in
      let (h, e2) = and-true _ _ h in
      let (e0, e1) = and-true _ _ h in
      λ i. (
        eqb_ℤ→eq l.block_number r.block_number e0 i,
        eq_text→eq l.event_name r.event_name e1 i,
        eqb_ℤ→eq l.log_index r.log_index e2 i,
        eq_text→eq l.transaction_hash r.transaction_hash e3 i,
      );
  accepts = λ l r h.
      subst
        (λ (v : EventColumns).
          (eqb_ℤ l.block_number v.0
            && eq_text l.event_name v.1
            && eqb_ℤ l.log_index v.2
            && eq_text l.transaction_hash v.3)
          ≡ true)
        h
        (rw
          (
            eqb_ℤ_refl l.block_number,
            eq_text_refl l.event_name,
            eqb_ℤ_refl l.log_index,
            eq_text_refl l.transaction_hash,
          )
          refl);
}

pub rate_updates-Compares : Compares rate_update_columns same_rate_update
rate_updates-Compares = record {
  agree = λ l r h.
      let (e0, e1) = and-true _ _ h in
      λ i. (eq_text→eq l.rate r.rate e0 i, eqb_ℤ→eq l.block_number r.block_number e1 i);
  accepts = λ l r h.
      subst (λ (v : Text × ℤ). (eq_text l.rate v.0 && eqb_ℤ l.block_number v.1) ≡ true) h
        (rw (eq_text_refl l.rate, eqb_ℤ_refl l.block_number) refl);
}

pub withdraw_requests-Compares : Compares withdraw_request_columns same_withdraw_request
withdraw_requests-Compares = record {
  agree = λ l r h.
      let (h, e3) = and-true _ _ h in
      let (h, e2) = and-true _ _ h in
      let (e0, e1) = and-true _ _ h in
      λ i. (
        eq_text→eq l.amount r.amount e0 i,
        eqb_ℤ→eq l.block_number r.block_number e1 i,
        eq_text→eq l.receiver_address r.receiver_address e2 i,
        eqb_ℤ→eq l.withdraw_id r.withdraw_id e3 i,
      );
  accepts = λ l r h.
      subst
        (λ (v : Text × ℤ × Text × ℤ).
          (eq_text l.amount v.0
            && eqb_ℤ l.block_number v.1
            && eq_text l.receiver_address v.2
            && eqb_ℤ l.withdraw_id v.3)
          ≡ true)
        h
        (rw
          (
            eq_text_refl l.amount,
            eqb_ℤ_refl l.block_number,
            eq_text_refl l.receiver_address,
            eqb_ℤ_refl l.withdraw_id,
          )
          refl);
}

pub positions-Compares : Compares position_columns same_position
positions-Compares = record {
  agree = λ l r h.
      let (h, e6) = and-true _ _ h in
      let (h, e5) = and-true _ _ h in
      let (h, e4) = and-true _ _ h in
      let (h, e3) = and-true _ _ h in
      let (h, e2) = and-true _ _ h in
      let (e0, e1) = and-true _ _ h in
      λ i. (
        eq_text→eq l.amount_shares r.amount_shares e0 i,
        eq_bool→eq l.is_terminated r.is_terminated e1 i,
        eq_text→eq l.owner_address r.owner_address e2 i,
        compare_ptr→eq eqb_ℤ eqb_ℤ→eq l.position_end_height r.position_end_height e3 i,
        eqb_ℤ→eq l.position_index_id r.position_index_id e4 i,
        eqb_ℤ→eq l.position_start_height r.position_start_height e5 i,
        compare_ptr→eq eq_text eq_text→eq l.withdraw_receiver_address r.withdraw_receiver_address e6
            i,
      );
  accepts = λ l r h.
      subst
        (λ (v : Text × Bool × Text × Option ℤ × ℤ × ℤ × Option Text).
          (eq_text l.amount_shares v.0
            && eq_bool l.is_terminated v.1
            && eq_text l.owner_address v.2
            && compare_ptr eqb_ℤ l.position_end_height v.3
            && eqb_ℤ l.position_index_id v.4
            && eqb_ℤ l.position_start_height v.5
            && compare_ptr eq_text l.withdraw_receiver_address v.6)
          ≡ true)
        h
        (rw
          (
            eq_text_refl l.amount_shares,
            eq_bool_refl l.is_terminated,
            eq_text_refl l.owner_address,
            compare_ptr_refl eqb_ℤ eqb_ℤ_refl l.position_end_height,
            eqb_ℤ_refl l.position_index_id,
            eqb_ℤ_refl l.position_start_height,
            compare_ptr_refl eq_text eq_text_refl l.withdraw_receiver_address,
          )
          refl);
}
