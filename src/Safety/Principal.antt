-- ===== src/Safety/Principal.antt =====
-- The principal of the obligations and the principal of the reserve move together.
use aera_v.Common.{
  ℕ, ◌+◌, ◌≡◌, refl, true, ◌==◌, ==_iff, arith, if◌then◌else◌, Pubkey, ok, err, AeraError,
  position-found, position-append_one, Option-cases, get_elem?-set, Ensures, Ensures->>=,
  Ensures-skip, returns, fails, checked_add-Ensures, checked_sub-Ensures, List, none, some,
  get_elem?, set, sum_map, sum_map-set, sum_map-erase_idx, sum_map-append_one, Bool-cases, inl, inr,
}
use aera_v.Obligation.{
  Obligation, ObligationLiquidity, index, find_borrow, borrow_position, upsert_borrow,
}
use aera_v.Instructions.Borrow.{add_borrow}
use aera_v.Instructions.Repay.{reduce_borrow}

-- What an entry owes to the reserve `key`, and what an obligation does, in principal.
abbrev pub entry_principal : Pubkey → ObligationLiquidity → ℕ
entry_principal key e = if e.reserve == key then e.borrowed_principal else 0

unfoldable pub principal_in : Pubkey → Obligation → ℕ
principal_in key o = sum_map (entry_principal key) o.borrows

pub index-Ensures {ℓ} :
    {A : Type ℓ} (xs : List A) (i : ℕ) → Ensures (λ x. get_elem? xs i ≡ some x) (index xs i)
unfolding index
index-Ensures xs i =
    elim (get_elem? xs i)
      as (λ m.
        Ensures (λ x. m ≡ some x) (elim m [ none ↦ err (AeraError.external 0) | some x ↦ ok x ])) [
          | none ↦ fails
          | some x ↦ returns refl
        ]

-- Taking principal off an entry, the entry with it when none is left.
pub reduce_borrow-principal :
    (o : Obligation) (key : Pubkey) (i removed : ℕ)
    → borrow_position o key ≡ some i
    → Ensures (λ o'. principal_in key o' + removed ≡ principal_in key o) (reduce_borrow o i removed)
unfolding reduce_borrow principal_in
reduce_borrow-principal o key i removed found = Ensures->>= (index-Ensures _ _) λ entry at.
    Ensures->>= (checked_sub-Ensures _ _) λ left (e, fits).
      let held : (entry.reserve == key) ≡ true = position-found _ o.borrows i entry found at in
      let entry' : ObligationLiquidity = record entry { borrowed_principal = left } in
      let kept = sum_map-set (entry_principal key) o.borrows i entry entry' at in
      let owed : entry_principal key entry ≡ entry.borrowed_principal = rw held refl in
      let owed' : entry_principal key entry' ≡ left = rw held refl in
      elim (Bool-cases (left == 0)) [
        | inl none_left ↦
            let gone =
              sum_map-erase_idx (entry_principal key) (set o.borrows i entry') i entry'
                (get_elem?-set o.borrows i entry entry' at) in
            rw none_left (returns (omega (arith, (==_iff left 0).0 none_left)))
        | inr some_left ↦ rw some_left (returns (omega arith))
      ]

abbrev fresh_entry : Pubkey → ObligationLiquidity
fresh_entry key = record { reserve = key; borrowed_principal = 0; market_value = 0 }

fresh_principal : (key : Pubkey) → entry_principal key (fresh_entry key) ≡ 0
fresh_principal key = rw ((==_iff key key).1 refl) refl

-- Adding principal to the entry of a reserve, opened when there is none.
upsert_borrow-principal :
    (o : Obligation) (key : Pubkey)
    → Ensures
        (λ (opened, i).
          (principal_in key opened ≡ principal_in key o) × (borrow_position opened key ≡ some i))
        (upsert_borrow o key)
unfolding upsert_borrow principal_in
upsert_borrow-principal o key = elim (Option-cases (borrow_position o key)) [
  | inr (i, e) ↦ rw (e, upsert_borrow) (returns (refl, e))
  | inl e ↦
      rw (e, upsert_borrow)
        (let grown = sum_map-append_one (entry_principal key) o.borrows (fresh_entry key) in
          Ensures-skip _ λ _. returns (
            omega (arith, grown, fresh_principal key),
            position-append_one _ o.borrows (fresh_entry key) e ((==_iff key key).1 refl),
          ))
]

pub add_borrow-principal :
    (o : Obligation) (key : Pubkey) (added : ℕ)
    → Ensures (λ o'. principal_in key o' ≡ principal_in key o + added) (add_borrow o key added)
unfolding add_borrow principal_in
add_borrow-principal o key added =
    Ensures->>= (upsert_borrow-principal o key) λ (opened, i) (same, found).
      Ensures->>= (index-Ensures _ _) λ entry at.
        Ensures->>= (checked_add-Ensures _ _ _) λ principal (sum, _).
          let held : (entry.reserve == key) ≡ true =
            position-found _ opened.borrows i entry found at in
          let entry' : ObligationLiquidity = record entry { borrowed_principal = principal } in
          let kept = sum_map-set (entry_principal key) opened.borrows i entry entry' at in
          let owed : entry_principal key entry ≡ entry.borrowed_principal = rw held refl in
          let owed' : entry_principal key entry' ≡ principal = rw held refl in
          returns (omega (arith, same, kept, owed, owed', sum))

pub find_borrow-Ensures :
    (o : Obligation) (key : Pubkey)
    → Ensures (λ i. borrow_position o key ≡ some i) (find_borrow o key)
unfolding find_borrow
find_borrow-Ensures o key = elim (Option-cases (borrow_position o key)) [
  | inl e ↦ rw e fails
  | inr (i, e) ↦ rw e (returns refl)
]
