-- ===== src/Safety/Seizure.antt =====
-- What a liquidation, instructions/liquidate.rs, moves: collateral shares off the obligation, and
-- tokens between the accounts.
use aera_v.Common.{
  ℕ, ◌+◌, ◌≡◌, ◌≢◌, refl, true, ltb, ◌==◌, ==_iff, arith, if◌then◌else◌, Pubkey, Clock,
  position-found, get_elem?-set, Ensures, Ensures->>=, Ensures-skip, returns, fails,
  checked_sub-Ensures, Option-cases, some, set, sum_map, sum_map-set, sum_map-erase_idx, sym,
  Bool-cases, inl, inr, ap,
}
use aera_v.Obligation.{Obligation, ObligationCollateral, find_collateral, collateral_position}
use aera_v.Tokens.{TokenProgram, TokenLaws, Moves}
use aera_v.Pool.Vault.{transfer-Ensures}
use aera_v.Instructions.RiskAccount.{Program}
use aera_v.Instructions.Repay.{reduce_borrow}
use aera_v.Instructions.Collateral.{reduce_collateral}
use aera_v.Instructions.Liquidate.{
  Liquidate, Seizure, apply_liquidation, liquidate_effects, pay_protocol, handle_liquidate,
}
use aera_v.Safety.Principal.{index-Ensures}

-- The shares of the reserve `key` that an entry holds, and that an obligation does.
abbrev entry_shares : Pubkey → ObligationCollateral → ℕ
entry_shares key e = if e.reserve == key then e.deposited_shares else 0

unfoldable pub shares_in : Pubkey → Obligation → ℕ
shares_in key o = sum_map (entry_shares key) o.deposits

find_collateral-Ensures :
    (o : Obligation) (key : Pubkey)
    → Ensures (λ i. collateral_position o key ≡ some i) (find_collateral o key)
unfolding find_collateral
find_collateral-Ensures o key = elim (Option-cases (collateral_position o key)) [
  | inl e ↦ rw e fails
  | inr (i, e) ↦ rw e (returns refl)
]

-- Taking shares off an entry, the entry with it when none is left.
reduce_collateral-shares :
    (o : Obligation) (key : Pubkey) (i removed : ℕ)
    → collateral_position o key ≡ some i
    → Ensures (λ o'. shares_in key o' + removed ≡ shares_in key o) (reduce_collateral o i removed)
unfolding reduce_collateral shares_in
reduce_collateral-shares o key i removed found = Ensures->>= (index-Ensures _ _) λ entry at.
    Ensures->>= (checked_sub-Ensures _ _) λ left (e, fits).
      let held : (entry.reserve == key) ≡ true = position-found _ o.deposits i entry found at in
      let entry' : ObligationCollateral = record entry { deposited_shares = left } in
      let kept = sum_map-set (entry_shares key) o.deposits i entry entry' at in
      let owed : entry_shares key entry ≡ entry.deposited_shares = rw held refl in
      let owed' : entry_shares key entry' ≡ left = rw held refl in
      elim (Bool-cases (left == 0)) [
        | inl none_left ↦
            let gone =
              sum_map-erase_idx (entry_shares key) (set o.deposits i entry') i entry'
                (get_elem?-set o.deposits i entry entry' at) in
            rw none_left (returns (omega (arith, (==_iff left 0).0 none_left)))
        | inr some_left ↦ rw some_left (returns (omega arith))
      ]

reduce_borrow-deposits :
    (o : Obligation) (i removed : ℕ)
    → Ensures (λ o'. o'.deposits ≡ o.deposits) (reduce_borrow o i removed)
unfolding reduce_borrow
reduce_borrow-deposits o i removed = Ensures-skip _ λ entry. Ensures-skip _ λ left. returns refl

-- The collateral that leaves the obligation.
LosesShares : Liquidate → ℕ → Liquidate → Type 0
LosesShares c seized c' =
    shares_in c.collateral_reserve_key c'.obligation + seized
    ≡ shares_in c.collateral_reserve_key c.obligation

apply_liquidation-LosesShares :
    (c : Liquidate) (s : Seizure) → Ensures (LosesShares c s.seized_shares) (apply_liquidation c s)
unfolding apply_liquidation shares_in LosesShares
apply_liquidation-LosesShares c s = Ensures-skip _ λ i.
    Ensures->>= (find_collateral-Ensures _ _) λ j found. Ensures-skip _ λ entry.
      Ensures-skip _ λ scaled. Ensures-skip _ λ principal. Ensures-skip _ λ available.
        Ensures->>= (reduce_borrow-deposits c.obligation i _) λ lighter same.
          let key = c.collateral_reserve_key in
          let kept = ap (sum_map (entry_shares key)) same in
          let still : collateral_position lighter key ≡ some j = rw same found in
          Ensures->>= (reduce_collateral-shares lighter key j s.seized_shares still)
            λ o' less. returns (omega (arith, less, kept))

liquidate_effects-LosesShares :
    (program : Program) (clock : Clock) (c : Liquidate) (amount : ℕ)
    → Ensures
        (λ (c', s). LosesShares c s.seized_shares c')
        (liquidate_effects program clock c amount)
unfolding liquidate_effects
liquidate_effects-LosesShares program clock c amount =
    Ensures-skip _ λ s. Ensures->>= (apply_liquidation-LosesShares c s) λ c' less. returns less

-- The five token accounts of a liquidation are different ones.
pub record AreSeparate (c : Liquidate) : Type 0 where
  pub source_vault : c.liquidator_repay_source ≢ c.repay_liquidity_vault
  pub shares_liquidator : c.obligation_collateral_vault ≢ c.liquidator_collateral_dest
  pub shares_protocol : c.obligation_collateral_vault ≢ c.protocol_collateral_dest.key
  pub shares_source : c.obligation_collateral_vault ≢ c.liquidator_repay_source
  pub shares_vault : c.obligation_collateral_vault ≢ c.repay_liquidity_vault
  pub liquidator_source : c.liquidator_collateral_dest ≢ c.liquidator_repay_source
  pub liquidator_vault : c.liquidator_collateral_dest ≢ c.repay_liquidity_vault
  pub liquidator_protocol : c.liquidator_collateral_dest ≢ c.protocol_collateral_dest.key
  pub protocol_source : c.protocol_collateral_dest.key ≢ c.liquidator_repay_source
  pub protocol_vault : c.protocol_collateral_dest.key ≢ c.repay_liquidity_vault

-- A liquidation as the accounts show it: the repaid amount in the vault, the seized shares off the
-- obligation and out of its vault, and the two parts where they belong.
pub record IsSettled {L : Type 0} (tokens : TokenProgram L) (c : Liquidate) (s : Seizure)
    (c' : Liquidate) (l l' : L) : Type 0 where
  pub loses :
      shares_in c.collateral_reserve_key c'.obligation + s.seized_shares
      ≡ shares_in c.collateral_reserve_key c.obligation
  pub received :
      tokens.balance l' c.repay_liquidity_vault
      ≡ tokens.balance l c.repay_liquidity_vault + s.repaid
  pub seized :
      tokens.balance l c.obligation_collateral_vault
      ≡ tokens.balance l' c.obligation_collateral_vault + (s.liquidator_shares + s.protocol_shares)
  pub to_liquidator :
      tokens.balance l' c.liquidator_collateral_dest
      ≡ tokens.balance l c.liquidator_collateral_dest + s.liquidator_shares
  pub to_protocol :
      tokens.balance l' c.protocol_collateral_dest.key
      ≡ tokens.balance l c.protocol_collateral_dest.key + s.protocol_shares

module _ {L : Type 0} (tokens : TokenProgram L) (laws : TokenLaws tokens) where
  pay_protocol-Moves :
      (c : Liquidate) (shares : ℕ) (l : L)
      → c.obligation_collateral_vault ≢ c.protocol_collateral_dest.key
      → Ensures
          (Moves tokens c.obligation_collateral_vault c.protocol_collateral_dest.key shares l)
          (pay_protocol tokens c shares l)
  unfolding pay_protocol
  pay_protocol-Moves c shares l apart = elim (Bool-cases (ltb 0 shares)) [
    | inl e ↦ rw e (
        Ensures-skip _ λ _. Ensures-skip _ λ token.
          Ensures-skip _ λ _. Ensures-skip _ λ _. transfer-Ensures tokens laws _ _ _ _ _ _ l apart)
    | inr e ↦
        let none : shares ≡ 0 = ground arith in
        rw e (
          returns (record {
            debited = omega (arith, none);
            credited = omega (arith, none);
            others = λ k a b. refl;
          }))
  ]

  pub handle_liquidate-IsSettled :
      (program : Program) (clock : Clock) (c : Liquidate) (amount : ℕ) (l : L)
      → AreSeparate c
      → Ensures
          (λ (c', s, l'). IsSettled tokens c s c' l l')
          (handle_liquidate tokens program clock c amount l)
  unfolding handle_liquidate LosesShares
  handle_liquidate-IsSettled program clock c amount l a = Ensures-skip _ λ _.
      Ensures->>= (liquidate_effects-LosesShares program clock c amount) λ (c', s) less.
        Ensures->>= (transfer-Ensures tokens laws _ _ _ _ _ _ l a.source_vault) λ repaid m.
          Ensures->>= (transfer-Ensures tokens laws _ _ _ _ _ _ repaid a.shares_liquidator)
            λ parted n.
              Ensures->>= (pay_protocol-Moves c s.protocol_shares parted a.shares_protocol) λ l' p.
                let vault₁ =
                  n.others c.repay_liquidity_vault (λ e. a.shares_vault (sym e))
                    (λ e. a.liquidator_vault (sym e)) in
                let vault₂ =
                  p.others c.repay_liquidity_vault (λ e. a.shares_vault (sym e))
                    (λ e. a.protocol_vault (sym e)) in
                let shares = m.others _ a.shares_source a.shares_vault in
                let mine = m.others _ a.liquidator_source a.liquidator_vault in
                let mine' = p.others _ (λ e. a.shares_liquidator (sym e)) a.liquidator_protocol in
                let its = m.others _ a.protocol_source a.protocol_vault in
                let its' =
                  n.others c.protocol_collateral_dest.key (λ e. a.shares_protocol (sym e))
                    (λ e. a.liquidator_protocol (sym e)) in
                returns (record {
                  loses = less;
                  received = omega (arith, m.credited, vault₁, vault₂);
                  seized = omega (arith, shares, n.debited, p.debited);
                  to_liquidator = omega (arith, mine, n.credited, mine');
                  to_protocol = omega (arith, its, its', p.credited);
                })
