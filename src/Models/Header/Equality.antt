-- ===== src/Models/Header/Equality.antt =====
-- src/models/header.rs: the derived `==` on headers, which compares them field by field.
use akula.Prelude.{
  ℕ, ◌≡◌, refl, Bool, true, false, ◌&&◌, Option, none, some, List, [], ◌∷◌, ◌==◌, arith,
}
use akula.Models.Header.{BlockHeader}

abbrev pub same_bytes : List ℕ → List ℕ → Bool
same_bytes [] [] = true
same_bytes [] (b ∷ l) = false
same_bytes (a ∷ k) [] = false
same_bytes (a ∷ k) (b ∷ l) = a == b && same_bytes k l

abbrev pub same_fee : Option ℕ → Option ℕ → Bool
same_fee none none = true
same_fee none (some b) = false
same_fee (some a) none = false
same_fee (some a) (some b) = a == b

unfoldable pub same : BlockHeader → BlockHeader → Bool
same g h =
    g.parent_hash == h.parent_hash
    && g.ommers_hash == h.ommers_hash
    && g.beneficiary == h.beneficiary
    && g.state_root == h.state_root
    && g.transactions_root == h.transactions_root
    && g.receipts_root == h.receipts_root
    && g.logs_bloom == h.logs_bloom
    && g.difficulty == h.difficulty
    && g.number == h.number
    && g.gas_limit == h.gas_limit
    && g.gas_used == h.gas_used
    && g.timestamp == h.timestamp
    && same_bytes g.extra_data h.extra_data
    && g.mix_hash == h.mix_hash
    && g.nonce == h.nonce
    && same_fee g.base_fee_per_gas h.base_fee_per_gas

pub same_bytes→eq : (k l : List ℕ) → same_bytes k l ≡ true → k ≡ l
same_bytes→eq [] [] e = refl
same_bytes→eq [] (b ∷ l) e = ground arith
same_bytes→eq (a ∷ k) [] e = ground arith
same_bytes→eq (a ∷ k) (b ∷ l) e = ground (arith, same_bytes→eq k l)

pub same_fee→eq : (a b : Option ℕ) → same_fee a b ≡ true → a ≡ b
same_fee→eq none none e = refl
same_fee→eq none (some b) e = ground arith
same_fee→eq (some a) none e = ground arith
same_fee→eq (some a) (some b) e = ground arith

pub same_fee_self : (a : Option ℕ) → same_fee a a ≡ true
same_fee_self none = refl
same_fee_self (some a) = ground arith

pub same→eq : (g h : BlockHeader) → same g h ≡ true → g ≡ h
unfolding same
same→eq g h e = ground (
  arith,
  same_bytes→eq g.extra_data h.extra_data,
  same_fee→eq g.base_fee_per_gas h.base_fee_per_gas,
)
