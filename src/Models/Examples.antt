-- ===== src/Models/Examples.antt =====
-- Instances of the theorems on the models, at the parameters of the Ethereum main network.
use akula.Prelude.{ℕ, ◌+◌, ◌≤◌, ◌≡◌, refl, true, false, some, [], ◌∷◌, arith}
use akula.Errors.{ok}
use akula.HashMap
use akula.BTreeMap
use akula.Models.Message.{Message, create, priority_fee_per_gas, effective_gas_price}
use akula.Models.Message.Prices.{effective_gas_price_bounds}
use akula.Models.YParity.{from_v, v, v-from_v, from_v-v}
use akula.Models.Revision.{
  Revision, frontier, homestead, tangerine, spurious, byzantium, constantinople, petersburg,
  istanbul, berlin, london, IsChronological,
}
use akula.Models.ChainSpec.{
  ChainSpec, DifficultyBomb, ethash, collect_block_spec, gather_forks, get_delay_to,
}
use akula.Models.ChainSpec.Forks.{
  collect_block_spec_lem, revision-monotone, gather_forks_lem, rules_change_at,
}
use akula.Models.ChainSpec.Bomb.{get_delay_to_lem}

v-from_v_example : v (record { odd_y_parity = false; chain_id = some 1 }) ≡ 37
unfolding from_v
v-from_v_example =
    v-from_v 37 (record { odd_y_parity = false; chain_id = some 1 }) (omega arith) refl

from_v-v_example :
    from_v (v (record { odd_y_parity = true; chain_id = some 1 }))
    ≡ some (record { odd_y_parity = true; chain_id = some 1 })
from_v-v_example = from_v-v true (some 1) (omega arith)

abbrev capped : Message
capped =
    Message.eip1559 1 2 100 []
      (record { nonce = 0; gas_limit = 53_000; action = create; value = 0; input = [] })

effective_gas_price_bounds_example :
    (tip : ℕ) × (priority_fee_per_gas capped 99 ≡ ok tip)
    × (effective_gas_price capped 99 ≡ ok (99 + tip))
    × (99 + tip ≤ 100)
    × (tip ≤ 2)
effective_gas_price_bounds_example =
    effective_gas_price_bounds capped 99 (omega arith) (omega arith)

abbrev bomb : DifficultyBomb
bomb = record {
  delays = (4_370_000, 3_000_000) ∷ (7_280_000, 5_000_000) ∷ (9_200_000, 9_000_000) ∷ [];
}

abbrev mainnet : ChainSpec
mainnet = record {
  consensus = record {
    seal_verification =
        ethash 13 ((0, 5) ∷ (4_370_000, 3) ∷ (7_280_000, 2) ∷ []) (some 1_150_000) (some 4_370_000)
          (some bomb) false;
    eip1559_block = some 12_965_000;
  };
  upgrades = record {
    homestead = some 1_150_000;
    tangerine = some 2_463_000;
    spurious = some 2_675_000;
    byzantium = some 4_370_000;
    constantinople = some 7_280_000;
    petersburg = some 7_280_000;
    istanbul = some 9_069_000;
    berlin = some 12_244_000;
    london = some 12_965_000;
  };
  params = record { chain_id = 1; network_id = 1; min_gas_limit = 5000 };
  contracts = [];
  balances = (0, HashMap.empty) ∷ (1_920_000, HashMap.empty) ∷ [];
}

abbrev rank : Revision → ℕ
rank frontier = 0
rank homestead = 1
rank tangerine = 2
rank spurious = 3
rank byzantium = 4
rank constantinople = 5
rank petersburg = 6
rank istanbul = 7
rank berlin = 8
rank london = 9

rank-IsChronological : IsChronological rank
rank-IsChronological = record {
  to_homestead = omega arith;
  to_tangerine = omega arith;
  to_spurious = omega arith;
  to_byzantium = omega arith;
  to_constantinople = omega arith;
  to_petersburg = omega arith;
  to_istanbul = omega arith;
  to_berlin = omega arith;
  to_london = omega arith;
}

get_delay_to_lem_example : get_delay_to bomb 8_000_000 ≡ 5_000_000
get_delay_to_lem_example =
    get_delay_to_lem bomb 8_000_000 7_280_000 5_000_000
      ((omega arith, (omega arith, tt)), ((omega arith, tt), (tt, tt))) refl (omega arith)
      (λ j j_in le. ground arith)

revision-monotone_example :
    rank (collect_block_spec mainnet 5_000_000).revision
    ≤ rank (collect_block_spec mainnet 8_000_000).revision
revision-monotone_example =
    revision-monotone rank mainnet 5_000_000 8_000_000 rank-IsChronological (omega arith)

-- Constantinople and Petersburg share their block: only the later one is a transition of it.
collect_block_spec_lem_example :
    ((collect_block_spec mainnet 7_280_000).revision ≡ petersburg)
    × ((collect_block_spec mainnet 7_280_000).active_transitions ≡ petersburg ∷ [])
collect_block_spec_lem_example =
    collect_block_spec_lem mainnet 7_280_000 7_280_000 petersburg
      ((some 12_965_000, london) ∷ (some 12_244_000, berlin) ∷ (some 9_069_000, istanbul) ∷ [])
      ((some 7_280_000, constantinople)
        ∷ (some 4_370_000, byzantium)
        ∷ (some 2_675_000, spurious)
        ∷ (some 2_463_000, tangerine)
        ∷ (some 1_150_000, homestead)
        ∷ [])
      refl (omega arith, (omega arith, (omega arith, tt))) (omega arith)

gather_forks_lem_example :
    BTreeMap.IsAscending (gather_forks mainnet)
    × (BTreeMap.mem 1_920_000 (gather_forks mainnet) ≡ rules_change_at mainnet 1_920_000)
gather_forks_lem_example = gather_forks_lem mainnet 1_920_000
