-- ===== src/Models/Revision.antt =====
-- `evmodin::Revision`: the names of it that the program uses. Its order, which `>=` compares by, is that
-- of a parameter `rank`.
use akula.Prelude.{ℕ, ◌≤◌, Bool, true, false, leb}

pub data Revision : Type 0 where
  frontier homestead tangerine spurious byzantium constantinople petersburg istanbul berlin london :
      Revision

abbrev pub Rank : Type 0
Rank = Revision → ℕ

-- `rev >= other`
abbrev pub at_least : Rank → Revision → Revision → Bool
at_least rank rev other = leb (rank other) (rank rev)

-- The revisions are ordered as the network adopted them.
pub record IsChronological (rank : Rank) : Type 0 where
  pub to_homestead : rank frontier ≤ rank homestead
  pub to_tangerine : rank homestead ≤ rank tangerine
  pub to_spurious : rank tangerine ≤ rank spurious
  pub to_byzantium : rank spurious ≤ rank byzantium
  pub to_constantinople : rank byzantium ≤ rank constantinople
  pub to_petersburg : rank constantinople ≤ rank petersburg
  pub to_istanbul : rank petersburg ≤ rank istanbul
  pub to_berlin : rank istanbul ≤ rank berlin
  pub to_london : rank berlin ≤ rank london

-- `rev == Revision::Frontier`
abbrev pub is_frontier : Revision → Bool
is_frontier frontier = true
is_frontier _ = false

-- `rev == Revision::Constantinople`
abbrev pub is_constantinople : Revision → Bool
is_constantinople constantinople = true
is_constantinople _ = false
