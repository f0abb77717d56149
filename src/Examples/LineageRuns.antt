-- ===== src/Examples/LineageRuns.antt =====
-- Lineages of a host and a peer: crates/supra_types/src/lineage.rs.
use supra_harness.Prelude.{◌≡◌, ◌↔◌, refl, true, false, [], ◌∷◌, ok}
use supra_harness.Lineage.{
  Lineage, child, would_self_spawn, contains, position, try_from, descend, root, is_flat,
  try_from_exact,
}

abbrev peer_lineage : Lineage
peer_lineage = record { chain = 7 ∷ 8 ∷ [] }

peer_stored : try_from (7 ∷ 8 ∷ []) ≡ ok peer_lineage
unfolding try_from descend root child position
peer_stored = refl

try_from_exact_example :
    (try_from (7 ∷ 8 ∷ []) ≡ ok peer_lineage)
    ↔ ((peer_lineage.chain ≡ 7 ∷ 8 ∷ []) × (is_flat (7 ∷ 8 ∷ []) ≡ true))
try_from_exact_example = try_from_exact (7 ∷ 8 ∷ []) peer_lineage

new_peer : would_self_spawn peer_lineage 9 ≡ false
unfolding would_self_spawn contains
new_peer = refl
