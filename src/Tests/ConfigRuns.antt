-- ===== src/Tests/ConfigRuns.antt =====
-- A server list of two lines.
use basket.Prelude.{◌≡◌, refl, arith, [], ◌∷◌, some, codes}
use basket.Config.Defs.{load_servers}
use basket.Config.Servers.{single, several, load_servers-print}

load_servers-print_example :
    load_servers (codes "n1:2" ∷ codes "n2" ∷ []) ≡ some (codes "n1" ∷ codes "n1" ∷ codes "n2" ∷ [])
load_servers-print_example =
    load_servers-print (several (codes "n1") (2 ∷ []) ∷ single (codes "n2") ∷ []) (
      (((refl, refl), ((refl, refl), tt)), omega arith, (omega arith, tt), omega arith),
      ((((refl, refl), ((refl, refl), tt)), omega arith), tt),
    )
