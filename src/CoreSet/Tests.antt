-- ===== src/CoreSet/Tests.antt =====
-- Core sets as they are written on the command line.
use ramryder.Prelude.{◌≡◌, refl, [], ◌∷◌, pos}
use ramryder.Scan.{codes}
use ramryder.CoreSet.{core_list}

ranges_and_cores : core_list (codes "2-4,7,,x,9-8") ≡ pos 2 ∷ pos 3 ∷ pos 4 ∷ pos 7 ∷ []
unfolding core_list
ranges_and_cores = refl

-- The brackets stop the reading of the first token.
brackets_hide_a_core : core_list (codes "[0,1]") ≡ pos 1 ∷ []
unfolding core_list
brackets_hide_a_core = refl
