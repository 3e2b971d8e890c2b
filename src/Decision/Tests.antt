-- ===== src/Decision/Tests.antt =====
-- Two decisions that are set up and counted.
use guard_dns.Prelude.{◌+◌, ◌≡◌, refl, [], ◌∷◌, List}
use guard_dns.Prelude.Text.{codes, trim_space, is_space}
use guard_dns.Prelude.Counters.{value_of}
use guard_dns.Decision.Counting.{Plugin, Turn, sets_up, runs, turns, runs_of, turns-counts}

abbrev empty : Plugin
empty = record { vector = []; executables = [] }

abbrev script : List Turn
script = sets_up (codes " direct ") ∷ sets_up (codes "proxy") ∷ runs 1 ∷ runs 0 ∷ runs 1 ∷ []

two_runs : runs_of (codes "direct") script [] ≡ 2
unfolding trim_space is_space
two_runs = refl

turns-counts_example :
    value_of (codes "direct" ∷ []) (turns script empty).vector
    ≡ runs_of (codes "direct") script [] + value_of (codes "direct" ∷ []) []
turns-counts_example = turns-counts script empty (codes "direct")
