-- ===== src/Prelude/Stops.antt =====
-- The stop events of the services' loops.
use mathlib.Core.Bool.{Bool, true, false}
use mathlib.Core.List.{List, [], ◌∷◌}

-- What one round of a loop sees of its stop event: it is not set, it is set before the round, or it is
-- set within the round, when the round looks at it again.
pub data Stop : Type 0 where
  unset set_before set_within : Stop

abbrev pub is_unset : Stop → Bool
is_unset unset = true
is_unset stop = false

abbrev pub is_within : Stop → Bool
is_within set_within = true
is_within stop = false

abbrev pub all_unset : List Stop → Bool
all_unset [] = true
all_unset (unset ∷ l) = all_unset l
all_unset (stop ∷ l) = false
