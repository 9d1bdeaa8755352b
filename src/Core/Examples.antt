-- ===== src/Core/Examples.antt =====
-- The theorem on ownership at two descriptors.
use libsimplenet.Base.{pos, ◌≡◌, [], ◌∷◌, ◌++◌}
use libsimplenet.Core.UniqueFd.{UniqueFd, destroy, move_assign}
use libsimplenet.Core.UniqueFd.Ownership.{move_assign_lem}

abbrev three : UniqueFd
three = record { fd = pos 3 }

abbrev four : UniqueFd
four = record { fd = pos 4 }

move_assign_lem_example :
    (move_assign three four).0.closed
      ++ (destroy (move_assign three four).0.owner ++ destroy (move_assign three four).1)
    ≡ pos 3 ∷ pos 4 ∷ []
move_assign_lem_example = move_assign_lem three four (λ _ e. cc)
