-- ===== src/Geometry/Tests.antt =====
-- The Manhattan distance on concrete cells.
use multi_robot_fulfillment.Common.{◌+◌, ◌≤◌, ◌≡◌, refl}
use multi_robot_fulfillment.Common.Int.{pos}
use multi_robot_fulfillment.Geometry.{Position, manhattan_distance, is_adjacent_to}
use multi_robot_fulfillment.Geometry.Laws.{manhattan_distance_consistent}

abbrev corner : Position
corner = record { row = pos 0; col = pos 0 }

abbrev beside : Position
beside = record { row = pos 0; col = pos 1 }

abbrev far : Position
far = record { row = pos 2; col = pos 3 }

far_distance : manhattan_distance corner far ≡ 5
unfolding manhattan_distance
far_distance = refl

manhattan_distance_consistent_example :
    manhattan_distance corner far ≤ 1 + manhattan_distance beside far
unfolding is_adjacent_to
manhattan_distance_consistent_example = manhattan_distance_consistent corner beside far refl
