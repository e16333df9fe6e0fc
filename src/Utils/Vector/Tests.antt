-- ===== src/Utils/Vector/Tests.antt =====
-- A vector of three pointers, and the theorems at it.
use piggy_os.Common.{◌+◌, ◌≡◌, ◌≢◌, ◌⊎◌, refl, true, false, none, some, arith, update}
use piggy_os.Utils.Vector.{Vector, vector_create, vector_get, vector_set, vector_remove_by_value}
use piggy_os.Utils.Vector.Laws.{Shifted, vector_remove_by_value_lem}

-- The pointers 70, 71 and 72
abbrev three : Vector
three = record { elem_size = 8; size = 3; capacity = 4; slots = λ i. 70 + i }

vector_remove_by_value_lem_example :
    (three.slots 0 ≡ 71)
      × ((vector_remove_by_value 0 three 71).0 ≡ true)
      × Shifted three (vector_remove_by_value 0 three 71).1
    ⊎ (three.slots 0 ≢ 71) × (vector_remove_by_value 0 three 71 ≡ (false, three))
vector_remove_by_value_lem_example =
    vector_remove_by_value_lem 0 three 71 refl (omega arith) (omega arith)
      (λ j one inside. omega arith)

-- The second element is looked for eight slots behind the first.
get_second : vector_get three 1 ≡ some 8
unfolding vector_get
get_second = refl

set_second : (vector_set three 1 90).1.slots 1 ≡ 71
unfolding vector_set update
set_second = refl

create_nothing : vector_create 8 true none ≡ none
unfolding vector_create
create_nothing = refl
