-- ===== src/Tests/Routes.antt =====
-- server/src/route.c at a table of two routes.
use codo.Prelude.{ℕ, false, List, [], ◌∷◌}
use codo.Server.Routes.{Method, Route, find_route}
use codo.Server.Routes.Found.{Chooses, find_route-Chooses}

-- "/t*" and "/t", with the handlers 1 and 2.
abbrev table : List (Route ℕ)
table =
    record { pattern = 47 ∷ 116 ∷ 42 ∷ []; method = Method.get; handler = 1; offload = false }
    ∷ record { pattern = 47 ∷ 116 ∷ []; method = Method.get; handler = 2; offload = false }
    ∷ []

find_route-Chooses_example :
    Chooses (47 ∷ 116 ∷ []) Method.get table (find_route table (47 ∷ 116 ∷ []) Method.get)
find_route-Chooses_example = find_route-Chooses (47 ∷ 116 ∷ []) Method.get table
