-- ===== src/Tests/Queues.antt =====
-- The task queue and the JSON helpers of common/src.
use codo.Prelude.{
  ℕ, ◌≡◌, ◌≢◌, refl, false, Option, none, some, List, [], ◌∷◌, ◌++◌, arith, set, ◌==◌, inl, inr,
  if◌then◌else◌,
}
use codo.Prelude.Int.{pos}
use codo.Common.Queue.{Task, Chain, TaskQueue, empty_chain, task_queue_push, task_queue_pop}
use codo.Common.Queue.Laws.{
  count, IsQueue, Highest, task_queue_push-Appends, task_queue_pop-Highest,
}
use codo.Common.Json.{json_escape, json_get_string, escape_from, escaped, hex_digit}
use codo.Common.Json.Bodies.{Plain, Before, IsBefore, body_before}
use codo.Common.Json.Strings.{json_get_string-json_escape}
use codo.Storage.Memory.{done}

-- A task at the address that its work is numbered by.
abbrev task : ℕ → ℕ → Task ℕ
task work priority = record { address = work; work = work; priority = pos priority }

abbrev after_two : ℕ → Option (Task ℕ)
after_two a = if a == 2 then some (task 3 1) else none

abbrev chain : Task ℕ → Task ℕ → (ℕ → Option (Task ℕ)) → Chain ℕ
chain first last next = record { first = some first; last = some last; next = next }

abbrev waiting : TaskQueue ℕ
waiting = record {
  queues =
      chain (task 1 0) (task 1 0) (λ a. none)
      ∷ chain (task 2 1) (task 3 1) after_two
      ∷ empty_chain
      ∷ [];
  size = 3;
  total_tasks = 9;
  shutdown = false;
}

abbrev waiting_tasks : List (List (Task ℕ))
waiting_tasks = (task 1 0 ∷ []) ∷ (task 2 1 ∷ task 3 1 ∷ []) ∷ [] ∷ []

waiting-IsQueue : IsQueue waiting waiting_tasks
unfolding count
waiting-IsQueue = (
  (
    (refl, (refl, ((refl, tt), (tt, tt)))),
    (
      (refl, (refl, ((refl, (refl, tt)), ((ground arith, tt), (tt, tt))))),
      ((refl, (refl, (tt, tt))), tt),
    ),
  ),
  refl,
)

task_queue_push-Appends_example :
    (r : TaskQueue ℕ) × (task_queue_push waiting (task 4 1) ≡ done (some r))
    × IsQueue r (set waiting_tasks 1 (task 2 1 ∷ task 3 1 ∷ task 4 1 ∷ []))
task_queue_push-Appends_example =
    task_queue_push-Appends waiting waiting_tasks (task 4 1) 1 (task 2 1 ∷ task 3 1 ∷ [])
      waiting-IsQueue refl refl (ground arith, (ground arith, tt))

three_wait : waiting.size ≢ 0
three_wait h = ground arith

task_queue_pop-Highest_example :
    (t : Task ℕ) × (r : TaskQueue ℕ) × (task_queue_pop waiting ≡ some (some t, r))
    × Highest waiting_tasks t r
task_queue_pop-Highest_example =
    task_queue_pop-Highest waiting waiting_tasks waiting-IsQueue three_wait

-- "title", and a value with a quote, a newline and a control character.
abbrev title : List ℕ
title = 116 ∷ 105 ∷ 116 ∷ 108 ∷ 101 ∷ []

abbrev shopping : List ℕ
shopping = 97 ∷ 34 ∷ 10 ∷ 1 ∷ []

abbrev shopping_escaped : List ℕ
shopping_escaped = 97 ∷ 92 ∷ 34 ∷ 92 ∷ 110 ∷ 92 ∷ 117 ∷ 48 ∷ 48 ∷ 48 ∷ 49 ∷ []

shopping-escape : json_escape 64 shopping ≡ some shopping_escaped
unfolding json_escape escape_from escaped hex_digit
shopping-escape = refl

title-Plain : Plain title
title-Plain = ground arith

-- { "n":"title" , "title" : "...
abbrev before_title : Before
before_title = record {
  opening = b'{' ∷ 32 ∷ [];
  strings =
      record { text = b'n' ∷ []; blanks = []; mark = b':'; gap = [] }
      ∷ record { text = title; blanks = 32 ∷ []; mark = b','; gap = 32 ∷ [] }
      ∷ [];
  behind_name = 32 ∷ [];
  behind_colon = 32 ∷ [];
}

n-title : b'n' ∷ [] ≢ title
n-title h = ground arith

before_title-IsBefore : IsBefore title before_title
before_title-IsBefore = (
  (
    (ground arith, (ground arith, tt)),
    (
      ((ground arith, (tt, tt)), ((ground arith, ground arith), inl n-title)),
      (
        (
          (title-Plain, ((inl refl, tt), (ground arith, tt))),
          ((ground arith, ground arith), inr (ground arith)),
        ),
        tt,
      ),
    ),
  ),
  ((inl refl, tt), (inl refl, tt)),
)

json_get_string-json_escape_example :
    json_get_string (body_before before_title title (shopping_escaped ++ (34 ∷ 125 ∷ []))) title 64
    ≡ some (97 ∷ 34 ∷ 10 ∷ 63 ∷ [])
json_get_string-json_escape_example =
    json_get_string-json_escape before_title title shopping shopping_escaped (125 ∷ []) 64 64
      title-Plain before_title-IsBefore shopping-escape (omega arith)
