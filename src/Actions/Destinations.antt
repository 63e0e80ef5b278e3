-- ===== src/Actions/Destinations.antt =====
-- `get_queue` of resilient-circuits/resilient_circuits/helpers.py, and the destinations and channels
-- that stand for a queue.
use resilient_python_api.Prelude.{String, Option, none, some, if◌then◌else◌, eqb, ◌≡◌, refl}
use Prim.Native.Char.{Char, code}
use Prim.Native.String.{[], ◌∷◌, ◌++◌ as ◌⧺◌}

-- The text before the first of a character and the text after it.
unfoldable pub split_first : (c : Char) → String → Option (String × String)
split_first c [] = none
split_first c (d ∷ s) =
    let later = split_first c s in
    if eqb (code d) (code c)
    then some ([], s)
    else elim later [ none ↦ none | some (before, after) ↦ some (d ∷ before, after) ]

-- The text after the last of a character.
unfoldable pub after_last : (c : Char) → String → Option String
after_last c [] = none
after_last c (d ∷ s) =
    let later = after_last c s in
    elim later [ some after ↦ some after | none ↦ if eqb (code d) (code c) then some s else none ]

abbrev pub slash : Char
slash = "/"

abbrev pub dot : Char
dot = "."

-- What `\/.+\/` leaves after its match, if the text after a slash lets it match.
abbrev pub after_path : String → Option String
after_path [] = none
after_path (c ∷ s) = after_last slash s

-- re.sub(r'\/.+\/', "", destination_str, count=1), on a text without line ends
unfoldable pub without_path : String → String
unfolding split_first after_last
without_path s = elim (split_first slash s) [
  | none ↦ s
  | some (before, after) ↦ elim (after_path after) [ none ↦ s | some rest ↦ before ⧺ rest ]
]

-- (queue_type, org_id, queue_name)
abbrev pub Queue : Type 0
Queue = String × String × String

-- tuple(destination_str.split(".", 2)), where it has three parts
unfoldable pub split_queue : String → Option Queue
unfolding split_first
split_queue s = elim (split_first dot s) [
  | none ↦ none
  | some (queue_type, rest) ↦ elim (split_first dot rest) [
    | none ↦ none
    | some (org_id, queue_name) ↦ some (queue_type, org_id, queue_name)
  ]
]

unfoldable pub get_queue : String → Option Queue
unfolding without_path split_queue
get_queue destination = split_queue (without_path destination)

abbrev pub inbound_msg_dest_prefix : String
inbound_msg_dest_prefix = "inbound_destinations"

-- "actions.{0}.{1}".format(org_id, queue_name)
abbrev pub action_destination : String → String → String
action_destination org_id queue_name = "actions." ⧺ (org_id ⧺ ("." ⧺ queue_name))

get_queue_runs :
    get_queue "/queue/actions.201.fn_main.mock" ≡ some ("actions", "201", "fn_main.mock")
unfolding get_queue
get_queue_runs = refl
