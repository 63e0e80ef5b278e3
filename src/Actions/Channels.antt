-- ===== src/Actions/Channels.antt =====
-- That a queue's destination, as the server writes it in a frame, is read as the queue.
use resilient_python_api.Prelude.{
  String, Bool, true, false, none, some, if◌then◌else◌, ◌≡◌, refl, ap, ◌∙◌, arith, eqb, ◌||◌,
}
use Prim.Native.Char.{Char, code}
use Prim.Native.String.{[] as empty, ◌∷◌ as ◌◂◌, ◌++◌ as ◌⧺◌}
use Prim.Native.String.append.{nil, cons}
use text.Mathlib.TextLemmas.{append_assoc}
use resilient_python_api.Actions.Destinations.{
  split_first, after_last, without_path, split_queue, get_queue, slash, dot, action_destination,
}

unfoldable pub has_char : Char → String → Bool
has_char c empty = false
has_char c (◌◂◌ d s) = let rest = has_char c s in if eqb (code d) (code c) then true else rest

split_first-append :
    (c : Char) (a s : String) → has_char c a ≡ false → split_first c (a ⧺ (◌◂◌ c s)) ≡ some (a, s)
unfolding split_first has_char
split_first-append c empty s h = rw (nil (◌◂◌ c s)) (ground (arith))
split_first-append c (◌◂◌ d a) s h =
    rw (cons d a (◌◂◌ c s)) (ground (arith, h, split_first-append c a s))

after_last-none : (c : Char) (s : String) → has_char c s ≡ false → after_last c s ≡ none
unfolding after_last has_char
after_last-none c empty h = refl
after_last-none c (◌◂◌ d s) h = ground (arith, h, after_last-none c s)

after_last-append :
    (c : Char) (a s : String) → has_char c s ≡ false → after_last c (a ⧺ (◌◂◌ c s)) ≡ some s
unfolding after_last
after_last-append c empty s h = rw (nil (◌◂◌ c s)) (ground (arith, after_last-none c s h))
after_last-append c (◌◂◌ d a) s h =
    rw (cons d a (◌◂◌ c s)) (ground (arith, after_last-append c a s h))

has_char-append : (c : Char) (a s : String) → has_char c (a ⧺ s) ≡ (has_char c a || has_char c s)
unfolding has_char
has_char-append c empty s = rw (nil s) refl
has_char-append c (◌◂◌ d a) s = rw (cons d a s) (ground (arith, has_char-append c a s))

-- The part of the frame's destination before the queue.
abbrev pub on_server : String → String
on_server destination = "/queue/" ⧺ destination

-- A character after the first text is one before the second.
append-char : (a : String) (c : Char) (s : String) → (a ⧺ (◌◂◌ c empty)) ⧺ s ≡ a ⧺ (◌◂◌ c s)
append-char a c s =
    append_assoc a (◌◂◌ c empty) s ∙ ap (λ t. a ⧺ t) (cons c empty s ∙ ap (◌◂◌ c) (nil s))

abbrev q : Char
q = "q"

without_path-slash :
    (c : Char) (r s : String) → after_last slash r ≡ some s → without_path (◌◂◌ slash (◌◂◌ c r)) ≡ s
unfolding without_path split_first
without_path-slash c r s e = rw (e, without_path) (nil s)

without_path-on_server : (s : String) → has_char slash s ≡ false → without_path (on_server s) ≡ s
unfolding without_path
without_path-on_server s h =
    let e : on_server s ≡ ◌◂◌ slash (◌◂◌ q ("ueue" ⧺ (◌◂◌ slash s))) =
      cons slash "queue/" s
      ∙ ap (◌◂◌ slash) (cons q "ueue/" s ∙ ap (◌◂◌ q) (append-char "ueue" slash s)) in
    let last = after_last-append slash "ueue" s h in
    ap without_path e ∙ without_path-slash q ("ueue" ⧺ (◌◂◌ slash s)) s last

split_queue-action_destination :
    (org_id queue_name : String)
    → has_char dot org_id ≡ false
    → split_queue (action_destination org_id queue_name) ≡ some ("actions", org_id, queue_name)
unfolding split_queue has_char
split_queue-action_destination org_id queue_name h =
    let rest = org_id ⧺ (◌◂◌ dot queue_name) in
    let e : action_destination org_id queue_name ≡ "actions" ⧺ (◌◂◌ dot rest) =
      append-char "actions" dot (org_id ⧺ ("." ⧺ queue_name))
      ∙ ap (λ t. "actions" ⧺ (◌◂◌ dot (org_id ⧺ t)))
          (cons dot empty queue_name ∙ ap (◌◂◌ dot) (nil queue_name)) in
    let first = split_first-append dot "actions" rest refl in
    let second = split_first-append dot org_id queue_name h in
    ap split_queue e ∙ rw (first, split_queue, second) refl

has_char-action_destination :
    (org_id queue_name : String)
    → has_char slash org_id ≡ false
    → has_char slash queue_name ≡ false
    → has_char slash (action_destination org_id queue_name) ≡ false
unfolding has_char
has_char-action_destination org_id queue_name h h' = ground (
  arith,
  h,
  h',
  has_char-append slash "actions." (org_id ⧺ ("." ⧺ queue_name)),
  has_char-append slash org_id ("." ⧺ queue_name),
  has_char-append slash "." queue_name,
)

-- A message that the server sends to the destination that `_subscribe` asks for is from the queue with
-- that name, where the organization's id has no "." and no "/" and the queue's name no "/".
pub get_queue-action_destination :
    (org_id queue_name : String)
    → has_char dot org_id ≡ false
    → has_char slash org_id ≡ false
    → has_char slash queue_name ≡ false
    → get_queue (on_server (action_destination org_id queue_name))
      ≡ some ("actions", org_id, queue_name)
unfolding get_queue
get_queue-action_destination org_id queue_name d h h' =
    ap split_queue (
      without_path-on_server (action_destination org_id queue_name)
        (has_char-action_destination org_id queue_name h h'))
    ∙ split_queue-action_destination org_id queue_name d
