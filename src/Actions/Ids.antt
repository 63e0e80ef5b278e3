-- ===== src/Actions/Ids.antt =====
-- The dictionaries of Actions, whose keys are message ids: the text of the header, or None.
use resilient_python_api.Prelude.{
  String, Bool, true, false, Option, none, some, if◌then◌else◌, List, [], ◌∷◌, ◌≡◌, refl, ◌↔◌,
  arith, eq_iff, ◌==◌,
}

abbrev pub MessageId : Type 0
MessageId = Option String

abbrev pub same_id : MessageId → MessageId → Bool
same_id none none = true
same_id (some a) (some b) = a == b
same_id _ _ = false

pub same_id_iff : (a b : MessageId) → (same_id a b ≡ true) ↔ (a ≡ b)
same_id_iff none none = ground arith
same_id_iff none (some b) = ground arith
same_id_iff (some a) none = ground arith
same_id_iff (some a) (some b) = ground (arith, eq_iff a b)

abbrev pub MsgDict : Type 0 → Type 0
MsgDict V = List (MessageId × V)

module _ {V : Type 0} where
  -- d.get(id)
  unfoldable pub find_id : MessageId → MsgDict V → Option V
  find_id id [] = none
  find_id id ((other, v) ∷ d) = if same_id other id then some v else find_id id d

  -- id in d
  unfoldable pub has_id : MessageId → MsgDict V → Bool
  has_id id [] = false
  has_id id ((other, v) ∷ d) = if same_id other id then true else has_id id d

  -- d[id] = v
  unfoldable pub put_id : MessageId → V → MsgDict V → MsgDict V
  put_id id v [] = (id, v) ∷ []
  put_id id v ((other, w) ∷ d) =
      if same_id other id then (other, v) ∷ d else (other, w) ∷ put_id id v d

  -- d.pop(id, None)
  unfoldable pub drop_id : MessageId → MsgDict V → MsgDict V
  drop_id id [] = []
  drop_id id ((other, w) ∷ d) =
      let rest = drop_id id d in if same_id other id then rest else (other, w) ∷ rest

  pub find_id-put_id :
      (a b : MessageId) (v : V) (d : MsgDict V)
      → find_id b (put_id a v d) ≡ (if same_id a b then some v else find_id b d)
  unfolding find_id put_id
  find_id-put_id a b v [] = refl
  find_id-put_id a b v ((c, w) ∷ d) =
      ground (arith, find_id-put_id a b v d, same_id_iff c a, same_id_iff c b, same_id_iff a b)

  pub find_id-drop_id :
      (a b : MessageId) (d : MsgDict V)
      → find_id b (drop_id a d) ≡ (if same_id a b then none else find_id b d)
  unfolding find_id drop_id
  find_id-drop_id a b [] = ground arith
  find_id-drop_id a b ((c, w) ∷ d) =
      ground (arith, find_id-drop_id a b d, same_id_iff c a, same_id_iff c b, same_id_iff a b)

  pub has_id-find_id :
      (a : MessageId) (d : MsgDict V)
      → has_id a d ≡ elim (find_id a d) [ none ↦ false | some _ ↦ true ]
  unfolding find_id has_id
  has_id-find_id a [] = refl
  has_id-find_id a ((c, w) ∷ d) = ground (arith, has_id-find_id a d)

  pub has_id-put_id :
      (a b : MessageId) (v : V) (d : MsgDict V)
      → has_id b (put_id a v d) ≡ (if same_id a b then true else has_id b d)
  has_id-put_id a b v d =
      ground (arith, find_id-put_id a b v d, has_id-find_id b (put_id a v d), has_id-find_id b d)

  pub has_id-drop_id :
      (a b : MessageId) (d : MsgDict V)
      → has_id b (drop_id a d) ≡ (if same_id a b then false else has_id b d)
  has_id-drop_id a b d =
      ground (arith, find_id-drop_id a b d, has_id-find_id b (drop_id a d), has_id-find_id b d)

  -- No id twice.
  abbrev pub UniqueIds : MsgDict V → Type 0
  UniqueIds [] = Unit {0}
  UniqueIds ((id, v) ∷ d) = (find_id id d ≡ none) × UniqueIds d

  pub put_id-UniqueIds :
      (a : MessageId) (v : V) (d : MsgDict V) → UniqueIds d → UniqueIds (put_id a v d)
  unfolding put_id find_id
  put_id-UniqueIds a v [] u = (refl, tt)
  put_id-UniqueIds a v ((c, w) ∷ d) u =
      ground (
        arith,
        put_id-UniqueIds a v d u.1,
        find_id-put_id a c v d,
        same_id_iff a c,
        same_id_iff c a,
      )

  pub drop_id-UniqueIds : (a : MessageId) (d : MsgDict V) → UniqueIds d → UniqueIds (drop_id a d)
  unfolding drop_id find_id
  drop_id-UniqueIds a [] u = tt
  drop_id-UniqueIds a ((c, w) ∷ d) u =
      ground (arith, drop_id-UniqueIds a d u.1, find_id-drop_id a c d)

  -- {key: value for key, value in d.items() if not value["from_prev_conn"]}
  abbrev pub without_prev : (from_prev_conn : V → Bool) → MsgDict V → MsgDict V
  without_prev from_prev_conn [] = []
  without_prev from_prev_conn ((id, v) ∷ d) =
      let rest = without_prev from_prev_conn d in if from_prev_conn v then rest else (id, v) ∷ rest

  abbrev pub unless_prev : (from_prev_conn : V → Bool) → Option V → Option V
  unless_prev from_prev_conn none = none
  unless_prev from_prev_conn (some v) = if from_prev_conn v then none else some v

  pub without_prev-find :
      (p : V → Bool) (id : MessageId) (d : MsgDict V)
      → UniqueIds d
      → find_id id (without_prev p d) ≡ unless_prev p (find_id id d)
  unfolding find_id
  without_prev-find p id [] u = refl
  without_prev-find p id ((j, f) ∷ d) u =
      ground (arith, without_prev-find p id d u.1, same_id_iff j id)

  pub without_prev-UniqueIds :
      (p : V → Bool) (d : MsgDict V) → UniqueIds d → UniqueIds (without_prev p d)
  without_prev-UniqueIds p [] u = tt
  without_prev-UniqueIds p ((j, f) ∷ d) u =
      ground (arith, without_prev-UniqueIds p d u.1, without_prev-find p j d u.1)
