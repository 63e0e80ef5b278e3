-- ===== src/Patch/Changes.antt =====
-- What the methods of Patch do to its table of changes: which entry each of them writes, and that
-- every entry stays filed under the name of its own field.
use resilient_python_api.Prelude.{
  String, Bool, true, false, Option, none, some, List, [], ◌∷◌, ◌≡◌, refl, eq_iff, arith,
  if◌then◌else◌, Assoc, lookup, insert, delete, has_key, IsUnique, insert-IsUnique, delete-IsUnique,
  inl, inr, Bool-cases, ◌∙◌,
}
use resilient_python_api.Value.{Value, str}
use resilient_python_api.Outcome.{Result, Exec, ok, err, value_error}
use resilient_python_api.PatchStatus.{PatchStatus, has_field_failures, get_conflict_fields}
use resilient_python_api.Patch.{
  Patch, Change, set_change, change_with_old, add_value, exchange_conflicting_value,
  get_change_with_field_named, overwrite_found, overwrite_field, overwrite_fields,
  update_for_overwrite, and_then, delete_value, set_old_value, has_changes,
}

-- Each change stands under the name of its field.
abbrev pub AllNamed : Assoc Change → Type 0
AllNamed [] = Unit {0}
AllNamed ((k, change) ∷ rest) = (change.field_name ≡ k) × AllNamed rest

pub record IsConsistent (patch : Patch) : Type 0 where
  pub unique : IsUnique patch.changes
  pub named : AllNamed patch.changes

insert-AllNamed :
    (k : String) (change : Change) (m : Assoc Change)
    → change.field_name ≡ k
    → AllNamed m
    → AllNamed (insert k change m)
unfolding insert
insert-AllNamed k change [] e h = (e, tt)
insert-AllNamed k change ((j, c) ∷ m) e h =
    ground (arith, eq_iff j k, insert-AllNamed k change m e h.1)

delete-AllNamed : (k : String) (m : Assoc Change) → AllNamed m → AllNamed (delete k m)
unfolding delete
delete-AllNamed k [] h = tt
delete-AllNamed k ((j, c) ∷ m) h = ground (arith, delete-AllNamed k m h.1)

lookup_name :
    (k : String) (m : Assoc Change) (c : Change)
    → AllNamed m
    → lookup k m ≡ some c
    → c.field_name ≡ k
unfolding lookup
lookup_name k [] c h e = cc
lookup_name k ((j, d) ∷ m) c h e = ground (arith, eq_iff j k, lookup_name k m c h.1)

set_change-IsConsistent :
    (f : String) (v o : Value) (p : Patch) → IsConsistent p → IsConsistent (set_change f v o p)
set_change-IsConsistent f v o p h = record {
  unique = insert-IsUnique f _ p.changes h.unique;
  named = insert-AllNamed f _ p.changes refl h.named;
}

change_with_old-IsConsistent :
    (f : String) (v : Value) (r : Result Value) (p : Patch)
    → IsConsistent p
    → IsConsistent (change_with_old f v r p).1
change_with_old-IsConsistent f v (ok o) p h = set_change-IsConsistent f v o p h
change_with_old-IsConsistent f v (err e) p h = h

-- The second table has the keys of the first in their order, with the same fields and new values.
abbrev pub SameNew : Assoc Change → Assoc Change → Type 0
SameNew [] [] = Unit {0}
SameNew ((j, c) ∷ m) ((k, d) ∷ n) =
    (k ≡ j) × (d.field_name ≡ c.field_name) × (d.new_value ≡ c.new_value) × SameNew m n
SameNew _ _ = ⊥

pub SameNew-refl : (m : Assoc Change) → SameNew m m
SameNew-refl [] = tt
SameNew-refl ((j, c) ∷ m) = (refl, refl, refl, SameNew-refl m)

pub SameNew-trans : (l m n : Assoc Change) → SameNew l m → SameNew m n → SameNew l n
SameNew-trans [] [] [] g h = tt
SameNew-trans ((i, b) ∷ l) ((j, c) ∷ m) ((k, d) ∷ n) g h =
    (h.0 ∙ g.0, h.1 ∙ g.1, h.2 ∙ g.2, SameNew-trans l m n g.3 h.3)
SameNew-trans [] [] (d ∷ n) g h = elim h [ ]
SameNew-trans [] (c ∷ m) n g h = elim g [ ]
SameNew-trans (b ∷ l) [] n g h = elim g [ ]
SameNew-trans (b ∷ l) (c ∷ m) [] g h = elim h [ ]

SameNew-insert :
    (k : String) (c : Change) (o : Value) (m : Assoc Change)
    → lookup k m ≡ some c
    → SameNew m (insert k (record c { old_value = o }) m)
unfolding lookup insert
SameNew-insert k c o [] h = cc
SameNew-insert k c o ((j, d) ∷ m) h =
    ground (arith, eq_iff j k, SameNew-insert k c o m, SameNew-refl m)

-- What a method may do to the changes when it revises old values only.
pub record Revises (before after : Patch) : Type 0 where
  pub previous : after.previous_object ≡ before.previous_object
  pub same_version : after.version ≡ before.version
  pub same_new : SameNew before.changes after.changes
  pub consistent : IsConsistent before → IsConsistent after

pub Revises-refl : (p : Patch) → Revises p p
Revises-refl p = record {
  previous = refl;
  same_version = refl;
  same_new = SameNew-refl p.changes;
  consistent = λ h. h;
}

pub Revises-trans : {p q r : Patch} → Revises p q → Revises q r → Revises p r
Revises-trans {p} {q} {r} g h = record {
  previous = h.previous ∙ g.previous;
  same_version = h.same_version ∙ g.same_version;
  same_new = SameNew-trans p.changes q.changes r.changes g.same_new h.same_new;
  consistent = λ k. h.consistent (g.consistent k);
}

same_emptiness :
    (m n : Assoc Change)
    → SameNew m n
    → ◌≡◌ {A = Bool} (elim n [ [] ↦ false | _ ∷ _ ↦ true ]) (elim m [ [] ↦ false | _ ∷ _ ↦ true ])
same_emptiness [] [] h = refl
same_emptiness (c ∷ m) (d ∷ n) h = refl
same_emptiness [] (d ∷ n) h = elim h [ ]
same_emptiness (c ∷ m) [] h = elim h [ ]

pub has_changes-Revises : {p q : Patch} → Revises p q → has_changes q ≡ has_changes p
unfolding has_changes
has_changes-Revises {p} {q} h = same_emptiness p.changes q.changes h.same_new

set_old_value-Revises :
    (k : String) (c : Change) (r : Result Value) (p : Patch)
    → lookup k p.changes ≡ some c
    → Revises p (set_old_value k c r p).1
set_old_value-Revises k c (err e) p h = Revises-refl p
set_old_value-Revises k c (ok o) p h = record {
  previous = refl;
  same_version = refl;
  same_new = SameNew-insert k c o p.changes h;
  consistent = λ v. record {
    unique = insert-IsUnique k _ p.changes v.unique;
    named = insert-AllNamed k _ p.changes (lookup_name k p.changes c v.named h) v.named;
  };
}

overwrite_text-Revises :
    (status : PatchStatus) (k : String) (o : Option Change) (p : Patch)
    → lookup k p.changes ≡ o
    → Revises p (overwrite_found status (str k) (ok o) p).1
unfolding overwrite_found
overwrite_text-Revises status k none p h = Revises-refl p
overwrite_text-Revises status k (some c) p h = set_old_value-Revises k c _ p h

overwrite_field-Revises :
    (status : PatchStatus) (name : Value) (p : Patch) → Revises p (overwrite_field status name p).1
unfolding overwrite_field get_change_with_field_named overwrite_found
overwrite_field-Revises status (str k) p = overwrite_text-Revises status k _ p refl
overwrite_field-Revises status _ p = Revises-refl p

and_then-Revises :
    {A B : Type 0} (p : Patch) (r : Result A) (q : Patch) (next : A → Exec Patch B)
    → Revises p q
    → ((a : A) → Revises q (next a q).1)
    → Revises p (and_then (r, q) next).1
and_then-Revises p (ok a) q next g h = Revises-trans g (h a)
and_then-Revises p (err e) q next g h = g

pub overwrite_fields-Revises :
    (status : PatchStatus) (names : List Value) (p : Patch)
    → Revises p (overwrite_fields status names p).1
unfolding overwrite_fields
overwrite_fields-Revises status [] p = Revises-refl p
overwrite_fields-Revises status (name ∷ rest) p =
    and_then-Revises p (overwrite_field status name p).0 (overwrite_field status name p).1
      (λ _. overwrite_fields status rest) (overwrite_field-Revises status name p)
      (λ _. overwrite_fields-Revises status rest (overwrite_field status name p).1)

overwrite_if-Revises :
    (status : PatchStatus) (b : Bool) (p : Patch)
    → Revises p
        (if b
          then and_then (get_conflict_fields status, p) (overwrite_fields status)
          else (err (value_error "Expected field_failures in patch status return"), p)).1
overwrite_if-Revises status true p =
    and_then-Revises p (get_conflict_fields status) p (overwrite_fields status) (Revises-refl p)
      (λ names. overwrite_fields-Revises status names p)
overwrite_if-Revises status false p = Revises-refl p

-- Whatever the server's reply, and whether or not it raises, `update_for_overwrite` revises old
-- values only: the object, the version, the fields, their order and their new values stay, and a
-- consistent table of changes stays consistent.
pub update_for_overwrite-Revises :
    (status : PatchStatus) (p : Patch) → Revises p (update_for_overwrite status p).1
unfolding update_for_overwrite
update_for_overwrite-Revises status p =
    and_then-Revises p (has_field_failures status) p _ (Revises-refl p)
      (λ b. overwrite_if-Revises status b p)

-- The calls that a program may make on a patch.
pub data Call : Type 0 where
  adds : String → Value → Option Value → Call
  exchanges : PatchStatus → String → Value → Call
  overwrites : PatchStatus → Call
  deletes : String → Call

pub call : Call → Exec Patch (Unit {0})
call (adds f v o) = add_value f v o
call (exchanges status f v) = exchange_conflicting_value status f v
call (overwrites status) = update_for_overwrite status
call (deletes f) = λ p. (ok tt, delete_value f p)

-- Each call is made on the patch that the one before left, also where that one raised.
pub calls : List Call → Patch → Patch
calls [] p = p
calls (c ∷ cs) p = calls cs (call c p).1

delete_value-IsConsistent :
    (f : String) (p : Patch) → IsConsistent p → IsConsistent (delete_value f p)
unfolding delete_value
delete_value-IsConsistent f p h = elim (Bool-cases (has_key f p.changes)) [
  | inl e ↦ rw e (record {
    unique = delete-IsUnique f p.changes h.unique;
    named = delete-AllNamed f p.changes h.named;
  })
  | inr e ↦ rw e h
]

call-IsConsistent : (c : Call) (p : Patch) → IsConsistent p → IsConsistent (call c p).1
unfolding call add_value exchange_conflicting_value
call-IsConsistent (adds f v none) p h = change_with_old-IsConsistent f v _ p h
call-IsConsistent (adds f v (some o)) p h = set_change-IsConsistent f v o p h
call-IsConsistent (exchanges status f v) p h = change_with_old-IsConsistent f v _ p h
call-IsConsistent (overwrites status) p h = (update_for_overwrite-Revises status p).consistent h
call-IsConsistent (deletes f) p h = delete_value-IsConsistent f p h

-- Whatever calls are made on a consistent patch, raising or not, it stays consistent: no field has
-- two changes, and each change stands under the name of its own field.
pub calls-IsConsistent : (cs : List Call) (p : Patch) → IsConsistent p → IsConsistent (calls cs p)
unfolding calls
calls-IsConsistent [] p h = h
calls-IsConsistent (c ∷ cs) p h = calls-IsConsistent cs (call c p).1 (call-IsConsistent c p h)
