-- ===== src/Poller/Comments.antt =====
-- Which comments of an entity are new to a case.
use resilient_python_api.Prelude.{
  String, Bool, true, false, Option, none, some, if◌then◌else◌, List, [], ◌∷◌, ◌++◌, ◌≡◌, refl,
  arith, eq_iff, ◌==◌, ◌||◌, ◌&&◌, not, Bool-cases, inl, inr, ◌∙◌, sym, ap, subst, map,
}
use text.Mathlib.Text.{find?}
use resilient_python_api.Poller.{
  contains_text, without_header, already_synced, not_synced, staged, filter_comments,
}

-- [x for x in xs if P(x)]
unfoldable pub keep : (String → Bool) → List String → List String
keep P [] = []
keep P (x ∷ xs) = let rest = keep P xs in if P x then x ∷ rest else rest

-- c in comments
abbrev pub has : String → List String → Bool
has c [] = false
has c (x ∷ xs) = x == c || has c xs

has-dropped :
    (P : String → Bool) (c x : String) (xs n : List String)
    → has c n ≡ (has c xs && not (P c))
    → has c (if P x then n else x ∷ n) ≡ ((x == c || has c xs) && not (P c))
has-dropped P c x xs n ih = elim (Bool-cases (x == c)) [
  | inl e ↦ let p : P x ≡ P c = ap P ((eq_iff x c).0 e) in ground (arith, ih, e, p)
  | inr e ↦ ground (arith, ih, e)
]

module _ (clean_html : String → String) where
  abbrev pub is_headed : Option String → String → Bool
  is_headed none c = false
  is_headed (some header) c =
      not (header == "") && contains_text clean_html (clean_html header) (clean_html c)

  has-without_header :
      (h c : String) (xs : List String)
      → has c (without_header clean_html h xs)
        ≡ (has c xs && not (contains_text clean_html (clean_html h) (clean_html c)))
  unfolding without_header
  has-without_header h c [] = refl
  has-without_header h c (x ∷ xs) =
      has-dropped (λ y. contains_text clean_html (clean_html h) (clean_html y)) c x xs
        (without_header clean_html h xs) (has-without_header h c xs)

  has-not_synced :
      (soar : List String) (c : String) (xs : List String)
      → has c (not_synced clean_html soar xs) ≡ (has c xs && not (already_synced clean_html soar c))
  unfolding not_synced
  has-not_synced soar c [] = refl
  has-not_synced soar c (x ∷ xs) =
      has-dropped (already_synced clean_html soar) c x xs (not_synced clean_html soar xs)
        (has-not_synced soar c xs)

  has-staged :
      (header : Option String) (c : String) (xs : List String)
      → has c (staged clean_html header xs) ≡ (has c xs && not (is_headed header c))
  has-staged none c xs = ground arith
  has-staged (some h) c xs = elim (Bool-cases (h == "")) [
    | inl e ↦ rw e (ground arith)
    | inr e ↦ rw e (has-without_header h c xs)
  ]

  synced-append :
      (a b : List String) (c : String)
      → already_synced clean_html (a ++ b) c
        ≡ (already_synced clean_html a c || already_synced clean_html b c)
  unfolding already_synced
  synced-append [] b c = refl
  synced-append (x ∷ a) b c = ground (arith, synced-append a b c)

  abbrev AllSynced : List String → List String → Type 0
  AllSynced soar [] = Unit {0}
  AllSynced soar (x ∷ xs) = (already_synced clean_html soar x ≡ true) × AllSynced soar xs

  more_synced :
      (a n : List String) (x : String) (xs : List String)
      → AllSynced (a ++ n) xs
      → AllSynced (a ++ (x ∷ n)) xs
  unfolding already_synced
  more_synced a n x [] h = tt
  more_synced a n x (c ∷ xs) h =
      let before = synced-append a n c in
      let after = synced-append a (x ∷ n) c in (ground arith, more_synced a n x xs h.1)

  new_synced : (a xs : List String) → AllSynced (a ++ not_synced clean_html a xs) xs
  unfolding not_synced already_synced
  new_synced a [] = tt
  new_synced a (x ∷ xs) =
      let ih = new_synced a xs in
      let n = not_synced clean_html a xs in
      elim (Bool-cases (already_synced clean_html a x)) [
        | inl e ↦
            let s = synced-append a n x in
            let kept : not_synced clean_html a (x ∷ xs) ≡ n = rw e in
            subst (λ (m : List String). AllSynced (a ++ m) (x ∷ xs)) (sym kept) (ground arith, ih)
        | inr e ↦
            let s = synced-append a (x ∷ n) x in
            let r = eq_iff (clean_html x) (clean_html x) in
            let kept : not_synced clean_html a (x ∷ xs) ≡ x ∷ n = rw e in
            subst (λ (m : List String). AllSynced (a ++ m) (x ∷ xs)) (sym kept)
              (ground arith, more_synced a n x xs ih)
      ]

  not_synced-AllSynced :
      (soar xs : List String) → AllSynced soar xs → not_synced clean_html soar xs ≡ []
  unfolding not_synced
  not_synced-AllSynced soar [] h = refl
  not_synced-AllSynced soar (x ∷ xs) h = rw (h.0, not_synced-AllSynced soar xs h.1)

  not_synced-none : (xs : List String) → not_synced clean_html [] xs ≡ xs
  unfolding not_synced already_synced
  not_synced-none [] = refl
  not_synced-none (x ∷ xs) = rw (not_synced-none xs)

  filter_comments_lem :
      (soar entity : List String) (header : Option String)
      → filter_comments clean_html soar entity header
        ≡ not_synced clean_html soar (staged clean_html header entity)
  unfolding filter_comments
  filter_comments_lem [] entity header = sym (not_synced-none (staged clean_html header entity))
  filter_comments_lem (s ∷ ss) entity header = refl

  -- A comment is among those that `_filter_comments` returns exactly if it is one of the entity's, its
  -- text does not contain the text of the header, where there is one, and no comment of the case has
  -- the same text.
  pub has-filter_comments :
      (soar entity : List String) (header : Option String) (c : String)
      → has c (filter_comments clean_html soar entity header)
        ≡ (has c entity && not (is_headed header c) && not (already_synced clean_html soar c))
  has-filter_comments soar entity header c =
      let s = has-staged header c entity in
      rw
        (
          filter_comments_lem soar entity header,
          has-not_synced soar c (staged clean_html header entity),
          s,
        )
        (ground arith)

  already_synced-has :
      (soar : List String) (c : String)
      → already_synced clean_html soar c ≡ has (clean_html c) (map clean_html soar)
  unfolding already_synced
  already_synced-has [] c = refl
  already_synced-has (x ∷ xs) c = ground (arith, already_synced-has xs c)

  -- Whether the text of a header stands in that of a comment.
  abbrev pub stands_in : String → String → Bool
  stands_in header c = elim (find? (clean_html c) (clean_html header)) [
    | none ↦ false
    | some _ ↦ true
  ]

  -- No text of the case's comments is that of the comment, nor does the header, if it is not empty, stand
  -- in it.
  abbrev pub is_new : List String → Option String → String → Bool
  is_new soar none c = not (has (clean_html c) (map clean_html soar))
  is_new soar (some header) c =
      (header == "" || not (stands_in header c)) && not (has (clean_html c) (map clean_html soar))

  not_synced-keep :
      (soar xs : List String) → not_synced clean_html soar xs ≡ keep (is_new soar none) xs
  unfolding not_synced keep
  not_synced-keep soar [] = refl
  not_synced-keep soar (x ∷ xs) = ground (arith, not_synced-keep soar xs, already_synced-has soar x)

  -- Both tests, one after the other.
  not_synced-without_header :
      (header : String) (soar xs : List String)
      → (header == "") ≡ false
      → not_synced clean_html soar (without_header clean_html header xs)
        ≡ keep (is_new soar (some header)) xs
  unfolding not_synced without_header keep
  not_synced-without_header header soar [] e = refl
  not_synced-without_header header soar (x ∷ xs) e =
      ground (arith, e, not_synced-without_header header soar xs e, already_synced-has soar x)

  keep-empty_header :
      (header : String) (soar xs : List String)
      → (header == "") ≡ true
      → keep (is_new soar none) xs ≡ keep (is_new soar (some header)) xs
  unfolding keep
  keep-empty_header header soar [] e = refl
  keep-empty_header header soar (x ∷ xs) e = ground (arith, e, keep-empty_header header soar xs e)

  filter_comments-keep :
      (soar entity : List String) (header : Option String)
      → filter_comments clean_html soar entity header ≡ keep (is_new soar header) entity
  filter_comments-keep soar entity none =
      filter_comments_lem soar entity none ∙ not_synced-keep soar entity
  filter_comments-keep soar entity (some header) = elim (Bool-cases (header == "")) [
    | inl e ↦
        filter_comments_lem soar entity (some header)
        ∙ rw e (not_synced-keep soar entity ∙ keep-empty_header header soar entity e)
    | inr e ↦
        filter_comments_lem soar entity (some header)
        ∙ rw e (not_synced-without_header header soar entity e)
  ]

  filter_comments_again :
      (soar entity : List String) (header : Option String)
      → filter_comments clean_html
          (soar ++ filter_comments clean_html soar entity header)
          entity
          header
        ≡ []
  filter_comments_again soar entity header =
      let xs = staged clean_html header entity in
      rw (filter_comments_lem soar entity header) (
        filter_comments_lem (soar ++ not_synced clean_html soar xs) entity header
        ∙ not_synced-AllSynced (soar ++ not_synced clean_html soar xs) xs (new_synced soar xs))

  -- `_filter_comments` returns the entity's comments, in their order, of which the text without HTML is
  -- not that of a comment of the case, and in which the text of the header, where one is given, does not
  -- stand. With just these comments added to those of the case, it returns none for the same entity.
  pub filter_comments-keep_again :
      (soar entity : List String) (header : Option String)
      → (filter_comments clean_html soar entity header ≡ keep (is_new soar header) entity)
        × (filter_comments clean_html (soar ++ keep (is_new soar header) entity) entity header ≡ [])
  filter_comments-keep_again soar entity header =
      let same = filter_comments-keep soar entity header in
      (
        same,
        subst (λ new. filter_comments clean_html (soar ++ new) entity header ≡ []) same
            (filter_comments_again soar entity header),
      )
