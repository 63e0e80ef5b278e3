-- ===== src/SimpleClient/Conflicts.antt =====
-- What the patch loop does with conflicts: when it sends a patch again, what it sends, and what it
-- returns.
use resilient_python_api.Prelude.{
  ℕ, zero, suc, String, Bool, true, false, Option, none, some, ◌≡◌, eqb, List, ◌⊎◌, inl, inr, arith,
  Bool-cases,
}
use resilient_python_api.Value.{Value, eq_values}
use resilient_python_api.Outcome.{Result, ok, err, Response, no_change}
use resilient_python_api.Http.{Session}
use resilient_python_api.BaseClient.{BaseClient}
use resilient_python_api.PatchStatus.{PatchStatus}
use resilient_python_api.Patch.{Patch, get_old_values, has_changes}
use resilient_python_api.SimpleClient.Patching.{
  Callback, is_conflict, after_callback, called_back, handle_status, handle_json,
  handle_patch_response, send_patch, patch_with_callback, again_if, answered,
}

after_callback-again :
    (before : List Value) (p q : Patch)
    → after_callback before p ≡ (ok true, q)
    → (eq_values before (get_old_values q) ≡ false) × (has_changes q ≡ true)
unfolding after_callback
after_callback-again before p q h = ground arith

called_back-again :
    (before : List Value) (r : Result (Unit {0})) (p q : Patch)
    → called_back before (r, p) ≡ (ok true, q)
    → (eq_values before (get_old_values q) ≡ false) × (has_changes q ≡ true)
called_back-again before (ok x) p q h = after_callback-again before p q h
called_back-again before (err e) p q h = ground arith

handle_status-again :
    (callback : Callback) (response : Response) (status : PatchStatus) (r : Result Bool)
    (p q : Patch)
    → handle_status callback response status r p ≡ (ok true, q)
    → (eq_values (get_old_values p) (get_old_values q) ≡ false) × (has_changes q ≡ true)
handle_status-again callback response status (err e) p q h = absurd (ground arith)
handle_status-again callback response status (ok false) p q h = absurd (ground arith)
handle_status-again callback response status (ok true) p q h =
    called_back-again (get_old_values p) (callback response status p).0
      (callback response status p).1 q h

handle_json-again :
    (callback : Callback) (response : Response) (json : Option Value) (p q : Patch)
    → handle_json callback response json p ≡ (ok true, q)
    → (eq_values (get_old_values p) (get_old_values q) ≡ false) × (has_changes q ≡ true)
handle_json-again callback response none p q h = absurd (ground arith)
handle_json-again callback response (some json) p q h =
    handle_status-again callback response _ (is_conflict (record { patch_status_dict = json })) p q
      h

-- The patch is sent again in two cases only: unchanged, after a response with status 409; or after a
-- response with status 200 and a callback that left it with changes and with other old values than
-- it had, so that the same patch is not sent in a loop.
pub handle_patch_response-again :
    (callback : Callback) (response : Response) (p q : Patch)
    → handle_patch_response callback response p ≡ (ok true, q)
    → ((response.status_code ≡ 409) × (q ≡ p))
      ⊎ ((response.status_code ≡ 200)
          × (eq_values (get_old_values p) (get_old_values q) ≡ false)
          × (has_changes q ≡ true))
handle_patch_response-again callback response p q h =
    elim (Bool-cases (eqb response.status_code 409)) [
      | inl e ↦ inl (ground arith, unfold handle_patch_response in ground arith)
      | inr e ↦ elim (Bool-cases (eqb response.status_code 200)) [
        | inl e' ↦
            let (old, changes) =
              handle_json-again callback response response.json p q
                (unfold handle_patch_response in rw (e, e') at h) in
            inr (ground arith, old, changes)
        | inr e' ↦ absurd (unfold handle_patch_response in ground arith)
      ]
    ]

after_callback-patch : (before : List Value) (p : Patch) → (after_callback before p).1 ≡ p
unfolding after_callback
after_callback-patch before p = elim (Bool-cases (has_changes p)) [
  | inl e ↦ elim (Bool-cases (eq_values before (get_old_values p))) [
    | inl e' ↦ rw (e, e')
    | inr e' ↦ rw (e, e')
  ]
  | inr e ↦ rw e
]

-- The patch of a result is related to the one that the loop began with.
abbrev pub Kept :
    {W : Type 0}
    → (Patch → Patch → Type 0)
    → Patch
    → Option ((Result Response × Patch) × W)
    → Type 0
Kept R p none = Unit {0}
Kept R p (some ((r, q), w)) = R p q

-- A relation that a callback keeps between the patch before and after its call.
module _ (R : Patch → Patch → Type 0) (R-refl : (p : Patch) → R p p)
    (R-trans : (p q r : Patch) → R p q → R q r → R p r) (callback : Callback)
    (keeps : (response : Response) (status : PatchStatus) (p : Patch)
      → R p (callback response status p).1) where
  called_back-keeps :
      (before : List Value) (r : Result (Unit {0})) (p q : Patch)
      → R p q
      → R p (called_back before (r, q)).1
  called_back-keeps before (ok x) p q h = rw after_callback-patch h
  called_back-keeps before (err no_change) p q h = h
  called_back-keeps before (err _) p q h = h

  handle_status-keeps :
      (response : Response) (status : PatchStatus) (r : Result Bool) (p : Patch)
      → R p (handle_status callback response status r p).1
  handle_status-keeps response status (err e) p = R-refl p
  handle_status-keeps response status (ok false) p = R-refl p
  handle_status-keeps response status (ok true) p =
      called_back-keeps (get_old_values p) (callback response status p).0 p
        (callback response status p).1 (keeps response status p)

  handle_json-keeps :
      (response : Response) (json : Option Value) (p : Patch)
      → R p (handle_json callback response json p).1
  handle_json-keeps response none p = R-refl p
  handle_json-keeps response (some json) p =
      handle_status-keeps response _ (is_conflict (record { patch_status_dict = json })) p

  handle_patch_response-keeps :
      (response : Response) (p : Patch) → R p (handle_patch_response callback response p).1
  unfolding handle_patch_response
  handle_patch_response-keeps response p = elim (Bool-cases (eqb response.status_code 409)) [
    | inl e ↦ rw e (R-refl p)
    | inr e ↦ elim (Bool-cases (eqb response.status_code 200)) [
      | inl e' ↦ rw (e, e') (handle_json-keeps response response.json p)
      | inr e' ↦ rw (e, e') (R-refl p)
    ]
  ]

  module _ {W : Type 0} (session : Session W) (client : BaseClient) (uri : String)
      (token : Value) where
    Kept-trans :
        (p q : Patch) (o : Option ((Result Response × Patch) × W)) → R p q → Kept R q o → Kept R p o
    Kept-trans p q none h k = tt
    Kept-trans p q (some ((r, q'), w)) h k = R-trans p q q' h k

    again_if-Kept :
        (response : Response) (r : Result Bool) (p q : Patch) (w : W)
        (again : Patch → W → Option ((Result Response × Patch) × W))
        → R p q
        → Kept R q (again q w)
        → Kept R p (again_if session client uri token response (r, q) w again)
    again_if-Kept response (ok true) p q w again h k = Kept-trans p q (again q w) h k
    again_if-Kept response (ok false) p q w again h k = h
    again_if-Kept response (err e) p q w again h k = h

    answered-Kept :
        (p : Patch) (r : Result Response) (w : W)
        (again : Patch → W → Option ((Result Response × Patch) × W))
        → ((q : Patch) (w' : W) → Kept R q (again q w'))
        → Kept R p (answered session client uri token callback p (r, w) again)
    answered-Kept p (err e) w again k = R-refl p
    answered-Kept p (ok response) w again k =
        again_if-Kept response (handle_patch_response callback response p).0 p
          (handle_patch_response callback response p).1 w again
          (handle_patch_response-keeps response p)
          (k (handle_patch_response callback response p).1 w)

    pub patch_with_callback-Kept :
        (fuel : ℕ) (p : Patch) (w : W)
        → Kept R p (patch_with_callback session client uri token fuel callback p w)
    unfolding patch_with_callback
    patch_with_callback-Kept zero p w = tt
    patch_with_callback-Kept (suc fuel) p w =
        answered-Kept p (send_patch session client uri token p w).0
          (send_patch session client uri token p w).1
          (patch_with_callback session client uri token fuel callback)
          (λ q w'. patch_with_callback-Kept fuel q w')
