-- ===== src/SimpleClient/Overwriting.antt =====
-- The results of `patch`, with and without `overwrite_conflict`.
use resilient_python_api.Prelude.{
  ℕ, zero, suc, ◌+◌, String, Bool, true, false, Option, some, ◌≡◌, refl, sym, List, ◌∷◌, arith, ◌∙◌,
  ap, subst, lookup,
}
use resilient_python_api.Value.{Value, eq_values}
use resilient_python_api.Outcome.{Result, ok, err, Response, patch_conflict}
use resilient_python_api.Http.{Session}
use resilient_python_api.BaseClient.{BaseClient}
use resilient_python_api.PatchStatus.{is_success}
use resilient_python_api.Patch.{Patch, get_old_values, has_changes, update_for_overwrite}
use resilient_python_api.Patch.Changes.{
  Revises, Revises-refl, Revises-trans, update_for_overwrite-Revises, has_changes-Revises,
}
use resilient_python_api.Patch.Overwrite.{
  Failure, status_of, reply_of, AllChanged, update_for_overwrite_lem, some_failures-dto,
}
use resilient_python_api.SimpleClient.Patching.{
  Callback, patch_overwrite_callback, patch_raise_callback, is_conflict, after_callback,
  handle_json, handle_patch_response, send_patch, patch_with_callback, patch,
}
use resilient_python_api.SimpleClient.Conflicts.{Kept, patch_with_callback-Kept}

handle_200 :
    (callback : Callback) (response : Response) (p : Patch) (json : Value)
    → response.status_code ≡ 200
    → response.json ≡ some json
    → handle_patch_response callback response p ≡ handle_json callback response (some json) p
unfolding handle_patch_response
handle_200 callback response p json status has = rw (status, has)

module _ {W : Type 0} (session : Session W) (client : BaseClient) (uri : String)
    (token : Value) where
  Kept-subst :
      (R : Patch → Patch → Type 0) (p q : Patch) (r : Result Response) (w' : W)
      (o : Option ((Result Response × Patch) × W))
      → o ≡ some ((r, q), w')
      → Kept R p o
      → R p q
  Kept-subst R p q r w' o e k = subst (Kept R p) e k

  -- However the server answers, when `patch` returns or raises, the caller's patch is untouched
  -- without `overwrite_conflict`; with it only old values in it were revised: its fields, their order
  -- and the new values that the caller asked for are still there.
  pub patch-Revises :
      (fuel : ℕ) (overwrite : Bool) (p q : Patch) (r : Result Response) (w w' : W)
      → patch session client uri token fuel overwrite p w ≡ some ((r, q), w')
      → Revises p q × (overwrite ≡ false → q ≡ p)
  unfolding patch
  patch-Revises fuel true p q r w w' h = (
    Kept-subst Revises p q r w' _ h (
        patch_with_callback-Kept Revises Revises-refl (λ a b c. Revises-trans)
          patch_overwrite_callback (λ response. update_for_overwrite-Revises) session client uri
          token fuel p w),
    λ e. cc,
  )
  patch-Revises fuel false p q r w w' h =
      let same : q ≡ p =
        Kept-subst (λ a b. b ≡ a) p q r w' _ h
          (patch_with_callback-Kept (λ a b. b ≡ a) (λ a. refl) (λ a b c g k. k ∙ g)
            patch_raise_callback (λ response status a. refl) session client uri token fuel p w) in
      (subst (Revises p) (sym same) (Revises-refl p), λ e. same)

  -- A response with status 200 whose status has no conflict ends the loop.
  send_accepted :
      (fuel : ℕ) (callback : Callback) (p : Patch) (w w' : W) (response : Response) (json : Value)
      → send_patch session client uri token p w ≡ (ok response, w')
      → response.status_code ≡ 200
      → response.json ≡ some json
      → is_conflict (record { patch_status_dict = json }) ≡ ok false
      → patch_with_callback session client uri token (suc fuel) callback p w
        ≡ some ((ok response, p), w')
  unfolding patch_with_callback handle_patch_response
  send_accepted fuel callback p w w' response json sent status has quiet =
      rw (sent, status, has, quiet)

  -- A conflict that the callback resolves by a changed patch leads to another round with that patch.
  send_resolved :
      (fuel : ℕ) (callback : Callback) (p q : Patch) (w w' : W) (response : Response) (json : Value)
      → send_patch session client uri token p w ≡ (ok response, w')
      → response.status_code ≡ 200
      → response.json ≡ some json
      → is_conflict (record { patch_status_dict = json }) ≡ ok true
      → callback response (record { patch_status_dict = json }) p ≡ (ok tt, q)
      → has_changes q ≡ true
      → eq_values (get_old_values p) (get_old_values q) ≡ false
      → patch_with_callback session client uri token (suc fuel) callback p w
        ≡ patch_with_callback session client uri token fuel callback q w'
  unfolding patch_with_callback handle_patch_response after_callback
  send_resolved fuel callback p q w w' response json sent status has conflict called changes
        differ =
      rw (sent, handle_200 callback response p json status has, conflict, called)
        (rw (changes, differ))

  -- Without `overwrite_conflict` a conflict raises PatchConflictException after one request.
  send_refused :
      (fuel : ℕ) (p : Patch) (w w' : W) (response : Response) (json : Value)
      → send_patch session client uri token p w ≡ (ok response, w')
      → response.status_code ≡ 200
      → response.json ≡ some json
      → is_conflict (record { patch_status_dict = json }) ≡ ok true
      → patch session client uri token (suc fuel) false p w
        ≡ some ((err (patch_conflict response json), p), w')
  unfolding patch patch_with_callback
  send_refused fuel p w w' response json sent status has conflict =
      rw (sent, handle_200 patch_raise_callback response p json status has, conflict)

-- The patch with the old values that the reply reports.
abbrev pub overwritten : Bool → Failure → List Failure → Patch → Patch
overwritten success f fs p = (update_for_overwrite (status_of success (f ∷ fs)) p).1

reported : (f : Failure) (fs : List Failure) → is_conflict (status_of false (f ∷ fs)) ≡ ok true
unfolding is_conflict is_success lookup
reported f fs = some_failures-dto false f fs

overwrite_returns :
    (f : Failure) (fs : List Failure) (p : Patch)
    → AllChanged (f ∷ fs) p.changes
    → update_for_overwrite (status_of false (f ∷ fs)) p
      ≡ (ok tt, (update_for_overwrite (status_of false (f ∷ fs)) p).1)
overwrite_returns f fs p known =
    let (q, e, _) = update_for_overwrite_lem false f fs p known in
    e ∙ ap (λ (x : Result (Unit {0}) × Patch). (ok tt, x.1)) (sym e)

module _ {W : Type 0} (session : Session W) (client : BaseClient) (uri : String)
    (token : Value) where
  -- A patch that meets one conflict is overwritten with two requests. If the server answers the
  -- patch with failures, each about a field that the patch changes, of which one differs from an old
  -- value in the patch, and then accepts the patch whose old values are those that it reported, then
  -- `patch` with `overwrite_conflict` returns the second response, and the patch has the caller's
  -- new values.
  pub patch_overwrites :
      (fuel : ℕ) (p : Patch) (f : Failure) (fs : List Failure) (w w₁ w₂ : W) (r₁ r₂ : Response)
      (json : Value)
      → send_patch session client uri token p w ≡ (ok r₁, w₁)
      → r₁.status_code ≡ 200
      → r₁.json ≡ some (reply_of false (f ∷ fs))
      → AllChanged (f ∷ fs) p.changes
      → has_changes p ≡ true
      → eq_values (get_old_values p) (get_old_values (overwritten false f fs p)) ≡ false
      → send_patch session client uri token (overwritten false f fs p) w₁ ≡ (ok r₂, w₂)
      → r₂.status_code ≡ 200
      → r₂.json ≡ some json
      → is_conflict (record { patch_status_dict = json }) ≡ ok false
      → (patch session client uri token (suc (suc fuel)) true p w
          ≡ some ((ok r₂, overwritten false f fs p), w₂))
        × Revises p (overwritten false f fs p)
  unfolding patch
  patch_overwrites fuel p f fs w w₁ w₂ r₁ r₂ json s₁ c₁ j₁ known changes differ s₂ c₂ j₂ quiet =
      let revises = update_for_overwrite-Revises (status_of false (f ∷ fs)) p in
      (
        send_resolved session client uri token (suc fuel) patch_overwrite_callback p
              (overwritten false f fs p) w w₁ r₁ (reply_of false (f ∷ fs)) s₁ c₁ j₁ (reported f fs)
              (overwrite_returns f fs p known) (has_changes-Revises revises ∙ changes) differ
            ∙ send_accepted session client uri token fuel patch_overwrite_callback
                (overwritten false f fs p) w₁ w₂ r₂ json s₂ c₂ j₂ quiet,
        revises,
      )

  -- Without `overwrite_conflict`, a response with status 200 that reports a conflict makes `patch`
  -- raise PatchConflictException with that response, after one request and with the patch unchanged.
  pub patch_refuses :
      (fuel : ℕ) (p : Patch) (f : Failure) (fs : List Failure) (w w₁ : W) (r₁ : Response)
      → send_patch session client uri token p w ≡ (ok r₁, w₁)
      → r₁.status_code ≡ 200
      → r₁.json ≡ some (reply_of false (f ∷ fs))
      → patch session client uri token (suc fuel) false p w
        ≡ some ((err (patch_conflict r₁ (reply_of false (f ∷ fs))), p), w₁)
  patch_refuses fuel p f fs w w₁ r₁ s₁ c₁ j₁ =
      send_refused session client uri token fuel p w w₁ r₁ (reply_of false (f ∷ fs)) s₁ c₁ j₁
        (reported f fs)

  -- `Busy p n w w'`: `n` times in a row the server answers the patch with status 409.
  pub data Busy (p : Patch) : ℕ → W → W → Type 0 where
    idle : {w : W} → Busy p zero w w
    busy :
        {n : ℕ} {w w₁ w₂ : W} (r : Response)
        → send_patch session client uri token p w ≡ (ok r, w₁)
        → r.status_code ≡ 409
        → Busy p n w₁ w₂
        → Busy p (suc n) w w₂

  -- Any number of responses with status 409 in a row costs that many rounds, after which the loop
  -- goes on with the same patch.
  pub patch_waits :
      (fuel : ℕ) (overwrite : Bool) (p : Patch) (n : ℕ) (w w' : W)
      → Busy p n w w'
      → patch session client uri token (n + fuel) overwrite p w
        ≡ patch session client uri token fuel overwrite p w'
  unfolding patch patch_with_callback handle_patch_response
  patch_waits fuel overwrite p zero w _ idle = let e : zero + fuel ≡ fuel = omega arith in rw e
  patch_waits fuel overwrite p (suc n) w w' (busy {w₁} r sent status rest) =
      let e : suc n + fuel ≡ suc (n + fuel) = omega arith in
      rw (e, sent, status) (patch_waits fuel overwrite p n w₁ w' rest)
