-- ===== src/Attachments/Agreement.antt =====
-- The three functions on attachments read the same resource.
use resilient_python_api.Prelude.{Bool, true, false, ◌≡◌, arith, ap, if◌then◌else◌, ◌&&◌}
use resilient_python_api.Value.{Value}
use resilient_python_api.Outcome.{Error, Result, ok, err, ◌>>=◌, get_item}
use resilient_python_api.RestClient.{RestClient, ObjectId, is_given}
use resilient_python_api.Attachments.{
  get_file_attachment_metadata, get_file_attachment_name, mapped, artifact_uri, task_attachment_uri,
  incident_attachment_uri,
}

mapped-name :
    {W : Type 0} (r : Result Value × W) (v : Value) (w' : W)
    → r ≡ (ok v, w')
    → mapped r (λ found. get_item found "name") ≡ (get_item v "name", w')
mapped-name r v w' e = rw e

mapped-attachment :
    {W : Type 0} (r : Result Value × W) (v : Value) (w' : W)
    → mapped r (λ found. get_item found "attachment") ≡ (ok v, w')
    → mapped r (λ found. get_item found "attachment" >>= λ attachment. get_item attachment "name")
      ≡ (get_item v "name", w')
mapped-attachment {W = W} (err x, w) v w' e = absurd (ground arith)
mapped-attachment {W = W} (ok found, w) v w' e =
    ap (λ (p : Result Value × W). (p.0 >>= λ attachment. get_item attachment "name", p.1)) e

name_of_chosen :
    {W : Type 0} (artifact attachment task incident : Bool) (r₁ r₂ r₃ : Result Value × W)
    (x y x' y' : Error) (w w' : W) (v : Value)
    → (if artifact
        then mapped r₁ (λ found. get_item found "attachment")
        else if attachment
        then (if task then r₂ else if incident then r₃ else (err x, w))
        else (err y, w))
      ≡ (ok v, w')
    → (if artifact
        then mapped r₁ (λ found. get_item found "attachment" >>= λ inner. get_item inner "name")
        else if attachment
        then (if task
            then mapped r₂ (λ found. get_item found "name")
            else if incident
            then mapped r₃ (λ found. get_item found "name")
            else (err x', w))
        else (err y', w))
      ≡ (get_item v "name", w')
name_of_chosen true _ _ _ r₁ r₂ r₃ x y x' y' w w' v h = mapped-attachment r₁ v w' h
name_of_chosen false true true _ r₁ r₂ r₃ x y x' y' w w' v h = mapped-name r₂ v w' h
name_of_chosen false true false true r₁ r₂ r₃ x y x' y' w w' v h = mapped-name r₃ v w' h
name_of_chosen false true false false r₁ r₂ r₃ x y x' y' w w' v h = absurd (ground arith)
name_of_chosen false false _ _ r₁ r₂ r₃ x y x' y' w w' v h = absurd (ground arith)

-- Where the metadata of an attachment or artifact can be read, `get_file_attachment_name` makes the
-- same request, and returns the name that is in the metadata.
pub get_file_attachment_name_lem :
    {W : Type 0} (client : RestClient W) (incident artifact task attachment : ObjectId) (w w' : W)
    (metadata : Value)
    → get_file_attachment_metadata client incident artifact task attachment w ≡ (ok metadata, w')
    → get_file_attachment_name client incident artifact task attachment w
      ≡ (get_item metadata "name", w')
unfolding get_file_attachment_metadata get_file_attachment_name
get_file_attachment_name_lem client incident artifact task attachment w w' metadata h =
    name_of_chosen (is_given incident && is_given artifact) (is_given attachment) (is_given task)
      (is_given incident) (client.get (artifact_uri incident artifact) w)
      (client.get (task_attachment_uri task attachment) w)
      (client.get (incident_attachment_uri incident attachment) w) _ _ _ _ w w' metadata h
