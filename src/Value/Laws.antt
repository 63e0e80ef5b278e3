-- ===== src/Value/Laws.antt =====
-- Lists of values and back, and Python's `==` of a text.
use resilient_python_api.Prelude.{◌≡◌, refl, ap, List, [], ◌∷◌}
use resilient_python_api.Value.Data.{Value, elements, of_elements}

pub elements-of_elements : (xs : List Value) → elements (of_elements xs) ≡ xs
elements-of_elements [] = refl
elements-of_elements (x ∷ xs) = ap (λ (r : List Value). x ∷ r) (elements-of_elements xs)
