-- ===== src/Examples/Masks.antt =====
-- Masked documents.
use guardmcp.Prelude.{String, ◌≡◌, refl, inl, inr, List, [], ◌∷◌, arith, elem}
use guardmcp.Json.{Value, str, arr, obj, nil, cons}
use guardmcp.Masking.{
  Rules, mask_value, mask, mask_result, transform_doc, transform_result, has_rules, each_doc,
  elem_path, hides,
}
use guardmcp.Masking.Occurrence.{At}
use guardmcp.Masking.Fused.{project, transform_result-fused}
use guardmcp.Masking.Paths.{mask-At}
use guardmcp.Examples.{ann}

abbrev mask_rules : Rules
mask_rules = record { bare = "email" ∷ []; paths = ("profile" ∷ "phone" ∷ []) ∷ [] }

abbrev users : Value
users = arr (cons (obj ann) nil)

transform_result-fused_example :
    transform_result mask_rules ("name" ∷ []) users
    ≡ mask_result mask_rules (each_doc (project ("name" ∷ [])) users)
transform_result-fused_example = transform_result-fused mask_rules ("name" ∷ []) users refl

mask-At_example : At (str "Rome") ("profile" ∷ "city" ∷ []) (mask mask_rules 0 [] ann)
unfolding elem elem_path guardmcp.Masking.path_eq At
mask-At_example =
    mask-At mask_rules ann "profile" ("city" ∷ []) (str "Rome") tt (omega arith) (refl, (refl, tt))
      (inr (inr (inl (refl, inr (inl (refl, refl))))))

abbrev listed : List String
listed = "name" ∷ []

abbrev name : String
name = "name"
