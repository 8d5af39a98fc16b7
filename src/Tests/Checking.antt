-- ===== src/Tests/Checking.antt =====
-- Examples of the theorems on identifiers, vocabularies and errors.
use grns.Base.{
  ℕ, zero, suc, append_new, ◌≡◌, ◌↔◌, refl, Bool, true, false, List, [], ◌∷◌, some, arith, list_beq,
  length, ◌==◌,
}
use grns.Base.Text.{Text, text_eq, codes, to_lower, trim_space, byte_len, text_ltb}
use grns.Errors.{ok, plain, wrap, other, make_api_error, write_service_error}
use grns.Errors.Laws.{make_api_error_keeps}
use grns.Models.Domain.{parse_task_status, is_valid_task_status}
use grns.Models.Domain.Laws.{parse_task_status_exact}
use grns.Server.Validation.{
  label_rune, sort_strings, validate_id, normalize_prefix, normalize_label, normalize_labels,
  task_id_belongs_to_project,
}
use grns.Server.Validation.Canonical.{AllCanonical, normalize_labels_canonical}
use grns.Server.Validation.Labels.{IsStrictlySorted}
use grns.Store.Project.NewIds.{Drawn, validate_id-Drawn}
use grns.Store.Project.{project_from_task_id, generate_id, random_base36}
use grns.Store.Project.Laws.{belongs_agrees}
use grns.Store.Project.NewIds.{attempt, generate_id-new, generate_id-succeeds}

sample_id_valid : validate_id (codes "gr-a1b2") ≡ true
unfolding validate_id codes
sample_id_valid = refl

prefix_normal : normalize_prefix (codes " GR") ≡ ok (codes "gr")
unfolding normalize_prefix codes to_lower trim_space byte_len
prefix_normal = refl

belongs_agrees_example :
    task_id_belongs_to_project (codes "gr-a1b2") (codes "gr")
    ≡ (project_from_task_id (codes "gr-a1b2") == codes "gr")
belongs_agrees_example =
    belongs_agrees (codes "gr-a1b2") (codes " GR") (codes "gr") sample_id_valid prefix_normal

validate_id-Drawn_example : (validate_id (codes "gr-a1b2") ≡ true) ↔ Drawn (codes "gr-a1b2")
validate_id-Drawn_example = validate_id-Drawn (codes "gr-a1b2")

abbrev sample_labels : List Text
sample_labels = codes " Ui" ∷ codes "bug" ∷ codes "ui" ∷ []

labels_normal : normalize_labels sample_labels ≡ ok (codes "bug" ∷ codes "ui" ∷ [])
unfolding normalize_labels codes normalize_label trim_space label_rune sort_strings append_new
    list_beq to_lower text_ltb
labels_normal = refl

normalize_labels_canonical_example :
    IsStrictlySorted (codes "bug" ∷ codes "ui" ∷ [])
    × AllCanonical (codes "bug" ∷ codes "ui" ∷ [])
    × (normalize_labels (codes "bug" ∷ codes "ui" ∷ []) ≡ ok (codes "bug" ∷ codes "ui" ∷ []))
normalize_labels_canonical_example =
    normalize_labels_canonical sample_labels (codes "bug" ∷ codes "ui" ∷ []) labels_normal

-- The first id is taken.
abbrev is_taken : Text → Bool
is_taken id = id == codes "gr-0000"

abbrev bytes_at : ℕ → List ℕ
bytes_at zero = 0 ∷ 36 ∷ 72 ∷ 0 ∷ []
bytes_at (suc n) = 0 ∷ 0 ∷ 10 ∷ 35 ∷ []

second_attempt : attempt (codes "gr") bytes_at 1 ≡ codes "gr-00az"
unfolding codes random_base36
second_attempt = refl

generate_id-succeeds_example :
    (id : Text) × (generate_id (codes "gr") (some (λ id. ok (is_taken id))) (λ k. ok (bytes_at k))
      ≡ ok id)
unfolding list_beq codes random_base36
generate_id-succeeds_example =
    generate_id-succeeds is_taken bytes_at (codes "gr") 1 refl (omega arith) refl

draws_four : (i : ℕ) → length (bytes_at i) ≡ 4
draws_four zero = refl
draws_four (suc i) = refl

generated :
    generate_id (codes "gr") (some (λ id. ok (is_taken id))) (λ k. ok (bytes_at k))
    ≡ ok (codes "gr-00az")
unfolding generate_id codes list_beq random_base36
generated = refl

generate_id-new_example :
    (validate_id (codes "gr-00az") ≡ true)
    × (project_from_task_id (codes "gr-00az") ≡ codes "gr")
    × (ok (is_taken (codes "gr-00az")) ≡ ok false)
generate_id-new_example =
    generate_id-new (λ id. ok (is_taken id)) (λ k. ok (bytes_at k)) (codes " GR") (codes "gr")
      (codes "gr-00az") prefix_normal draws_four generated

parse_task_status_exact_example : (parse_task_status (codes " Open") ≡ ok (codes "open")) ↔ (
    (codes "open" ≡ to_lower (trim_space (codes " Open")))
    × (is_valid_task_status (codes "open") ≡ true))
parse_task_status_exact_example = parse_task_status_exact (codes " Open") (codes "open")

make_api_error_keeps_example :
    write_service_error (
      make_api_error 500 "internal" 4001 (wrap (make_api_error 404 "not_found" 2001 (plain other))))
    ≡ write_service_error (make_api_error 404 "not_found" 2001 (plain other))
make_api_error_keeps_example =
    make_api_error_keeps 404 500 "not_found" "internal" 2001 4001 (plain other) (omega arith)
