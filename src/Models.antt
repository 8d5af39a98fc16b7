-- ===== src/Models.antt =====
-- internal/models: the records that the layers share, and the closed vocabularies.
pub mod Domain
use grns.Base.{Option, ℕ}
use grns.Base.Text.{Text}
use grns.Base.Int.{ℤ}
use grns.Base.{List}

-- time.Time: nanoseconds since the zero time, which is 0 (`IsZero`). All are UTC.
abbrev pub Time : Type 0
Time = ℕ

-- A map[string]any that came from JSON: keys, each with the JSON text of its value.
abbrev pub Custom : Type 0
Custom = List (Text × Text)

-- models.Dependency; `kind` is its field Type.
pub record Dependency : Type 0 where
  pub parent_id : Text
  pub kind : Text

-- models.Task; `kind` is its field Type.
pub record Task : Type 0 where
  pub project : Text
  pub id : Text
  pub title : Text
  pub status : Text
  pub kind : Text
  pub priority : ℤ
  pub description : Text
  pub spec_id : Text
  pub parent_id : Text
  pub assignee : Text
  pub notes : Text
  pub design : Text
  pub acceptance_criteria : Text
  pub source_repo : Text
  pub created_at : Time
  pub updated_at : Time
  pub closed_at : Option Time
  pub custom : Custom
