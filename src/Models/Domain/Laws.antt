-- ===== src/Models/Domain/Laws.antt =====
-- Reading a word of a vocabulary: which texts are read, and that what is read is canonical.
use grns.Base.{◌≡◌, refl, ◌↔◌, true, false, List, [], ◌∷◌, arith, contains, list_beq, is_empty}
use grns.Base.Text.{Text, text_eq, codes, trim_space, to_lower}
use grns.Base.Text.Laws.{to_lower-trim_space_idem}
use grns.Errors.{ok}
use grns.Models.Domain.{parse_word, parse_task_status, valid_task_statuses, is_valid_task_status}

pub parse_word-ok :
    (valid : List Text) (raw s : Text)
    → parse_word valid raw ≡ ok s
    → (s ≡ to_lower (trim_space raw)) × (contains valid s ≡ true) × (is_empty s ≡ false)
unfolding parse_word
parse_word-ok valid raw s h = ground arith

-- What is read is read again as itself.
pub parse_word_again :
    (valid : List Text) (raw s : Text) → parse_word valid raw ≡ ok s → parse_word valid s ≡ ok s
unfolding parse_word
parse_word_again valid raw s h =
    ground (arith, parse_word-ok valid raw s h, to_lower-trim_space_idem raw)

pub parse_word_of :
    (valid : List Text) (raw s : Text)
    → contains valid [] ≡ false
    → s ≡ to_lower (trim_space raw)
    → contains valid s ≡ true
    → parse_word valid raw ≡ ok s
unfolding parse_word
parse_word_of valid raw [] n e c = cc
parse_word_of valid raw (x ∷ s) n e c = ground arith

no_empty_status : contains valid_task_statuses [] ≡ false
unfolding contains codes list_beq
no_empty_status = refl

-- A text is read as the status `s` exactly when its lower case without surrounding white space is
-- `s` and `s` is one of the seven statuses.
pub parse_task_status_exact :
    (raw s : Text)
    → (parse_task_status raw ≡ ok s)
      ↔ ((s ≡ to_lower (trim_space raw)) × (is_valid_task_status s ≡ true))
unfolding parse_task_status is_valid_task_status
parse_task_status_exact raw s = (
  λ h. let facts = parse_word-ok valid_task_statuses raw s h in (facts.0, facts.1),
  λ h. parse_word_of valid_task_statuses raw s no_empty_status h.0 h.1,
)

-- A status that was read is read again as itself: stored statuses are canonical.
pub parse_task_status_again :
    (raw s : Text) → parse_task_status raw ≡ ok s → parse_task_status s ≡ ok s
unfolding parse_task_status
parse_task_status_again raw s h = parse_word_again valid_task_statuses raw s h
