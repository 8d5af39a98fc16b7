-- ===== src/Store/Project/Laws.antt =====
-- Ids and their projects: the store's reading of an id, and what `GenerateID` returns.
use grns.Base.{
  ℕ, ◌≡◌, refl, ◌∙◌, sym, true, false, [], ◌∷◌, arith, ◌==◌, nat_eq, all, length, list_beq,
}
use grns.Base.Text.{Text, text_eq, trim_space, has_prefix, byte_len, is_lower_letter, split}
use grns.Errors.{ok}
use grns.Server.Validation.{validate_id, is_base36, task_id_belongs_to_project, normalize_prefix}
use grns.Server.Validation.Ids.{validate_id-shape, is_id_rune, to_lower_plain, trim_space_plain}
use grns.Store.Project.{project_from_task_id, prefix_of_parts}

letter_plain : (c : ℕ) → is_lower_letter c ≡ true → (c == b'-') ≡ false
letter_plain c h = ground arith

-- Two letters, a dash and base 36 characters.
abbrev pub IsNamed : ℕ → ℕ → Text → Type 0
IsNamed a b rest =
    (is_lower_letter a ≡ true) × (is_lower_letter b ≡ true) × (all is_base36 rest ≡ true)

rest_runes : (rest : Text) → all is_base36 rest ≡ true → all is_id_rune rest ≡ true
rest_runes [] h = refl
rest_runes (c ∷ rest) h = ground (arith, rest_runes rest)

named_runes :
    (a b : ℕ) (rest : Text) → IsNamed a b rest → all is_id_rune (a ∷ b ∷ b'-' ∷ rest) ≡ true
named_runes a b rest n = ground (arith, rest_runes rest)

split_named :
    (a b : ℕ) (rest : Text)
    → IsNamed a b rest
    → split b'-' (a ∷ b ∷ b'-' ∷ rest) ≡ (a ∷ b ∷ [], (split b'-' rest).0 ∷ (split b'-' rest).1)
unfolding split
split_named a b rest n = ground (arith, letter_plain a n.0, letter_plain b n.1)

pub byte_len_letters :
    (a b : ℕ) → is_lower_letter a ≡ true → is_lower_letter b ≡ true → byte_len (a ∷ b ∷ []) ≡ 2
unfolding byte_len
byte_len_letters a b h k = ground arith

pub letters_trimmed :
    (a b : ℕ)
    → is_lower_letter a ≡ true
    → is_lower_letter b ≡ true
    → trim_space (a ∷ b ∷ []) ≡ a ∷ b ∷ []
letters_trimmed a b h k = trim_space_plain (a ∷ b ∷ []) (ground arith)

-- The store reads the two letters as the project.
pub project_named :
    (a b : ℕ) (rest : Text)
    → IsNamed a b rest
    → project_from_task_id (a ∷ b ∷ b'-' ∷ rest) ≡ a ∷ b ∷ []
unfolding project_from_task_id prefix_of_parts
project_named a b rest n =
    let runes = named_runes a b rest n in
    rw
      (
        to_lower_plain _ runes,
        trim_space_plain _ runes,
        split_named a b rest n,
        letters_trimmed a b n.0 n.1,
        byte_len_letters a b n.0 n.1,
      )
      (ground (arith, n.0, n.1))

normalize_prefix-letters :
    (raw p : Text) → normalize_prefix raw ≡ ok p → (all is_lower_letter p ≡ true) × (byte_len p ≡ 2)
unfolding normalize_prefix
normalize_prefix-letters raw p h = ground arith

byte_len_ascii : (p : Text) → all is_lower_letter p ≡ true → byte_len p ≡ length p
unfolding byte_len
byte_len_ascii [] h = refl
byte_len_ascii (c ∷ p) h = ground (arith, byte_len_ascii p)

-- An accepted prefix is two lower case letters.
pub normalize_prefix-shape :
    (raw p : Text)
    → normalize_prefix raw ≡ ok p
    → (a : ℕ) × (b : ℕ) × (p ≡ a ∷ b ∷ []) × (is_lower_letter a ≡ true) × (is_lower_letter b ≡ true)
normalize_prefix-shape raw p h =
    let (letters, two) = normalize_prefix-letters raw p h in
    two_letters p letters (sym (byte_len_ascii p letters) ∙ two)
  where
    two_letters :
        (s : Text)
        → all is_lower_letter s ≡ true
        → length s ≡ 2
        → (a : ℕ) × (b : ℕ) × (s ≡ a ∷ b ∷ [])
          × (is_lower_letter a ≡ true)
          × (is_lower_letter b ≡ true)
    two_letters [] l n = absurd (omega arith)
    two_letters (a ∷ []) l n = absurd (omega arith)
    two_letters (a ∷ b ∷ []) l n = (a, b, refl, ground arith, ground arith)
    two_letters (a ∷ b ∷ c ∷ s) l n = absurd (omega arith)

letters_runes :
    (c d : ℕ)
    → is_lower_letter c ≡ true
    → is_lower_letter d ≡ true
    → all is_id_rune (c ∷ d ∷ []) ≡ true
letters_runes c d h k = ground arith

has_prefix_two :
    (a b c d : ℕ) (rest : Text)
    → has_prefix (a ∷ b ∷ b'-' ∷ rest) (c ∷ d ∷ b'-' ∷ []) ≡ ((a ∷ b ∷ []) == (c ∷ d ∷ []))
unfolding has_prefix list_beq
has_prefix_two a b c d rest = refl

belongs_named :
    (a b c d : ℕ) (rest : Text)
    → IsNamed a b rest
    → is_lower_letter c ≡ true
    → is_lower_letter d ≡ true
    → task_id_belongs_to_project (a ∷ b ∷ b'-' ∷ rest) (c ∷ d ∷ [])
      ≡ (project_from_task_id (a ∷ b ∷ b'-' ∷ rest) == (c ∷ d ∷ []))
unfolding task_id_belongs_to_project
belongs_named a b c d rest n hc hd =
    let runes = named_runes a b rest n in
    let letters = letters_runes c d hc hd in
    rw
      (
        to_lower_plain (a ∷ b ∷ b'-' ∷ rest) runes,
        trim_space_plain (a ∷ b ∷ b'-' ∷ rest) runes,
        to_lower_plain (c ∷ d ∷ []) letters,
        trim_space_plain (c ∷ d ∷ []) letters,
        byte_len_letters c d hc hd,
        has_prefix_two a b c d rest,
        project_named a b rest n,
      )
      refl

-- The services and the store agree on the project of an id: for an id that the validation accepts
-- and a project that the validation returned, the services' test holds exactly when the store reads
-- that project off the id.
pub belongs_agrees :
    (id raw project : Text)
    → validate_id id ≡ true
    → normalize_prefix raw ≡ ok project
    → task_id_belongs_to_project id project ≡ (project_from_task_id id == project)
belongs_agrees id raw project v h =
    let (a, b, rest, e, la, lb, lr, _) = validate_id-shape id v in
    let (c, d, f, lc, ld) = normalize_prefix-shape raw project h in
    rw (e, f) (belongs_named a b c d rest (la, lb, lr) lc ld)
