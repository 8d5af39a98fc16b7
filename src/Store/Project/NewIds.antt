-- ===== src/Store/Project/NewIds.antt =====
-- `GenerateID`: what it returns is a new and valid id of its project, and when it returns one.
use grns.Base.{
  ◌↔◌, length-map, ◌-◌, map, ltb, if◌then◌else◌, ℕ, zero, suc, ◌+◌, ◌%◌, ◌<◌, ◌≤◌, ◌≡◌, ◌≢◌, refl,
  ap, ◌∙◌, sym, subst, Bool, true, false, List, [], ◌∷◌, ◌++◌, arith, nat_eq, some, all, length,
  is_empty, Bool-cases, inl, inr,
}
use grns.Base.Text.{Text, text_eq, is_lower_letter}
use grns.Errors.{Result, ok, IfOk}
use grns.Errors.Laws.{IfOk-apply, IfOk-bind, IfOk-if, IfOk-self}
use grns.Server.Validation.Ids.{validate_id-shape, to_lower_plain}
use grns.Server.Validation.{validate_id, is_base36, normalize_prefix}
use grns.Store.Project.{
  project_from_task_id, base36_char, random_base36, generate_from, generate_id, id_max_attempts,
}
use grns.Store.Project.Laws.{
  project_named, normalize_prefix-shape, letters_trimmed, byte_len_letters,
}

base36_char-is_base36 : (i : ℕ) → i < 36 → is_base36 (base36_char i) ≡ true
unfolding base36_char
base36_char-is_base36 i h = ground arith

random_base36-all : (bytes : List ℕ) → all is_base36 (random_base36 bytes) ≡ true
unfolding random_base36
random_base36-all [] = refl
random_base36-all (b ∷ bytes) =
    ground (arith, base36_char-is_base36 (b % 36), random_base36-all bytes)

-- Four bytes behind a good prefix make an id.
new_id-valid :
    (a b : ℕ) (bytes : List ℕ)
    → is_lower_letter a ≡ true
    → is_lower_letter b ≡ true
    → length bytes ≡ 4
    → validate_id ((a ∷ b ∷ []) ++ b'-' ∷ random_base36 bytes) ≡ true
unfolding validate_id random_base36
new_id-valid a b (w ∷ x ∷ y ∷ z ∷ []) la lb n =
    ground (arith, random_base36-all (w ∷ x ∷ y ∷ z ∷ []))
new_id-valid a b [] la lb n = absurd (omega arith)
new_id-valid a b (w ∷ []) la lb n = absurd (omega arith)
new_id-valid a b (w ∷ x ∷ []) la lb n = absurd (omega arith)
new_id-valid a b (w ∷ x ∷ y ∷ []) la lb n = absurd (omega arith)
new_id-valid a b (w ∷ x ∷ y ∷ z ∷ _ ∷ bytes) la lb n = absurd (omega arith)

-- What an attempt must have produced.
abbrev pub IsNewId : (Text → Result Bool) → ℕ → ℕ → Text → Type 0
IsNewId exists a b id =
    (validate_id id ≡ true) × (project_from_task_id id ≡ a ∷ b ∷ []) × (exists id ≡ ok false)

generate_from-new :
    (exists : Text → Result Bool) (draw : ℕ → Result (List ℕ)) (a b left n : ℕ)
    → is_lower_letter a ≡ true
    → is_lower_letter b ≡ true
    → ((i : ℕ) → IfOk (λ bytes. length bytes ≡ 4) (draw i))
    → IfOk (IsNewId exists a b) (generate_from (a ∷ b ∷ []) (some exists) draw left n)
unfolding generate_from
generate_from-new exists draw a b zero n la lb four = tt
generate_from-new exists draw a b (suc left) n la lb four =
    IfOk-bind _ (IsNewId exists a b) (draw n) _ (four n) λ bytes size.
      let id = (a ∷ b ∷ []) ++ b'-' ∷ random_base36 bytes in
      IfOk-bind _ (IsNewId exists a b) (exists id) _ (IfOk-self (exists id)) λ found e.
        IfOk-if (IsNewId exists a b) found _ _
          (λ _. generate_from-new exists draw a b left (suc n) la lb four)
          (λ free. (
            new_id-valid a b bytes la lb size,
            project_named a b (random_base36 bytes) (la, lb, random_base36-all bytes),
            e ∙ ap ok free,
          ))

-- For a project prefix that the validation returned, and if each read of randomness that succeeds
-- fills its four bytes: an id that is returned has the shape of an id, belongs to the project, and
-- was found to be free.
pub generate_id-new :
    (exists : Text → Result Bool) (draw : ℕ → Result (List ℕ)) (raw prefix id : Text)
    → normalize_prefix raw ≡ ok prefix
    → ((i : ℕ) → IfOk (λ bytes. length bytes ≡ 4) (draw i))
    → generate_id prefix (some exists) draw ≡ ok id
    → (validate_id id ≡ true) × (project_from_task_id id ≡ prefix) × (exists id ≡ ok false)
unfolding generate_id
generate_id-new exists draw raw prefix id h four e =
    let (a, b, p, la, lb) = normalize_prefix-shape raw prefix h in
    let e' = subst (λ q. generate_id q (some exists) draw ≡ ok id) p e in
    let (valid, project, free) =
      IfOk-apply (IsNewId exists a b) _ id e'
        (generate_from-new exists draw a b id_max_attempts 0 la lb four) in
    (valid, project ∙ sym p, free)

-- The id of one attempt.
abbrev pub attempt : Text → (ℕ → List ℕ) → ℕ → Text
attempt prefix bytes i = prefix ++ b'-' ∷ random_base36 (bytes i)

generate_from-succeeds :
    (taken : Text → Bool) (bytes : ℕ → List ℕ) (prefix : Text) (left n i : ℕ)
    → n ≤ i
    → i < n + left
    → taken (attempt prefix bytes i) ≡ false
    → (id : Text) × (generate_from prefix (some (λ id. ok (taken id))) (λ k. ok (bytes k)) left n
        ≡ ok id)
unfolding generate_from
generate_from-succeeds taken bytes prefix zero n i low high free = absurd (omega arith)
generate_from-succeeds taken bytes prefix (suc left) n i low high free =
    elim (Bool-cases (taken (attempt prefix bytes n))) [
      | inl e ↦
          let next : suc n ≤ i = later e in
          rw e (generate_from-succeeds taken bytes prefix left (suc n) i next (omega arith) free)
      | inr e ↦ (attempt prefix bytes n, rw e)
    ]
  where
    later : taken (attempt prefix bytes n) ≡ true → suc n ≤ i
    later e = omega (arith, differs)
      where
        differs : n ≢ i
        differs p = cc (ap (λ k. taken (attempt prefix bytes k)) p)

-- While neither the randomness nor the look-up fails, the twenty attempts give an id as soon as one
-- of them is free.
pub generate_id-succeeds :
    (taken : Text → Bool) (bytes : ℕ → List ℕ) (prefix : Text) (i : ℕ)
    → is_empty prefix ≡ false
    → i < 20
    → taken (attempt prefix bytes i) ≡ false
    → (id : Text) × (generate_id prefix (some (λ id. ok (taken id))) (λ k. ok (bytes k)) ≡ ok id)
unfolding generate_id
generate_id-succeeds taken bytes prefix i named small free =
    rw named (generate_from-succeeds taken bytes prefix 20 0 i (omega arith) (omega arith) free)

-- The byte for which `base36_char` gives the character.
abbrev base36_byte : ℕ → ℕ
base36_byte c = if ltb c b'a' then c - b'0' else c - b'a' + 10

base36_char_of : (c : ℕ) → is_base36 c ≡ true → base36_char (base36_byte c % 36) ≡ c
unfolding base36_char
base36_char_of c h = ground arith

random_base36_of : (s : Text) → all is_base36 s ≡ true → random_base36 (map base36_byte s) ≡ s
unfolding random_base36
random_base36_of [] h = refl
random_base36_of (c ∷ s) h = ground (arith, base36_char_of c, random_base36_of s)

normalize_prefix_letters :
    (a b : ℕ)
    → is_lower_letter a ≡ true
    → is_lower_letter b ≡ true
    → normalize_prefix (a ∷ b ∷ []) ≡ ok (a ∷ b ∷ [])
unfolding normalize_prefix
normalize_prefix_letters a b la lb = ground (
  arith,
  letters_trimmed a b la lb,
  to_lower_plain (a ∷ b ∷ []) (ground arith),
  byte_len_letters a b la lb,
)

-- The draws of randomness that give the id, if none is taken.
abbrev pub Drawn : Text → Type 0
Drawn id =
    (prefix : Text) × (bytes : List ℕ) × (normalize_prefix prefix ≡ ok prefix)
    × (length bytes ≡ 4)
    × (generate_id prefix (some (λ found. ok false)) (λ attempt. ok bytes) ≡ ok id)

Drawn-of : (id : Text) → validate_id id ≡ true → Drawn id
unfolding generate_id generate_from
Drawn-of id v =
    let (a, b, rest, e, la, lb, lr, four) = validate_id-shape id v in
    (
      a ∷ b ∷ [],
      map base36_byte rest,
      normalize_prefix_letters a b la lb,
      length-map rest base36_byte ∙ four,
      ap (λ s. ok (a ∷ b ∷ b'-' ∷ s)) (random_base36_of rest lr) ∙ ap ok (sym e),
    )

-- The validation accepts exactly the ids that can be generated: for an accepted id there are a
-- prefix that the validation of prefixes returns and four bytes from which it is generated when
-- nothing is taken, and an id that is generated from such a prefix and four bytes is accepted.
pub validate_id-Drawn : (id : Text) → (validate_id id ≡ true) ↔ Drawn id
validate_id-Drawn id = (
  Drawn-of id,
  λ d. (generate_id-new (λ found. ok false) (λ attempt. ok d.1) d.0 d.0 id d.2 (λ i. d.3) d.4).0,
)
