-- ===== src/Server/Validation/Canonical.antt =====
-- The labels that `normalizeLabels` returns: in strict order, canonical, and a fixed point.
use grns.Base.{
  ℕ, ◌≡◌, refl, ap, ◌∙◌, sym, true, false, not, List, [], ◌∷◌, ◌++◌, arith, nat_eq, subst, contains,
  append_new, contains-append, distinct, is_empty, all, Bool-cases, &&-eq-true, inl, inr,
}
use grns.Base.Text.{Text, text_eq, text_ltb, trim_space, to_lower, is_space, lower_rune}
use grns.Base.Text.Laws.{to_lower_idem, trim_space_idem, trim_space-to_lower}
use mathlib.Core.List.{append-nil, append_assoc}
use grns.Errors.{ok}
use grns.Errors.Laws.{>>=-eq-ok}
use grns.Server.Validation.{
  label_rune, normalize_label, normalize_labels, collect_labels, insert_sorted, sort_strings,
}
use grns.Server.Validation.Labels.{
  IsStrictlySorted, sort_strings-IsStrictlySorted, sort_strings_sorted, collect_labels-distinct,
  text_ltb_irrefl,
}

-- What one label becomes is a label that stays as it is.
abbrev pub IsCanonical : Text → Type 0
IsCanonical l = normalize_label l ≡ ok l

label_rune-lower_rune : (c : ℕ) → label_rune c ≡ true → label_rune (lower_rune c) ≡ true
unfolding label_rune lower_rune is_space
label_rune-lower_rune c h = ground arith

all-to_lower : (s : Text) → all label_rune s ≡ true → all label_rune (to_lower s) ≡ true
unfolding to_lower
all-to_lower [] h = refl
all-to_lower (c ∷ s) h = ground (arith, label_rune-lower_rune c, all-to_lower s)

is_empty-to_lower : (s : Text) → is_empty (to_lower s) ≡ is_empty s
unfolding to_lower
is_empty-to_lower [] = refl
is_empty-to_lower (c ∷ s) = refl

pub normalize_label-IsCanonical : (raw l : Text) → normalize_label raw ≡ ok l → IsCanonical l
unfolding normalize_label
normalize_label-IsCanonical raw l h = ground (
  arith,
  trim_space-to_lower (trim_space raw),
  trim_space_idem raw,
  is_empty-to_lower (trim_space raw),
  all-to_lower (trim_space raw),
  to_lower_idem (trim_space raw),
)

abbrev pub AllCanonical : List Text → Type 0
AllCanonical [] = Unit
AllCanonical (l ∷ ls) = IsCanonical l × AllCanonical ls

AllCanonical-append_new :
    (acc : List Text) (a : Text)
    → AllCanonical acc
    → IsCanonical a
    → AllCanonical (append_new acc a)
unfolding append_new
AllCanonical-append_new acc a h k = elim (Bool-cases (contains acc a)) [
  | inl e ↦ rw e h
  | inr e ↦ rw e (appended acc h)
]
  where
    appended : (ls : List Text) → AllCanonical ls → AllCanonical (ls ++ a ∷ [])
    appended [] _ = (k, tt)
    appended (l ∷ ls) (p, q) = (p, appended ls q)

collect_labels-AllCanonical :
    (acc values out : List Text)
    → AllCanonical acc
    → collect_labels acc values ≡ ok out
    → AllCanonical out
unfolding collect_labels
collect_labels-AllCanonical acc [] out c h = subst AllCanonical (ground arith) c
collect_labels-AllCanonical acc (v ∷ vs) out c h =
    let (label, e, rest) = >>=-eq-ok (normalize_label v) _ h in
    collect_labels-AllCanonical (append_new acc label) vs out
      (AllCanonical-append_new acc label c (normalize_label-IsCanonical v label e)) rest

insert_sorted-AllCanonical :
    (l : Text) (ms : List Text)
    → IsCanonical l
    → AllCanonical ms
    → AllCanonical (insert_sorted l ms)
unfolding insert_sorted
insert_sorted-AllCanonical l [] c cs = (c, tt)
insert_sorted-AllCanonical l (m ∷ ms) c cs = elim (Bool-cases (text_ltb m l)) [
  | inl e ↦ rw e (cs.0, insert_sorted-AllCanonical l ms c cs.1)
  | inr e ↦ rw e (c, cs)
]

sort_strings-AllCanonical : (ls : List Text) → AllCanonical ls → AllCanonical (sort_strings ls)
unfolding sort_strings
sort_strings-AllCanonical [] c = tt
sort_strings-AllCanonical (l ∷ ls) c =
    insert_sorted-AllCanonical l (sort_strings ls) c.0 (sort_strings-AllCanonical ls c.1)

fresh_step :
    (acc : List Text) (v : Text) (ws : List Text)
    → all (λ w. not (contains acc w)) ws ≡ true
    → all (text_ltb v) ws ≡ true
    → all (λ w. not (contains (acc ++ v ∷ []) w)) ws ≡ true
unfolding contains
fresh_step acc v [] f s = refl
fresh_step acc v (w ∷ ws) f s = ground (
  arith,
  contains-append acc (v ∷ []) w,
  text_eq.beq_iff v w,
  text_ltb_irrefl w,
  fresh_step acc v ws,
)

none_in_nil : (ws : List Text) → all (λ w. not (contains [] w)) ws ≡ true
unfolding contains
none_in_nil [] = refl
none_in_nil (w ∷ ws) = none_in_nil ws

append_new_fresh :
    (acc : List Text) (v : Text) → contains acc v ≡ false → append_new acc v ≡ acc ++ v ∷ []
unfolding append_new
append_new_fresh acc v h = rw h

-- Canonical labels in strict order pass through the loop as they are.
collect_labels_canonical :
    (acc values : List Text)
    → AllCanonical values
    → IsStrictlySorted values
    → all (λ w. not (contains acc w)) values ≡ true
    → collect_labels acc values ≡ ok (acc ++ values)
unfolding collect_labels
collect_labels_canonical acc [] c s f = ap ok (sym (append-nil acc))
collect_labels_canonical acc (v ∷ vs) c s f =
    let (here, later) = &&-eq-true _ _ f in
    rw (c.0, append_new_fresh acc v (ground arith))
      (collect_labels_canonical (acc ++ v ∷ []) vs c.1 s.1 (fresh_step acc v vs later s.0)
        ∙ ap ok (append_assoc acc (v ∷ []) vs))

normalize_labels_fixed :
    (labels : List Text)
    → AllCanonical labels
    → IsStrictlySorted labels
    → normalize_labels labels ≡ ok labels
unfolding normalize_labels
normalize_labels_fixed labels c s =
    rw (collect_labels_canonical [] labels c s (none_in_nil labels))
      (ap ok (sort_strings_sorted labels s))

nil-distinct : distinct {A = Text} [] ≡ true
unfolding distinct
nil-distinct = refl

-- The labels that are accepted are stored in strict order (so each once), each is canonical, and
-- normalising them again changes nothing.
pub normalize_labels_canonical :
    (values labels : List Text)
    → normalize_labels values ≡ ok labels
    → IsStrictlySorted labels × AllCanonical labels × (normalize_labels labels ≡ ok labels)
unfolding normalize_labels
normalize_labels_canonical values labels h =
    let (found, e, e') = >>=-eq-ok (collect_labels [] values) _ h in
    let sorted =
      sort_strings-IsStrictlySorted found
        (collect_labels-distinct [] values found nil-distinct e) in
    let canonical =
      sort_strings-AllCanonical found (collect_labels-AllCanonical [] values found tt e) in
    subst (λ ls. IsStrictlySorted ls × AllCanonical ls × (normalize_labels ls ≡ ok ls))
      (ground (arith, e')) (sorted, canonical, normalize_labels_fixed _ canonical sorted)
