-- ===== src/Server/Validation/Labels.antt =====
-- The order of strings, sorting, and the distinctness of the labels that `normalizeLabels` collects.
use grns.Base.{
  ◌≡◌, refl, ap, ◌∙◌, Bool, true, false, ◌&&◌, ◌||◌, List, [], ◌∷◌, arith, ◌==◌, nat_eq, eq_refl,
  contains, append_new, append_new-distinct, distinct, all,
}
use grns.Base.Text.{Text, text_eq, text_ltb}
use grns.Errors.{ok}
use grns.Errors.Laws.{>>=-eq-ok}
use grns.Server.Validation.{normalize_label, collect_labels, insert_sorted, sort_strings}

pub text_ltb_irrefl : (s : Text) → text_ltb s s ≡ false
unfolding text_ltb
text_ltb_irrefl [] = refl
text_ltb_irrefl (c ∷ s) = ground (arith, text_ltb_irrefl s)

pub text_ltb_trans :
    (s t u : Text) → text_ltb s t ≡ true → text_ltb t u ≡ true → text_ltb s u ≡ true
unfolding text_ltb
text_ltb_trans [] [] u h k = cc
text_ltb_trans [] (d ∷ t) [] h k = cc
text_ltb_trans [] (d ∷ t) (e ∷ u) h k = refl
text_ltb_trans (c ∷ s) [] u h k = cc
text_ltb_trans (c ∷ s) (d ∷ t) [] h k = cc
text_ltb_trans (c ∷ s) (d ∷ t) (e ∷ u) h k = ground (arith, text_ltb_trans s t u)

text_ltb_connected : (s t : Text) → text_ltb s t ≡ false → text_ltb t s ≡ false → s ≡ t
unfolding text_ltb
text_ltb_connected [] [] h k = refl
text_ltb_connected [] (d ∷ t) h k = cc
text_ltb_connected (c ∷ s) [] h k = cc
text_ltb_connected (c ∷ s) (d ∷ t) h k = ground (arith, text_ltb_connected s t)

-- Each label is smaller than all behind it.
abbrev pub IsStrictlySorted : List Text → Type 0
IsStrictlySorted [] = Unit
IsStrictlySorted (l ∷ ls) = (all (text_ltb l) ls ≡ true) × IsStrictlySorted ls

all-insert_sorted :
    (p : Text → Bool) (l : Text) (ms : List Text) → all p (insert_sorted l ms) ≡ (p l && all p ms)
unfolding insert_sorted
all-insert_sorted p l [] = refl
all-insert_sorted p l (m ∷ ms) = ground (arith, all-insert_sorted p l ms)

contains-insert_sorted :
    (l : Text) (ms : List Text) (a : Text)
    → contains (insert_sorted l ms) a ≡ ((l == a) || contains ms a)
unfolding insert_sorted contains
contains-insert_sorted l [] a = refl
contains-insert_sorted l (m ∷ ms) a = ground (arith, contains-insert_sorted l ms a)

above_trans :
    (l m : Text) (ms : List Text)
    → text_ltb l m ≡ true
    → all (text_ltb m) ms ≡ true
    → all (text_ltb l) ms ≡ true
above_trans l m [] h k = refl
above_trans l m (n ∷ ms) h k = ground (arith, text_ltb_trans l m n, above_trans l m ms)

insert_sorted-IsStrictlySorted :
    (l : Text) (ms : List Text)
    → contains ms l ≡ false
    → IsStrictlySorted ms
    → IsStrictlySorted (insert_sorted l ms)
unfolding insert_sorted contains
insert_sorted-IsStrictlySorted l [] n s = (refl, tt)
insert_sorted-IsStrictlySorted l (m ∷ ms) n s = ground (
  arith,
  insert_sorted-IsStrictlySorted l ms,
  all-insert_sorted (text_ltb m) l ms,
  above_trans l m ms,
  text_ltb_connected m l,
  eq_refl m,
)

pub contains-sort_strings :
    (ls : List Text) (a : Text) → contains (sort_strings ls) a ≡ contains ls a
unfolding sort_strings contains
contains-sort_strings [] a = refl
contains-sort_strings (l ∷ ls) a =
    ground (arith, contains-insert_sorted l (sort_strings ls) a, contains-sort_strings ls a)

pub sort_strings-IsStrictlySorted :
    (ls : List Text) → distinct ls ≡ true → IsStrictlySorted (sort_strings ls)
unfolding sort_strings distinct
sort_strings-IsStrictlySorted [] d = tt
sort_strings-IsStrictlySorted (l ∷ ls) d =
    insert_sorted-IsStrictlySorted l (sort_strings ls) (contains-sort_strings ls l ∙ ground arith)
      (sort_strings-IsStrictlySorted ls (ground arith))

pub insert_sorted_below :
    (l : Text) (ms : List Text) → all (text_ltb l) ms ≡ true → insert_sorted l ms ≡ l ∷ ms
unfolding insert_sorted
insert_sorted_below l [] h = refl
insert_sorted_below l (m ∷ ms) h = ground (arith, text_ltb_trans l m l, text_ltb_irrefl l)

pub sort_strings_sorted : (ls : List Text) → IsStrictlySorted ls → sort_strings ls ≡ ls
unfolding sort_strings
sort_strings_sorted [] s = refl
sort_strings_sorted (l ∷ ls) s =
    ap (insert_sorted l) (sort_strings_sorted ls s.1) ∙ insert_sorted_below l ls s.0

-- The loop keeps its labels distinct.
pub collect_labels-distinct :
    (acc values out : List Text)
    → distinct acc ≡ true
    → collect_labels acc values ≡ ok out
    → distinct out ≡ true
unfolding collect_labels
collect_labels-distinct acc [] out d h = ground arith
collect_labels-distinct acc (v ∷ vs) out d h =
    let (label, _, rest) = >>=-eq-ok (normalize_label v) _ h in
    collect_labels-distinct (append_new acc label) vs out (append_new-distinct acc label d) rest
