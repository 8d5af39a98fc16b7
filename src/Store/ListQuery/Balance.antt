-- ===== src/Store/ListQuery/Balance.antt =====
-- Every part of the list query writes one placeholder for each argument it adds.
use grns.Base.{◌≡◌, refl, List, [], ◌∷◌, ◌++◌, nat_eq, length, length-append, arith}
use grns.Base.Text.{Text, codes}
use grns.Store.ListQuery.Parts.{ListFilter, Arg, count, Builder}
use grns.Store.ListQuery.{
  join, write_where, build_order, add_limit, add_offset, build_pagination, build_list_query,
}
use grns.Store.ListQuery.Marks.{marks, marks-append, marks_all}
use grns.Store.ListQuery.Conditions.{IsBalanced, select-IsBalanced, conditions-IsBalanced}

-- What waited for the text is in it.
marks-join : (ss : List Text) → marks (join (codes " AND ") ss) ≡ marks_all ss
unfolding join marks marks_all codes
marks-join [] = refl
marks-join (s ∷ []) = omega arith
marks-join (s ∷ t ∷ ts) = omega (
  arith,
  marks-join (t ∷ ts),
  marks-append (s ++ codes " AND ") (join (codes " AND ") (t ∷ ts)),
  marks-append s (codes " AND "),
)

where_word : marks (codes " WHERE ") ≡ 0
unfolding marks codes
where_word = refl

-- The conditions are in the text, none waits.
IsWritten : Builder → Type 0
IsWritten b = marks b.query ≡ length b.args

where-IsWritten : (b : Builder) → IsBalanced b → IsWritten (write_where b)
unfolding write_where IsWritten marks_all
where-IsWritten b = written b.query b.args b.clauses
  where
    written :
        (q : Text) (xs : List Arg) (cs : List Text)
        → IsBalanced (record { query = q; args = xs; clauses = cs })
        → IsWritten (write_where (record { query = q; args = xs; clauses = cs }))
    written q xs [] h = omega (arith, h)
    written q xs (c ∷ cs) h = ground (
      arith,
      h,
      where_word,
      marks-append (q ++ codes " WHERE ") (join (codes " AND ") (c ∷ cs)),
      marks-append q (codes " WHERE "),
      marks-join (c ∷ cs),
    )

order-IsWritten : (f : ListFilter) (b : Builder) → IsWritten b → IsWritten (build_order f b)
unfolding build_order IsWritten marks codes
order-IsWritten f b h = ground (
  arith,
  h,
  marks-append b.query (codes " ORDER BY updated_at DESC"),
  marks-append b.query (codes " ORDER BY tasks_fts.rank"),
)

pagination-IsWritten :
    (f : ListFilter) (b : Builder) → IsWritten b → IsWritten (build_pagination f b)
unfolding build_pagination add_limit add_offset IsWritten marks codes
pagination-IsWritten f b h = ground (
  arith,
  h,
  marks-append b.query (codes " LIMIT ?"),
  marks-append b.query (codes " OFFSET ?"),
  marks-append (b.query ++ codes " LIMIT ?") [],
  marks-append (b.query ++ codes " LIMIT ?") (codes " OFFSET ?"),
  marks-append (b.query ++ codes " LIMIT ?" ++ []) (codes " OFFSET ?"),
  marks-append b.query (codes " LIMIT -1"),
  marks-append (b.query ++ codes " LIMIT -1") (codes " OFFSET ?"),
  length-append b.args (count f.limit ∷ []),
  length-append b.args (count f.offset ∷ []),
  length-append (b.args ++ count f.limit ∷ []) (count f.offset ∷ []),
)

-- For every filter, the text of the list query has exactly as many placeholders as there are
-- arguments to bind.
pub placeholders_match_arguments :
    (f : ListFilter) → marks (build_list_query f).0 ≡ length (build_list_query f).1
unfolding build_list_query IsWritten
placeholders_match_arguments f =
    pagination-IsWritten f _
      (order-IsWritten f _ (where-IsWritten _ (conditions-IsBalanced f _ (select-IsBalanced f))))
