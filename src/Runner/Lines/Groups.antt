-- ===== src/Runner/Lines/Groups.antt =====
-- The processes of a run print in parallel: the lines of one do not change the sources of another's.
use distributed_verification.Prelude.{
  ◌≡◌, refl, sym, ◌∙◌, inl, inr, false, Option, none, some, List, [], ◌∷◌, arith, Text, text_eq,
  text_eq_iff, text_eq_refl, Bool-cases, select, get_or, put, get_or-put,
}
use distributed_verification.Runs.{truthy_text}
use distributed_verification.Runner.Lines.{
  Line, Current, identify_test, continue_source, source_of, attribute, attribute_all,
}

get_or-put_ne :
    (tag key : Text) (v : Option Text) (current : Current)
    → text_eq key tag ≡ false
    → get_or none tag (put key v current) ≡ get_or none tag current
get_or-put_ne tag key v current other = get_or-put none key tag v current ∙ rw other refl

get_or-put_self :
    (key : Text) (v : Option Text) (current : Current) → get_or none key (put key v current) ≡ v
get_or-put_self key v current = get_or-put none key key v current ∙ rw (text_eq_refl key) refl

-- A line changes the current test of its own group only.
continue_other :
    (tag : Text) (l : Line) (o : Option Text) (current : Current)
    → text_eq l.tag tag ≡ false
    → get_or none tag (continue_source l o current).1 ≡ get_or none tag current
unfolding continue_source
continue_other tag l none current other = ground (arith, get_or-put_ne tag l.tag none current other)
continue_other tag l (some t) current other =
    ground (arith, get_or-put_ne tag l.tag none current other)

source_of_other :
    (tag : Text) (o : Option Text) (l : Line) (current : Current)
    → text_eq l.tag tag ≡ false
    → get_or none tag (source_of o l current).1 ≡ get_or none tag current
unfolding source_of
source_of_other tag none l current other = continue_other tag l _ current other
source_of_other tag (some t) l current other = get_or-put_ne tag l.tag (some t) current other

-- With the same current test of its group a line gets the same source, and leaves the same.
continue_same :
    (l : Line) (o : Option Text) (c d : Current)
    → get_or none l.tag c ≡ get_or none l.tag d
    → ((continue_source l o c).0 ≡ (continue_source l o d).0)
      × (get_or none l.tag (continue_source l o c).1 ≡ get_or none l.tag (continue_source l o d).1)
unfolding continue_source
continue_same l none c d e =
    (refl, ground (arith, get_or-put_self l.tag none c, get_or-put_self l.tag none d))
continue_same l (some t) c d e =
    (ground arith, ground (arith, get_or-put_self l.tag none c, get_or-put_self l.tag none d))

source_of_same :
    (o : Option Text) (l : Line) (c d : Current)
    → get_or none l.tag c ≡ get_or none l.tag d
    → ((source_of o l c).0 ≡ (source_of o l d).0)
      × (get_or none l.tag (source_of o l c).1 ≡ get_or none l.tag (source_of o l d).1)
unfolding source_of
source_of_same none l c d e = rw e (continue_same l (truthy_text (get_or none l.tag d)) c d e)
source_of_same (some t) l c d e =
    (refl, get_or-put_self l.tag (some t) c ∙ sym (get_or-put_self l.tag (some t) d))

module _ (strip : Text → Text) (test_nodeids : List Text) where
  -- The lines of one process get the sources that they would get if no other process printed.
  pub attribute_all_alone :
      (tag : Text) (ls : List Line) (c d : Current)
      → get_or none tag c ≡ get_or none tag d
      → select (λ (p : Line × Text). text_eq p.0.tag tag) (attribute_all strip test_nodeids c ls).0
        ≡ (attribute_all strip test_nodeids d (select (λ l. text_eq l.tag tag) ls)).0
  unfolding attribute_all attribute
  attribute_all_alone tag [] c d e = refl
  attribute_all_alone tag (l ∷ ls) c d e =
      let found = truthy_text (identify_test strip test_nodeids l.text) in
      elim (Bool-cases (text_eq l.tag tag)) [
        | inl same ↦
            let tag_eq : l.tag ≡ tag = (text_eq_iff l.tag tag).0 same in
            let (source, next) = source_of_same found l c d (rw tag_eq e) in
            let next_tag : get_or none tag (source_of found l c).1
                ≡ get_or none tag (source_of found l d).1 =
              rw (sym tag_eq) next in
            let rest =
              attribute_all_alone tag ls (attribute strip test_nodeids c l).1
                (attribute strip test_nodeids d l).1 next_tag in
            rw same (λ i. (l, source i) ∷ rest i)
        | inr other ↦ rw other (
            attribute_all_alone tag ls (attribute strip test_nodeids c l).1 d
              (source_of_other tag found l c other ∙ e))
      ]
