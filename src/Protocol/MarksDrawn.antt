-- ===== src/Protocol/MarksDrawn.antt =====
-- What crates/protocol/src/paper.rs draws of a paper: how many marks, in which order, and which
-- papers share them.
use v_note.Base.{
  ℕ, zero, suc, ◌+◌, ◌≤◌, ◌≡◌, refl, Bool, true, false, List, [], ◌∷◌, ◌++◌, Option, none, some,
  map, length, length-append, arith, retain, retain-append, append-nil, ap₂, ◌∙◌, if◌then◌else◌,
}
use v_note.Protocol.Float.{Float}
use v_note.Protocol.Paper.{Paper, blank}
use v_note.Protocol.PaperMarks.{
  PaperMark, PaperMarkKind, WorldViewport, rule, column, margin, paper_marks, visit_multiples,
  family_marks, margin_marks, multiples, mark, rule_spacing, column_spacing, is_drawable,
  max_paper_marks_per_axis,
}

if_nil : {A : Type 0} (b : Bool) → ◌≡◌ {A = List A} [] (if b then [] else [])
if_nil true = refl
if_nil false = refl

abbrev pub is_kind : PaperMarkKind → PaperMarkKind → Bool
is_kind rule rule = true
is_kind rule column = false
is_kind rule margin = false
is_kind column column = true
is_kind column rule = false
is_kind column margin = false
is_kind margin margin = true
is_kind margin rule = false
is_kind margin column = false

module _ (f : Float) where
  open f use {F64, literal, min, sub, of_u32, to_usize, le, ceil, floor, div}

  -- `(x.min(4096.0 - 1.0)) as usize` is at most 4095.
  abbrev pub IsCapped : Type 0
  IsCapped =
      (x : F64) → to_usize (min x (sub (literal max_paper_marks_per_axis 1) (literal 1 1))) ≤ 4095

  length-multiples :
      (pitch first : F64) (step count : ℕ) → length (multiples f pitch first step count) ≡ count
  length-multiples pitch first step zero = refl
  length-multiples pitch first step (suc count) =
      omega (arith, length-multiples pitch first (suc step) count)

  length-visit_multiples :
      (pitch low high : F64) → IsCapped → length (visit_multiples f pitch low high) ≤ 4096
  unfolding visit_multiples
  length-visit_multiples pitch low high capped = ground (
    arith,
    length-multiples pitch (ceil (div low pitch)) 0 (
        to_usize (
          min (sub (floor (div high pitch)) (ceil (div low pitch)))
            (sub (literal max_paper_marks_per_axis 1) (literal 1 1)))
        + 1),
    capped (sub (floor (div high pitch)) (ceil (div low pitch))),
  )

  length-map : (kind : PaperMarkKind) (xs : List F64) → length (map (mark f kind) xs) ≡ length xs
  length-map kind [] = refl
  length-map kind (x ∷ xs) = omega (arith, length-map kind xs)

  length-family_marks :
      (kind : PaperMarkKind) (spacing : Option F64) (scale low high : F64)
      → IsCapped
      → length (family_marks f kind spacing scale low high) ≤ 4096
  length-family_marks kind none scale low high capped = omega arith
  length-family_marks kind (some pitch) scale low high capped = ground (
    arith,
    length-map kind (visit_multiples f pitch low high),
    length-visit_multiples pitch low high capped,
  )

  -- Whatever the viewport, no more than 4096 rules, 4096 columns and one margin are drawn.
  pub length-paper_marks :
      (paper : Paper) (v : WorldViewport F64) → IsCapped → length (paper_marks f paper v) ≤ 8193
  unfolding paper_marks
  length-paper_marks paper v capped =
      let rules = family_marks f rule (rule_spacing f paper) v.scale v.min_y v.max_y in
      let columns = family_marks f column (column_spacing f paper) v.scale v.min_x v.max_x in
      ground (
        arith,
        length-append rules (columns ++ margin_marks f paper v),
        length-append columns (margin_marks f paper v),
        length-family_marks rule (rule_spacing f paper) v.scale v.min_y v.max_y capped,
        length-family_marks column (column_spacing f paper) v.scale v.min_x v.max_x capped,
      )

  abbrev pub of_kind : PaperMarkKind → List (PaperMark F64) → List (PaperMark F64)
  of_kind kind = retain (λ m. is_kind kind m.kind)

  of_kind-map :
      (kind other : PaperMarkKind) (xs : List F64)
      → of_kind kind (map (mark f other) xs)
        ≡ (if is_kind kind other then map (mark f other) xs else [])
  of_kind-map kind other [] = if_nil (is_kind kind other)
  of_kind-map kind other (x ∷ xs) = ground (arith, of_kind-map kind other xs)

  of_kind-family_marks :
      (kind other : PaperMarkKind) (spacing : Option F64) (scale low high : F64)
      → of_kind kind (family_marks f other spacing scale low high)
        ≡ (if is_kind kind other then family_marks f other spacing scale low high else [])
  of_kind-family_marks kind other none scale low high = if_nil (is_kind kind other)
  of_kind-family_marks kind other (some pitch) scale low high =
      ground (arith, of_kind-map kind other (visit_multiples f pitch low high))

  of_kind-margin_marks :
      (kind : PaperMarkKind) (paper : Paper) (v : WorldViewport F64)
      → of_kind kind (margin_marks f paper v)
        ≡ (if is_kind kind margin then margin_marks f paper v else [])
  of_kind-margin_marks kind paper v = ground arith

  only_if : PaperMarkKind → PaperMarkKind → List (PaperMark F64) → List (PaperMark F64)
  only_if kind other ms = if is_kind kind other then ms else []

  of_kind-parts :
      (kind : PaperMarkKind) (paper : Paper) (v : WorldViewport F64)
      → of_kind kind (
          family_marks f rule (rule_spacing f paper) v.scale v.min_y v.max_y
          ++ (family_marks f column (column_spacing f paper) v.scale v.min_x v.max_x
              ++ margin_marks f paper v))
        ≡ only_if kind rule (family_marks f rule (rule_spacing f paper) v.scale v.min_y v.max_y)
          ++ (only_if kind column
                (family_marks f column (column_spacing f paper) v.scale v.min_x v.max_x)
              ++ only_if kind margin (margin_marks f paper v))
  unfolding only_if
  of_kind-parts kind paper v =
      let rules = family_marks f rule (rule_spacing f paper) v.scale v.min_y v.max_y in
      let columns = family_marks f column (column_spacing f paper) v.scale v.min_x v.max_x in
      let margins = margin_marks f paper v in
      retain-append _ rules (columns ++ margins)
      ∙ ap₂ ◌++◌ (of_kind-family_marks kind rule (rule_spacing f paper) v.scale v.min_y v.max_y) (
          retain-append _ columns margins
          ∙ ap₂ ◌++◌
              (of_kind-family_marks kind column (column_spacing f paper) v.scale v.min_x v.max_x)
              (of_kind-margin_marks kind paper v))

  -- Marks are drawn in the order rules, columns, margin, whatever the paper and the viewport.
  pub paper_marks_in_order :
      (paper : Paper) (v : WorldViewport F64)
      → paper_marks f paper v
        ≡ of_kind rule (paper_marks f paper v)
          ++ (of_kind column (paper_marks f paper v) ++ of_kind margin (paper_marks f paper v))
  unfolding paper_marks only_if
  paper_marks_in_order paper v = ground (
    arith,
    of_kind-parts rule paper v,
    of_kind-parts column paper v,
    of_kind-parts margin paper v,
    append-nil (family_marks f rule (rule_spacing f paper) v.scale v.min_y v.max_y),
    append-nil (family_marks f column (column_spacing f paper) v.scale v.min_x v.max_x),
  )

  of_kind-rule :
      (paper : Paper) (v : WorldViewport F64)
      → of_kind rule (paper_marks f paper v) ≡ (
          if is_drawable f v
          then family_marks f rule (rule_spacing f paper) v.scale v.min_y v.max_y
          else [])
  unfolding paper_marks only_if rule_spacing
  of_kind-rule blank v = ground arith
  of_kind-rule paper v = ground (
    arith,
    of_kind-parts rule paper v,
    append-nil (family_marks f rule (rule_spacing f paper) v.scale v.min_y v.max_y),
  )

  -- Papers with the same rule spacing have the same rules in every viewport: changing between a
  -- ruled and a squared paper of one pitch moves no horizontal line.
  pub rules_of_spacing :
      (p q : Paper) (v : WorldViewport F64)
      → rule_spacing f p ≡ rule_spacing f q
      → of_kind rule (paper_marks f p v) ≡ of_kind rule (paper_marks f q v)
  rules_of_spacing p q v e = ground (arith, of_kind-rule p v, of_kind-rule q v)
