-- ===== src/Protocol/PaperMarks.antt =====
-- crates/protocol/src/paper.rs, the geometry of the papers: which lines a paper draws in a viewport.
use v_note.Base.{
  ℕ, zero, suc, ◌+◌, Bool, true, false, not, ◌&&◌, ◌||◌, String, List, [], ◌∷◌, ◌++◌, Option, none,
  some, map, if◌then◌else◌,
}
use v_note.Protocol.Float.{Float}
use v_note.Protocol.Paper.{
  Paper, blank, ruled_margin_narrow, ruled_margin_wide, ruled_narrow, ruled_wide, squared_small,
  squared_large,
}

unfoldable pub label : Paper → String
label blank = "None"
label ruled_margin_narrow = "Ruled, margin, narrow"
label ruled_margin_wide = "Ruled, margin, wide"
label ruled_narrow = "Ruled, narrow"
label ruled_wide = "Ruled, wide"
label squared_small = "Squared, small"
label squared_large = "Squared, large"

unfoldable pub has_margin : Paper → Bool
has_margin ruled_margin_narrow = true
has_margin ruled_margin_wide = true
has_margin blank = false
has_margin ruled_narrow = false
has_margin ruled_wide = false
has_margin squared_small = false
has_margin squared_large = false

abbrev pub is_blank : Paper → Bool
is_blank blank = true
is_blank ruled_margin_narrow = false
is_blank ruled_margin_wide = false
is_blank ruled_narrow = false
is_blank ruled_wide = false
is_blank squared_small = false
is_blank squared_large = false

unfoldable pub paper_has_texture : Paper → Bool
paper_has_texture paper = not (is_blank paper)

pub data PaperMarkKind : Type 0 where
  rule column margin : PaperMarkKind

unfoldable pub is_horizontal : PaperMarkKind → Bool
is_horizontal rule = true
is_horizontal column = false
is_horizontal margin = false

unfoldable pub color : PaperMarkKind → String
color rule = "#B0C4DE"
color column = "#B0C4DE"
color margin = "#E06C6C"

pub record Rgb : Type 0 where
  pub red : ℕ
  pub green : ℕ
  pub blue : ℕ

unfoldable pub color_rgb : PaperMarkKind → Rgb
color_rgb rule = record { red = 0xB0; green = 0xC4; blue = 0xDE }
color_rgb column = record { red = 0xB0; green = 0xC4; blue = 0xDE }
color_rgb margin = record { red = 0xE0; green = 0x6C; blue = 0x6C }

pub record PaperMark (F : Type 0) : Type 0 where
  pub kind : PaperMarkKind
  pub position : F

pub record WorldViewport (F : Type 0) : Type 0 where
  pub min_x : F
  pub min_y : F
  pub max_x : F
  pub max_y : F
  -- device pixels per world unit
  pub scale : F

abbrev pub max_paper_marks_per_axis : ℕ
max_paper_marks_per_axis = 4096

module _ (f : Float) where
  open f use {
    F64, literal, is_finite, le, lt, min, max, add, sub, mul, div, of_u32, neg, ceil, floor,
    to_usize,
  }

  abbrev pub rule_spacing_narrow : F64
  rule_spacing_narrow = literal 96 1

  abbrev pub rule_spacing_wide : F64
  rule_spacing_wide = literal 144 1

  abbrev pub margin_x : F64
  margin_x = literal 288 1

  abbrev pub min_paper_mark_device_pitch : F64
  min_paper_mark_device_pitch = literal 4 1

  unfoldable pub rule_spacing : Paper → Option F64
  rule_spacing blank = none
  rule_spacing ruled_margin_narrow = some rule_spacing_narrow
  rule_spacing ruled_narrow = some rule_spacing_narrow
  rule_spacing ruled_margin_wide = some rule_spacing_wide
  rule_spacing ruled_wide = some rule_spacing_wide
  rule_spacing squared_small = some rule_spacing_narrow
  rule_spacing squared_large = some rule_spacing_wide

  unfoldable pub column_spacing : Paper → Option F64
  column_spacing squared_small = some rule_spacing_narrow
  column_spacing squared_large = some rule_spacing_wide
  column_spacing blank = none
  column_spacing ruled_margin_narrow = none
  column_spacing ruled_margin_wide = none
  column_spacing ruled_narrow = none
  column_spacing ruled_wide = none

  unfoldable pub world_width : PaperMarkKind → F64
  world_width rule = literal 3 2
  world_width column = literal 3 2
  world_width margin = literal 2 1

  unfoldable pub is_drawable : WorldViewport F64 → Bool
  is_drawable v =
      is_finite v.min_x
      && (is_finite v.min_y
          && (is_finite v.max_x
              && (is_finite v.max_y
                  && (is_finite v.scale
                      && (lt (literal 0 1) v.scale
                          && (le v.min_x v.max_x && le v.min_y v.max_y))))))

  unfoldable pub paper_family_visible : F64 → F64 → Bool
  paper_family_visible pitch_world scale =
      is_finite pitch_world
      && (is_finite scale
          && (lt (literal 0 1) pitch_world
              && (lt (literal 0 1) scale
                  && le min_paper_mark_device_pitch (mul pitch_world scale))))

  unfoldable pub paper_mark_device_width : F64 → F64 → F64
  paper_mark_device_width width scale = max (mul width scale) (literal 1 1)

  -- `for step in from..from + count`.
  abbrev pub multiples : F64 → F64 → ℕ → ℕ → List F64
  multiples pitch first step zero = []
  multiples pitch first step (suc count) =
      mul (add first (of_u32 step)) pitch ∷ multiples pitch first (suc step) count

  -- The positions that it visits, in order.
  unfoldable pub visit_multiples : F64 → F64 → F64 → List F64
  visit_multiples pitch low high =
      let first = ceil (div low pitch) in
      let last = floor (div high pitch) in
      let span = min (sub last first) (sub (literal max_paper_marks_per_axis 1) (literal 1 1)) in
      let visited = multiples pitch first 0 (to_usize span + 1) in
      if not (is_finite pitch)
        || (le pitch (literal 0 1)
            || (not (is_finite low) || (not (is_finite high) || lt high low)))
      then []
      else if not (is_finite first) || (not (is_finite last) || lt last first)
      then []
      else visited

  abbrev pub mark : PaperMarkKind → F64 → PaperMark F64
  mark kind position = record { kind = kind; position = position }

  -- The marks of one family of parallel lines.
  abbrev pub family_marks : PaperMarkKind → Option F64 → F64 → F64 → F64 → List (PaperMark F64)
  family_marks kind none scale low high = []
  family_marks kind (some pitch) scale low high =
      if paper_family_visible pitch scale
      then map (mark kind) (visit_multiples pitch low high)
      else []

  abbrev pub margin_marks : Paper → WorldViewport F64 → List (PaperMark F64)
  margin_marks paper v =
      if has_margin paper && (le v.min_x margin_x && le margin_x v.max_x)
      then mark margin margin_x ∷ []
      else []

  -- `visit_paper_marks` with the marks in the order of the visits.
  unfoldable pub paper_marks : Paper → WorldViewport F64 → List (PaperMark F64)
  paper_marks paper v =
      if is_blank paper || not (is_drawable v)
      then []
      else family_marks rule (rule_spacing paper) v.scale v.min_y v.max_y
        ++ (family_marks column (column_spacing paper) v.scale v.min_x v.max_x
            ++ margin_marks paper v)

  abbrev pub or_narrow : Option F64 → F64
  or_narrow none = rule_spacing_narrow
  or_narrow (some pitch) = pitch

  abbrev pub or_zero : F64 → F64
  or_zero x = if is_finite x && lt (literal 0 1) x then x else literal 0 1

  unfoldable pub preview_viewport : Paper → F64 → F64 → WorldViewport F64
  preview_viewport paper width height =
      let width_px = or_zero width in
      let height_px = or_zero height in
      let pitch = or_narrow (rule_spacing paper) in
      let natural = div height_px (mul pitch (literal 4 1)) in
      let cull_floor = div (mul min_paper_mark_device_pitch (literal 5 4)) pitch in
      let scale = max natural cull_floor in
      let min_y = div (neg pitch) (literal 2 1) in
      record {
        min_x = literal 0 1;
        min_y = min_y;
        max_x = div width_px scale;
        max_y = add min_y (div height_px scale);
        scale = scale;
      }
