-- ===== src/Protocol/Tests.antt =====
-- The papers at concrete values.
use v_note.Base.{ℕ, ◌≡◌, ◌≤◌, refl, some, str_dec, length, arith}
use v_note.Protocol.Paper.{ruled_narrow, squared_small, wire_value, from_wire}
use v_note.Protocol.PaperMarks.{
  WorldViewport, paper_marks, rule_spacing, column_spacing, visit_multiples, paper_family_visible,
  is_drawable, has_margin,
}
use v_note.Protocol.PaperTexture.{paper_texture_alpha, paper_texture_hash}
use v_note.Protocol.MarksDrawn.{IsCapped, length-paper_marks}
use v_note.Samples.{whole}

squared_small-parses : from_wire "squared-small" ≡ some squared_small
unfolding from_wire wire_value str_dec
squared_small-parses = refl

abbrev viewport : WorldViewport ℕ
viewport = record { min_x = 0; min_y = 0; max_x = 400; max_y = 350; scale = 1 }

whole-IsCapped : IsCapped whole
whole-IsCapped x = omega arith

length-paper_marks_example : length (paper_marks whole squared_small viewport) ≤ 8193
length-paper_marks_example = length-paper_marks whole squared_small viewport whole-IsCapped

-- 96 divides what a `squared-small` page draws: four rules and five columns.
marks_drawn : length (paper_marks whole squared_small viewport) ≡ 9
unfolding paper_marks rule_spacing column_spacing visit_multiples paper_family_visible is_drawable
    has_margin
marks_drawn = refl

same_spacing : rule_spacing whole ruled_narrow ≡ rule_spacing whole squared_small
unfolding rule_spacing
same_spacing = refl

-- The samples of contracts/fixtures/paper-geometry.json.
texture_samples :
    (paper_texture_alpha 0 0 ≡ 1)
    × (paper_texture_alpha 1 0 ≡ 0)
    × (paper_texture_alpha 7 3 ≡ 15)
    × (paper_texture_alpha 13 29 ≡ 5)
unfolding paper_texture_alpha paper_texture_hash
texture_samples = (refl, refl, refl, refl)
