-- ===== src/Protocol/Paper.antt =====
-- crates/protocol/src/paper.rs: the papers, their wire values and their spacings.
use v_note.Base.{String, List, [], ◌∷◌, Option, none, some, ◌≡◌, refl, ite, str_dec, arith}

pub data Paper : Type 0 where
  blank ruled_margin_narrow ruled_margin_wide ruled_narrow ruled_wide : Paper
  squared_small squared_large : Paper

abbrev all_papers : List Paper
all_papers =
    blank ∷ ruled_margin_narrow ∷ ruled_margin_wide ∷ ruled_narrow ∷ ruled_wide ∷ squared_small
    ∷ squared_large ∷ []

unfoldable pub wire_value : Paper → String
wire_value blank = "none"
wire_value ruled_margin_narrow = "ruled-margin-narrow"
wire_value ruled_margin_wide = "ruled-margin-wide"
wire_value ruled_narrow = "ruled-narrow"
wire_value ruled_wide = "ruled-wide"
wire_value squared_small = "squared-small"
wire_value squared_large = "squared-large"

find_wire : String → List Paper → Option Paper
find_wire value [] = none
find_wire value (paper ∷ rest) =
    ite (str_dec (wire_value paper) value) (some paper) (find_wire value rest)

unfoldable pub from_wire : String → Option Paper
unfolding find_wire
from_wire value = find_wire value all_papers

-- `Paper::from_wire(stored).unwrap_or_default()`.
abbrev pub paper_or_default : Option Paper → Paper
paper_or_default none = blank
paper_or_default (some paper) = paper

-- The wire value of a paper parses back to that paper.
pub from_wire-wire_value : (paper : Paper) → from_wire (wire_value paper) ≡ some paper
unfolding from_wire wire_value str_dec
from_wire-wire_value blank = refl
from_wire-wire_value _ = refl

find_wire-eq-some :
    (value : String) (papers : List Paper) {paper : Paper}
    → find_wire value papers ≡ some paper
    → wire_value paper ≡ value
unfolding find_wire
find_wire-eq-some value [] h = ground arith
find_wire-eq-some value (p ∷ rest) {paper} h =
    ground (arith, find_wire-eq-some value rest {paper = paper})

-- A value that parses is the wire value of the paper it parses to.
pub wire_value-from_wire :
    (value : String) {paper : Paper} → from_wire value ≡ some paper → wire_value paper ≡ value
unfolding from_wire
wire_value-from_wire value h = find_wire-eq-some value all_papers h
