-- ===== src/Protocol/Ink.antt =====
-- crates/protocol/src/lib.rs, "Canonical ink": stroke geometry, style and validation.
use Prim.Native.Char.{code}
use Prim.Native.String.{len}
use v_note.Base.{
  ℕ, ℤ, Bool, true, false, not, ◌&&◌, ◌||◌, String, List, [], ◌∷◌, Option, none, some, Result, ok,
  err, same, if◌then◌else◌, leb, ◌==◌,
}
use v_note.Protocol.Float.{Float, clamp}

pub record SolidRoundParameters (F : Type 0) : Type 0 where
  pub color : String
  pub width : F
  pub cap_style : String
  pub join_style : String

pub record StrokeStyle (F : Type 0) : Type 0 where
  pub tool_kind : String
  pub style_version : ℕ
  pub parameters : SolidRoundParameters F

pub record StrokePoint (F : Type 0) : Type 0 where
  pub x : F
  pub y : F
  pub t : ℤ
  pub pressure : Option F

pub record Stroke (F : Type 0) : Type 0 where
  pub id : String
  pub style : StrokeStyle F
  pub points : List (StrokePoint F)

abbrev pub solid_round_tool : String
solid_round_tool = "solid_round"

abbrev pub solid_round_pressure_style_version : ℕ
solid_round_pressure_style_version = 2

-- The code points of a text. A byte of a character that is not ASCII is at least 0x80, so "every
-- byte is a digit or in A..F" says the same of the code points.
abbrev codes : String → List ℕ
codes String.[] = []
codes (String.◌∷◌ c s) = code c ∷ codes s

abbrev is_upper_hex : ℕ → Bool
is_upper_hex c = (leb 48 c && leb c 57) || (leb 65 c && leb c 70)

abbrev all_upper_hex : List ℕ → Bool
all_upper_hex [] = true
all_upper_hex (c ∷ cs) = is_upper_hex c && all_upper_hex cs

abbrev hash_then_hex : List ℕ → Bool
hash_then_hex [] = false
hash_then_hex (c ∷ cs) = (c == b'#') && all_upper_hex cs

unfoldable pub is_color : String → Bool
is_color color = (len color == 7) && hash_then_hex (codes color)

module _ (f : Float) where
  open f use {F64, literal, epsilon, is_finite, le, lt, min, add, sub, mul, round, abs}

  unfoldable pub default_solid_round_pressure : StrokeStyle F64
  default_solid_round_pressure = record {
    tool_kind = solid_round_tool;
    style_version = solid_round_pressure_style_version;
    parameters = record {
      color = "#006400";
      width = literal 4 1;
      cap_style = "round";
      join_style = "round";
    };
  }

  abbrev or_one : Option F64 → F64
  or_one none = literal 1 1
  or_one (some p) = p

  unfoldable pub rendered_width : StrokeStyle F64 → Option F64 → F64
  rendered_width style pressure =
      let p = clamp f (or_one pressure) (literal 0 1) (literal 1 1) in
      let preset = style.parameters.width in
      let floor = min (literal 3 2) preset in add floor (mul (sub preset floor) p)

  unfoldable pub is_width : F64 → Bool
  is_width width =
      is_finite width
      && (le (literal 1 1) width && le width (literal 32 1))
      && not (lt epsilon (abs (sub (round (mul width (literal 2 1))) (mul width (literal 2 1)))))

  unfoldable pub validate_style : StrokeStyle F64 → Result (Unit {0}) String
  validate_style style =
      if not (same style.tool_kind solid_round_tool)
        || not (style.style_version == solid_round_pressure_style_version)
      then err "unsupported style"
      else if not (same style.parameters.cap_style "round")
          || not (same style.parameters.join_style "round")
      then err "solid_round requires round cap and join"
      else if not (is_color style.parameters.color)
      then err "color must be uppercase #RRGGBB"
      else if not (is_width style.parameters.width)
      then err "width must be 1.0..32.0 in 0.5 increments"
      else ok tt

  unfoldable pub is_pressure : Option F64 → Bool
  is_pressure none = true
  is_pressure (some p) = is_finite p && (le (literal 0 1) p && le p (literal 1 1))

  unfoldable pub validate_points : List (StrokePoint F64) → Result (Unit {0}) String
  validate_points [] = ok tt
  validate_points (point ∷ points) =
      if not (is_pressure point.pressure)
      then err "pressure must be finite in 0.0..=1.0"
      else validate_points points

  abbrev and_then : Result (Unit {0}) String → Result (Unit {0}) String → Result (Unit {0}) String
  and_then (ok _) rest = rest
  and_then (err e) rest = err e

  unfoldable pub validate : Stroke F64 → Result (Unit {0}) String
  validate stroke = and_then (validate_style stroke.style) (validate_points stroke.points)
