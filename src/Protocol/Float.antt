-- ===== src/Protocol/Float.antt =====
-- Rust's `f64`, which is no code of the repository: the operations that the program uses.
use v_note.Base.{ℕ, Bool, if◌then◌else◌}

pub record Float : Type 1 where
  pub F64 : Type 0
  -- The literal `n / d`: `literal 3 2` is `1.5`.
  pub literal : ℕ → ℕ → F64
  pub epsilon : F64
  pub is_finite : F64 → Bool
  pub le : F64 → F64 → Bool
  pub lt : F64 → F64 → Bool
  pub min : F64 → F64 → F64
  pub max : F64 → F64 → F64
  pub add : F64 → F64 → F64
  pub sub : F64 → F64 → F64
  pub mul : F64 → F64 → F64
  pub div : F64 → F64 → F64
  -- `f64::from` of a `u32`.
  pub of_u32 : ℕ → F64
  pub round : F64 → F64
  pub abs : F64 → F64
  pub neg : F64 → F64
  pub ceil : F64 → F64
  pub floor : F64 → F64
  -- `x as usize`, which saturates.
  pub to_usize : F64 → ℕ

-- `f64::clamp`: below `lo` it is `lo`, above `hi` it is `hi`.
abbrev pub clamp : (f : Float) → f.F64 → f.F64 → f.F64 → f.F64
clamp f x lo hi = if f.lt x lo then lo else if f.lt hi x then hi else x
