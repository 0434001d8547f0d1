-- ===== src/Protocol/PaperTexture.antt =====
-- crates/protocol/src/paper.rs, the grain of the papers, and which colours read as ink.
use Prim.Native.Nat.{bit_xor}
use v_note.Base.{
  ℕ, zero, suc, ◌+◌, ◌*◌, ◌/◌, ◌%◌, ◌^◌, ◌≤◌, ◌<◌, ◌≡◌, refl, Bool, false, ◌&&◌, ◌||◌, List, [],
  ◌∷◌, ◌++◌, length, length-append, All, All-append, arith, if◌then◌else◌, ltb, leb,
}
use v_note.Protocol.PaperMarks.{Rgb, PaperMarkKind, rule, column, margin, color_rgb}

abbrev pub paper_texture_tile_size : ℕ
paper_texture_tile_size = 64

abbrev pub paper_texture_color_rgb : Rgb
paper_texture_color_rgb = record { red = 0x8C; green = 0x8C; blue = 0x8C }

abbrev pub paper_texture_max_alpha : ℕ
paper_texture_max_alpha = 20

abbrev paper_texture_coverage_percent : ℕ
paper_texture_coverage_percent = 26

-- `u32::wrapping_mul`.
abbrev wrapping_mul : ℕ → ℕ → ℕ
wrapping_mul a b = a * b % 2 ^ 32

unfoldable pub paper_texture_hash : ℕ → ℕ → ℕ
paper_texture_hash x y =
    let h = bit_xor (wrapping_mul x 0x27d4_eb2d) (wrapping_mul y 0x1656_67b1) in
    let h' = wrapping_mul (bit_xor h (h / 2 ^ 15)) 0x2545_f491 in bit_xor h' (h' / 2 ^ 13)

unfoldable pub paper_texture_alpha : ℕ → ℕ → ℕ
paper_texture_alpha x y =
    let h = paper_texture_hash x y in
    if leb paper_texture_coverage_percent (h % 100)
    then 0
    else (1 + h / 2 ^ 8 % paper_texture_max_alpha) % 2 ^ 8

-- The cells of a row from `x` on, and the rows from `y` on.
abbrev pub tile_row : ℕ → ℕ → ℕ → List ℕ
tile_row y x zero = []
tile_row y x (suc cells) = paper_texture_alpha x y ∷ tile_row y (suc x) cells

abbrev pub tile_rows : ℕ → ℕ → List ℕ
tile_rows y zero = []
tile_rows y (suc rows) = tile_row y 0 paper_texture_tile_size ++ tile_rows (suc y) rows

unfoldable pub paper_texture_tile : List ℕ
paper_texture_tile = tile_rows 0 paper_texture_tile_size

unfoldable pub is_ink_classified : Rgb → Bool
is_ink_classified rgb =
    let green_dominant = ltb rgb.red rgb.green && ltb rgb.blue rgb.green in
    let dark_green_band =
      ltb rgb.red 20 && (ltb 70 rgb.green && (ltb rgb.green 130 && ltb rgb.blue 20)) in
    green_dominant || dark_green_band

-- A cell of the grain is at most the alpha ceiling.
paper_texture_alpha_bound : (x y : ℕ) → paper_texture_alpha x y ≤ paper_texture_max_alpha
unfolding paper_texture_alpha
paper_texture_alpha_bound x y = ground (arith, bound (paper_texture_hash x y))
  where
    bound : (h : ℕ) → (1 + h / 2 ^ 8 % 20) % 2 ^ 8 ≤ 20
    bound h = omega arith

length-tile_row : (y x cells : ℕ) → length (tile_row y x cells) ≡ cells
length-tile_row y x zero = refl
length-tile_row y x (suc cells) = omega (arith, length-tile_row y (suc x) cells)

length-tile_rows : (y rows : ℕ) → length (tile_rows y rows) ≡ rows * 64
length-tile_rows y zero = refl
length-tile_rows y (suc rows) = omega (
  arith,
  length-append (tile_row y 0 64) (tile_rows (suc y) rows),
  length-tile_row y 0 64,
  length-tile_rows (suc y) rows,
)

tile_row-bound : (y x cells : ℕ) → All (λ a. a ≤ paper_texture_max_alpha) (tile_row y x cells)
tile_row-bound y x zero = tt
tile_row-bound y x (suc cells) = (paper_texture_alpha_bound x y, tile_row-bound y (suc x) cells)

tile_rows-bound : (y rows : ℕ) → All (λ a. a ≤ paper_texture_max_alpha) (tile_rows y rows)
tile_rows-bound y zero = tt
tile_rows-bound y (suc rows) =
    All-append _ (tile_row y 0 64) (tile_rows (suc y) rows) (tile_row-bound y 0 64)
      (tile_rows-bound (suc y) rows)

-- The tile has 64 rows of 64 cells, none above the alpha ceiling of 20, and every index that a
-- renderer folds into it is in range.
pub paper_texture_tile_lem :
    (x y : ℕ)
    → (length paper_texture_tile ≡ 4096)
      × All (λ a. a ≤ paper_texture_max_alpha) paper_texture_tile
      × (y % 64 * 64 + x % 64 < length paper_texture_tile)
unfolding paper_texture_tile
paper_texture_tile_lem x y =
    (length-tile_rows 0 64, tile_rows-bound 0 64, omega (arith, length-tile_rows 0 64))

-- No line of a paper reads as ink, and no neutral colour does, which every shade of the grain over
-- white is.
pub is_ink_classified_of_paper :
    (kind : PaperMarkKind) (grey : ℕ)
    → (is_ink_classified (color_rgb kind) ≡ false)
      × (is_ink_classified (record { red = grey; green = grey; blue = grey }) ≡ false)
unfolding is_ink_classified color_rgb
is_ink_classified_of_paper rule grey = (refl, ground arith)
is_ink_classified_of_paper column grey = (refl, ground arith)
is_ink_classified_of_paper margin grey = (refl, ground arith)
