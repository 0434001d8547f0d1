-- ===== src/Thumbnails/Pixels.antt =====
-- The pixel arithmetic of crates/server/src/thumbnails.rs: `downsample` and the blend of
-- `draw_paper_texture`. A pixmap's pixels are tiny_skia's (`Pixels`); an index past a slice is a
-- panic (`none`).
use v_note.Base.{
  ℕ, zero, suc, ◌+◌, ◌-◌, ◌*◌, ◌/◌, ◌%◌, ◌^◌, Bool, true, false, ◌&&◌, String, List, [], ◌∷◌,
  Option, none, some, Result, ok, err, take, drop, length, if◌then◌else◌, ◌==◌, leb,
}

abbrev pub width : ℕ
width = 240

abbrev pub height : ℕ
height = 160

abbrev pub supersample : ℕ
supersample = 2

-- tiny_skia's `PremultipliedColorU8`: `from_rgba` is `None` where a channel is above the alpha.
pub record Pixels : Type 1 where
  pub Pixel : Type 0
  pub red : Pixel → ℕ
  pub green : Pixel → ℕ
  pub blue : Pixel → ℕ
  pub alpha : Pixel → ℕ
  pub from_rgba : ℕ → ℕ → ℕ → ℕ → Option Pixel
  -- whether `Pixmap::new` gives a pixmap of the size
  pub allocates : ℕ → ℕ → Bool

pub record Pixmap (P : Type 0) : Type 0 where
  pub width : ℕ
  pub height : ℕ
  pub pixels : List P

pub record Sums : Type 0 where
  pub red : ℕ
  pub green : ℕ
  pub blue : ℕ
  pub alpha : ℕ

abbrev pub samples : ℕ
samples = supersample * supersample

abbrev pub mean : ℕ → ℕ
mean sum = (sum + samples / 2) / samples % 2 ^ 8

-- One channel of the grain of an alpha over another pixel.
unfoldable pub blend : ℕ → ℕ → ℕ → ℕ
blend alpha dst src = (src * alpha + dst * (255 - alpha) + 127) / 255 % 2 ^ 8

abbrev pub and_then : Option Sums → (Sums → Option Sums) → Option Sums
and_then none next = none
and_then (some sums) next = next sums

-- `&xs[start..start + count]`.
abbrev pub slice : {P : Type 0} → ℕ → ℕ → List P → Option (List P)
slice start count xs =
    if leb (start + count) (length xs) then some (take count (drop start xs)) else none

module _ (px : Pixels) where
  open px use {Pixel, red, green, blue, alpha, from_rgba, allocates}

  abbrev pub add_pixel : Sums → Pixel → Sums
  add_pixel sums p = record {
    red = sums.red + red p;
    green = sums.green + green p;
    blue = sums.blue + blue p;
    alpha = sums.alpha + alpha p;
  }

  abbrev pub add_pixels : Sums → List Pixel → Sums
  add_pixels sums [] = sums
  add_pixels sums (p ∷ ps) = add_pixels (add_pixel sums p) ps

  abbrev pub or_panic : Sums → Option (List Pixel) → Option Sums
  or_panic sums none = none
  or_panic sums (some ps) = some (add_pixels sums ps)

  -- `for row in row..row + rows`, over one block.
  abbrev pub add_rows : List Pixel → ℕ → ℕ → ℕ → ℕ → Sums → Option Sums
  add_rows source x y row zero sums = some sums
  add_rows source x y row (suc rows) sums =
      let start = (y * supersample + row) * (width * supersample) + x * supersample in
      and_then (or_panic sums (slice start supersample source)) (add_rows source x y (suc row) rows)

  abbrev pub no_sums : Sums
  no_sums = record { red = 0; green = 0; blue = 0; alpha = 0 }

  abbrev pub block_mean : Option Sums → Option (Option Pixel)
  block_mean none = none
  block_mean (some sums) =
      some (from_rgba (mean sums.red) (mean sums.green) (mean sums.blue) (mean sums.alpha))

  abbrev pub push_pixel :
      Option (Option Pixel)
      → Option (Result (List Pixel) String)
      → Option (Result (List Pixel) String)
  push_pixel none rest = none
  push_pixel (some none) rest = some (err "downsampled pixel is not premultiplied")
  push_pixel (some (some p)) none = none
  push_pixel (some (some p)) (some (err e)) = some (err e)
  push_pixel (some (some p)) (some (ok ps)) = some (ok (p ∷ ps))

  -- The cells of a row from `x` on, before those of the rows below.
  abbrev pub downsample_row :
      List Pixel
      → ℕ
      → ℕ
      → ℕ
      → Option (Result (List Pixel) String)
      → Option (Result (List Pixel) String)
  downsample_row source y x zero below = below
  downsample_row source y x (suc cells) below =
      push_pixel (block_mean (add_rows source x y 0 supersample no_sums))
        (downsample_row source y (suc x) cells below)

  abbrev pub downsample_rows : List Pixel → ℕ → ℕ → Option (Result (List Pixel) String)
  downsample_rows source y zero = some (ok [])
  downsample_rows source y (suc rows) =
      downsample_row source y 0 width (downsample_rows source (suc y) rows)

  abbrev pub with_pixels :
      Option (Result (List Pixel) String) → Option (Result (Pixmap Pixel) String)
  with_pixels none = none
  with_pixels (some (err e)) = some (err e)
  with_pixels (some (ok ps)) = some (ok (record { width = width; height = height; pixels = ps }))

  -- Where the source has the supersampled size and the target is allocated.
  abbrev pub if_sized :
      Bool → Bool → Option (Result (Pixmap Pixel) String) → Option (Result (Pixmap Pixel) String)
  if_sized false allocated downsampled = some (err "downsample source is not the supersampled size")
  if_sized true false downsampled = some (err "could not allocate thumbnail")
  if_sized true true downsampled = downsampled

  unfoldable pub downsample : Pixmap Pixel → Option (Result (Pixmap Pixel) String)
  downsample source =
      if_sized ((source.width == width * supersample) && (source.height == height * supersample))
        (allocates width height) (with_pixels (downsample_rows source.pixels 0 height))
