-- ===== src/Thumbnails/Downsampled.antt =====
-- `downsample` and `blend` of crates/server/src/thumbnails.rs stay in range.
use native.Mathlib.Nat.{mul-add}
use v_note.Base.{
  sym, ℕ, min, max, zero, suc, ◌+◌, ◌-◌, ◌*◌, ◌/◌, ◌≤◌, ◌<◌, ◌≡◌, refl, ◌∙◌, ap, ap₂, Bool, true,
  false, ◌&&◌, String, List, [], ◌∷◌, Option, some, Result, ok, take, drop, length, length-drop,
  arith, ◌==◌, subst,
}
use v_note.Thumbnails.Pixels.{
  blend, Pixels, Pixmap, Sums, width, height, supersample, mean, slice, and_then, add_pixel,
  add_pixels, or_panic, add_rows, no_sums, block_mean, push_pixel, downsample_row, downsample_rows,
  with_pixels, if_sized, downsample,
}

whole : (c a b : ℕ) → a + b ≡ 255 → c * a + c * b ≡ c * 255
whole c a b h = sym (mul-add c a b) ∙ ap (λ (n : ℕ). c * n) h

-- The weighted mean of two bytes, before it is cast to a byte.
weighted_bounds :
    (alpha dst src low high : ℕ)
    → alpha ≤ 255
    → low ≤ dst
    → low ≤ src
    → dst ≤ high
    → src ≤ high
    → (low ≤ (src * alpha + dst * (255 - alpha) + 127) / 255)
      × ((src * alpha + dst * (255 - alpha) + 127) / 255 ≤ high)
weighted_bounds alpha dst src low high a ld ls dh sh =
    let p : src * alpha ≤ high * alpha = grind arith in
    let q : dst * (255 - alpha) ≤ high * (255 - alpha) = grind arith in
    let p' : low * alpha ≤ src * alpha = grind arith in
    let q' : low * (255 - alpha) ≤ dst * (255 - alpha) = grind arith in
    let h : high * alpha + high * (255 - alpha) ≡ high * 255 =
      whole high alpha (255 - alpha) (omega arith) in
    let l : low * alpha + low * (255 - alpha) ≡ low * 255 =
      whole low alpha (255 - alpha) (omega arith) in
    (omega (arith, p', q', l), omega (arith, p, q, h))

-- The grain over a pixel lies between the two colours, and is the one or the other where it is
-- transparent or opaque: the cast to a byte never wraps around.
pub blend_between :
    (alpha dst src : ℕ)
    → alpha ≤ 255
    → dst ≤ 255
    → src ≤ 255
    → (min dst src ≤ blend alpha dst src)
      × (blend alpha dst src ≤ max dst src)
      × (blend 0 dst src ≡ dst)
      × (blend 255 dst src ≡ src)
unfolding blend
blend_between alpha dst src a d s =
    let (low, high) =
      weighted_bounds alpha dst src (min dst src) (max dst src) a (omega arith) (omega arith)
        (omega arith) (omega arith) in
    (omega (arith, low, high), omega (arith, low, high), omega arith, omega arith)

length-take : {A : Type 0} (n : ℕ) (xs : List A) → n ≤ length xs → length (take n xs) ≡ n
length-take zero xs h = refl
length-take (suc n) [] h = absurd (omega arith)
length-take (suc n) (x ∷ xs) h = omega (arith, length-take n xs (omega arith))

slice-some :
    {P : Type 0} (start count : ℕ) (xs : List P)
    → start + count ≤ length xs
    → (ys : List P) × (slice start count xs ≡ some ys) × (length ys ≡ count)
slice-some start count xs h = (
  take count (drop start xs),
  ground arith,
  length-take count (drop start xs) (omega (arith, length-drop start xs)),
)

is_supersampled :
    (w h : ℕ)
    → w ≡ 480
    → h ≡ 320
    → ((w == width * supersample) && (h == height * supersample)) ≡ true
is_supersampled w h e d = ground arith

module _ (px : Pixels) where
  open px use {Pixel, red, green, blue, alpha, from_rgba, allocates}

  -- What tiny_skia documents of its pixels: no channel is above the alpha, and any such bytes make
  -- a pixel.
  pub record IsPremultiplied : Type 0 where
    pub red_le : (p : Pixel) → red p ≤ alpha p
    pub green_le : (p : Pixel) → green p ≤ alpha p
    pub blue_le : (p : Pixel) → blue p ≤ alpha p
    pub alpha_le : (p : Pixel) → alpha p ≤ 255
    pub accepts :
        (r g b a : ℕ) → r ≤ a → g ≤ a → b ≤ a → a ≤ 255 → (p : Pixel) × (from_rgba r g b a ≡ some p)
    pub allocated : allocates width height ≡ true

  -- The sums of `count` pixels.
  record IsSumOf (count : ℕ) (sums : Sums) : Type 0 where
    red_le : sums.red ≤ sums.alpha
    green_le : sums.green ≤ sums.alpha
    blue_le : sums.blue ≤ sums.alpha
    alpha_le : sums.alpha ≤ 255 * count

  module _ (skia : IsPremultiplied) where
    add_pixels-IsSumOf :
        (count : ℕ) (sums : Sums) (ps : List Pixel)
        → IsSumOf count sums
        → IsSumOf (count + length ps) (add_pixels px sums ps)
    add_pixels-IsSumOf count sums [] h = record {
      red_le = h.red_le;
      green_le = h.green_le;
      blue_le = h.blue_le;
      alpha_le = omega (arith, h.alpha_le);
    }
    add_pixels-IsSumOf count sums (p ∷ ps) h =
        subst (λ (n : ℕ). IsSumOf n (add_pixels px sums (p ∷ ps))) (one_more count (length ps))
          (add_pixels-IsSumOf (suc count) (add_pixel px sums p) ps (record {
            red_le = omega (arith, h.red_le, skia.red_le p);
            green_le = omega (arith, h.green_le, skia.green_le p);
            blue_le = omega (arith, h.blue_le, skia.blue_le p);
            alpha_le = omega (arith, h.alpha_le, skia.alpha_le p);
          }))
      where
        one_more : (m n : ℕ) → suc m + n ≡ m + suc n
        one_more m n = omega arith

    module _ (source : List Pixel) (sized : length source ≡ 153_600) where
      add_rows-IsSumOf :
          (x y row rows count : ℕ) (sums : Sums)
          → x < width
          → y < height
          → row + rows ≤ supersample
          → count + rows * 2 ≡ 4
          → IsSumOf count sums
          → (sums' : Sums) × (add_rows px source x y row rows sums ≡ some sums') × IsSumOf 4 sums'
      add_rows-IsSumOf x y row zero count sums hx hy fits c h =
          (sums, refl, subst (λ (n : ℕ). IsSumOf n sums) (omega arith) h)
      add_rows-IsSumOf x y row (suc rows) count sums hx hy fits c h =
          let start = (y * supersample + row) * (width * supersample) + x * supersample in
          let (ps, e, two) = slice-some start supersample source (omega (arith, sized)) in
          let (sums', e', h') =
            add_rows-IsSumOf x y (suc row) rows (count + length ps) (add_pixels px sums ps) hx hy
              (omega arith) (omega (arith, two)) (add_pixels-IsSumOf count sums ps h) in
          (
            sums',
            ap (λ o. and_then (or_panic px sums o) (add_rows px source x y (suc row) rows)) e ∙ e',
            h',
          )

      block :
          (x y : ℕ)
          → x < width
          → y < height
          → (p : Pixel) × (block_mean px (add_rows px source x y 0 supersample (no_sums px))
              ≡ some (some p))
      block x y hx hy =
          let start : IsSumOf 0 (no_sums px) = record {
            red_le = omega arith;
            green_le = omega arith;
            blue_le = omega arith;
            alpha_le = omega arith;
          } in
          let (sums, e, h) =
            add_rows-IsSumOf x y 0 2 0 (no_sums px) hx hy (omega arith) (omega arith) start in
          let (p, made) =
            skia.accepts (mean sums.red) (mean sums.green) (mean sums.blue) (mean sums.alpha)
              (omega (arith, h.red_le, h.alpha_le)) (omega (arith, h.green_le, h.alpha_le))
              (omega (arith, h.blue_le, h.alpha_le)) (omega (arith, h.alpha_le)) in
          (p, ap (block_mean px) e ∙ ap some made)

      row_ok :
          (y x cells : ℕ) (below : List Pixel)
          → x + cells ≤ width
          → y < height
          → (ps : List Pixel) × (downsample_row px source y x cells (some (ok below))
              ≡ some (ok ps))
            × (length ps ≡ cells + length below)
      row_ok y x zero below hx hy = (below, refl, omega arith)
      row_ok y x (suc cells) below hx hy =
          let (p, e) = block x y (omega arith) hy in
          let (ps, e', n) = row_ok y (suc x) cells below (omega arith) hy in
          (p ∷ ps, ap₂ (push_pixel px) e e', omega (arith, n))

      rows_ok :
          (y rows : ℕ)
          → y + rows ≤ height
          → (ps : List Pixel) × (downsample_rows px source y rows ≡ some (ok ps))
            × (length ps ≡ rows * 240)
      rows_ok y zero h = ([], refl, refl)
      rows_ok y (suc rows) h =
          let (below, e, n) = rows_ok (suc y) rows (omega arith) in
          let (ps, e', n') = row_ok y 0 width below (omega arith) (omega arith) in
          (ps, ap (downsample_row px source y 0 width) e ∙ e', omega (arith, n, n'))

    if_sized-true :
        (sized allocated : Bool) (d : Option (Result (Pixmap Pixel) String))
        {d' : Option (Result (Pixmap Pixel) String)}
        → sized ≡ true
        → allocated ≡ true
        → d ≡ d'
        → if_sized px sized allocated d ≡ d'
    if_sized-true true true d p q e = e
    if_sized-true true false d p q e = cc
    if_sized-true false allocated d p q e = cc

    -- The image of the supersampled size is always brought down to the size of a thumbnail: no
    -- index leaves the image, and no mean of a block is refused as a pixel.
    pub downsample-ok :
        (source : Pixmap Pixel)
        → source.width ≡ 480
        → source.height ≡ 320
        → length source.pixels ≡ 480 * 320
        → (ps : List Pixel) × (downsample px source
            ≡ some (ok (record { width = 240; height = 160; pixels = ps })))
          × (length ps ≡ 240 * 160)
    unfolding downsample
    downsample-ok source w h sized =
        let (ps, e, n) = rows_ok source.pixels sized 0 height (omega arith) in
        (
          ps,
          if_sized-true _ _ _ (is_supersampled _ _ w h) skia.allocated (ap (with_pixels px) e),
          n,
        )
