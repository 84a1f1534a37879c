-- ===== src/Extension.antt =====
-- src/extension.h: the types and constants that the modules of the program share.
use c_client.Prelude.{ℕ}
use c_client.Prelude.Int.{ℤ}

abbrev pub grid_width : ℕ
grid_width = 53

abbrev pub grid_height : ℕ
grid_height = 24

abbrev pub num_pixels : ℕ
num_pixels = 471

abbrev pub max_strip_size : ℕ
max_strip_size = 64

abbrev pub num_strips : ℕ
num_strips = 8

-- `opc_pixel_t`: three bytes.
pub record Pixel : Type 0 where
  pub r : ℕ
  pub g : ℕ
  pub b : ℕ

abbrev pub rgb : ℕ → ℕ → ℕ → Pixel
rgb r g b = record { r = r; g = g; b = b }

abbrev pub white_pixel : Pixel
white_pixel = rgb 255 255 255

abbrev pub black_pixel : Pixel
black_pixel = rgb 0 0 0

-- `grid_t`
pub record GridPoint : Type 0 where
  pub x : ℤ
  pub y : ℤ

abbrev pub grid_point : ℤ → ℤ → GridPoint
grid_point x y = record { x = x; y = y }

-- A C double, by its 64-bit pattern. Nothing here computes with one.
abbrev pub Double : Type 0
Double = ℕ

-- `geolocation_t`
pub record Geolocation : Type 0 where
  pub latitude : Double
  pub longitude : Double

-- `strip_t`
pub record Strip : Type 0 where
  pub channel : ℤ
  pub num : ℤ

-- `pixel_info_t`
pub record PixelInfo : Type 0 where
  pub grid : GridPoint
  pub geo : Geolocation
  pub strip : Strip
