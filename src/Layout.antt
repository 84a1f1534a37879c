-- ===== src/Layout.antt =====
-- The loading of the layout in src/effect_runner.c, from the three files of src/layout. The list of
-- pixels is the list of its values, which LinkedList is about.
pub mod Numbers
pub mod Rows
pub mod Entries
pub mod Load
pub mod Sample
mod Tests
use c_client.Prelude.{
  ℕ, zero, suc, ◌+◌, ◌-◌, ◌%◌, ◌^◌, Bool, true, false, Option, none, some, List, [], ◌∷◌, ◌++◌,
  get_elem?, set, ltb, if◌then◌else◌, ◌>>=◌, codes,
}
use c_client.Prelude.Int.{ℤ, pos, negsuc}
use c_client.Extension.{GridPoint, grid_point, Double, Geolocation, Strip, PixelInfo}
use c_client.Strtol.{atoi}
use c_client.Csv.{Bytes}
use c_client.Csv.Parsers.{Parser, Files, csv_parser_new, csv_parser_get_row}

abbrev pub pixel_file : Bytes
pixel_file = codes "layout/coordinates.txt"

abbrev pub geoloc_file : Bytes
geoloc_file = codes "layout/geolocation.txt"

abbrev pub strip_file : Bytes
strip_file = codes "layout/strip_config.txt"

-- rowFields[0], [1] and [2]: a read past the fields of the row is a fault.
abbrev three_fields : List Bytes → Option (Bytes × Bytes × Bytes)
three_fields (a ∷ b ∷ c ∷ more) = some (a, b, c)
three_fields (a ∷ b ∷ []) = none
three_fields (a ∷ []) = none
three_fields [] = none

-- The index for `list_get`, which asserts that it is not negative.
abbrev pub index_of : ℤ → Option ℕ
index_of (pos n) = some n
index_of (negsuc n) = none

-- What a row does: the loop goes on, or the function returns 1.
pub data Outcome : Type 0 where
  go_on : List PixelInfo → Outcome
  return_1 : List PixelInfo → Outcome

-- -1 as a double.
abbrev pub minus_one : Double
minus_one = 13830554455654793216

abbrev pub new_info : GridPoint → PixelInfo
new_info point = record {
  grid = point;
  geo = record { latitude = minus_one; longitude = minus_one };
  strip = record { channel = negsuc 0; num = negsuc 0 };
}

-- Sets the coordinates of a pixel; one that is not in the list yet goes to its end, in memory that is
-- written without a test.
unfoldable pub set_grid : Bool → GridPoint → List PixelInfo → ℕ → Option Outcome
set_grid memory point infos i = elim (get_elem? infos i) [
  | none ↦ if memory then some (go_on (infos ++ (new_info point ∷ []))) else none
  | some pi ↦ some (go_on (set infos i (record pi { grid = point })))
]

unfoldable pub set_geo : Geolocation → List PixelInfo → ℕ → Outcome
set_geo geo infos i = elim (get_elem? infos i) [
  | none ↦ return_1 infos
  | some pi ↦ go_on (set infos i (record pi { geo = geo }))
]

unfoldable pub set_strip : Strip → List PixelInfo → ℕ → Outcome
set_strip strip infos i = elim (get_elem? infos i) [
  | none ↦ return_1 infos
  | some pi ↦ go_on (set infos i (record pi { strip = strip }))
]

-- The bodies of the three loops.
unfoldable pub grid_row : Bool → List Bytes → List PixelInfo → Option Outcome
grid_row memory row infos = three_fields row >>= λ (x, y, at).
    index_of (atoi at) >>= λ i. set_grid memory (grid_point (atoi x) (atoi y)) infos i

unfoldable pub geo_row : (Bytes → Double) → List Bytes → List PixelInfo → Option Outcome
geo_row atof row infos = three_fields row >>= λ (lat, lon, at). index_of (atoi at) >>= λ i.
    some (set_geo (record { latitude = atof lat; longitude = atof lon }) infos i)

unfoldable pub strip_row : List Bytes → List PixelInfo → Option Outcome
strip_row row infos = three_fields row >>= λ (channel, num, at). index_of (atoi at) >>= λ i.
    some (set_strip (record { channel = atoi channel; num = atoi num }) infos i)

module _ (fs : Files) where
  -- The loop over the rows, with fuel for one round more than there are rows.
  unfoldable pub each_row :
      (List Bytes → List PixelInfo → Option Outcome)
      → ℕ
      → Parser
      → List PixelInfo
      → Option (ℕ × List PixelInfo)
  each_row body zero parser infos = none
  each_row body (suc fuel) parser infos = csv_parser_get_row fs parser >>= λ (result, parser').
      elim result [
        | none ↦ some (0, infos)
        | some row ↦ body row infos >>= λ outcome. elim outcome [
          | go_on infos' ↦ each_row body fuel parser' infos'
          | return_1 infos' ↦ some (1, infos')
        ]
      ]

  abbrev parser_of : Bytes → Parser
  parser_of path = csv_parser_new (some path) (some (codes " "))

  unfoldable pub init_grid : ℕ → List PixelInfo → Option (ℕ × List PixelInfo)
  unfolding each_row
  init_grid fuel infos = each_row (grid_row fs.pixel_memory) fuel (parser_of pixel_file) infos

  unfoldable pub init_geo : (Bytes → Double) → ℕ → List PixelInfo → Option (ℕ × List PixelInfo)
  unfolding each_row
  init_geo atof fuel infos = each_row (geo_row atof) fuel (parser_of geoloc_file) infos

  unfoldable pub init_strip : ℕ → List PixelInfo → Option (ℕ × List PixelInfo)
  unfolding each_row
  init_strip fuel infos = each_row strip_row fuel (parser_of strip_file) infos

  -- The list that `main` makes, whatever the three functions return.
  unfoldable pub load_layout : (Bytes → Double) → ℕ → Option (List PixelInfo)
  load_layout atof fuel = init_grid fuel [] >>= λ (_, placed).
      init_geo atof fuel placed >>= λ (_, located).
      init_strip fuel located >>= λ (_, wired). some wired
