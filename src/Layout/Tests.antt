-- ===== src/Layout/Tests.antt =====
-- The theorems on the loading of the layout on two pixels.
use c_client.Prelude.{◌≡◌, refl, true, some, [], ◌∷◌, arith, codes, c_string}
use c_client.Prelude.Int.{pos}
use c_client.Extension.{grid_point}
use c_client.Strtol.{is_space, digit, scan, strtol_10, atoi}
use c_client.Strtol.Decimal.{digits}
use c_client.Csv.{step}
use c_client.Csv.Parsers.{csv_parser_new, csv_parser_get_row}
use c_client.Csv.RoundTrip.{write_row}
use c_client.Layout.{new_info, set_grid, grid_row, init_grid, load_layout}
use c_client.Strtol.Atoi.{number, write_number}
use c_client.Layout.Rows.{write_lines}
use c_client.Layout.Load.{load_layout-write_lines}
use c_client.Layout.Sample.{files, two_pixels, two_pixels-AllEntries, files-HasMemory, letter}

load_layout-write_lines_example :
    load_layout files letter 3
    ≡ some (
        record (new_info (grid_point (pos 7) (pos 0))) {
          geo = record { latitude = b'7'; longitude = b'1' };
          strip = record { channel = pos 3; num = pos 8 };
        }
        ∷ record (new_info (grid_point (pos 9) (pos 0))) {
          geo = record { latitude = b'7'; longitude = b'1' };
          strip = record { channel = pos 3; num = pos 7 };
        }
        ∷ [])
unfolding write_lines write_row number write_number digits
load_layout-write_lines_example =
    load_layout-write_lines files letter two_pixels 3 refl refl refl two_pixels-AllEntries
      files-HasMemory (omega arith) (omega arith)

-- A line of position 5 in an empty list: the pixel goes to position 0.
out_of_order :
    init_grid
      (record {
        fopen = λ path. some (codes "7 0 5\n");
        strerror = [];
        row_memory = true;
        field_memory = true;
        pixel_memory = true;
      })
      2
      []
    ≡ some (0, new_info (grid_point (pos 7) (pos 0)) ∷ [])
unfolding init_grid csv_parser_get_row csv_parser_new step grid_row atoi strtol_10 c_string is_space
    scan digit set_grid
out_of_order = refl
