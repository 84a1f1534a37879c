-- ===== src/Layout/Entries.antt =====
-- The layout files as they are written from a list of pixels.
use c_client.Prelude.{ℕ, ◌+◌, ◌^◌, ◌<◌, List, [], ◌∷◌}
use c_client.Prelude.Int.{pos}
use c_client.Extension.{GridPoint, grid_point, Strip}
use c_client.Csv.{Bytes}
use c_client.Csv.RoundTrip.{IsWritable, bare}
use c_client.Strtol.Atoi.{number}
use c_client.Layout.Numbers.{number-IsWritable}
use c_client.Layout.Rows.{Line, AllLines}

-- A pixel as the files give it: the geolocation as two texts.
pub record Entry : Type 0 where
  pub x : ℕ
  pub y : ℕ
  pub latitude : Bytes
  pub longitude : Bytes
  pub channel : ℕ
  pub num : ℕ

-- The first two columns of a file.
pub record Columns : Type 0 where
  pub first : Entry → Bytes
  pub second : Entry → Bytes

abbrev pub coordinates : Columns
coordinates = record { first = λ e. number e.x; second = λ e. number e.y }

abbrev pub geolocations : Columns
geolocations = record { first = λ e. e.latitude; second = λ e. e.longitude }

abbrev pub strips : Columns
strips = record { first = λ e. number e.channel; second = λ e. number e.num }

abbrev pub line_of : Columns → ℕ → Entry → Line
line_of columns at e = record {
  first = columns.first e;
  second = columns.second e;
  third = number at;
}

-- The lines of the pixels from a position on.
abbrev pub lines_from : Columns → ℕ → List Entry → List Line
lines_from columns at [] = []
lines_from columns at (e ∷ es) = line_of columns at e ∷ lines_from columns (at + 1) es

pub record IsEntry (e : Entry) : Type 0 where
  pub x : e.x < 2 ^ 31
  pub y : e.y < 2 ^ 31
  pub channel : e.channel < 2 ^ 31
  pub num : e.num < 2 ^ 31
  pub latitude : IsWritable b' ' (bare e.latitude)
  pub longitude : IsWritable b' ' (bare e.longitude)

abbrev pub AllEntries : List Entry → Type 0
AllEntries [] = Unit {0}
AllEntries (e ∷ es) = IsEntry e × AllEntries es

abbrev pub point_of : Entry → GridPoint
point_of e = grid_point (pos e.x) (pos e.y)

abbrev pub strip_of : Entry → Strip
strip_of e = record { channel = pos e.channel; num = pos e.num }

AllLines-lines_from :
    (columns : Columns)
    → ((e : Entry)
        → IsEntry e
        → IsWritable b' ' (bare (columns.first e)) × IsWritable b' ' (bare (columns.second e)))
    → (at : ℕ) (es : List Entry) → AllEntries es
    → AllLines (lines_from columns at es)
AllLines-lines_from columns ok at [] all = tt
AllLines-lines_from columns ok at (e ∷ es) (is, all) =
    let (first, second) = ok e is in
    ((first, second, number-IsWritable at), AllLines-lines_from columns ok (at + 1) es all)

pub AllLines-coordinates :
    (es : List Entry) → AllEntries es → AllLines (lines_from coordinates 0 es)
AllLines-coordinates =
    AllLines-lines_from coordinates (λ e is. (number-IsWritable e.x, number-IsWritable e.y)) 0

pub AllLines-geolocations :
    (es : List Entry) → AllEntries es → AllLines (lines_from geolocations 0 es)
AllLines-geolocations = AllLines-lines_from geolocations (λ e is. (is.latitude, is.longitude)) 0

pub AllLines-strips : (es : List Entry) → AllEntries es → AllLines (lines_from strips 0 es)
AllLines-strips =
    AllLines-lines_from strips (λ e is. (number-IsWritable e.channel, number-IsWritable e.num)) 0
