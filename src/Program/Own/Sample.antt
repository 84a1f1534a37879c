-- ===== src/Program/Own/Sample.antt =====
-- A layout of 471 pixels at one place, and what the program gets from outside, for the tests.
use c_client.Prelude.{
  ℕ, zero, suc, ◌≡◌, refl, inr, map, true, Option, none, some, List, [], ◌∷◌, arith, length,
  replicate, get_elem?, ◌==◌, if◌then◌else◌,
}
use c_client.Prelude.Int.{pos}
use c_client.Extension.{PixelInfo}
use c_client.Csv.{Bytes}
use c_client.Csv.Parsers.{Files}
use c_client.Layout.Numbers.{number-IsWritable}
use c_client.Layout.Rows.{write_lines}
use c_client.Layout.Entries.{Entry, AllEntries, lines_from, coordinates, geolocations, strips}
use c_client.Layout.Load.{info_of}
use c_client.Layout.Sample.{entry, letter}
use c_client.Opc.Strips.Sizes.{AllWired}
use c_client.Sunrise.Lines as SunLines
use c_client.Sunrise.Sample.{whole, all_lines, all_lines-AreLines}
use c_client.Weather.Lines as WeatherLines
use c_client.Weather.Sample as WeatherSample
use c_client.Weather.Sample.{
  internet, library, fresh_traffic, print_zero, room, room-Terminated, any_colour, all_temps,
  all_temps-AreTemps,
}
use c_client.Program.Start.{Machine}
use c_client.Program.Start.Startup.{Ready}
use c_client.Program.Own.{Resources}
use c_client.Program.Own.Kept.{Supplied}
use c_client.Samples.{memory, memory-Given, slow_network}

abbrev pixel : Entry
pixel = entry 7 72 123 8

abbrev pub pixels : ℕ → List Entry
pixels n = replicate n pixel

pixels-AllEntries : (n : ℕ) → AllEntries (pixels n)
pixels-AllEntries zero = tt
pixels-AllEntries (suc n) = (
  record {
    x = omega arith;
    y = omega arith;
    channel = omega arith;
    num = omega arith;
    latitude = number-IsWritable 72;
    longitude = number-IsWritable 123;
  },
  pixels-AllEntries n,
)

abbrev pub infos : ℕ → List PixelInfo
infos n = map (info_of letter) (pixels n)

infos-AllWired : (n : ℕ) → AllWired (infos n)
infos-AllWired zero = tt
infos-AllWired (suc n) = (
  record { channel = 3; num = 8; size = 44; at = refl; size_of = refl; inside = omega arith },
  infos-AllWired n,
)

length-infos : (n : ℕ) → length (infos n) ≡ n
length-infos zero = refl
length-infos (suc n) = let rest = length-infos n in omega (arith, rest)

-- The files are told apart by the first letter of their names.
abbrev content_of : ℕ → Option Bytes
content_of c =
    if c == b'c'
    then some (write_lines (lines_from coordinates 0 (pixels 471)))
    else if c == b'g'
    then some (write_lines (lines_from geolocations 0 (pixels 471)))
    else some (write_lines (lines_from strips 0 (pixels 471)))

abbrev files : Files
files = record {
  fopen = λ path. elim (get_elem? path 7) [ none ↦ none | some c ↦ content_of c ];
  strerror = [];
  row_memory = true;
  field_memory = true;
  pixel_memory = true;
}

abbrev pub machine : Machine
machine = record {
  getaddrinfo = λ name. some (record { inet = true; address = 16777343 } ∷ []);
  files = files;
  list_memory = true;
  runner_memory = true;
  frame_memory = true;
  atof = letter;
}

pub machine-Ready : Ready machine (pixels 471)
machine-Ready = record {
  grid = refl;
  geo = refl;
  strip = refl;
  all = pixels-AllEntries 471;
  memory = record { row_memory = refl; field_memory = refl; pixel_memory = refl };
  fits = omega arith;
  list_memory = refl;
  runner_memory = refl;
  frame_memory = refl;
}

abbrev pub resources : Resources (Unit {0}) (Unit {0})
resources = record {
  kernel = slow_network;
  internet = internet;
  json = library;
  strips = memory 8 64;
  zeroed = true;
  effect_memory = true;
  object_memory = true;
  buffer = memory 100 24;
  map = memory 53 24;
  junk = room 300;
  buf = room 600;
  floats = whole;
  atof = WeatherSample.atof;
  print = print_zero;
  line = λ i d. [];
  sun_file = some (SunLines.write_lines all_lines);
  temp_file = some (WeatherLines.write_lines all_temps);
  log_opens = true;
}

pub resources-Supplied : Supplied (pos 0) 0 (infos 471) all_lines all_temps resources
resources-Supplied = record {
  wired = infos-AllWired 471;
  full = length-infos 471;
  strips = memory-Given 8 64;
  zeroed = refl;
  effect_memory = refl;
  object_memory = refl;
  buffer = memory-Given 100 24;
  map = memory-Given 53 24;
  sun_file = refl;
  sun_lines = all_lines-AreLines;
  temp_file = refl;
  temp_lines = all_temps-AreTemps;
  sockets = λ call. inr (5, refl);
  nul = room-Terminated;
  colours = λ info v d number. any_colour d;
}
