-- ===== src/Layout/Sample.antt =====
-- The three files for two pixels, for the tests.
use c_client.Prelude.{
  ℕ, Option, none, some, List, [], ◌∷◌, arith, refl, true, ◌==◌, if◌then◌else◌, get_elem?, codes,
}
use c_client.Csv.{Bytes}
use c_client.Csv.Parsers.{Files}
use c_client.Csv.Parsers.Rows.{HasMemory}
use c_client.Strtol.Atoi.{number}
use c_client.Layout.Numbers.{number-IsWritable}
use c_client.Layout.Entries.{Entry, AllEntries}

-- The files are told apart by the first letter of their names.
abbrev pub content_of : ℕ → Option Bytes
content_of c =
    if c == b'c'
    then some (codes "7 0 0\n9 0 1\n")
    else if c == b'g'
    then some (codes "72 123 0\n75 110 1\n")
    else if c == b's'
    then some (codes "3 8 0\n3 7 1\n")
    else none

abbrev pub files : Files
files = record {
  fopen = λ path. elim (get_elem? path 7) [ none ↦ none | some c ↦ content_of c ];
  strerror = [];
  row_memory = true;
  field_memory = true;
  pixel_memory = true;
}

pub files-HasMemory : HasMemory files
files-HasMemory = record { row_memory = refl; field_memory = refl; pixel_memory = refl }

abbrev pub entry : ℕ → ℕ → ℕ → ℕ → Entry
entry x lat lon num = record {
  x = x;
  y = 0;
  latitude = number lat;
  longitude = number lon;
  channel = 3;
  num = num;
}

abbrev pub two_pixels : List Entry
two_pixels = entry 7 72 123 8 ∷ entry 9 75 110 7 ∷ []

pub two_pixels-AllEntries : AllEntries two_pixels
two_pixels-AllEntries = (
  record {
    x = omega arith;
    y = omega arith;
    channel = omega arith;
    num = omega arith;
    latitude = number-IsWritable 72;
    longitude = number-IsWritable 123;
  },
  (
    record {
      x = omega arith;
      y = omega arith;
      channel = omega arith;
      num = omega arith;
      latitude = number-IsWritable 75;
      longitude = number-IsWritable 110;
    },
    tt,
  ),
)

-- A double is the first letter of its text.
abbrev pub letter : Bytes → ℕ
letter [] = 0
letter (c ∷ cs) = c
