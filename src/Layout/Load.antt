-- ===== src/Layout/Load.antt =====
-- A layout that was written to the three files is loaded as it was.
use c_client.Prelude.{
  ℕ, zero, suc, ◌+◌, ◌^◌, ◌<◌, ◌≡◌, refl, ap, sym, ◌∙◌, Bool, Option, true, some, List, [], ◌∷◌,
  ◌++◌, append-nil, append_assoc, map, arith, length, length-append, get_elem?, get_elem?-none,
  set-append,
}
use c_client.Extension.{GridPoint, Double, Geolocation, Strip, PixelInfo}
use c_client.Csv.{Bytes}
use c_client.Csv.Parsers.Rows.{HasMemory}
use c_client.Csv.Parsers.{Parser, Files, csv_parser_get_row}
use c_client.Layout.{
  pixel_file, geoloc_file, strip_file, Outcome, go_on, new_info, set_grid, set_geo, set_strip,
  grid_row, strip_row, geo_row, each_row, init_grid, init_geo, init_strip, load_layout,
}
use c_client.Strtol.Atoi.{atoi-number}
use c_client.Layout.Rows.{fields_of, write_lines, Yields, Yields-file}
use c_client.Layout.Entries.{
  Entry, Columns, coordinates, geolocations, strips, line_of, lines_from, IsEntry, AllEntries,
  point_of, strip_of, AllLines-coordinates, AllLines-geolocations, AllLines-strips,
}

get_elem?-middle :
    {A : Type 0} (done rest : List A) (a : A)
    → get_elem? (done ++ (a ∷ rest)) (length done) ≡ some a
get_elem?-middle [] rest a = refl
get_elem?-middle (d ∷ done) rest a = get_elem?-middle done rest a

-- What a row does with a list, of which `before` is the part behind the pixels that are done.
abbrev Updates :
    (List Bytes → List PixelInfo → Option Outcome)
    → Columns
    → (List Entry → List PixelInfo)
    → (Entry → PixelInfo)
    → Type 0
Updates body columns before to =
    (done : List PixelInfo) (e : Entry) (es : List Entry)
    → length done < 2 ^ 31
    → IsEntry e
    → body (fields_of (line_of columns (length done) e)) (done ++ before (e ∷ es))
      ≡ some (go_on (done ++ (to e ∷ before es)))

module _ (fs : Files) (body : List Bytes → List PixelInfo → Option Outcome) where
  each_row-go_on :
      (fuel : ℕ) (p p' : Parser) (row : List Bytes) (infos infos' : List PixelInfo)
      → csv_parser_get_row fs p ≡ some (some row, p')
      → body row infos ≡ some (go_on infos')
      → each_row fs body (suc fuel) p infos ≡ each_row fs body fuel p' infos'
  unfolding each_row
  each_row-go_on fuel p p' row infos infos' read done = rw (read, done)

  module _ (columns : Columns) (before : List Entry → List PixelInfo) (to : Entry → PixelInfo) where
    each_row-lines :
        Updates body columns before to
        → before [] ≡ []
        → (es : List Entry) (done : List PixelInfo) (at fuel : ℕ) (p : Parser) → at ≡ length done
        → at + length es < 2 ^ 31
        → length es < fuel
        → AllEntries es
        → Yields fs p (map fields_of (lines_from columns at es))
        → each_row fs body fuel p (done ++ before es) ≡ some (0, done ++ map to es)
    unfolding each_row
    each_row-lines step nothing [] done at zero p e fits enough all yields = absurd (omega arith)
    each_row-lines step nothing [] done at (suc fuel) p e fits enough all (p', ends) =
        rw (ends, nothing) refl
    each_row-lines step nothing (x ∷ es) done at zero p e fits enough all yields =
        absurd (omega arith)
    each_row-lines step nothing (x ∷ es) done at (suc fuel) p e fits enough (is, all)
          (p', read, yields) =
        let here : body (fields_of (line_of columns at x)) (done ++ before (x ∷ es))
            ≡ some (go_on (done ++ (to x ∷ before es))) =
          rw e (step done x es (omega arith) is) in
        let others =
          each_row-lines step nothing es (done ++ (to x ∷ [])) (at + 1) fuel p'
            (omega (arith, length-append done (to x ∷ []))) (omega arith) (omega arith) all
            yields in
        each_row-go_on fuel p p' _ _ _ read here
        ∙ ap (each_row fs body fuel p') (sym (append_assoc done (to x ∷ []) (before es)))
        ∙ others
        ∙ ap (λ t. some (0, t)) (append_assoc done (to x ∷ []) (map to es))

-- The pixels after each of the three files.
abbrev placed : Entry → PixelInfo
placed e = new_info (point_of e)

set_grid-end :
    (memory : Bool) (point : GridPoint) (infos : List PixelInfo)
    → memory ≡ true
    → set_grid memory point infos (length infos) ≡ some (go_on (infos ++ (new_info point ∷ [])))
unfolding set_grid
set_grid-end memory point infos given =
    rw (set_grid, get_elem?-none infos (length infos) (omega arith), given) refl

-- The pixel behind those that are done.
module _ (done rest : List PixelInfo) (pi : PixelInfo) where
  set_geo-middle :
      (geo : Geolocation)
      → set_geo geo (done ++ (pi ∷ rest)) (length done)
        ≡ go_on (done ++ (record pi { geo = geo } ∷ rest))
  unfolding set_geo
  set_geo-middle geo =
      rw (set_geo, get_elem?-middle done rest pi, set-append done rest pi (record pi { geo = geo }))
        refl

  set_strip-middle :
      (strip : Strip)
      → set_strip strip (done ++ (pi ∷ rest)) (length done)
        ≡ go_on (done ++ (record pi { strip = strip } ∷ rest))
  unfolding set_strip
  set_strip-middle strip =
      rw
        (
          set_strip,
          get_elem?-middle done rest pi,
          set-append done rest pi (record pi { strip = strip }),
        )
        refl

grid_row-Updates :
    (memory : Bool) → memory ≡ true → Updates (grid_row memory) coordinates (λ es. []) placed
unfolding grid_row
grid_row-Updates memory given done e es small is =
    rw (append-nil, atoi-number (length done) small, atoi-number e.x is.x, atoi-number e.y is.y)
      (set_grid-end memory (point_of e) done given)

module _ (atof : Bytes → Double) where
  abbrev located : Entry → PixelInfo
  located e = record (placed e) {
    geo = record { latitude = atof e.latitude; longitude = atof e.longitude };
  }

  -- The pixel that the files describe.
  abbrev pub info_of : Entry → PixelInfo
  info_of e = record (located e) { strip = strip_of e }

  geo_row-Updates : Updates (geo_row atof) geolocations (map placed) located
  unfolding geo_row
  geo_row-Updates done e es small is =
      rw (atoi-number (length done) small)
        (ap some (set_geo-middle done (map placed es) (placed e) (located e).geo))

  strip_row-Updates : Updates strip_row strips (map located) info_of
  unfolding strip_row
  strip_row-Updates done e es small is =
      rw
        (
          atoi-number (length done) small,
          atoi-number e.channel is.channel,
          atoi-number e.num is.num,
        )
        (ap some (set_strip-middle done (map located es) (located e) (strip_of e)))

module _ (fs : Files) (atof : Bytes → Double) (es : List Entry) (fuel : ℕ) where
  -- Let the three files have a line for each of fewer than 2^31 pixels, in the order of their
  -- positions, with the pixel's coordinates, geolocation or strip and its position, the numbers
  -- below 2^31 and the geolocations without spaces, quotes, NULs and ends of line, and let there be memory.
  -- Then `main` loads
  -- the list of these pixels, with fuel for one round more than there are pixels.
  pub load_layout-write_lines :
      fs.fopen pixel_file ≡ some (write_lines (lines_from coordinates 0 es))
      → fs.fopen geoloc_file ≡ some (write_lines (lines_from geolocations 0 es))
      → fs.fopen strip_file ≡ some (write_lines (lines_from strips 0 es))
      → AllEntries es
      → HasMemory fs
      → length es < 2 ^ 31
      → length es < fuel
      → load_layout fs atof fuel ≡ some (map (info_of atof) es)
  unfolding load_layout init_grid init_geo init_strip
  load_layout-write_lines grid_text geo_text strip_text all memory fits enough =
      let in_range : 0 + length es < 2 ^ 31 = omega arith in
      let gridded =
        each_row-lines fs (grid_row fs.pixel_memory) coordinates (λ rest. []) placed
          (grid_row-Updates fs.pixel_memory memory.pixel_memory) refl es [] 0 fuel _ refl in_range
          enough all
          (Yields-file fs pixel_file (lines_from coordinates 0 es) memory grid_text
            (AllLines-coordinates es all)) in
      let located_all =
        each_row-lines fs (geo_row atof) geolocations (map placed) (located atof)
          (geo_row-Updates atof) refl es [] 0 fuel _ refl in_range enough all
          (Yields-file fs geoloc_file (lines_from geolocations 0 es) memory geo_text
            (AllLines-geolocations es all)) in
      let wired =
        each_row-lines fs strip_row strips (map (located atof)) (info_of atof)
          (strip_row-Updates atof) refl es [] 0 fuel _ refl in_range enough all
          (Yields-file fs strip_file (lines_from strips 0 es) memory strip_text
            (AllLines-strips es all)) in
      rw (gridded, located_all, wired) refl
