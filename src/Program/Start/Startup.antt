-- ===== src/Program/Start/Startup.antt =====
-- The program from the start of `main` on.
use c_client.Prelude.{
  ℕ, ◌^◌, ◌<◌, ◌≡◌, refl, true, Option, some, List, ◌∷◌, map, arith, length, replicate, codes,
  store, length-replicate,
}
use c_client.Prelude.Int.{ℤ, pos, negsuc}
use c_client.Extension.{PixelInfo, white_pixel, black_pixel}
use c_client.Process.{ok}
use c_client.Strtol.{is_space, digit, scan, strtol_10}
use c_client.Layout.{pixel_file, geoloc_file, strip_file}
use c_client.Layout.Rows.{write_lines}
use c_client.Layout.Entries.{Entry, AllEntries, lines_from, coordinates, geolocations, strips}
use c_client.Csv.Parsers.Rows.{HasMemory}
use c_client.Layout.Load.{info_of, load_layout-write_lines}
use c_client.Opc.{Client}
use c_client.Opc.Sinks.{AddrInfo, host_and_port, opc_new_sink}
use c_client.Opc.NewSink.{opc_resolve-first}
use c_client.EffectRunner.{Effects, Runner, get_scroller_effect}
use c_client.EffectRunner.Commands.{init_effect-scroll}
use c_client.EffectRunner.Rounds.{clear_pixels_lem}
use c_client.Program.Safe.{Safe}
use c_client.Program.Start.{
  server_address, first_client, Machine, new_frame, init_runner, with_effect, with_sink, start_main,
}

-- The client with its first sink, which is not connected.
abbrev pub one_sink : ℕ → Client
one_sink address = record first_client {
  sinks =
      record { address = address; port = 7890; sockid = negsuc 0 }
      ∷ replicate 63 (record { address = 0; port = 0; sockid = pos 0 });
  next_sink = 1;
}

server_address-parsed : host_and_port server_address ≡ (codes "127.0.0.1", pos 7890)
unfolding host_and_port strtol_10 is_space scan digit
server_address-parsed = refl

module _ (getaddrinfo : List ℕ → Option (List AddrInfo)) (first : AddrInfo)
    (more : List AddrInfo) where
  opc_new_sink-first :
      getaddrinfo (codes "127.0.0.1") ≡ some (first ∷ more)
      → first.inet ≡ true
      → opc_new_sink getaddrinfo server_address first_client ≡ some (pos 0, one_sink first.address)
  unfolding opc_new_sink store
  opc_new_sink-first known inet =
      let resolved =
        opc_resolve-first getaddrinfo server_address (codes "127.0.0.1") 7890 first more
          server_address-parsed (omega arith) (omega arith) known inet in
      rw (opc_new_sink, resolved) refl

-- The runner as `main` makes it.
abbrev pub first_runner : {E W : Type 0} → E → W → Runner E W
first_runner e w = record {
  effect = some e;
  frame = replicate 471 white_pixel;
  frame_no = 0;
  world = w;
}

pub first_runner-Safe :
    {E W : Type 0} (Good : E → ℕ → W → Type 0) (e : E) (w : W)
    → Good e 0 w
    → Safe Good (first_runner e w)
first_runner-Safe Good e w good = record {
  current = e;
  running = refl;
  whole = length-replicate 471 white_pixel;
  good = good;
}

-- The files describe the layout, and there is memory.
pub record Ready (m : Machine) (entries : List Entry) : Type 0 where
  pub grid : m.files.fopen pixel_file ≡ some (write_lines (lines_from coordinates 0 entries))
  pub geo : m.files.fopen geoloc_file ≡ some (write_lines (lines_from geolocations 0 entries))
  pub strip : m.files.fopen strip_file ≡ some (write_lines (lines_from strips 0 entries))
  pub all : AllEntries entries
  pub memory : HasMemory m.files
  pub fits : length entries < 2 ^ 31
  pub list_memory : m.list_memory ≡ true
  pub runner_memory : m.runner_memory ≡ true
  pub frame_memory : m.frame_memory ≡ true

module _ {E W : Type 0} (m : Machine) (es : ℤ → List PixelInfo → Effects E W) (world : Client → W)
    (entries : List Entry) (ready : Ready m entries) (first : AddrInfo) (more : List AddrInfo)
    (known : m.getaddrinfo (codes "127.0.0.1") ≡ some (first ∷ more))
    (inet : first.inet ≡ true) where
  abbrev pub layout_of : List PixelInfo
  layout_of = map (info_of m.atof) entries

  pub start_main-Started :
      (fuel : ℕ) (e : E) (w : W)
      → length entries < fuel
      → (es (pos 0) layout_of).construct get_scroller_effect (world (one_sink first.address))
        ≡ ok (some e, w)
      → start_main m es world fuel
        ≡ ok (record { sink = pos 0; pixel_info = layout_of; runner = first_runner e w })
  unfolding start_main with_sink with_effect init_runner new_frame
  start_main-Started fuel e w enough made =
      let loaded =
        load_layout-write_lines m.files m.atof entries fuel ready.grid ready.geo ready.strip
          ready.all ready.memory ready.fits enough in
      rw
        (
          start_main,
          opc_new_sink-first m.getaddrinfo first more known inet,
          ready.list_memory,
          loaded,
          init_effect-scroll (es (pos 0) layout_of) (world (one_sink first.address)) w e made,
          ready.runner_memory,
          ready.frame_memory,
          clear_pixels_lem (replicate 471 black_pixel) (length-replicate 471 black_pixel),
        )
        refl
