-- ===== src/Program/Start.antt =====
-- src/effect_runner.c: `main` up to its loop, and the runner that it makes.
pub mod Startup
use c_client.Prelude.{
  ℕ, Bool, true, false, Option, none, some, List, [], replicate, codes, if◌then◌else◌, fill,
}
use c_client.Prelude.Int.{ℤ, pos, negsuc, eq_ℤ}
use c_client.Extension.{Double, Pixel, PixelInfo, black_pixel, num_pixels}
use c_client.Process.{Outcome, ok, exits, fault}
use c_client.Csv.{Bytes}
use c_client.Csv.Parsers.{Files}
use c_client.Layout.{load_layout}
use c_client.Opc.{SinkInfo, Client, opc_max_sinks, opc_close}
use c_client.Opc.Sinks.{AddrInfo, opc_new_sink}
use c_client.EffectRunner.{Effects, Runner, init_effect, clear_pixels}

abbrev pub server_address : Bytes
server_address = codes "127.0.0.1:7890"

-- A static table is zeroed: no sink exists.
abbrev pub first_client : Client
first_client = record {
  sinks = replicate opc_max_sinks (record { address = 0; port = 0; sockid = pos 0 });
  next_sink = 0;
  calls = 0;
  log = [];
}

-- What the program starts from: the names that `getaddrinfo` finds, the files, what `list_new` and
-- `malloc` and `calloc` of the runner and its frame give, and `atof`.
pub record Machine : Type 0 where
  pub getaddrinfo : Bytes → Option (List AddrInfo)
  pub files : Files
  pub list_memory : Bool
  pub runner_memory : Bool
  pub frame_memory : Bool
  pub atof : Bytes → Double

-- The locals of `main` at its loop.
pub record MainState (E W : Type 0) : Type 0 where
  pub sink : ℤ
  pub pixel_info : List PixelInfo
  pub runner : Runner E W

-- The frame of `effect_runner_new`; none for NULL.
pub new_frame : Bool → Option (List Pixel)
new_frame memory = if memory then some (replicate num_pixels black_pixel) else none

-- The effects use the sink and the layout, in a world that has the client.
module _ {E W : Type 0} (m : Machine) (es : ℤ → List PixelInfo → Effects E W)
    (world : Client → W) where
  -- `effect_runner_init` and CLEAR_PIXELS, which goes through NULL without memory.
  pub init_runner : ℤ → List PixelInfo → Option E → W → Outcome (MainState E W)
  unfolding new_frame
  init_runner sink infos effect w =
      if m.runner_memory
      then elim (new_frame m.frame_memory) [
        | none ↦ fault
        | some frame ↦ elim (clear_pixels frame) [
          | none ↦ fault
          | some white ↦ ok (record {
            sink = sink;
            pixel_info = infos;
            runner = record { effect = effect; frame = white; frame_no = 0; world = w };
          })
        ]
      ]
      else fault

  pub with_effect : ℤ → List PixelInfo → Outcome (Option E × W) → Outcome (MainState E W)
  unfolding init_runner
  with_effect sink infos (ok (effect, w)) = init_runner sink infos effect w
  with_effect sink infos exits = exits
  with_effect sink infos fault = fault

  -- Behind the opening of the sink. `fuel` is that of the loops over the files.
  pub with_sink : ℕ → ℤ → Client → Outcome (MainState E W)
  unfolding with_effect
  with_sink fuel sink c =
      if eq_ℤ sink (negsuc 0)
      then exits
      else if m.list_memory
      then elim (load_layout m.files m.atof fuel) [
        | none ↦ fault
        | some infos ↦
            with_effect sink infos (init_effect (es sink infos) (codes "scroll") (world c))
      ]
      else exits

  unfoldable pub start_main : ℕ → Outcome (MainState E W)
  unfolding with_sink opc_new_sink
  start_main fuel = elim (opc_new_sink m.getaddrinfo server_address first_client) [
    | none ↦ fault
    | some (sink, c) ↦ with_sink fuel sink c
  ]
