-- ===== src/Scroller/Frame.antt =====
-- `scroller_run`: a frame of the effect, from the grid to the network.
use c_client.Prelude.{
  ℕ, ◌≤◌, ◌≡◌, ◌∙◌, Bool, true, some, List, arith, length, get_elem?, Returns, returns,
  Returns-bind,
}
use c_client.Prelude.Int.{ℤ}
use c_client.Extension.{grid_width, grid_height, num_strips, max_strip_size, Pixel, PixelInfo}
use c_client.Pixel.{Grid, GridMemory}
use c_client.Pixel.Access.{IsGrid}
use c_client.Pixel.Fill.{Given}
use c_client.Pixel.ReadGrid.{Copied, read_grid_to_list-Copied}
use c_client.Opc.{SinkInfo, Client, Kernel, find_sink}
use c_client.Opc.Sending.{find_sink-next}
use c_client.Opc.Message.{Put, opc_put_pixel_list-Put}
use c_client.Opc.Strips.Sizes.{AllWired}
use c_client.Opc.Strips.Organise.{Organised}
use c_client.Scroller.{Buffer, Storage, scroller_run}
use c_client.Scroller.Shift.{Shifted, shift_columns-Shifted}

-- The runner's pixels, the effect's storage and the network between two frames.
abbrev pub State : Type 0
State = List Pixel × Storage × Client

module _ (sink : ℤ) (i : ℕ) (infos : List PixelInfo) where
  -- The map and the buffer are whole, the runner has place for every pixel, and the sink exists.
  pub record IsReady (s : State) : Type 0 where
    pub map : IsGrid grid_width grid_height s.1.pixel_grid
    pub buffer : IsGrid s.1.buff.width grid_height s.1.buff.grid
    pub room : length infos ≤ length s.0
    pub found : find_sink sink s.2 ≡ some i
    pub entry : (info : SinkInfo) × (get_elem? s.2.sinks i ≡ some info)

  -- What a frame does: the pixels are copied from the map, their organised list is sent to the sink,
  -- and the map is shifted.
  pub record Frame (k : Kernel) (s s' : State) : Type 0 where
    pub ready : IsReady s'
    pub pixels : Copied s.0 s.1.pixel_grid infos s'.0
    pub sent :
        (info : SinkInfo) × (out : List Pixel) × Organised s'.0 infos out
        × (done : Bool) × Put k sink i info 0 471 out s.2 (done, s'.2)
    pub shifted : Shifted s.1.pixel_grid s.1.buff (s'.1.pixel_grid, s'.1.buff)

  module _ (k : Kernel) (strips : GridMemory) where
    Frame-done :
        (s : State) (pixels out : List Pixel) (info : SinkInfo) (done : Bool) (client : Client)
        (g : Grid) (b : Buffer)
        → IsReady s
        → Copied s.0 s.1.pixel_grid infos pixels
        → Organised pixels infos out
        → Put k sink i info 0 471 out s.2 (done, client)
        → Shifted s.1.pixel_grid s.1.buff (g, b)
        → Frame k s (pixels, record { buff = b; pixel_grid = g }, client)
    Frame-done s pixels out info done client g b r cp o p sh = record {
      ready = record {
        map = sh.grid;
        buffer = rw sh.buffer r.buffer;
        room = omega (arith, r.room, cp.size);
        found = find_sink-next sink s.2 client p.next ∙ r.found;
        entry = (p.sink_after.0, p.sink_after.1);
      };
      pixels = cp;
      sent = (info, out, o, done, p);
      shifted = sh;
    }

    -- With a wired layout, and memory for `opc_put_pixel_list`, a frame from a ready state does not
    -- fault, does all of its parts, and leaves a ready state.
    pub scroller_run-Frame :
        (s : State)
        → AllWired infos
        → Given num_strips max_strip_size strips
        → IsReady s
        → Returns (Frame k s) (scroller_run k sink infos strips true s)
    unfolding scroller_run
    scroller_run-Frame s wired given r =
        Returns-bind (read_grid_to_list-Copied s.0 s.1.pixel_grid infos r.map r.room) λ pixels cp.
          Returns-bind
            (opc_put_pixel_list-Put k sink i r.entry.0 pixels infos strips s.2 r.found r.entry.1
              wired (omega (arith, r.room, cp.size)) given)
            λ (_, client) (_, out, o, done, p).
              Returns-bind (shift_columns-Shifted s.1.pixel_grid r.map s.1.buff r.buffer)
                λ (g, b) sh. returns (Frame-done s pixels out r.entry.0 done client g b r cp o p sh)
