-- ===== src/Program/Own/Running.antt =====
-- The program with its own effects, from the start of `main` on.
use c_client.Prelude.{ℕ, ◌<◌, ◌≡◌, refl, true, some, List, [], ◌∷◌, length, codes}
use c_client.Prelude.Int.{ℤ, pos}
use c_client.Extension.{PixelInfo}
use c_client.Process.{ok}
use c_client.Layout.Entries.{Entry}
use c_client.Opc.{Client, find_sink}
use c_client.Opc.Sinks.{AddrInfo}
use c_client.Scroller
use c_client.Scroller.{Storage}
use c_client.Sunrise.Lines.{SunLine}
use c_client.Weather.Lines.{TempLine}
use c_client.CtrlServer.{Server}
use c_client.EffectRunner.{get_scroller_effect, runner_round}
use c_client.Program.{State, Outside, Steps}
use c_client.Program.Safe.{Safe, EndsSafe, Steps-EndsSafe}
use c_client.Program.Start.{Machine, start_main}
use c_client.Program.Start.Startup.{
  Ready, one_sink, first_runner, first_runner-Safe, layout_of, start_main-Started,
}
use c_client.Program.Own.{Effect, scroller, World, Resources, made, make, program_effects}
use c_client.Program.Own.Kept.{Online, Supplied, Kept}
use c_client.Program.Own.Laws.{program_effects-Lawful}

module _ (sink : ℤ) (i : ℕ) (infos : List PixelInfo) (suns : List SunLine) (temps : List TempLine)
    {V O : Type 0} (r : Resources V O) where
  -- With the layout, the files, the memory and the network as `Supplied` says, let the runner have an
  -- effect of the program that can run its next frame, and a whole frame. Then it has after any rounds
  -- of the three threads that end well, in any order, with any clients and any commands, and its next
  -- round does not fault: it leaves the runner so again, whichever of the nine effects and scripts the
  -- command asks for, or ends the program.
  pub program_effects-EndsSafe :
      (o : Outside) (s t : State Effect World)
      → Supplied sink i infos suns temps r
      → Steps o (program_effects r sink infos) s t
      → Safe (Kept sink i infos suns temps r) s.runner
      → Safe (Kept sink i infos suns temps r) t.runner
        × EndsSafe
            (Kept sink i infos suns temps r)
            (runner_round (program_effects r sink infos) t.shared_cmd t.runner)
  program_effects-EndsSafe o s t supplied =
      Steps-EndsSafe (Kept sink i infos suns temps r) (λ w. Online sink i w.client)
        (program_effects r sink infos) (program_effects-Lawful sink i infos suns temps r supplied) o
        s t

-- No socket was opened and no script started.
abbrev pub first_world : Client → World
first_world c = record {
  client = c;
  traffic = record { calls = 0; opened = []; sent = []; closed = [] };
  appended = [];
  scripts = [];
}

module _ {V O : Type 0} (m : Machine) (r : Resources V O) (entries : List Entry)
    (ready : Ready m entries) (suns : List SunLine) (temps : List TempLine) (first : AddrInfo)
    (more : List AddrInfo) (known : m.getaddrinfo (codes "127.0.0.1") ≡ some (first ∷ more))
    (inet : first.inet ≡ true) where
  abbrev pub layout : List PixelInfo
  layout = layout_of m (program_effects r) first_world entries ready first more known inet

  -- The loop of `main` with the scroller's storage, and the threads with what they start from.
  abbrev pub at_loop : Storage → ℤ → Server → Server → State Effect World
  at_loop storage cmd web basic = record {
    shared_cmd = cmd;
    web = web;
    basic = basic;
    runner = first_runner (scroller storage) (first_world (one_sink first.address));
  }

  first_Online : Online (pos 0) 0 (one_sink first.address)
  unfolding find_sink
  first_Online = record { found = refl; info = _; entry = refl }

  made-scroller :
      (storage : Storage) (w : World)
      → r.effect_memory ≡ true
      → r.object_memory ≡ true
      → Scroller.get_scroller_effect true true r.buffer r.map ≡ some (some storage)
      → (program_effects r (pos 0) layout).construct get_scroller_effect w
        ≡ ok (some (scroller storage), w)
  unfolding program_effects make made
  made-scroller storage w effect_memory object_memory is =
      rw (effect_memory, object_memory, is) refl

  -- Let `getaddrinfo` find a list for 127.0.0.1 whose first entry is an IPv4 address, the three files
  -- describe 471 pixels in the order of their positions, each wired, with numbers below 2^31 and
  -- geolocations without spaces, quotes, NULs and ends of line, there be memory, and the files of the
  -- effects and the network be as `Supplied` says. Let `storage` be what `get_scroller_effect` makes.
  -- Then `main` comes to its loop, with fuel for one round more than there are pixels: with sink 0,
  -- which exists, the described layout, and the scroller at frame 0 on a white frame. After any rounds
  -- of the three threads that end well from there, in any order, with any clients and any commands, the
  -- runner has an effect of the program that can run its next frame, and a whole frame, and its next
  -- round does not fault.
  pub start_main-EndsSafe :
      (fuel : ℕ) (storage : Storage) (o : Outside) (cmd : ℤ) (web basic : Server)
      (t : State Effect World)
      → length entries < fuel
      → Supplied (pos 0) 0 layout suns temps r
      → Scroller.get_scroller_effect true true r.buffer r.map ≡ some (some storage)
      → Steps o (program_effects r (pos 0) layout) (at_loop storage cmd web basic) t
      → (start_main m (program_effects r) first_world fuel
          ≡ ok (record {
            sink = pos 0;
            pixel_info = layout;
            runner = first_runner (scroller storage) (first_world (one_sink first.address));
          }))
        × (find_sink (pos 0) (one_sink first.address) ≡ some 0)
        × Safe (Kept (pos 0) 0 layout suns temps r) t.runner
        × EndsSafe
            (Kept (pos 0) 0 layout suns temps r)
            (runner_round (program_effects r (pos 0) layout) t.shared_cmd t.runner)
  start_main-EndsSafe fuel storage o cmd web basic t enough supplied is steps =
      let w = first_world (one_sink first.address) in
      let constructed = made-scroller storage w supplied.effect_memory supplied.object_memory is in
      let good =
        (program_effects-Lawful (pos 0) 0 layout suns temps r supplied).constructs 6
          get_scroller_effect w w (scroller storage) refl first_Online constructed in
      let (safe, round) =
        program_effects-EndsSafe (pos 0) 0 layout suns temps r o (at_loop storage cmd web basic) t
          supplied steps
          (first_runner-Safe (Kept (pos 0) 0 layout suns temps r) (scroller storage) w good) in
      (
        start_main-Started m (program_effects r) first_world entries ready first more known inet
            fuel (scroller storage) w enough constructed,
        first_Online.found,
        safe,
        round,
      )
