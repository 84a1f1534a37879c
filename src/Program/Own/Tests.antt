-- ===== src/Program/Own/Tests.antt =====
-- The program with its own effects on a layout of 471 pixels at one place.
use c_client.Prelude.{
  ℕ, ◌≡◌, refl, inl, true, some, [], ◌∷◌, arith, length-replicate, replicate, Returns-value,
}
use c_client.Prelude.Int.{pos, negsuc}
use c_client.Extension.{white_pixel}
use c_client.Process.{ok}
use c_client.Opc.{find_sink}
use c_client.Scroller
use c_client.Scroller.{Storage}
use c_client.Scroller.Start.{get_scroller_effect-Started}
use c_client.Sunrise.{get_sun_effect}
use c_client.Sunrise.Lines as SunLines
use c_client.Sunrise.Sample.{all_lines}
use c_client.Weather.Sample.{all_temps}
use c_client.CtrlServer.{Server}
use c_client.CtrlServer.Rounds.WebSocket.{server_round-idle}
use c_client.EffectRunner
use c_client.EffectRunner.{Runner, built, runner_round}
use c_client.EffectRunner.Commands.{native}
use c_client.EffectRunner.Rounds.{runner_round-switch}
use c_client.Program.{State, Outside, web_step, runner_step, Steps, here, then}
use c_client.Program.Safe.{Safe, EndsSafe}
use c_client.Program.Start.{start_main}
use c_client.Program.Start.Startup.{one_sink, first_runner}
use c_client.Program.Own.{
  Effect, scroller, sun, python, World, kill_line, make_sun, program_effects,
}
use c_client.Program.Own.Kept.{Kept}
use c_client.Program.Own.Running.{first_world, program_effects-EndsSafe, start_main-EndsSafe}
use c_client.Samples.{memory, memory-Given, silent_peer}
use c_client.Program.Own.Sample.{
  pixels, infos, machine, machine-Ready, resources, resources-Supplied,
}

abbrev quiet : Outside
quiet = record {
  web_peer = silent_peer;
  basic_peer = silent_peer;
  sha1 = λ bs. bs;
  base64 = λ bs. bs;
}

abbrev server_at : ℕ → ℕ → Server
server_at fd clock = record { client_fd = fd; clock = clock; written = [] }

abbrev runner_of : Effect → World → Runner Effect World
runner_of e w = record {
  effect = some e;
  frame = replicate 471 white_pixel;
  frame_no = 0;
  world = w;
}

abbrev world : World
world = first_world (one_sink 16777343)

-- A script plays, and the command for the sun waits.
abbrev asked : State Effect World
asked = record {
  shared_cmd = pos 2;
  web = server_at 7 0;
  basic = server_at 0 0;
  runner = runner_of python world;
}

abbrev by_sun : Runner Effect World
by_sun =
    runner_of (sun (get_sun_effect (SunLines.write_lines all_lines)))
      (record world { scripts = kill_line ∷ [] })

abbrev switched : State Effect World
switched = record {
  shared_cmd = negsuc 0;
  web = server_at 0 2;
  basic = server_at 0 0;
  runner = by_sun;
}

asked-Steps : Steps quiet (program_effects resources (pos 0) (infos 471)) asked switched
unfolding program_effects make_sun built
asked-Steps =
    (then)
      ((then) here (
        web_step (pos 2) (server_at 0 2) (
          server_round-idle silent_peer (λ bs. bs) (λ bs. bs) (pos 2) (server_at 7 0) (omega arith)
            (inl refl) refl)))
      (runner_step (negsuc 0) by_sun (
        runner_round-switch (program_effects resources (pos 0) (infos 471)) asked.runner python
          python (replicate 471 white_pixel) 0 world 2 (native EffectRunner.get_sun_effect)
          by_sun.effect (record world { scripts = kill_line ∷ [] }) refl refl
          (length-replicate 471 white_pixel) refl refl))

asked-Safe : Safe (Kept (pos 0) 0 (infos 471) all_lines all_temps resources) asked.runner
unfolding find_sink
asked-Safe = record {
  current = python;
  running = refl;
  whole = length-replicate 471 white_pixel;
  good = record { found = refl; info = _; entry = refl };
}

program_effects-EndsSafe_example :
    Safe (Kept (pos 0) 0 (infos 471) all_lines all_temps resources) by_sun
    × EndsSafe
        (Kept (pos 0) 0 (infos 471) all_lines all_temps resources)
        (runner_round (program_effects resources (pos 0) (infos 471)) (negsuc 0) by_sun)
program_effects-EndsSafe_example =
    program_effects-EndsSafe (pos 0) 0 (infos 471) all_lines all_temps resources quiet asked
      switched resources-Supplied asked-Steps asked-Safe

-- What the scroller starts with.
abbrev storage : Storage
storage =
    (Returns-value (
      get_scroller_effect-Started (memory 100 24) (memory 53 24) (memory-Given 100 24)
        (memory-Given 53 24))).2.storage

storage-made :
    Scroller.get_scroller_effect true true (memory 100 24) (memory 53 24) ≡ some (some storage)
storage-made =
    let (made, e, st) = Returns-value (
      get_scroller_effect-Started (memory 100 24) (memory 53 24) (memory-Given 100 24)
        (memory-Given 53 24)) in
    rw (e, st.made) refl

-- The command for the log waits at the loop.
abbrev first_state : State Effect World
first_state = record {
  shared_cmd = pos 8;
  web = server_at 7 0;
  basic = server_at 0 0;
  runner = first_runner (scroller storage) world;
}

start_main-EndsSafe_example :
    (start_main machine (program_effects resources) first_world 472
      ≡ ok (record {
        sink = pos 0;
        pixel_info = infos 471;
        runner = first_runner (scroller storage) world;
      }))
    × (find_sink (pos 0) (one_sink 16777343) ≡ some 0)
    × Safe (Kept (pos 0) 0 (infos 471) all_lines all_temps resources) first_state.runner
    × EndsSafe
        (Kept (pos 0) 0 (infos 471) all_lines all_temps resources)
        (runner_round (program_effects resources (pos 0) (infos 471)) (pos 8) first_state.runner)
start_main-EndsSafe_example =
    start_main-EndsSafe machine resources (pixels 471) machine-Ready all_lines all_temps
      (record { inet = true; address = 16777343 }) [] refl refl 472 storage quiet (pos 8)
      (server_at 7 0) (server_at 0 0) (record first_state { web = server_at 0 2 }) (omega arith)
      resources-Supplied storage-made
      ((then) here (
        web_step (pos 8) (server_at 0 2) (
          server_round-idle silent_peer (λ bs. bs) (λ bs. bs) (pos 8) (server_at 7 0) (omega arith)
            (inl refl) refl)))
