-- ===== src/EffectRunner.antt =====
-- src/effect_runner.c: the commands, the effects that they start, and a round of the main loop.
pub mod Commands
pub mod Rounds
mod Tests
use c_client.Prelude.{
  same_text, ℕ, zero, suc, ◌+◌, Bool, true, false, Option, none, some, List, [], ◌∷◌, ◌++◌, codes,
  get_elem?, ltb, ◌==◌, if◌then◌else◌, fill,
}
use c_client.Prelude.Int.{ℤ, pos, negsuc}
use c_client.Extension.{Pixel, num_pixels, white_pixel}
use c_client.Process.{and_then}
use c_client.CtrlServer.{Outcome, ok, exits, fault}

-- The functions that make the effects.
pub data Constructor : Type 0 where
  get_temp_effect get_temp_timelapse_effect get_temp_log_effect : Constructor
  get_windspeed_effect get_scroller_effect get_image_effect : Constructor
  get_sun_effect get_alltest_effect get_test1_effect get_dummy_python_effect : Constructor

-- What the runner uses of the effects, whose objects are in `E`, and of the rest of the world, in
-- `W`. A constructor may return NULL, or end the program. `run` takes the frame and its number, and may change both.
pub record Effects (E W : Type 0) : Type 0 where
  pub construct : Constructor → W → Outcome (Option E × W)
  pub run : E → List Pixel → ℕ → W → Outcome (E × (List Pixel × (ℕ × W)))
  pub remove : E → W → W
  pub system : List ℕ → W → W

abbrev pub effects : List (List ℕ × Constructor)
effects =
    (codes "temp", get_temp_effect)
    ∷ (codes "temp_timelapse", get_temp_timelapse_effect)
    ∷ (codes "temp_log", get_temp_log_effect)
    ∷ (codes "windspeed", get_windspeed_effect)
    ∷ (codes "scroll", get_scroller_effect)
    ∷ (codes "image", get_image_effect)
    ∷ (codes "sun", get_sun_effect)
    ∷ (codes "alltest", get_alltest_effect)
    ∷ (codes "1test", get_test1_effect)
    ∷ []

abbrev pub raver_plaid : List ℕ
raver_plaid = codes "python ../openpixelcontrol/python/raver_plaid.py &"

abbrev pub lava_lamp : List ℕ
lava_lamp = codes "python ../openpixelcontrol/python/lava_lamp.py  --layout layout/WorldMap.json &"

abbrev pub conway : List ℕ
conway = codes "python ../openpixelcontrol/python/conway.py &"

abbrev pub snake : List ℕ
snake = codes "python ../games/snake/snake.py &"

abbrev pub cmds : List (List ℕ × List ℕ)
cmds =
    (codes "raverplaid", raver_plaid)
    ∷ (codes "lavalamp", lava_lamp)
    ∷ (codes "conway", conway)
    ∷ (codes "snake", snake)
    ∷ []

abbrev pub commands : List (List ℕ)
commands =
    codes "alltest"
    ∷ codes "temp_timelapse"
    ∷ codes "sun"
    ∷ codes "raverplaid"
    ∷ codes "lavalamp"
    ∷ codes "conway"
    ∷ codes "scroll"
    ∷ codes "1test"
    ∷ codes "temp_log"
    ∷ codes "image"
    ∷ []

-- The value of the first entry with the key.
pub find_cmd : List ℕ → List (List ℕ × List ℕ) → Option (List ℕ)
unfolding same_text
find_cmd arg [] = none
find_cmd arg ((key, value) ∷ rest) =
    let later = find_cmd arg rest in if same_text key arg then some value else later

-- `effect_runner_t`, less the layout and the sink, which stay as they are. `effect` is none for NULL.
pub record Runner (E W : Type 0) : Type 0 where
  pub effect : Option E
  pub frame : List Pixel
  pub frame_no : ℕ
  pub world : W

-- CLEAR_PIXELS
pub clear_pixels : List Pixel → Option (List Pixel)
unfolding fill
clear_pixels frame = fill white_pixel num_pixels 0 frame

module _ {E W : Type 0} (es : Effects E W) where
  -- The loop over `effects`: every match constructs, and the last one is kept.
  pub build : List ℕ → List (List ℕ × Constructor) → Option E → W → Outcome (Option E × W)
  build arg [] effect w = ok (effect, w)
  build arg ((name, new) ∷ rest) effect w =
      and_then (if same_text name arg then es.construct new w else ok (effect, w))
        λ effect' w'. build arg rest effect' w'

  unfoldable pub built : Outcome (Option E × W) → Outcome (Option E × W)
  built (ok (none, w)) = exits
  built (ok (some e, w)) = ok (some e, w)
  built exits = exits
  built fault = fault

  pub init_effect : List ℕ → W → Outcome (Option E × W)
  unfolding find_cmd build built
  init_effect arg w = elim (find_cmd arg cmds) [
    | some value ↦ es.construct get_dummy_python_effect (es.system value w)
    | none ↦ built (build arg effects none w)
  ]

  unfoldable pub restarted : List Pixel → Outcome (Option E × W) → Outcome (ℤ × Runner E W)
  restarted frame (ok (effect, w)) =
      ok (negsuc 0, record { effect = effect; frame = frame; frame_no = 0; world = w })
  restarted frame exits = exits
  restarted frame fault = fault

  -- The body of the inner if.
  pub switch_effect : List ℕ → Runner E W → Outcome (ℤ × Runner E W)
  unfolding restarted init_effect clear_pixels
  switch_effect name r = elim r.effect [
    | none ↦ fault
    | some e ↦ elim (clear_pixels r.frame) [
      | none ↦ fault
      | some frame ↦ restarted frame (init_effect name (es.remove e r.world))
    ]
  ]

  -- Between the lock and the unlock.
  pub handle_command : ℤ → Runner E W → Outcome (ℤ × Runner E W)
  unfolding switch_effect
  handle_command (negsuc c) r = ok (negsuc c, r)
  handle_command (pos c) r =
      if ltb 0 c
      then (if ltb c 10
          then elim (get_elem? commands c) [ none ↦ fault | some name ↦ switch_effect name r ]
          else ok (pos c, r))
      else ok (pos c, r)

  ran : ℤ → Outcome (E × (List Pixel × (ℕ × W))) → Outcome (ℤ × Runner E W)
  unfolding handle_command
  ran shared_cmd (ok (e, (frame, (frame_no, w)))) =
      handle_command shared_cmd
        (record { effect = some e; frame = frame; frame_no = frame_no + 1; world = w })
  ran shared_cmd exits = exits
  ran shared_cmd fault = fault

  -- A round of the main loop. The command is what the servers have left when the lock is taken.
  pub runner_round : ℤ → Runner E W → Outcome (ℤ × Runner E W)
  unfolding ran
  runner_round shared_cmd r = elim r.effect [
    | none ↦ fault
    | some e ↦ ran shared_cmd (es.run e r.frame r.frame_no r.world)
  ]
