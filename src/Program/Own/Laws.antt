-- ===== src/Program/Own/Laws.antt =====
-- The effects of src/effects do for the runner what it relies on.
use mathlib.Core.Option.{some-injective}
use mathlib.Core.Path.{subst}
use c_client.Prelude.{
  ℕ, zero, suc, ◌≡◌, refl, ◌⊎◌, inl, inr, Option, none, some, List, [], ◌∷◌, arith, get_elem?,
  Bool-cases, Returns-value,
}
use c_client.Prelude.Int.{ℤ}
use c_client.Extension.{PixelInfo}
use c_client.Process.{Outcome, ok, exits, fault}
use c_client.Scroller.Start.{get_scroller_effect-Started}
use c_client.Image.White.{get_image_effect-White}
use c_client.SmallEffects.Lit.{constructors-Black}
use c_client.Sunrise.{get_sun_effect}
use c_client.Sunrise.Lines.{SunLine, write_lines}
use c_client.Weather.Lines as WeatherLines
use c_client.Weather.Lines.{TempLine}
use c_client.Weather.Effects.{get_temp_timelapse_effect, get_temp_log_effect}
use c_client.EffectRunner
use c_client.EffectRunner.{
  Constructor, get_temp_effect, get_windspeed_effect, get_dummy_python_effect,
}
use c_client.EffectRunner.Commands.{Choice, native, script, choice, choices}
use c_client.Program.Safe.{Lawful}
use c_client.Program.Own.{
  Effect, scroller, image, alltest, test1, sun, weather, python, World, Resources, made, made_lit,
  made_weather, world_after, weather_of, make_sun, make_weather, make_python, make,
  python_kill_process, remove, program_effects,
}
use c_client.Program.Own.Kept.{Online, Supplied, temp_timelapse, temp_log, Kept}
use c_client.Program.Own.Frames.{run-KeepsOn}

-- The effects that a command starts, and the stand-in of the scripts.
abbrev pub Offered : Constructor → Type 0
Offered EffectRunner.get_scroller_effect = Unit {0}
Offered EffectRunner.get_image_effect = Unit {0}
Offered EffectRunner.get_test1_effect = Unit {0}
Offered EffectRunner.get_sun_effect = Unit {0}
Offered EffectRunner.get_temp_timelapse_effect = Unit {0}
Offered EffectRunner.get_temp_log_effect = Unit {0}
Offered get_dummy_python_effect = Unit {0}
Offered get_temp_effect = ⊥
Offered get_windspeed_effect = ⊥
Offered EffectRunner.get_alltest_effect = ⊥

abbrev AreOffered : List Choice → Type 0
AreOffered [] = Unit {0}
AreOffered (native new ∷ cs) = Offered new × AreOffered cs
AreOffered (script line ∷ cs) = AreOffered cs

abbrev OfferedChoice : Choice → Type 0
OfferedChoice (native new) = Offered new
OfferedChoice (script line) = Unit {0}

AreOffered-entry :
    (cs : List Choice) (n : ℕ) (new : Constructor)
    → AreOffered cs
    → get_elem? cs n ≡ some (native new)
    → Offered new
AreOffered-entry [] n new all at = cc
AreOffered-entry (native c ∷ cs) zero new (o, all) at =
    subst OfferedChoice (some-injective (native c) (native new) at) o
AreOffered-entry (script line ∷ cs) zero new all at = cc
AreOffered-entry (native c ∷ cs) (suc n) new (o, all) at = AreOffered-entry cs n new all at
AreOffered-entry (script line ∷ cs) (suc n) new all at = AreOffered-entry cs n new all at

choice-Offered : (n : ℕ) (new : Constructor) → choice n ≡ some (native new) → Offered new
choice-Offered zero new chosen = cc
choice-Offered (suc n) new chosen =
    AreOffered-entry choices n new (tt, (tt, (tt, (tt, (tt, (tt, tt)))))) chosen

module _ (sink : ℤ) (i : ℕ) (infos : List PixelInfo) (suns : List SunLine) (temps : List TempLine)
    {V O : Type 0} (r : Resources V O) (s : Supplied sink i infos suns temps r) where
  -- The constructor makes an effect for frame 0.
  abbrev Makes : Outcome (Option Effect × World) → Type 0
  Makes result =
      (e : Effect) × (w : World) × (result ≡ ok (some e, w)) × Kept sink i infos suns temps r e 0 w

  module _ (w : World) (online : Online sink i w.client) where
    make-scroller : Makes (make r sink infos EffectRunner.get_scroller_effect w)
    unfolding make made
    make-scroller =
        let (storage, e, st) =
          Returns-value (get_scroller_effect-Started r.buffer r.map s.buffer s.map) in
        (
          scroller st.storage,
          w,
          rw (s.effect_memory, s.object_memory, e, st.made) refl,
          (online, st.map, rw st.width st.buffer.grid),
        )

    make-image : Makes (make r sink infos EffectRunner.get_image_effect w)
    unfolding make made
    make-image =
        let (_, e, (map, is_made, white)) = Returns-value (get_image_effect-White r.map s.map) in
        (image map, w, rw (s.effect_memory, e, is_made) refl, (online, white.grid))

    make-test1 : Makes (make r sink infos EffectRunner.get_test1_effect w)
    unfolding make made_lit
    make-test1 =
        let (map, e, black) = Returns-value ((constructors-Black r.map s.map).1) in
        (test1 map, w, rw (s.effect_memory, e) refl, online)

    make-sun : Makes (make r sink infos EffectRunner.get_sun_effect w)
    unfolding make make_sun get_sun_effect
    make-sun = (
      sun (get_sun_effect (write_lines suns)),
      w,
      rw (s.effect_memory, s.sun_file, s.object_memory) refl,
      (
        online,
        record {
          step = record {
            content = refl;
            left = refl;
            clock = record {
              tens = 0;
              min = refl;
              small = omega arith;
              hour = omega arith;
              sec = refl;
            };
          };
          bound = omega arith;
        },
      ),
    )

    make-timelapse : Makes (make r sink infos EffectRunner.get_temp_timelapse_effect w)
    unfolding make make_weather made_weather world_after weather_of get_temp_timelapse_effect
    make-timelapse = (
      weather (temp_timelapse sink i infos suns temps r) (WeatherLines.write_lines temps)
          (WeatherLines.write_lines temps),
      world_after
          (weather_of [] 0 (WeatherLines.write_lines temps) (WeatherLines.write_lines temps) w) w,
      rw (s.effect_memory, s.temp_file, s.zeroed) refl,
      (
        online,
        inl (record {
          same = refl;
          content_is = refl;
          place = 0;
          left_is = refl;
          inside = omega arith;
          turn = refl;
          bound = omega arith;
        }),
      ),
    )

    make-python : Makes (make r sink infos get_dummy_python_effect w)
    unfolding make make_python
    make-python = (python, w, rw s.effect_memory refl, online)

    make-log :
        (make r sink infos EffectRunner.get_temp_log_effect w ≡ exits)
        ⊎ Makes (make r sink infos EffectRunner.get_temp_log_effect w)
    unfolding make make_weather made_weather world_after weather_of get_temp_log_effect
    make-log = elim (Bool-cases r.log_opens) [
      | inl opens ↦ inr (
        weather (temp_log sink i infos suns temps r) [] [],
        record w { appended = [] },
        rw (s.effect_memory, opens) refl,
        (record { found = online.found; info = online.info; entry = online.entry }, inr refl),
      )
      | inr fails ↦ inl (rw (s.effect_memory, fails) refl)
    ]

    make-Makes :
        (new : Constructor)
        → Offered new
        → (make r sink infos new w ≡ exits) ⊎ Makes (make r sink infos new w)
    make-Makes EffectRunner.get_scroller_effect offered = inr make-scroller
    make-Makes EffectRunner.get_image_effect offered = inr make-image
    make-Makes EffectRunner.get_test1_effect offered = inr make-test1
    make-Makes EffectRunner.get_sun_effect offered = inr make-sun
    make-Makes EffectRunner.get_temp_timelapse_effect offered = inr make-timelapse
    make-Makes EffectRunner.get_temp_log_effect offered = make-log
    make-Makes get_dummy_python_effect offered = inr make-python
    make-Makes get_temp_effect offered = absurd offered
    make-Makes get_windspeed_effect offered = absurd offered
    make-Makes EffectRunner.get_alltest_effect offered = absurd offered

  remove-Online :
      (e : Effect) (n : ℕ) (w : World)
      → Kept sink i infos suns temps r e n w
      → Online sink i (remove r sink infos e w).client
  unfolding remove python_kill_process
  remove-Online (scroller storage) n w kept = kept.0
  remove-Online (image map) n w kept = kept.0
  remove-Online (alltest map) n w kept = absurd kept
  remove-Online (test1 map) n w online = online
  remove-Online (sun state) n w kept = kept.0
  remove-Online (weather e content left) n w kept = kept.0
  remove-Online python n w online = record {
    found = online.found;
    info = online.info;
    entry = online.entry;
  }

  abbrev KeptAfter : Outcome (Option Effect × World) → Type 0
  KeptAfter (ok (some e, w)) = Kept sink i infos suns temps r e 0 w
  KeptAfter (ok (none, w)) = Unit {0}
  KeptAfter exits = Unit {0}
  KeptAfter fault = ⊥

  make-KeptAfter :
      (new : Constructor) (w : World)
      → Offered new
      → Online sink i w.client
      → KeptAfter (make r sink infos new w)
  make-KeptAfter new w offered online = elim (make-Makes w online new offered) [
    | inl ended ↦ rw ended tt
    | inr (e, w', is, kept) ↦ rw is kept
  ]

  -- The effects keep their laws, as they start and as they go on.
  pub program_effects-Lawful :
      Lawful
        (Kept sink i infos suns temps r)
        (λ w. Online sink i w.client)
        (program_effects r sink infos)
  unfolding program_effects
  program_effects-Lawful = record {
    runs = λ e frame n w kept size.
        elim (run-KeepsOn sink i infos suns temps r s e frame n w kept size) [
          | inl ended ↦ inl ended
          | inr on ↦ inr (
            on.after,
            on.frame,
            on.number,
            on.world,
            on.returned,
            on.size,
            subst (λ m. Kept sink i infos suns temps r on.after m on.world) (omega arith) on.kept,
          )
        ];
    removes = remove-Online;
    scripts =
        λ line w online. record { found = online.found; info = online.info; entry = online.entry };
    constructs = λ n new w w' e chosen online is.
        subst KeptAfter is (make-KeptAfter new w (choice-Offered n new chosen) online);
    no_fault = λ n new w chosen online faulted.
        subst KeptAfter faulted (make-KeptAfter new w (choice-Offered n new chosen) online);
    stand_in = λ w online. make-python w online;
  }
