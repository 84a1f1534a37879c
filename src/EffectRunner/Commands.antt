-- ===== src/EffectRunner/Commands.antt =====
-- Which effect each command starts.
use mathlib.Core.Option.{some-injective}
use c_client.Prelude.{
  same_text, ℕ, zero, suc, ◌<◌, ◌≡◌, refl, Option, none, some, List, [], ◌∷◌, arith, get_elem?,
  get_elem?-lt, codes, ap, sym, ◌∙◌,
}
use c_client.Process.{and_then, and_then-ok}
use c_client.CtrlServer.{Outcome, ok}
use c_client.EffectRunner.{
  Constructor, get_temp_timelapse_effect, get_temp_log_effect, get_scroller_effect,
  get_image_effect, get_sun_effect, get_test1_effect, get_dummy_python_effect, Effects, raver_plaid,
  lava_lamp, conway, commands, find_cmd, build, built, init_effect,
}

-- An effect of the program, or a script that the system runs.
pub data Choice : Type 0 where
  native : Constructor → Choice
  script : List ℕ → Choice

-- What stands behind the commands from 1 on; there is nothing behind 0.
abbrev pub choices : List Choice
choices =
    native get_temp_timelapse_effect
    ∷ native get_sun_effect
    ∷ script raver_plaid
    ∷ script lava_lamp
    ∷ script conway
    ∷ native get_scroller_effect
    ∷ native get_test1_effect
    ∷ native get_temp_log_effect
    ∷ native get_image_effect
    ∷ []

abbrev pub choice : ℕ → Option Choice
choice zero = none
choice (suc n) = get_elem? choices n

module _ {E W : Type 0} (es : Effects E W) where
  -- A native effect that cannot be made ends the program.
  abbrev pub start : Choice → W → Outcome (Option E × W)
  start (native new) w = built es (es.construct new w)
  start (script line) w = es.construct get_dummy_python_effect (es.system line w)

  -- The command has a name, and the name starts the effect.
  pub record Names (n : ℕ) (c : Choice) : Type 0 where
    pub name : List ℕ
    pub at : get_elem? commands n ≡ some name
    pub starts : (w : W) → init_effect es name w ≡ start c w

  built_once :
      (made : Outcome (Option E × W)) → built es (and_then made (λ e w. ok (e, w))) ≡ built es made
  built_once made = ap (built es) (and_then-ok made)

  names : (n : ℕ) → n < 9 → (c : Choice) × (choice (suc n) ≡ some c) × Names (suc n) c
  unfolding init_effect find_cmd same_text build
  names zero h = (
    native get_temp_timelapse_effect,
    refl,
    record {
      name = codes "temp_timelapse";
      at = refl;
      starts = λ w. built_once (es.construct get_temp_timelapse_effect w);
    },
  )
  names (suc zero) h = (
    native get_sun_effect,
    refl,
    record {
      name = codes "sun";
      at = refl;
      starts = λ w. built_once (es.construct get_sun_effect w);
    },
  )
  names (suc (suc zero)) h = (
    script raver_plaid,
    refl,
    record { name = codes "raverplaid"; at = refl; starts = λ w. refl },
  )
  names (suc (suc (suc zero))) h =
      (script lava_lamp, refl, record { name = codes "lavalamp"; at = refl; starts = λ w. refl })
  names (suc (suc (suc (suc zero)))) h =
      (script conway, refl, record { name = codes "conway"; at = refl; starts = λ w. refl })
  names (suc (suc (suc (suc (suc zero))))) h = (
    native get_scroller_effect,
    refl,
    record {
      name = codes "scroll";
      at = refl;
      starts = λ w. built_once (es.construct get_scroller_effect w);
    },
  )
  names (suc (suc (suc (suc (suc (suc zero)))))) h = (
    native get_test1_effect,
    refl,
    record {
      name = codes "1test";
      at = refl;
      starts = λ w. built_once (es.construct get_test1_effect w);
    },
  )
  names (suc (suc (suc (suc (suc (suc (suc zero))))))) h = (
    native get_temp_log_effect,
    refl,
    record {
      name = codes "temp_log";
      at = refl;
      starts = λ w. built_once (es.construct get_temp_log_effect w);
    },
  )
  names (suc (suc (suc (suc (suc (suc (suc (suc zero)))))))) h = (
    native get_image_effect,
    refl,
    record {
      name = codes "image";
      at = refl;
      starts = λ w. built_once (es.construct get_image_effect w);
    },
  )
  names (suc (suc (suc (suc (suc (suc (suc (suc (suc n))))))))) h = absurd (omega arith)

  pub choice-Names : (n : ℕ) (c : Choice) → choice n ≡ some c → Names n c
  choice-Names zero c e = cc
  choice-Names (suc n) c e =
      let (found, at, named) = names n (get_elem?-lt choices n e) in
      rw (← some-injective found c (sym at ∙ e)) named

-- The numbers with an effect are those from 1 to 9.
pub choice-bounds : (n : ℕ) (c : Choice) → choice n ≡ some c → (0 < n) × (n < 10)
choice-bounds zero c e = cc
choice-bounds (suc n) c e =
    let small : n < 9 = get_elem?-lt choices n e in (omega arith, omega arith)

-- The effect that `main` starts with.
pub init_effect-scroll :
    {E W : Type 0} (es : Effects E W) (w w' : W) (e : E)
    → es.construct get_scroller_effect w ≡ ok (some e, w')
    → init_effect es (codes "scroll") w ≡ ok (some e, w')
unfolding init_effect find_cmd build built
init_effect-scroll es w w' e made = rw made refl
