-- ===== src/Session/Samples.antt =====
-- Instances of the session's parameters, on which its definitions run: thousandths for `f64`, and a
-- small congruential generator for `StdRng`; and a configuration with two phases and one event.
use curator_rs.Prelude.{
  ℕ, ◌+◌, ◌-◌, ◌*◌, ◌/◌, ◌%◌, ◌<◌, true, false, [], ◌∷◌, none, some, arith, ltb, leb,
}
use curator_rs.Session.Floats.{Floats, Rng}
use curator_rs.Session.Config.{GameConfig, PhaseConfig, EventDefinition, linear, seeded_random}

instance abbrev pub thousandths : Floats ℕ
thousandths = record {
  of_nat = λ n. n * 1000;
  of_ratio = λ a b. a * 1000 / b;
  add = λ a b. a + b;
  sub = λ a b. a - b;
  mul = λ a b. a * b / 1000;
  div = λ a b. a * 1000 / b;
  floor = λ a. a / 1000 * 1000;
  is_finite = λ a. true;
  lt = ltb;
  le = leb;
}

pub drawn-lt : (g n : ℕ) → 0 < n → g % n < n
drawn-lt g n h = grind arith

instance abbrev pub congruential : Rng ℕ
congruential = record {
  seed_from_u64 = λ n. n;
  gen_range = λ g n. (g % n, (g * 1103515245 + 12345) % 2147483648);
  gen_range-lt = drawn-lt;
}

abbrev pub cue : EventDefinition
cue = record {
  id = "cue";
  probability_basis_points = 10000;
  minimum_occurrences = 1;
  maximum_occurrences = 2;
  cooldown_ms = 500;
  duration_ms = 1000;
  priority = 1;
  allowed_phase_ids = "warmup" ∷ [];
  instruction = some "hold";
}

abbrev pub warmup : PhaseConfig ℕ
warmup = record {
  id = "warmup";
  duration_ms = 5000;
  tempo_multiplier = 1000;
  event_ids = "cue" ∷ [];
}

abbrev pub peak : PhaseConfig ℕ
peak = record { id = "peak"; duration_ms = 5000; tempo_multiplier = 1500; event_ids = [] }

abbrev pub sample : GameConfig ℕ
sample = record {
  schema_version = 1;
  metadata = record { name = "Test"; description = "" };
  duration = record { active_duration_ms = 10000 };
  difficulty = record { tempo_multiplier = 1000 };
  tempo = record {
    curve = linear 60000 120000;
    min_bpm = 40000;
    max_bpm = 180000;
    smoothing_per_second = 4000;
    meter = 4;
  };
  media = record {
    selection_strategy = seeded_random;
    required_tags = [];
    excluded_tags = [];
    allow_video_interruption = false;
  };
  phases = warmup ∷ peak ∷ [];
  events = cue ∷ [];
  instructor = record { voice_pack_id = none; script_preset_id = none };
  audio = record {
    music_playlist_id = none;
    metronome_enabled = true;
    music_volume_percent = 80;
    voice_volume_percent = 80;
  };
  seed = some 7;
}
