-- ===== src/Host.antt =====
-- The standard library as the driver calls it, over a world of any type: a parameter of the model.
use civo_csi.Base.{String, ℕ, ◌∷◌}
use civo_csi.Action.{Reply}
use civo_csi.Api.{Logged, slept}

-- `civostatsdConfig`, of which the driver reads two fields
pub record NodeConfig : Type 0 where
  pub region : String
  pub instance_id : String

-- The standard library as the driver calls it: `time.Sleep` in seconds, during which the rest of
-- the world goes on, `os.MkdirAll`, `os.Remove`, `os.RemoveAll`, `os.Getenv`, `os.Stat` and
-- `toml.DecodeFile`.
pub record Host (W : Type 0) : Type 0 where
  pub sleep : ℕ → W → W
  pub mkdir_all : String → W → Reply (Unit {0}) × W
  pub remove : String → W → Reply (Unit {0}) × W
  pub remove_all : String → W → Reply (Unit {0}) × W
  pub getenv : String → W → String
  pub stat : String → W → Reply (Unit {0}) × W
  pub decode_file : String → W → Reply NodeConfig × W

-- A host that keeps the pauses in the record of the client's calls.
abbrev pub recorded_host : {W : Type 0} → Host W → Host (Logged W)
recorded_host h = record {
  sleep = λ n (w, events). (h.sleep n w, slept n ∷ events);
  mkdir_all = λ path (w, events). let (r, w') = h.mkdir_all path w in (r, (w', events));
  remove = λ path (w, events). let (r, w') = h.remove path w in (r, (w', events));
  remove_all = λ path (w, events). let (r, w') = h.remove_all path w in (r, (w', events));
  getenv = λ name (w, events). h.getenv name w;
  stat = λ path (w, events). let (r, w') = h.stat path w in (r, (w', events));
  decode_file = λ path (w, events). let (r, w') = h.decode_file path w in (r, (w', events));
}
