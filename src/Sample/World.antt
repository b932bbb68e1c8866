-- ===== src/Sample/World.antt =====
-- A service that answers every call with an empty object, a clock that moves, and a generator that
-- repeats itself.
use aamio_rust.Base.{◌+◌, ◌*◌, none, some, [], ◌∷◌, false, replicate}
use aamio_rust.Sample.Json.{sample_json}
use aamio_rust.Sample.Floats.{sample_floats}
use aamio_rust.Client.World.{World, response}

instance abbrev pub sample_world : World
sample_world = record {
  reply = λ log request. response 200 (λ name. none) (some (123 ∷ 125 ∷ []));
  instant = λ k. k * 1000;
  unix_time = λ k. some k;
  instant_add = λ instant duration. some (instant + duration);
  searching = λ k n. k + n;
  nonce = λ k. replicate 24 9;
  draws = λ k n. k + n;
  rate = sample_floats.of_nat 1000;
  receipt_from_str = λ text. none;
  check_panics = λ raw. false;
  fuel = 1000;
}
