-- ===== src/Tests/Given.antt =====
-- The server's surroundings given by functions, with an empty store.
use nest_auth.Prelude.{none, [], ◌++◌, codes}
use nest_auth.Redis.Memory.{Memory, memory}
use nest_auth.Redis.Namespace.{namespaced}
use nest_auth.Json.{Platform}
use nest_auth.Tests.Codec.{
  sample_stringify, sample_parse, sample_parse-stringify, sample_object_brace,
}

abbrev pub given : Platform
given = record {
  redis = namespaced memory (codes "auth");
  sha256 = λ t. t;
  hmac = λ t k. t ++ k;
  hmac_key = codes "k";
  stringify = sample_stringify;
  parse = sample_parse;
  parse-stringify = sample_parse-stringify;
  object_brace = sample_object_brace;
}

abbrev pub nothing : Memory
nothing = record { strings = λ k. none; sets = λ k. []; times = λ k. none }
