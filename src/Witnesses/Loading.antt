-- ===== src/Witnesses/Loading.antt =====
-- A configuration that is read from an environment.
use streamsight_agent.Base.{
  refl, true, Option, none, some, [], ◌∷◌, String, pos, str_eq, if◌then◌else◌,
}
use streamsight_agent.Config.Parser.{
  GoLib, split_list, getenv, parse_with, patterns, known_level, str,
}
use streamsight_agent.Config.Settings.{Config, load_steps, load}
use streamsight_agent.Config.Valid.{IsPositive, IsExportable, IsCollectable, load-IsInRange}

-- A library in which no text has blanks or commas, and 7 is the only number.
abbrev plain : GoLib
plain = record {
  trim_space = λ v. v;
  to_lower = λ v. v;
  split_commas = λ v. v ∷ [];
  equal_fold = λ a b. str_eq a b;
  parse_duration = λ v. if str_eq v "7s" then some (pos 7000000000) else none;
  atoi = λ v. if str_eq v "7" then some (pos 7) else none;
  parse_bool = λ v. if str_eq v "true" then some true else none;
  compiles = λ body. true;
  parse_url = λ v. some ("https", v);
  bytes_of = λ v. [];
}

abbrev environment : String → Option String
environment key =
    if str_eq key "KAFKA_BROKERS"
    then some "localhost:9092"
    else (if str_eq key "COLLECTION_INTERVAL"
        then some "7s"
        else (if str_eq key "EXPORT_QUEUE_SIZE" then some "7" else none))

abbrev loaded : Config
unfolding load_steps
loaded = (load_steps plain environment "agent-0").value

load-IsInRange_example :
    IsExportable loaded.exporter
    × IsPositive loaded.collection_interval
    × IsCollectable loaded.collector
unfolding load split_list getenv parse_with patterns known_level str
load-IsInRange_example = load-IsInRange plain environment "agent-0" loaded refl
