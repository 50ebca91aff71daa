-- ===== src/Examples/Metadata.antt =====
-- services/weatherlink-kafka/service/metadata.go at concrete inputs.
use roach.Base.{ℕ, ◌≡◌, refl, false, [], ◌∷◌, none, some, Bool, ◌==◌}
use roach.Base.Strings.{
  codes, format_int, digits, digits_of, parse_int, parse_magnitude, parse_digits,
}
use roach.Weather.Metadata.{
  SensorMetadata, CatalogEntry, MetadataService, Answers, update_metadata, fetch_all_metadata,
  max_data_structure_type, max_from,
}
use roach.Weather.Metadata.Keys.{IsPublishedOnce, update_metadata-IsPublishedOnce}
use roach.Weather.Metadata.Clashes.{fetch_all_metadata_no_station}

abbrev outdoor : SensorMetadata
outdoor = record { lsid = 5; sensor_type = 43; category = codes "ISS"; body = codes "iss" }

abbrev indoor : SensorMetadata
indoor = record { lsid = 6; sensor_type = 365; category = codes "Inside Temp/Hum"; body = [] }

abbrev entry : CatalogEntry
entry = record {
  sensor_type = 43;
  structure_types = codes "2" ∷ codes "x" ∷ codes "10" ∷ codes "-1" ∷ [];
  body = codes "entry";
}

abbrev unknown : MetadataService
unknown = record {
  categories = [];
  sensor_types = [];
  existing_metadata_keys = [];
  published = [];
  attempts = 0;
}

abbrev answers : Answers
answers = record {
  sensors = some (outdoor ∷ indoor ∷ []);
  sensors_week = 1000;
  catalog = some (1200, entry ∷ []);
  station = some (codes "station");
  station_week = 1000;
}

-- The first attempt fails.
abbrev first_fails : ℕ → Bool
first_fails n = n == 0

update_metadata-IsPublishedOnce_example :
    IsPublishedOnce (update_metadata first_fails (codes "5") (answers ∷ answers ∷ []) unknown)
update_metadata-IsPublishedOnce_example =
    update_metadata-IsPublishedOnce first_fails (codes "5") (answers ∷ answers ∷ []) unknown
      (record { no_repeats = tt; known = tt })

-- A type that is no number is passed over, and a negative one is less than the others.
highest : max_data_structure_type entry ≡ some 10
unfolding max_data_structure_type max_from parse_int parse_magnitude parse_digits
highest = refl

fetch_all_metadata_no_station_example :
    fetch_all_metadata (λ n. false) (codes "5") answers unknown
    ≡ fetch_all_metadata (λ n. false) (codes "5") (record answers { station = none }) unknown
unfolding format_int digits digits_of
fetch_all_metadata_no_station_example =
    fetch_all_metadata_no_station (λ n. false) (codes "5") answers unknown (outdoor ∷ indoor ∷ []) 5
      (λ n. refl) refl refl refl refl
