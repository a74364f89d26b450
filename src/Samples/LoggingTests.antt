-- ===== src/Samples/LoggingTests.antt =====
-- The theorem on the logged object at a sample record, whose values are texts.
use webintel.Prelude.{◌≡◌, refl, Text, none, [], ◌∷◌, codes, text_Eq, text_eq}
use webintel.Prelude.Dict
use webintel.Logging.{LogRecord, Formatting, payload_of, base_payload}
use webintel.Logging.Fields.{or_else, extra, exception_at, payload_of_lem}
use webintel.Samples.{sample_python}

abbrev sample_formatting : Formatting Text
sample_formatting = record { str = λ s. s; dumps = λ d. [] }

abbrev sample_record : LogRecord Text
sample_record = record {
  levelname = codes "INFO";
  name = codes "app.main";
  message = codes "application_started";
  exception = none;
  attributes = (codes "name", codes "app.main") ∷ (codes "environment", codes "test") ∷ [];
}

payload_of_lem_example :
    Dict.HasDistinctKeys (payload_of sample_python sample_formatting (codes "now") sample_record)
    × ((key : Text)
        → Dict.get (payload_of sample_python sample_formatting (codes "now") sample_record) key
          ≡ or_else (exception_at sample_formatting none key) (
              or_else (extra sample_record.attributes key) (
                Dict.get
                  (base_payload sample_python sample_formatting (codes "now") sample_record)
                  key)))
unfolding Dict.has text_eq
payload_of_lem_example =
    payload_of_lem sample_python sample_formatting (codes "now") sample_record (refl, (refl, tt))
