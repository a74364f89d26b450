-- ===== src/Logging.antt =====
-- app/core/logging.py: JsonFormatter
use webintel.Prelude.{
  Bool, false, not, ◌&&◌, ◌||◌, List, [], ◌∷◌, Option, none, some, Text, ◌==◌, text_Eq, contains,
  codes, if◌then◌else◌,
}
use webintel.Prelude.Dict
use webintel.Prelude.Dict.{Dict}
use webintel.Py.Tables.{Python}
pub mod Fields

-- JsonFormatter._standard_attributes: what logging.makeLogRecord({}) has.
abbrev pub standard_attributes : List Text
standard_attributes =
    codes "name"
    ∷ codes "msg"
    ∷ codes "args"
    ∷ codes "levelname"
    ∷ codes "levelno"
    ∷ codes "pathname"
    ∷ codes "filename"
    ∷ codes "module"
    ∷ codes "exc_info"
    ∷ codes "exc_text"
    ∷ codes "stack_info"
    ∷ codes "lineno"
    ∷ codes "funcName"
    ∷ codes "created"
    ∷ codes "msecs"
    ∷ codes "relativeCreated"
    ∷ codes "thread"
    ∷ codes "threadName"
    ∷ codes "processName"
    ∷ codes "process"
    ∷ codes "taskName"
    ∷ []

-- The keys that the loop of `format` copies.
unfoldable pub is_extra : Text → Bool
is_extra key =
    not (contains standard_attributes key) && not (key == codes "message" || key == codes "asctime")

module _ (Value : Type 0) where
  -- logging.LogRecord: getMessage() is `message`, formatException(exc_info) is `exception`, with
  -- `none` where exc_info is not set; `attributes` is __dict__.
  pub record LogRecord : Type 0 where
    pub levelname : Text
    pub name : Text
    pub message : Text
    pub exception : Option Text
    pub attributes : Dict Text Value

  -- What `format` calls: str as a value, the time in ISO form, and json.dumps with default=str.
  pub record Formatting : Type 0 where
    pub str : Text → Value
    pub dumps : Dict Text Value → Text

module _ {Value : Type 0} where
  -- The loop over the attributes of the record.
  unfoldable pub add_extras : Dict Text Value → Dict Text Value → Dict Text Value
  unfolding is_extra
  add_extras payload [] = payload
  add_extras payload ((key, value) ∷ attributes) =
      add_extras (if is_extra key then Dict.set payload key value else payload) attributes

  module _ (py : Python) (formatting : Formatting Value) where
    -- The payload before the loop.
    abbrev pub base_payload : Text → LogRecord Value → Dict Text Value
    base_payload timestamp r =
        (codes "timestamp", formatting.str timestamp)
        ∷ (codes "level", formatting.str (py.lower r.levelname))
        ∷ (codes "logger", formatting.str r.name)
        ∷ (codes "message", formatting.str r.message)
        ∷ []

    abbrev pub add_exception : Option Text → Dict Text Value → Dict Text Value
    add_exception none payload = payload
    add_exception (some text) payload = Dict.set payload (codes "exception") (formatting.str text)

    -- The payload at the end of `format`.
    unfoldable pub payload_of : Text → LogRecord Value → Dict Text Value
    unfolding add_extras
    payload_of timestamp r =
        add_exception r.exception (add_extras (base_payload timestamp r) r.attributes)

    -- JsonFormatter.format
    unfoldable pub format : Text → LogRecord Value → Text
    unfolding payload_of
    format timestamp r = formatting.dumps (payload_of timestamp r)
