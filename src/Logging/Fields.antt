-- ===== src/Logging/Fields.antt =====
-- What each key of the logged object has.
use webintel.Prelude.{
  ◌≡◌, refl, sym, ap, ◌∙◌, inl, inr, false, [], ◌∷◌, Option, none, some, Text, ◌==◌, text_Eq,
  text_eq, text_eq_iff, codes, if◌then◌else◌, Bool-cases, arith,
}
use webintel.Prelude.Dict
use webintel.Prelude.Dict.{Dict}
use webintel.Py.Tables.{Python}
use webintel.Logging.{
  is_extra, LogRecord, Formatting, add_extras, base_payload, add_exception, payload_of,
}

-- The value that is found first.
abbrev pub or_else {ℓ} : {A : Type ℓ} → Option A → Option A → Option A
or_else none o = o
or_else (some a) o = some a

module _ {Value : Type 0} where
  -- The value of an extra attribute.
  abbrev pub extra : Dict Text Value → Text → Option Value
  extra attributes key = if is_extra key then Dict.get attributes key else none

  abbrev pub exception_at : Formatting Value → Option Text → Text → Option Value
  exception_at formatting none key = none
  exception_at formatting (some text) key =
      if codes "exception" == key then some (formatting.str text) else none

  get-absent : (d : Dict Text Value) (k : Text) → Dict.has d k ≡ false → Dict.get d k ≡ none
  unfolding Dict.has Dict.get
  get-absent [] k h = refl
  get-absent ((i, w) ∷ d) k h = ground (arith, h, get-absent d k)

  -- An attribute in front of the others that are copied.
  extra-cons :
      (payload attributes : Dict Text Value) (k : Text) (v : Value) (key : Text)
      → Dict.has attributes k ≡ false
      → or_else
          (extra attributes key)
          (Dict.get (if is_extra k then Dict.set payload k v else payload) key)
        ≡ or_else (extra ((k, v) ∷ attributes) key) (Dict.get payload key)
  unfolding Dict.get
  extra-cons payload attributes k v key fresh = elim (Bool-cases (k == key)) [
    | inl f ↦
        let none_here : Dict.get attributes key ≡ none =
          ap (Dict.get attributes) (sym ((text_eq_iff k key).0 f))
          ∙ get-absent attributes k fresh in
        let same : is_extra k ≡ is_extra key = ap is_extra ((text_eq_iff k key).0 f) in
        elim (Bool-cases (is_extra key)) [
          | inl e ↦ rw (same, e, none_here, Dict.get-set payload k key v, f) refl
          | inr e ↦ rw (same, e) refl
        ]
    | inr f ↦ elim (Bool-cases (is_extra k)) [
      | inl e ↦ rw (e, Dict.get-set payload k key v, f) refl
      | inr e ↦ rw (e, f) refl
    ]
  ]

  get-add_extras :
      (payload attributes : Dict Text Value) (key : Text)
      → Dict.HasDistinctKeys attributes
      → Dict.get (add_extras payload attributes) key
        ≡ or_else (extra attributes key) (Dict.get payload key)
  unfolding add_extras Dict.get
  get-add_extras payload [] key h = elim (Bool-cases (is_extra key)) [
    | inl e ↦ rw e refl
    | inr e ↦ rw e refl
  ]
  get-add_extras payload ((k, v) ∷ attributes) key (fresh, h) =
      get-add_extras (if is_extra k then Dict.set payload k v else payload) attributes key h
      ∙ extra-cons payload attributes k v key fresh

  add_extras-HasDistinctKeys :
      (payload attributes : Dict Text Value)
      → Dict.HasDistinctKeys payload
      → Dict.HasDistinctKeys (add_extras payload attributes)
  unfolding add_extras
  add_extras-HasDistinctKeys payload [] h = h
  add_extras-HasDistinctKeys payload ((k, v) ∷ attributes) h = elim (Bool-cases (is_extra k)) [
    | inl e ↦ rw e (
        add_extras-HasDistinctKeys (Dict.set payload k v) attributes
          (Dict.set-HasDistinctKeys payload k v h))
    | inr e ↦ rw e (add_extras-HasDistinctKeys payload attributes h)
  ]

  get-add_exception :
      (py : Python) (formatting : Formatting Value) (exception : Option Text)
      (payload : Dict Text Value) (key : Text)
      → Dict.get (add_exception py formatting exception payload) key
        ≡ or_else (exception_at formatting exception key) (Dict.get payload key)
  get-add_exception py formatting none payload key = refl
  get-add_exception py formatting (some text) payload key =
      Dict.get-set payload (codes "exception") key (formatting.str text)
      ∙ elim (Bool-cases (codes "exception" == key)) [ inl e ↦ rw e refl | inr e ↦ rw e refl ]

  add_exception-HasDistinctKeys :
      (py : Python) (formatting : Formatting Value) (exception : Option Text)
      (payload : Dict Text Value)
      → Dict.HasDistinctKeys payload
      → Dict.HasDistinctKeys (add_exception py formatting exception payload)
  add_exception-HasDistinctKeys py formatting none payload h = h
  add_exception-HasDistinctKeys py formatting (some text) payload h =
      Dict.set-HasDistinctKeys payload (codes "exception") (formatting.str text) h

  base_payload-HasDistinctKeys :
      (py : Python) (formatting : Formatting Value) (timestamp : Text) (r : LogRecord Value)
      → Dict.HasDistinctKeys (base_payload py formatting timestamp r)
  unfolding Dict.has text_eq
  base_payload-HasDistinctKeys py formatting timestamp r = (refl, (refl, (refl, (refl, tt))))

-- The object that `format` prints has each key once. The text of the exception, if there is one,
-- stands at "exception"; else an attribute of the record that is neither a standard one nor
-- "message" nor "asctime" stands at its name; else the time, the level in lower case, the logger
-- and the message stand at theirs, and no other key is there.
pub payload_of_lem :
    {Value : Type 0} (py : Python) (formatting : Formatting Value) (timestamp : Text)
    (r : LogRecord Value)
    → Dict.HasDistinctKeys r.attributes
    → Dict.HasDistinctKeys (payload_of py formatting timestamp r)
      × ((key : Text)
          → Dict.get (payload_of py formatting timestamp r) key
            ≡ or_else (exception_at formatting r.exception key) (
                or_else
                  (extra r.attributes key)
                  (Dict.get (base_payload py formatting timestamp r) key)))
unfolding payload_of
payload_of_lem py formatting timestamp r h =
    let base = base_payload py formatting timestamp r in
    (
      add_exception-HasDistinctKeys py formatting r.exception (add_extras base r.attributes) (
          add_extras-HasDistinctKeys base r.attributes
            (base_payload-HasDistinctKeys py formatting timestamp r)),
      λ key.
          get-add_exception py formatting r.exception (add_extras base r.attributes) key
          ∙ ap (or_else (exception_at formatting r.exception key))
              (get-add_extras base r.attributes key h),
    )
