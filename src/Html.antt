-- ===== src/Html.antt =====
-- What the extractors use of BeautifulSoup: a parameter of the model.
use webintel.Prelude.{Bool, List, [], ◌∷◌, Option, none, some, Text}

-- An attribute is a `str`, or the list of its values.
pub data Attribute : Type 0 where
  str : Text → Attribute
  values : List Text → Attribute

-- A tag: `tag.name`, `tag.get(name)`, and `tag.get_text(" ", strip=True)`.
pub record Element : Type 0 where
  pub name : Text
  pub get : Text → Option Attribute
  pub get_text : Text

-- A string of the document: is it a comment, the name of its parent if it has one, its text.
pub record TextNode : Type 0 where
  pub is_comment : Bool
  pub parent : Option Text
  pub string : Text

pub record BeautifulSoup : Type 1 where
  pub Soup : Type 0
  -- BeautifulSoup(html, "lxml")
  pub parse : Text → Soup
  -- soup.find_all(names), and soup.find_all(name, href=True); `soup.find` is the first of them.
  pub find_all : Soup → List Text → List Element
  pub find_all_href : Soup → Text → List Element
  -- soup.find_all(string=True)
  pub find_all_strings : Soup → List TextNode
  -- soup.title
  pub title : Soup → Option Element

abbrev pub first {ℓ} : {A : Type ℓ} → List A → Option A
first [] = none
first (a ∷ rest) = some a

-- `value if isinstance(value, str)`
abbrev pub as_str : Option Attribute → Option Text
as_str (some (str s)) = some s
as_str _ = none
