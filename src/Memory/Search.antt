-- ===== src/Memory/Search.antt =====
-- search.py of agent-host/src/reframe_memory: the WHERE part of a query with its variables. `strip`
-- and `lower` of a text, and the decimals of a number, are arguments.
pub mod Shape
use Prim.Native.Char.{Char, code}
use Prim.Native.String
use Prim.Native.String.{String}
use text.Mathlib.Text.{◌==◌}
use reframe_web.Prelude.{
  ℕ, suc, Bool, true, false, not, ◌&&◌, ◌||◌, Option, none, some, List, [], ◌∷◌, ◌++◌, map, leb,
  if◌then◌else◌, is_nil,
}
use reframe_web.Memory.Terms.{TagSearch, StringSearch}

-- A field of the content with its terms
pub record FieldTerms : Type 0 where
  pub field : String
  pub terms : List String

pub record MemoryNodeSearch : Type 0 where
  pub tags : TagSearch
  pub strings : StringSearch
  pub string_fields : List String
  pub content_contains : List FieldTerms
  pub content_equals : List FieldTerms

pub data Value : Type 0 where
  term : String → Value
  terms_list : List String → Value

pub record Variable : Type 0 where
  pub name : String
  pub value : Value

-- The locals `clauses` and `variables`. A variable is written once, so a write appends.
pub record Parts : Type 0 where
  pub clauses : List String
  pub variables : List Variable

pub record QueryParts : Type 0 where
  pub where_sql : String
  pub variables : List Variable

-- The parts so far, or the ValueError.
pub data Built (A : Type 0) : Type 0 where
  built : A → Built A
  invalid_field : String → Built A
  no_fields : Built A

infixr 65 ◌⧺◌
abbrev pub ◌⧺◌ : String → String → String
a ⧺ b = String.◌++◌ a b

-- `str.join`
abbrev pub join : String → List String → String
join separator [] = ""
join separator (x ∷ []) = x
join separator (x ∷ y ∷ rest) = x ⧺ separator ⧺ join separator (y ∷ rest)

abbrev pub any_of_clauses : List String → String
any_of_clauses clauses = "(" ⧺ join " OR " clauses ⧺ ")"

abbrev pub between : ℕ → ℕ → Char → Bool
between low high c = leb low (code c) && leb (code c) high

abbrev pub is_initial : Char → Bool
is_initial c = between 65 90 c || (between 97 122 c || between 95 95 c)

-- The regular expression of `_validate_content_field`, from inside a name of the path or before one.
abbrev pub is_path : Bool → String → Bool
is_path inside String.[] = inside
is_path inside (String.◌∷◌ c rest) =
    let within = is_path true rest in
    let next = is_path false rest in
    if inside
    then (if is_initial c || between 48 57 c then within else between 46 46 c && next)
    else is_initial c && within

abbrev pub known : String → List String → Bool
known x [] = false
known x (y ∷ ys) = x == y || known x ys

-- `dict.fromkeys`
abbrev pub first_of_each : List String → List String → List String
first_of_each seen [] = []
first_of_each seen (x ∷ xs) =
    let rest = first_of_each seen xs in
    let next = first_of_each (x ∷ seen) xs in if known x seen then rest else x ∷ next

abbrev pub add : String → List Variable → Parts → Parts
add clause variables parts = record {
  clauses = parts.clauses ++ clause ∷ [];
  variables = parts.variables ++ variables;
}

-- `_add_tag_clauses`
abbrev pub add_tags : String → String → List String → Parts → Parts
add_tags name clause [] parts = parts
add_tags name clause (tag ∷ tags) parts =
    add clause (record { name = name; value = terms_list (tag ∷ tags) } ∷ []) parts

abbrev pub add_tag_clauses : TagSearch → Parts → Parts
add_tag_clauses tags parts =
    add_tags "tag_none_of" "array::len(array::intersect(tags, $tag_none_of)) = 0" tags.none_of (
      add_tags "tag_all_of"
        "array::len(array::intersect(tags, $tag_all_of)) = array::len($tag_all_of)" tags.all_of
        (add_tags "tag_any_of" "array::len(array::intersect(tags, $tag_any_of)) > 0" tags.any_of
          parts))

-- How a field is compared with a term: the start of its variables' names, what a variable holds, and
-- the text before the field and between it and the variable, and after it.
pub record Comparison : Type 0 where
  pub prefix : String
  pub stored : String → String
  pub before : String
  pub between_them : String
  pub behind : String

infixl 5 ◌>>=◌
abbrev pub ◌>>=◌ : {A B : Type 0} → Built A → (A → Built B) → Built B
built a >>= next = next a
invalid_field field >>= next = invalid_field field
no_fields >>= next = no_fields

abbrev pub query_parts : Parts → QueryParts
query_parts parts =
    if is_nil parts.clauses
    then record { where_sql = ""; variables = [] }
    else record { where_sql = "WHERE " ⧺ join " AND " parts.clauses; variables = parts.variables }

abbrev pub no_parts : Parts
no_parts = record { clauses = []; variables = [] }

module _ (strip lower : String → String) (decimal : ℕ → String) where
  -- `_clean_terms`
  abbrev pub clean_terms : List String → List String
  clean_terms [] = []
  clean_terms (x ∷ xs) = let rest = clean_terms xs in if strip x == "" then rest else strip x ∷ rest

  abbrev pub contains_term : String → Comparison
  contains_term prefix = record {
    prefix = prefix;
    stored = lower;
    before = "string::contains(string::lowercase(<string>content.";
    between_them = "), $";
    behind = ")";
  }

  abbrev pub equals_value : String → Comparison
  equals_value prefix = record {
    prefix = prefix;
    stored = λ value. value;
    before = "content.";
    between_them = " = $";
    behind = "";
  }

  abbrev pub variable_name : Comparison → ℕ → ℕ → String
  variable_name c index term_index = c.prefix ⧺ "_" ⧺ decimal index ⧺ "_" ⧺ decimal term_index

  -- The clauses of a field and some terms, from an index, and their variables.
  abbrev pub term_clauses : Comparison → String → ℕ → ℕ → List String → List String
  term_clauses c field index i [] = []
  term_clauses c field index i (x ∷ xs) =
      (c.before ⧺ field ⧺ c.between_them ⧺ variable_name c index i ⧺ c.behind)
      ∷ term_clauses c field index (suc i) xs

  abbrev pub term_variables : Comparison → ℕ → ℕ → List String → List Variable
  term_variables c index i [] = []
  term_variables c index i (x ∷ xs) =
      record { name = variable_name c index i; value = term (c.stored x) }
      ∷ term_variables c index (suc i) xs

  abbrev pub add_field : Comparison → String → ℕ → List String → Parts → Parts
  add_field c field index [] parts = parts
  add_field c field index (x ∷ xs) parts =
      add (any_of_clauses (term_clauses c field index 0 (x ∷ xs)))
        (term_variables c index 0 (x ∷ xs)) parts

  -- The loops of `_add_content_clauses` and `_add_content_equals_clauses`
  unfoldable pub add_content : Comparison → ℕ → List FieldTerms → Parts → Built Parts
  add_content c index [] parts = built parts
  add_content c index (f ∷ fs) parts =
      let rest =
        add_content c (suc index) fs (add_field c f.field index (clean_terms f.terms) parts) in
      if is_path false f.field then rest else invalid_field f.field

  -- `_clean_content_fields`
  abbrev pub validate_each : List String → List String → Built (List String)
  validate_each fields [] = built fields
  validate_each fields (f ∷ fs) =
      let rest = validate_each fields fs in if is_path false f then rest else invalid_field f

  unfoldable pub clean_content_fields : List String → Built (List String)
  clean_content_fields fields =
      let clean = first_of_each [] (clean_terms fields) in validate_each clean clean

  abbrev pub string_clauses : ℕ → List String → List String → List String → List String
  string_clauses index [] contains equals = []
  string_clauses index (field ∷ fields) contains equals =
      term_clauses (contains_term "string_contains") field index 0 contains
      ++ (term_clauses (equals_value "string_equals") field index 0 equals
          ++ string_clauses (suc index) fields contains equals)

  abbrev pub string_variables : ℕ → List String → List String → List String → List Variable
  string_variables index [] contains equals = []
  string_variables index (field ∷ fields) contains equals =
      term_variables (contains_term "string_contains") index 0 contains
      ++ (term_variables (equals_value "string_equals") index 0 equals
          ++ string_variables (suc index) fields contains equals)

  abbrev pub add_strings : List String → List String → Built (List String) → Parts → Built Parts
  add_strings contains equals (built []) parts = no_fields
  add_strings contains equals (built (f ∷ fs)) parts = built (
      add (any_of_clauses (string_clauses 0 (f ∷ fs) contains equals))
        (string_variables 0 (f ∷ fs) contains equals) parts)
  add_strings contains equals (invalid_field field) parts = invalid_field field
  add_strings contains equals no_fields parts = no_fields

  -- `_add_string_search_clause`
  unfoldable pub add_string_search_clause : StringSearch → List String → Parts → Built Parts
  unfolding clean_content_fields
  add_string_search_clause strings fields parts =
      let contains = clean_terms strings.contains in
      let equals = clean_terms strings.equals in
      if is_nil contains && is_nil equals
      then built parts
      else add_strings contains equals (clean_content_fields fields) parts

  abbrev pub build_search : MemoryNodeSearch → Built Parts
  build_search search = do
    parts ←
        add_string_search_clause search.strings search.string_fields
          (add_tag_clauses search.tags no_parts)
    parts ← add_content (contains_term "content_term") 0 search.content_contains parts
    add_content (equals_value "content_value") 0 search.content_equals parts

  unfoldable pub build_memory_node_where : Option MemoryNodeSearch → Built QueryParts
  unfolding add_string_search_clause add_content
  build_memory_node_where none = built (query_parts no_parts)
  build_memory_node_where (some search) = do parts ← build_search search; built (query_parts parts)
