-- ===== src/Memory/Search/Shape.antt =====
-- The text of a query does not depend on what its terms say.
use Prim.Native.String.{String}
use reframe_web.Prelude.{
  ℕ, suc, ◌≡◌, refl, sym, ap, subst, ◌∙◌, Bool, true, false, ◌&&◌, some, List, [], ◌∷◌, ◌++◌,
  if◌then◌else◌, is_nil, length, arith,
}
use reframe_web.Memory.Terms.{TagSearch, StringSearch}
use reframe_web.Memory.Search.{
  FieldTerms, MemoryNodeSearch, Variable, Parts, QueryParts, Built, built, invalid_field, no_fields,
  any_of_clauses, is_path, add_tags, add_tag_clauses, Comparison, clean_terms, contains_term,
  equals_value, variable_name, term_clauses, add_field, add_content, clean_content_fields,
  string_clauses, add_strings, add_string_search_clause, ◌⧺◌, ◌>>=◌, query_parts, no_parts,
  build_search, build_memory_node_where,
}

-- The text of a query, or the error.
abbrev pub texts : Built Parts → Built (List String)
texts (built parts) = built parts.clauses
texts (invalid_field field) = invalid_field field
texts no_fields = no_fields

abbrev pub sql_of : Built QueryParts → Built String
sql_of (built parts) = built parts.where_sql
sql_of (invalid_field field) = invalid_field field
sql_of no_fields = no_fields

module _ (strip lower : String → String) (decimal : ℕ → String) where
  -- Some terms of which as many are left when they are cleaned
  abbrev pub SameTerms : List String → List String → Type 0
  SameTerms xs ys =
      length (clean_terms strip lower decimal xs) ≡ length (clean_terms strip lower decimal ys)

  abbrev pub SameFields : List FieldTerms → List FieldTerms → Type 0
  SameFields [] [] = Unit
  SameFields [] (g ∷ gs) = ⊥
  SameFields (f ∷ fs) [] = ⊥
  SameFields (f ∷ fs) (g ∷ gs) =
      ((f.field ≡ g.field) × SameTerms f.terms g.terms) × SameFields fs gs

  -- Two searches of the same fields, with as many terms and tags in each place.
  pub record IsAlike (s t : MemoryNodeSearch) : Type 0 where
    pub any_of : length s.tags.any_of ≡ length t.tags.any_of
    pub all_of : length s.tags.all_of ≡ length t.tags.all_of
    pub none_of : length s.tags.none_of ≡ length t.tags.none_of
    pub contains : SameTerms s.strings.contains t.strings.contains
    pub equals : SameTerms s.strings.equals t.strings.equals
    pub string_fields : s.string_fields ≡ t.string_fields
    pub content_contains : SameFields s.content_contains t.content_contains
    pub content_equals : SameFields s.content_equals t.content_equals

  abbrev clauses_of : Comparison → String → ℕ → ℕ → List String → List String
  clauses_of = term_clauses strip lower decimal

  term_clauses-same :
      (c : Comparison) (field : String) (index i : ℕ) (xs ys : List String)
      → length xs ≡ length ys
      → clauses_of c field index i xs ≡ clauses_of c field index i ys
  term_clauses-same c field index i [] [] e = refl
  term_clauses-same c field index i [] (y ∷ ys) e = absurd (omega (arith, e))
  term_clauses-same c field index i (x ∷ xs) [] e = absurd (omega (arith, e))
  term_clauses-same c field index i (x ∷ xs) (y ∷ ys) e =
      ap
        (◌∷◌ (
          c.before
          ⧺ field
          ⧺ c.between_them
          ⧺ variable_name strip lower decimal c index i
          ⧺ c.behind))
        (term_clauses-same c field index (suc i) xs ys (omega (arith, e)))

  add_tags-same :
      (name clause : String) (xs ys : List String) (p q : Parts)
      → length xs ≡ length ys
      → p.clauses ≡ q.clauses
      → (add_tags name clause xs p).clauses ≡ (add_tags name clause ys q).clauses
  add_tags-same name clause [] [] p q e k = k
  add_tags-same name clause [] (y ∷ ys) p q e k = absurd (omega (arith, e))
  add_tags-same name clause (x ∷ xs) [] p q e k = absurd (omega (arith, e))
  add_tags-same name clause (x ∷ xs) (y ∷ ys) p q e k = ap (λ cs. cs ++ clause ∷ []) k

  add_tag_clauses-same :
      (a b : TagSearch)
      → length a.any_of ≡ length b.any_of
      → length a.all_of ≡ length b.all_of
      → length a.none_of ≡ length b.none_of
      → (add_tag_clauses a no_parts).clauses ≡ (add_tag_clauses b no_parts).clauses
  add_tag_clauses-same a b x y z = add_tags-same _ _ a.none_of b.none_of _ _ z (
      add_tags-same _ _ a.all_of b.all_of _ _ y
        (add_tags-same _ _ a.any_of b.any_of no_parts no_parts x refl))

  add_field-same :
      (c : Comparison) (field : String) (index : ℕ) (xs ys : List String) (p q : Parts)
      → length xs ≡ length ys
      → p.clauses ≡ q.clauses
      → (add_field strip lower decimal c field index xs p).clauses
        ≡ (add_field strip lower decimal c field index ys q).clauses
  add_field-same c field index [] [] p q e k = k
  add_field-same c field index [] (y ∷ ys) p q e k = absurd (omega (arith, e))
  add_field-same c field index (x ∷ xs) [] p q e k = absurd (omega (arith, e))
  add_field-same c field index (x ∷ xs) (y ∷ ys) p q e k =
      ap (λ cs. cs ++ any_of_clauses (clauses_of c field index 0 (x ∷ xs)) ∷ []) k
      ∙ ap (λ ts. q.clauses ++ any_of_clauses ts ∷ [])
          (term_clauses-same c field index 0 (x ∷ xs) (y ∷ ys) e)

  texts-if :
      (valid : Bool) (r r' : Built Parts) (field : String)
      → texts r ≡ texts r'
      → texts (if valid then r else invalid_field field)
        ≡ texts (if valid then r' else invalid_field field)
  texts-if true r r' field e = e
  texts-if false r r' field e = refl

  add_content-same :
      (c : Comparison) (index : ℕ) (fs gs : List FieldTerms) (p q : Parts)
      → SameFields fs gs
      → p.clauses ≡ q.clauses
      → texts (add_content strip lower decimal c index fs p)
        ≡ texts (add_content strip lower decimal c index gs q)
  unfolding add_content
  add_content-same c index [] [] p q a k = ap built k
  add_content-same c index [] (g ∷ gs) p q a k = absurd a
  add_content-same c index (f ∷ fs) [] p q a k = absurd a
  add_content-same c index (f ∷ fs) (g ∷ gs) p q ((e, n), a) k =
      let left =
        add_field strip lower decimal c f.field index (clean_terms strip lower decimal f.terms) p in
      let right : String → Parts = λ name.
        add_field strip lower decimal c name index (clean_terms strip lower decimal g.terms) q in
      subst
        (λ name.
          texts (add_content strip lower decimal c index (f ∷ fs) p)
          ≡ texts (
              if is_path false name
              then add_content strip lower decimal c (suc index) gs (right name)
              else invalid_field name))
        e
        (texts-if (is_path false f.field) (add_content strip lower decimal c (suc index) fs left)
          (add_content strip lower decimal c (suc index) gs (right f.field)) f.field
          (add_content-same c (suc index) fs gs left (right f.field) a (
            add_field-same c f.field index (clean_terms strip lower decimal f.terms)
              (clean_terms strip lower decimal g.terms) p q n k)))

  is_nil-same : (xs ys : List String) → length xs ≡ length ys → is_nil xs ≡ is_nil ys
  is_nil-same [] [] e = refl
  is_nil-same [] (y ∷ ys) e = absurd (omega (arith, e))
  is_nil-same (x ∷ xs) [] e = absurd (omega (arith, e))
  is_nil-same (x ∷ xs) (y ∷ ys) e = refl

  string_clauses-same :
      (index : ℕ) (fields contains equals contains' equals' : List String)
      → length contains ≡ length contains'
      → length equals ≡ length equals'
      → string_clauses strip lower decimal index fields contains equals
        ≡ string_clauses strip lower decimal index fields contains' equals'
  string_clauses-same index [] contains equals contains' equals' c e = refl
  string_clauses-same index (f ∷ fs) contains equals contains' equals' c e = rw (
    term_clauses-same (contains_term strip lower decimal "string_contains") f index 0 contains
        contains' c,
    term_clauses-same (equals_value strip lower decimal "string_equals") f index 0 equals equals' e,
    string_clauses-same (suc index) fs contains equals contains' equals' c e,
  )

  add_strings-same :
      (fields : Built (List String)) (contains equals contains' equals' : List String) (p q : Parts)
      → length contains ≡ length contains'
      → length equals ≡ length equals'
      → p.clauses ≡ q.clauses
      → texts (add_strings strip lower decimal contains equals fields p)
        ≡ texts (add_strings strip lower decimal contains' equals' fields q)
  add_strings-same (built []) contains equals contains' equals' p q c e k = refl
  add_strings-same (built (f ∷ fs)) contains equals contains' equals' p q c e k =
      ap
        (λ cs. built (
          cs
          ++ any_of_clauses (string_clauses strip lower decimal 0 (f ∷ fs) contains equals) ∷ []))
        k
      ∙ ap (λ ts. built (q.clauses ++ any_of_clauses ts ∷ []))
          (string_clauses-same 0 (f ∷ fs) contains equals contains' equals' c e)
  add_strings-same (invalid_field f) contains equals contains' equals' p q c e k = refl
  add_strings-same no_fields contains equals contains' equals' p q c e k = refl

  texts-none :
      (none_here : Bool) (p q : Parts) (r r' : Built Parts)
      → p.clauses ≡ q.clauses
      → texts r ≡ texts r'
      → texts (if none_here then built p else r) ≡ texts (if none_here then built q else r')
  texts-none true p q r r' k e = ap built k
  texts-none false p q r r' k e = e

  add_string_search_clause-same :
      (s t : StringSearch) (fields : List String) (p q : Parts)
      → SameTerms s.contains t.contains
      → SameTerms s.equals t.equals
      → p.clauses ≡ q.clauses
      → texts (add_string_search_clause strip lower decimal s fields p)
        ≡ texts (add_string_search_clause strip lower decimal t fields q)
  unfolding add_string_search_clause
  add_string_search_clause-same s t fields p q c e k =
      let clean = clean_terms strip lower decimal in
      let found =
        add_strings strip lower decimal (clean t.contains) (clean t.equals)
          (clean_content_fields strip lower decimal fields) q in
      texts-none (is_nil (clean s.contains) && is_nil (clean s.equals)) p q _ found k (
        add_strings-same (clean_content_fields strip lower decimal fields) (clean s.contains)
          (clean s.equals) (clean t.contains) (clean t.equals) p q c e k)
      ∙ (ap (λ b. texts (if b && is_nil (clean s.equals) then built q else found))
            (is_nil-same (clean s.contains) (clean t.contains) c)
          ∙ ap (λ b. texts (if is_nil (clean t.contains) && b then built q else found))
              (is_nil-same (clean s.equals) (clean t.equals) e))

  texts-bind :
      (m m' : Built Parts) (k k' : Parts → Built Parts)
      → texts m ≡ texts m'
      → ((p q : Parts) → p.clauses ≡ q.clauses → texts (k p) ≡ texts (k' q))
      → texts (m >>= k) ≡ texts (m' >>= k')
  texts-bind (built p) (built q) k k' e ks = ks p q (ground arith)
  texts-bind (built p) (invalid_field f) k k' e ks = absurd (ground arith)
  texts-bind (built p) no_fields k k' e ks = absurd (ground arith)
  texts-bind (invalid_field f) (built q) k k' e ks = absurd (ground arith)
  texts-bind (invalid_field f) (invalid_field g) k k' e ks = e
  texts-bind (invalid_field f) no_fields k k' e ks = e
  texts-bind no_fields (built q) k k' e ks = absurd (ground arith)
  texts-bind no_fields (invalid_field f) k k' e ks = e
  texts-bind no_fields no_fields k k' e ks = e

  -- The text of a query is made of the texts of its clauses.
  query_text : Built (List String) → Built String
  query_text (built clauses) =
      built (query_parts (record { clauses = clauses; variables = [] })).where_sql
  query_text (invalid_field f) = invalid_field f
  query_text no_fields = no_fields

  where_sql-same :
      (clauses : List String) (vs vs' : List Variable)
      → (query_parts (record { clauses = clauses; variables = vs })).where_sql
        ≡ (query_parts (record { clauses = clauses; variables = vs' })).where_sql
  where_sql-same [] vs vs' = refl
  where_sql-same (c ∷ cs) vs vs' = refl

  sql_of-query_text :
      (m : Built Parts) → sql_of (m >>= λ parts. built (query_parts parts)) ≡ query_text (texts m)
  unfolding query_text
  sql_of-query_text (built parts) = ap built (where_sql-same parts.clauses parts.variables [])
  sql_of-query_text (invalid_field f) = refl
  sql_of-query_text no_fields = refl

  build_search-same :
      (s t : MemoryNodeSearch)
      → IsAlike s t
      → texts (build_search strip lower decimal s) ≡ texts (build_search strip lower decimal t)
  build_search-same s t a =
      texts-bind
        (add_string_search_clause strip lower decimal s.strings s.string_fields
          (add_tag_clauses s.tags no_parts))
        (add_string_search_clause strip lower decimal t.strings t.string_fields
          (add_tag_clauses t.tags no_parts))
        _ _
        (subst
          (λ fields.
            texts (
              add_string_search_clause strip lower decimal s.strings s.string_fields
                (add_tag_clauses s.tags no_parts))
            ≡ texts (
                add_string_search_clause strip lower decimal t.strings fields
                  (add_tag_clauses t.tags no_parts)))
          a.string_fields
          (add_string_search_clause-same s.strings t.strings s.string_fields _ _ a.contains a.equals
            (add_tag_clauses-same s.tags t.tags a.any_of a.all_of a.none_of)))
        (λ p q k.
          texts-bind _ _ _ _
            (add_content-same (contains_term strip lower decimal "content_term") 0
              s.content_contains t.content_contains p q a.content_contains k)
            (λ p' q' k'.
              add_content-same (equals_value strip lower decimal "content_value") 0 s.content_equals
                t.content_equals p' q' a.content_equals k'))

  -- Two searches of the same fields, with as many tags and, once they are cleaned, as many terms in
  -- each place, give queries with the same text, or the same error: no part of a term or a tag gets
  -- into the text of a query.
  pub build_memory_node_where-same :
      (s t : MemoryNodeSearch)
      → IsAlike s t
      → sql_of (build_memory_node_where strip lower decimal (some s))
        ≡ sql_of (build_memory_node_where strip lower decimal (some t))
  unfolding build_memory_node_where
  build_memory_node_where-same s t a =
      sql_of-query_text (build_search strip lower decimal s)
      ∙ (ap query_text (build_search-same s t a)
          ∙ sym (sql_of-query_text (build_search strip lower decimal t)))
