-- ===== src/Api/Query/Model.antt =====
-- The parsed query: `QueryParams` and the types of its fields. `N` is the type `f64`.
use ferris_cms.Prelude.{
  Bool, true, false, Option, none, some, List, Text, lit, text_eq, if◌then◌else◌,
}
use ferris_cms.Prelude.Int.{ℤ}
use ferris_cms.Domain.Publication.{PublicationState}

pub data FilterOp : Type 0 where
  eq eqi ne lt lte gt gte in_ not_in contains not_contains containsi not_containsi starts_with
        starts_withi ends_with ends_withi null not_null between :
      FilterOp

-- `FilterOp::parse`
unfoldable pub parse_op : Text → Option FilterOp
unfolding text_eq
parse_op s =
    if text_eq s (lit "$eq")
    then some eq
    else if text_eq s (lit "$eqi")
    then some eqi
    else if text_eq s (lit "$ne")
    then some ne
    else if text_eq s (lit "$lt")
    then some lt
    else if text_eq s (lit "$lte")
    then some lte
    else if text_eq s (lit "$gt")
    then some gt
    else if text_eq s (lit "$gte")
    then some gte
    else if text_eq s (lit "$in")
    then some in_
    else if text_eq s (lit "$notIn")
    then some not_in
    else if text_eq s (lit "$contains")
    then some contains
    else if text_eq s (lit "$notContains")
    then some not_contains
    else if text_eq s (lit "$containsi")
    then some containsi
    else if text_eq s (lit "$notContainsi")
    then some not_containsi
    else if text_eq s (lit "$startsWith")
    then some starts_with
    else if text_eq s (lit "$startsWithi")
    then some starts_withi
    else if text_eq s (lit "$endsWith")
    then some ends_with
    else if text_eq s (lit "$endsWithi")
    then some ends_withi
    else if text_eq s (lit "$null")
    then some null
    else if text_eq s (lit "$notNull")
    then some not_null
    else if text_eq s (lit "$between")
    then some between
    else none

abbrev pub takes_list : FilterOp → Bool
takes_list in_ = true
takes_list not_in = true
takes_list between = true
takes_list _ = false

-- the JSON values that a query can give
pub data Scalar (N : Type 0) : Type 0 where
  bool : Bool → Scalar N
  int : ℤ → Scalar N
  float : N → Scalar N
  str : Text → Scalar N

mutual
  pub data Filter (N : Type 0) : Type 0 where
    and : Filters N → Filter N
    or : Filters N → Filter N
    not_ : Filter N → Filter N
    leaf : Text → FilterOp → List (Scalar N) → Filter N

  -- `Vec<Filter>`
  pub data Filters (N : Type 0) : Type 0 where
    nil : Filters N
    cons : Filter N → Filters N → Filters N

mutual
  pub data PopulateSpec : Type 0 where
    star : PopulateSpec
    list : List Text → PopulateSpec
    map : PopulateFields → PopulateSpec

  -- `IndexMap<String, PopulateField>`: each field has its list of fields and its own `populate`
  pub data PopulateFields : Type 0 where
    end : PopulateFields
    field : Text → Option (List Text) → PopulateOption → PopulateFields → PopulateFields

  pub data PopulateOption : Type 0 where
    absent : PopulateOption
    present : PopulateSpec → PopulateOption

pub record SortField : Type 0 where
  pub field : Text
  pub descending : Bool

pub data PaginationParams : Type 0 where
  page_of : (page page_size : ℤ) (with_count : Option Bool) → PaginationParams
  offset_of : (start limit : ℤ) (with_count : Option Bool) → PaginationParams

pub record QueryParams (N : Type 0) : Type 0 where
  pub fields : Option (List Text)
  pub populate : Option PopulateSpec
  pub filters : Option (Filter N)
  pub sort : List SortField
  pub pagination : Option PaginationParams
  pub locale : Option Text
  pub status : Option PublicationState

pub data QueryParseError : Type 0 where
  unknown_operator bad_filter : Text → QueryParseError

pub data Parsed (A : Type 0) : Type 0 where
  ok : A → Parsed A
  err : QueryParseError → Parsed A

infixl 5 ◌>>=◌
abbrev pub ◌>>=◌ : {A B : Type 0} → Parsed A → (A → Parsed B) → Parsed B
ok a >>= f = f a
err e >>= f = err e

-- What the parser uses of the standard library and of serde_json.
pub record Std (N : Type 0) : Type 0 where
  pub trim : Text → Text
  pub parse_i64 : Text → Option ℤ
  pub i64_to_string : ℤ → Text
  pub parse_f64 : Text → Option N
  -- `serde_json::Number::from_f64`
  pub from_f64 : N → Option N
