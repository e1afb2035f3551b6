-- ===== src/Api/Query/Tests.antt =====
-- Runs of the query parser and the instances of its theorems. A number is the text it was read from,
-- and no text is read as one but `5` and `10`.
use ferris_cms.Prelude.{
  ℕ, ◌≡◌, refl, true, Option, none, some, List, [], ◌∷◌, map, Text, lit, text_eq, ◌==◌, arith,
  if◌then◌else◌,
}
use ferris_cms.Prelude.Int.{ℤ, pos, negsuc}
use ferris_cms.Domain.Publication.{draft}
use ferris_cms.Api.Query.Key.{split_key, print_key, split_key-print_key}
use ferris_cms.Api.Query.Decode.{decode_pairs}
use ferris_cms.Api.Query.Print.{print_query, read_pair, decode_pairs-print_query}
use ferris_cms.Api.Query.Tree.{node, Nodes, build, empty, value_at}
use ferris_cms.Api.Query.Tree.Values.{last_value, value_at-build}
use ferris_cms.Api.Query.Model.{
  eq, contains, or, leaf, str, Filters, page_of, offset_of, unknown_operator, ok, Std,
}
use ferris_cms.Api.Query.Filter.{remap_field, parse_filter_node}
use ferris_cms.Api.Query.Filter.Errors.{IsUnknown, parse_filter_node_error}
use ferris_cms.Api.Query.Filter.Meaning.{holds, holds-remap_field}
use ferris_cms.Api.Query.Params.{no_params, from_pairs, parse_query, status_of}
use ferris_cms.Api.Query.Params.Locale.{from_pairs-locale_status}
use ferris_cms.Api.Query.Pagination.{
  effective_pagination, IsWindow, effective_pagination-IsWindow, effective_pagination-offset_wraps,
}

abbrev small : Text → Option ℤ
small t =
    if text_eq t (lit "5")
    then some (pos 5)
    else if text_eq t (lit "10")
    then some (pos 10)
    else none

abbrev std : Std Text
std = record {
  trim = λ t. t;
  parse_i64 = small;
  i64_to_string = λ n. elim n [ pos k ↦ if k == 5 then lit "5" else lit "10" | negsuc k ↦ [] ];
  parse_f64 = λ t. none;
  from_f64 = λ n. some n;
}

key_run : split_key (lit "filters[author][name]") ≡ lit "filters" ∷ lit "author" ∷ lit "name" ∷ []
unfolding split_key
key_run = refl

-- an unclosed bracket, and text after a closing one
odd_key_run : split_key (lit "a[b]c[d") ≡ lit "a" ∷ lit "b" ∷ lit "d" ∷ []
unfolding split_key
odd_key_run = refl

pairs_run :
    decode_pairs (λ t. t) (lit "?a=1%20&&b=+%zz") ≡ (lit "a", lit "1 ") ∷ (lit "b", lit " %zz") ∷ []
unfolding decode_pairs
pairs_run = refl

filter_run :
    from_pairs std ((lit "filters[title][$contains]", lit "a") ∷ [])
    ≡ ok (record (no_params std) {
      filters = some (leaf (lit "title") contains (str (lit "a") ∷ []));
    })
unfolding from_pairs
filter_run = refl

-- the index ten comes after the index five
index_run :
    parse_query std (λ t. t) (lit "filters[$or][10][a]=x&filters[$or][5][b]=y")
    ≡ ok (record (no_params std) {
      filters = some (
          or (
            Filters.cons
              (leaf (lit "b") eq (str (lit "y") ∷ []))
              (Filters.cons (leaf (lit "a") eq (str (lit "x") ∷ [])) Filters.nil)));
    })
unfolding parse_query
index_run = refl

pagination_run :
    parse_query std (λ t. t) (lit "pagination[start]=10&pagination[limit]=5")
    ≡ ok (record (no_params std) { pagination = some (offset_of (pos 10) (pos 5) none) })
unfolding parse_query
pagination_run = refl

page_run :
    effective_pagination (some (offset_of (pos 10) (pos 5) none))
    ≡ record { limit = pos 5; offset = pos 10; page = pos 3; page_size = pos 5; with_count = true }
unfolding effective_pagination
page_run = refl

split_key-print_key_example :
    split_key (print_key (lit "filters") (lit "author" ∷ lit "name" ∷ []))
    ≡ lit "filters" ∷ lit "author" ∷ lit "name" ∷ []
split_key-print_key_example =
    split_key-print_key (lit "filters") (lit "author" ∷ lit "name" ∷ []) (ground arith)

abbrev two_pairs : List (Text × Text)
two_pairs = (lit "a&b", lit "1 =") ∷ (lit "locale", lit "fr") ∷ []

decode_pairs-print_query_example :
    decode_pairs (λ t. t) (print_query two_pairs) ≡ map (read_pair (λ t. t)) two_pairs
decode_pairs-print_query_example = decode_pairs-print_query (λ t. t) two_pairs (ground arith)

abbrev locales : List (Text × Text)
locales = (lit "locale", lit "en") ∷ (lit "status", lit "draft") ∷ (lit "locale", lit "fr") ∷ []

value_at-build_example :
    value_at (lit "locale" ∷ []) (build locales empty)
    ≡ last_value locales (lit "locale" ∷ []) (value_at (lit "locale" ∷ []) empty)
value_at-build_example = value_at-build locales (lit "locale") [] empty

from_pairs-locale_status_example :
    (some (lit "fr") ≡ last_value locales (lit "locale" ∷ []) none)
    × (some draft ≡ status_of std (last_value locales (lit "status" ∷ []) none))
unfolding from_pairs
from_pairs-locale_status_example =
    from_pairs-locale_status std locales
      (record (no_params std) { locale = some (lit "fr"); status = some draft }) refl

parse_filter_node_error_example : IsUnknown (unknown_operator (lit "$foo"))
unfolding parse_filter_node
parse_filter_node_error_example =
    parse_filter_node_error std
      (node none (
        Nodes.cons (lit "title")
          (node none (Nodes.cons (lit "$foo") (node (some (lit "a")) Nodes.nil) Nodes.nil))
          Nodes.nil))
      (unknown_operator (lit "$foo")) refl

holds-remap_field_example :
    holds {N = Text}
      (λ field _ _. text_eq field (lit "title"))
      (remap_field
        (lit "title")
        (or (Filters.cons (leaf (lit "$contains") eq (str (lit "a") ∷ [])) Filters.nil)))
    ≡ holds {N = Text}
        (λ field _ _. true)
        (or (Filters.cons (leaf (lit "$contains") eq (str (lit "a") ∷ [])) Filters.nil))
unfolding text_eq
holds-remap_field_example =
    holds-remap_field (λ field _ _. text_eq field (lit "title")) (lit "title")
      (or (Filters.cons (leaf (lit "$contains") eq (str (lit "a") ∷ [])) Filters.nil))

effective_pagination-IsWindow_example :
    IsWindow (effective_pagination (some (page_of (pos 3) (negsuc 4) none)))
effective_pagination-IsWindow_example =
    effective_pagination-IsWindow (some (page_of (pos 3) (negsuc 4) none)) (omega arith)

effective_pagination-offset_wraps_example :
    (n : ℕ) × ((effective_pagination (some (page_of (pos 4294967297) (pos 2147483648) none))).offset
      ≡ negsuc n)
effective_pagination-offset_wraps_example =
    effective_pagination-offset_wraps (pos 4294967297) (pos 2147483648) none (omega arith)
      (omega arith)
