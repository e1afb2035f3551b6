-- ===== src/Api/Query/Params/Nested.antt =====
-- `filters[title][$or][0][$contains]=a`, from the query's pair to its filter.
use ferris_cms.Prelude.{some}
use ferris_cms.Api.Query.Model.{Filter, QueryParams, Parsed, ok, Std}
use ferris_cms.Api.Query.Params.{no_params}

module _ {N : Type 0} (std : Std N) where
  filtered : Filter N → Parsed (QueryParams N)
  filtered f = ok (record (no_params std) { filters = some f })
