-- ===== src/Api/Query/Filter/Meaning.antt =====
-- What a filter says of a row, given what its leaves say.
use ferris_cms.Prelude.{◌≡◌, refl, ap, Bool, true, false, not, ◌&&◌, ◌||◌, List, Text, arith}
use ferris_cms.Api.Query.Model.{FilterOp, Scalar, Filter, and, or, not_, leaf, Filters, nil, cons}
use ferris_cms.Api.Query.Filter.{remap_field, remap_fields, conjunction}

module _ {N : Type 0} where
  unfoldable mutual
    pub holds : (Text → FilterOp → List (Scalar N) → Bool) → Filter N → Bool
    holds says (and fs) = all_hold says fs
    holds says (or fs) = any_holds says fs
    holds says (not_ f) = not (holds says f)
    holds says (leaf field o values) = says field o values

    pub all_hold : (Text → FilterOp → List (Scalar N) → Bool) → Filters N → Bool
    all_hold says nil = true
    all_hold says (cons f fs) = holds says f && all_hold says fs

    pub any_holds : (Text → FilterOp → List (Scalar N) → Bool) → Filters N → Bool
    any_holds says nil = false
    any_holds says (cons f fs) = holds says f || any_holds says fs

  module _ (says : Text → FilterOp → List (Scalar N) → Bool) (field : Text) where
    mutual
      unfolding holds remap_field

      remap_holds : (f : Filter N) → holds says (remap_field field f) ≡ holds (λ _. says field) f
      remap_holds (and fs) = remap_all fs
      remap_holds (or fs) = remap_any fs
      remap_holds (not_ f) = ap not (remap_holds f)
      remap_holds (leaf _ o values) = refl

      remap_all :
          (fs : Filters N) → all_hold says (remap_fields field fs) ≡ all_hold (λ _. says field) fs
      remap_all nil = refl
      remap_all (cons f fs) = cc (remap_holds f, remap_all fs)

      remap_any :
          (fs : Filters N) → any_holds says (remap_fields field fs) ≡ any_holds (λ _. says field) fs
      remap_any nil = refl
      remap_any (cons f fs) = cc (remap_holds f, remap_any fs)

  -- A filter that is moved under a field says of a row what it said before, with that field in the
  -- place of each of its own.
  pub holds-remap_field :
      (says : Text → FilterOp → List (Scalar N) → Bool) (field : Text) (f : Filter N)
      → holds says (remap_field field f) ≡ holds (λ _. says field) f
  holds-remap_field says field f = remap_holds says field f

  holds-conjunction :
      (says : Text → FilterOp → List (Scalar N) → Bool) (fs : Filters N)
      → holds says (conjunction fs) ≡ all_hold says fs
  unfolding holds conjunction
  holds-conjunction says nil = refl
  holds-conjunction says (cons f nil) = ground arith
  holds-conjunction says (cons f (cons g fs)) = refl
