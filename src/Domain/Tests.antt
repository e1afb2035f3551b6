-- ===== src/Domain/Tests.antt =====
-- Runs of the names, uids and stored names of the domain, and the instances of the theorems.
use ferris_cms.Prelude.{
  ◌≡◌, refl, ◌↔◌, none, some, inr, lookup, text_eq, lit, In, ◌++◌, ◌∷◌, [], ◌⊎◌,
}
use ferris_cms.Domain.Naming.{
  underscore, snake_case, column_name, is_reserved_sql, collection_table, component_table,
  fk_column, relation_join_table,
}
use ferris_cms.Domain.Naming.Snake.{IsSnake, snake_case-IsSnake}
use ferris_cms.Domain.Naming.Columns.{kept_words, column_name-unreserved, column_name-eq_iff}
use ferris_cms.Domain.Naming.Plural.{
  pascal_case, regular_plural, pluralize, regular_singular, singularize,
}
use ferris_cms.Domain.Naming.Plural.Regular.{IsRegular, singularize-pluralize}
use ferris_cms.Domain.Uid.{scope, is_component, component_category, last_segment}
use ferris_cms.Domain.Field.{FieldType, as_str, parse, parse-eq-some_iff}

acronym-snake_case : snake_case (lit "parseURLNow") ≡ lit "parse_urlnow"
unfolding snake_case
acronym-snake_case = refl

punctuation-snake_case : snake_case (lit "--Blog Post!--") ≡ lit "blog_post"
unfolding snake_case
punctuation-snake_case = refl

order-column_name : column_name (lit "Order") ≡ lit "order_"
unfolding column_name is_reserved_sql snake_case
order-column_name = refl

from-column_name : column_name (lit "From") ≡ lit "from"
unfolding column_name is_reserved_sql snake_case
from-column_name = refl

author-fk_column : fk_column (lit "author") ≡ lit "author_id"
unfolding fk_column column_name is_reserved_sql snake_case
author-fk_column = refl

articles-collection_table : collection_table (lit "Articles") ≡ lit "ct_articles"
unfolding collection_table snake_case
articles-collection_table = refl

seo-component_table : component_table (lit "shared") (lit "Seo Meta") ≡ lit "cmp_shared_seo_meta"
unfolding component_table snake_case
seo-component_table = refl

tags-relation_join_table :
    relation_join_table (lit "ct_articles") (lit "tags") ≡ lit "ct_articles_tags_links"
unfolding relation_join_table column_name is_reserved_sql snake_case
tags-relation_join_table = refl

article-scope : scope (lit "api::article.article") ≡ some (lit "api")
unfolding scope
article-scope = refl

seo-component_category : component_category (lit "shared.seo") ≡ some (lit "shared")
unfolding component_category is_component
seo-component_category = refl

article-component_category : component_category (lit "api::article.article") ≡ none
unfolding component_category is_component
article-component_category = refl

article-last_segment : last_segment (lit "api::article.post") ≡ lit "post"
unfolding last_segment
article-last_segment = refl

snake_case-IsSnake_example : IsSnake (snake_case (lit "Blog Post"))
snake_case-IsSnake_example = snake_case-IsSnake (lit "Blog Post")

column_name-unreserved_example :
    (¬ In (column_name (lit "Group")) kept_words)
    × ((In (snake_case (lit "Group")) kept_words
          × (column_name (lit "Group") ≡ snake_case (lit "Group") ++ underscore ∷ []))
        ⊎ ((¬ In (snake_case (lit "Group")) kept_words)
            × (column_name (lit "Group") ≡ snake_case (lit "Group"))))
column_name-unreserved_example = column_name-unreserved (lit "Group")

column_name-eq_iff_example :
    (column_name (lit "order") ≡ column_name (lit "Order_"))
    ↔ (snake_case (lit "order") ≡ snake_case (lit "Order_"))
column_name-eq_iff_example = column_name-eq_iff (lit "order") (lit "Order_")

parse-eq-some_iff_example :
    (parse (lit "richtext") ≡ some FieldType.richtext)
    ↔ (as_str FieldType.richtext ≡ lit "richtext")
parse-eq-some_iff_example = parse-eq-some_iff (lit "richtext") FieldType.richtext

blog-pascal_case : pascal_case (lit "blog_post") ≡ lit "BlogPost"
unfolding pascal_case
blog-pascal_case = refl

category-pluralize : pluralize (lit "category") ≡ lit "categories"
unfolding pluralize regular_plural lookup text_eq
category-pluralize = refl

church-pluralize : pluralize (lit "church") ≡ lit "churches"
unfolding pluralize regular_plural lookup text_eq
church-pluralize = refl

analysis-pluralize : pluralize (lit "analysis") ≡ lit "analyses"
unfolding pluralize regular_plural lookup text_eq
analysis-pluralize = refl

child-pluralize : pluralize (lit "Child") ≡ lit "children"
unfolding pluralize regular_plural lookup text_eq
child-pluralize = refl

-- an `e` of the singular is lost
knife-singularize : singularize (pluralize (lit "knife")) ≡ lit "knif"
unfolding pluralize regular_plural singularize regular_singular lookup text_eq
knife-singularize = refl

house-singularize : singularize (pluralize (lit "house")) ≡ lit "hous"
unfolding pluralize regular_plural singularize regular_singular lookup text_eq
house-singularize = refl

singularize-pluralize_example : singularize (pluralize (lit "article")) ≡ lit "article"
unfolding IsRegular lookup text_eq
singularize-pluralize_example =
    singularize-pluralize (lit "article")
      (inr (lit "artic", b'l', refl, (refl, refl, refl, refl, refl, refl, refl))) refl refl refl
