-- ===== src/Api/Query/Params/Locale.antt =====
-- The locale and the status of a query, from its pairs to its parameters.
use ferris_cms.Prelude.{
  ◌≡◌, refl, sym, ap, ◌∙◌, ◌⊎◌, inl, inr, Option, none, some, List, [], ◌∷◌, Text, lit, text_eq,
  text_eq_iff, In, Nodup, arith, Bool-cases, Option-cases, if◌then◌else◌,
}
use ferris_cms.Api.Query.Key.{split_key}
use ferris_cms.Api.Query.Tree.{
  Node, node, Nodes, nil, cons, empty, node_value, node_children, update_child, insert, find_child,
  build, value_at,
}
use ferris_cms.Api.Query.Tree.Values.{last_value, value_at-build}
use ferris_cms.Api.Query.Model.{QueryParams, Parsed, ok, err, ◌>>=◌, Std}
use ferris_cms.Api.Query.Params.{child_names, status_of, no_params, param, params_loop, from_pairs}

update_child-names :
    (f : Node → Node) (key x : Text) (cs : Nodes)
    → In x (child_names (update_child f key cs))
    → (x ≡ key) ⊎ In x (child_names cs)
unfolding update_child child_names
update_child-names f key x nil (inl e) = inl e
update_child-names f key x nil (inr m) = absurd m
update_child-names f key x (cons k n cs) m =
    ground (arith, text_eq_iff k key, update_child-names f key x cs)

update_child-Nodup :
    (f : Node → Node) (key : Text) (cs : Nodes)
    → Nodup (child_names cs)
    → Nodup (child_names (update_child f key cs))
unfolding update_child child_names
update_child-Nodup f key nil h = ((λ m. m), tt)
update_child-Nodup f key (cons k n cs) (a, h) = elim (Bool-cases (text_eq k key)) [
  | inl e ↦ rw e (a, h)
  | inr e ↦ rw e (
    (λ m. elim (update_child-names f key k cs m) [
      | inl q ↦ cc (e, (text_eq_iff k key).1 q)
      | inr l ↦ a l
    ]),
    update_child-Nodup f key cs h,
  )
]

insert-Nodup :
    (path : List Text) (v : Text) (root : Node)
    → Nodup (child_names (node_children root))
    → Nodup
        (child_names (node_children (elim path [ [] ↦ root | p ∷ ps ↦ insert (p ∷ ps) v root ])))
unfolding insert
insert-Nodup [] v root d = d
insert-Nodup (p ∷ ps) v (node w cs) d = update_child-Nodup (insert ps v) p cs d

find_child-In :
    (key : Text) (cs : Nodes) (n : Node) → find_child key cs ≡ some n → In key (child_names cs)
unfolding find_child child_names
find_child-In key nil n h = absurd (cc h)
find_child-In key (cons k c cs) n h = ground (arith, text_eq_iff k key, find_child-In key cs n)

find_child-cases :
    (key : Text) (cs : Nodes)
    → (find_child key cs ≡ none) ⊎ ((n : Node) × (find_child key cs ≡ some n))
find_child-cases key cs = Option-cases (find_child key cs)

value_at-root : (n : Node) → value_at [] n ≡ node_value n
unfolding value_at
value_at-root (node v cs) = refl

-- what is read of a child, or what was there before
module _ {A : Type 0} (read : Option Text → A) where
  picked : Option Node → A → A
  picked none before = before
  picked (some n) before = read (node_value n)

  unlisted_pick :
      (name key : Text) (n : Node) (cs : Nodes) (before next : A)
      → key ≡ name
      → find_child key cs ≡ none
      → next ≡ read (node_value n)
      → picked (find_child name cs) next
        ≡ picked (if text_eq key name then some n else find_child name cs) before
  unfolding picked
  unlisted_pick name key n cs before next e q h = rw ((text_eq_iff key name).1 e, sym e, q) h

  pick_step :
      (name key : Text) (n : Node) (cs : Nodes) (before next : A)
      → ¬ In key (child_names cs)
      → next ≡ (if text_eq key name then read (node_value n) else before)
      → picked (find_child name cs) next
        ≡ picked (if text_eq key name then some n else find_child name cs) before
  unfolding picked
  pick_step name key n cs before next a h = elim (Bool-cases (text_eq key name)) [
    | inl e ↦ elim (find_child-cases key cs) [
      | inl q ↦
          unlisted_pick name key n cs before next ((text_eq_iff key name).0 e) q (h ∙ (rw e refl))
      | inr (m, q) ↦ absurd (a (find_child-In key cs m q))
    ]
    | inr e ↦ rw e (ap (picked (find_child name cs)) (h ∙ (rw e refl)))
  ]

  picked_child :
      (found : Option Node) (before : A)
      → before ≡ read none
      → picked found before ≡ read (elim found [ some n ↦ value_at [] n | none ↦ none ])
  unfolding picked
  picked_child none before h = h
  picked_child (some n) before h = ap read (sym (value_at-root n))

  picked_value :
      (name : Text) (root : Node) (before : A)
      → before ≡ read none
      → picked (find_child name (node_children root)) before ≡ read (value_at (name ∷ []) root)
  unfolding picked value_at
  picked_value name (node v cs) before h = picked_child (find_child name cs) before h

module _ {N : Type 0} (std : Std N) where
  param-locale :
      (key : Text) (n : Node) (out out' : QueryParams N)
      → param std key n out ≡ ok out'
      → out'.locale ≡ (if text_eq key (lit "locale") then node_value n else out.locale)
  unfolding param
  param-locale key n out out' h = ground (
    arith,
    text_eq_iff key (lit "fields"),
    text_eq_iff key (lit "populate"),
    text_eq_iff key (lit "filters"),
    text_eq_iff key (lit "sort"),
    text_eq_iff key (lit "pagination"),
    text_eq_iff key (lit "locale"),
    text_eq_iff key (lit "status"),
  )

  param-status :
      (key : Text) (n : Node) (out out' : QueryParams N)
      → param std key n out ≡ ok out'
      → out'.status
        ≡ (if text_eq key (lit "status") then status_of std (node_value n) else out.status)
  unfolding param
  param-status key n out out' h = ground (
    arith,
    text_eq_iff key (lit "fields"),
    text_eq_iff key (lit "populate"),
    text_eq_iff key (lit "filters"),
    text_eq_iff key (lit "sort"),
    text_eq_iff key (lit "pagination"),
    text_eq_iff key (lit "locale"),
    text_eq_iff key (lit "status"),
  )

  loop_inv :
      (m : Parsed (QueryParams N)) (cs : Nodes) (out' : QueryParams N)
      → (m >>= λ out. params_loop std cs out) ≡ ok out'
      → (out : QueryParams N) × (m ≡ ok out) × (params_loop std cs out ≡ ok out')
  loop_inv (ok out) cs out' h = (out, refl, h)
  loop_inv (err e) cs out' h = absurd (cc h)

  params_loop-locale :
      (cs : Nodes) (out out' : QueryParams N)
      → Nodup (child_names cs)
      → params_loop std cs out ≡ ok out'
      → out'.locale ≡ picked (λ v. v) (find_child (lit "locale") cs) out.locale
  unfolding params_loop child_names find_child picked
  params_loop-locale nil out out' d h = cc h
  params_loop-locale (cons key n cs) out out' (a, d) h =
      let (next, p, r) = loop_inv (param std key n out) cs out' h in
      params_loop-locale cs next out' d r
      ∙ pick_step (λ v. v) (lit "locale") key n cs out.locale next.locale a
          (param-locale key n out next p)

  params_loop-status :
      (cs : Nodes) (out out' : QueryParams N)
      → Nodup (child_names cs)
      → params_loop std cs out ≡ ok out'
      → out'.status ≡ picked (status_of std) (find_child (lit "status") cs) out.status
  unfolding params_loop child_names find_child picked
  params_loop-status nil out out' d h = cc h
  params_loop-status (cons key n cs) out out' (a, d) h =
      let (next, p, r) = loop_inv (param std key n out) cs out' h in
      params_loop-status cs next out' d r
      ∙ pick_step (status_of std) (lit "status") key n cs out.status next.status a
          (param-status key n out next p)

  build-Nodup :
      (pairs : List (Text × Text)) (root : Node)
      → Nodup (child_names (node_children root))
      → Nodup (child_names (node_children (build pairs root)))
  unfolding build
  build-Nodup [] root d = d
  build-Nodup ((k, v) ∷ pairs) root d =
      build-Nodup pairs (elim (split_key k) [ [] ↦ root | p ∷ path ↦ insert (p ∷ path) v root ])
        (insert-Nodup (split_key k) v root d)

  -- If a query is accepted, its locale is the value of the last pair whose key is `locale`, and its
  -- status is read from the value of the last one whose key is `status`: whatever else the query
  -- holds, and none where there is no such pair.
  pub from_pairs-locale_status :
      (pairs : List (Text × Text)) (out : QueryParams N)
      → from_pairs std pairs ≡ ok out
      → (out.locale ≡ last_value pairs (lit "locale" ∷ []) none)
        × (out.status ≡ status_of std (last_value pairs (lit "status" ∷ []) none))
  unfolding from_pairs value_at
  from_pairs-locale_status pairs out h =
      let root = build pairs empty in
      let d = build-Nodup pairs empty tt in
      (
        params_loop-locale (node_children root) (no_params std) out d h
            ∙ picked_value (λ v. v) (lit "locale") root none refl
            ∙ value_at-build pairs (lit "locale") [] empty,
        params_loop-status (node_children root) (no_params std) out d h
            ∙ picked_value (status_of std) (lit "status") root none refl
            ∙ ap (status_of std) (value_at-build pairs (lit "status") [] empty),
      )
