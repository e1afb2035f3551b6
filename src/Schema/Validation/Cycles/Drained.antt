-- ===== src/Schema/Validation/Cycles/Drained.antt =====
-- Kahn's algorithm: what is left when the queue is empty. `placed` are the removed fields, the last
-- first, and `waiting` the others.
use ferris_cms.Prelude.{
  ◌≡◌, ◌≢◌, refl, ap, sym, ◌∙◌, ◌↔◌, ◌⊎◌, inl, inr, ℕ, zero, suc, ◌+◌, ◌-◌, ◌<◌, Bool, true, false,
  some, List, [], ◌∷◌, Text, text_eq, text_eq_iff, text_eq_refl, length, In, Nodup, Bool-cases,
  List-cases, Assoc, keys, lookup, insert_key, lookup-insert_key, keys-insert_key, ◌==◌,
  if◌then◌else◌, arith,
}
use ferris_cms.Schema.Validation.Cycles.{targets, Drain, relax, relax_all, drain}
use ferris_cms.Schema.Validation.Cycles.Counts.{
  count, count-cons, count-nil, remove, In-remove_iff, Nodup-remove, length-remove, load,
  load-remove, load_pos_of_In,
}

relax-some :
    (m : Text) (d : ℕ) (s : Drain)
    → lookup m s.degrees ≡ some (d + 1)
    → relax m s ≡ record s {
      degrees = insert_key m d s.degrees;
      queue = if d == 0 then m ∷ s.queue else s.queue;
    }
unfolding relax
relax-some m d s e = let same : d + 1 - 1 ≡ d = omega arith in rw (e, relax) (rw same refl)

once_push :
    (queue : List Text) (m : Text) (b : Bool)
    → ¬ In m queue
    → Nodup queue
    → Nodup (if b then m ∷ queue else queue)
once_push queue m true n d = (n, d)
once_push queue m false n d = d

-- The field whose degree falls is queued exactly when its degree is 0; the others stay as they are.
queued_here :
    (queue waiting : List Text) (m : Text) (d : ℕ)
    → ¬ In m queue
    → In m waiting
    → In m (if d == 0 then m ∷ queue else queue) ↔ (In m waiting × (d ≡ 0))
queued_here queue waiting m d n w = ground arith

queued_other :
    (queue waiting : List Text) (n m : Text) (d c : ℕ)
    → n ≢ m
    → In n queue ↔ (In n waiting × (c ≡ 0))
    → In n (if d == 0 then m ∷ queue else queue) ↔ (In n waiting × (c ≡ 0))
queued_other queue waiting n m d c e h = ground arith

module _ (adj : Text → List Text) (fields : List Text) where
  -- The list, from its end, removes fields so that none is removed before its dependents.
  abbrev pub IsOrder : List Text → Type 0
  IsOrder [] = Unit
  IsOrder (n ∷ ns) = ((p : Text) → In p fields → In n (adj p) → In p ns) × IsOrder ns

  pub IsOrder-closed :
      (ns : List Text) (n p : Text) → IsOrder ns → In n ns → In p fields → In n (adj p) → In p ns
  IsOrder-closed [] n p o h k e = absurd h
  IsOrder-closed (m ∷ ns) n p (f, o) (inl q) k e = inr (f p k (rw q at e))
  IsOrder-closed (m ∷ ns) n p (f, o) (inr h) k e = inr (IsOrder-closed ns n p o h k e)

  -- between two rounds: the fields are waiting or placed, and each degree counts the edges of the
  -- waiting ones
  pub record IsDraining (s : Drain) (waiting placed : List Text) : Type 0 where
    pub keys_same : keys s.degrees ≡ fields
    pub distinct : Nodup waiting
    pub known : (n : Text) → In n waiting → In n fields
    pub split : (n : Text) → In n fields → In n waiting ⊎ In n placed
    pub apart : (n : Text) → In n waiting → ¬ In n placed
    pub ordered : IsOrder placed
    pub degree : (n : Text) → In n fields → lookup n s.degrees ≡ some (load adj n waiting)
    pub queued : (n : Text) → In n s.queue ↔ (In n waiting × (load adj n waiting ≡ 0))
    pub once : Nodup s.queue
    pub total : s.removed + length waiting ≡ length fields

  -- in a round, with the edges to `rest` still to be taken off
  record IsRelaxing (s : Drain) (waiting rest : List Text) : Type 0 where
    keys_same : keys s.degrees ≡ fields
    degree :
        (n : Text) → In n fields → lookup n s.degrees ≡ some (count n rest + load adj n waiting)
    queued : (n : Text) → In n s.queue ↔ (In n waiting × (count n rest + load adj n waiting ≡ 0))
    once : Nodup s.queue
    targets_wait : (n : Text) → In n rest → In n waiting
    known : (n : Text) → In n waiting → In n fields

  relax-IsRelaxing :
      (s : Drain) (waiting : List Text) (m : Text) (rest : List Text)
      → IsRelaxing s waiting (m ∷ rest)
      → IsRelaxing (relax m s) waiting rest
  relax-IsRelaxing s waiting m rest r =
      let w = r.targets_wait m (inl refl) in
      let d = count m rest + load adj m waiting in
      let here = count-cons m m rest in
      let found : lookup m s.degrees ≡ some (d + 1) =
        rw (r.degree m (r.known m w), here, text_eq_refl m) (ap some (omega arith)) in
      let pending : count m (m ∷ rest) ≡ count m rest + 1 =
        rw (here, text_eq_refl m) (omega arith) in
      let not_queued : ¬ In m s.queue =
        λ h. let (_, z) = (r.queued m).0 h in absurd (omega arith) in
      let other = λ (n : Text) (e : text_eq n m ≡ false).
        let q : count n (m ∷ rest) ≡ count n rest = rw (count-cons n m rest, e) (omega arith) in
        q in
      rw (relax-some m d s found) (record {
        keys_same = keys-insert_key m d s.degrees (rw r.keys_same (r.known m w)) ∙ r.keys_same;
        degree = λ n k. rw (lookup-insert_key n m d s.degrees) (elim (Bool-cases (text_eq n m)) [
          | inl e ↦ rw (e, (text_eq_iff n m).0 e) refl
          | inr e ↦ rw e (r.degree n k ∙ ap some (omega (arith, other n e)))
        ]);
        queued = λ n. elim (Bool-cases (text_eq n m)) [
          | inl e ↦ rw ((text_eq_iff n m).0 e) (queued_here s.queue waiting m d not_queued w)
          | inr e ↦
              queued_other s.queue waiting n m d _ (λ q. cc (e, (text_eq_iff n m).1 q))
                (rw (other n e) at (r.queued n))
        ];
        once = once_push s.queue m (d == 0) not_queued r.once;
        targets_wait = λ n h. r.targets_wait n (inr h);
        known = r.known;
      })

  relax_all-IsRelaxing :
      (rest : List Text) (s : Drain) (waiting : List Text)
      → IsRelaxing s waiting rest
      → IsRelaxing (relax_all rest s) waiting []
  unfolding relax_all
  relax_all-IsRelaxing [] s waiting r = r
  relax_all-IsRelaxing (m ∷ rest) s waiting r =
      relax_all-IsRelaxing rest (relax m s) waiting (relax-IsRelaxing s waiting m rest r)

-- A round changes degrees and the queue only.
relax_all-removed : (ns : List Text) (s : Drain) → (relax_all ns s).removed ≡ s.removed
unfolding relax_all relax
relax_all-removed [] s = refl
relax_all-removed (n ∷ ns) s = relax_all-removed ns (relax n s) ∙ ground arith

module _ (edges : Assoc (List Text)) (fields : List Text)
    (closed : (n m : Text) → In m (targets edges n) → In m fields) (s : Drain)
    (waiting placed : List Text) (d : IsDraining (targets edges) fields s waiting placed) (n : Text)
    (rest : List Text) (top : s.queue ≡ n ∷ rest) where
  abbrev adj : Text → List Text
  adj = targets edges

  first : In n waiting × (load adj n waiting ≡ 0)
  first = (d.queued n).0 (rw top (inl refl))

  -- No waiting field depends on the one that is removed.
  dependents_placed : (p : Text) → In p fields → In n (adj p) → In p placed
  dependents_placed p k e = elim (d.split p k) [
    | inl w ↦
        let pos = load_pos_of_In adj n p waiting w e in
        let zero_load = first.1 in absurd (omega arith)
    | inr h ↦ h
  ]

  target_waits : (m : Text) → In m (adj n) → In m (remove n waiting)
  target_waits m e =
      let still : In m waiting = elim (d.split m (closed n m e)) [
        | inl w ↦ w
        | inr h ↦ absurd (
            d.apart n first.0
              (IsOrder-closed adj fields placed m n d.ordered h (d.known n first.0) e))
      ] in
      (In-remove_iff m n waiting d.distinct).1 (
        still,
        λ q. absurd (d.apart n first.0 (dependents_placed n (d.known n first.0) (rw q at e))),
      )

  abbrev popped : Drain
  popped = record s { queue = rest; removed = s.removed + 1 }

  popped-IsRelaxing : IsRelaxing adj fields popped (remove n waiting) (adj n)
  popped-IsRelaxing =
      let loads = λ (m : Text). load-remove adj m n waiting first.0 in
      let once : Nodup (n ∷ rest) = rw top at d.once in
      let member = λ (m : Text). In-remove_iff m n waiting d.distinct in
      record {
        keys_same = d.keys_same;
        degree = λ m k. d.degree m k ∙ ap some (loads m);
        queued = λ m. (
          λ h.
              let (w, z) = (d.queued m).0 (rw top (inr h)) in
              ((member m).1 (w, λ q. once.0 (rw q at h)), sym (loads m) ∙ z),
          λ (w, z).
              let (w', other) = (member m).0 w in
              elim (rw top at ((d.queued m).1 (w', loads m ∙ z))) [
                | inl q ↦ absurd (other q)
                | inr h ↦ h
              ],
        );
        once = once.1;
        targets_wait = target_waits;
        known = λ m w. d.known m ((member m).0 w).0;
      }

  round-IsDraining :
      IsDraining adj fields (relax_all (adj n) popped) (remove n waiting) (n ∷ placed)
  round-IsDraining =
      let r = relax_all-IsRelaxing adj fields (adj n) popped (remove n waiting) popped-IsRelaxing in
      let member = λ (m : Text). In-remove_iff m n waiting d.distinct in
      let none_left = λ (m : Text). let q : count m [] ≡ 0 = count-nil m in q in
      record {
        keys_same = r.keys_same;
        distinct = Nodup-remove n waiting d.distinct;
        known = r.known;
        split = λ m k. elim (d.split m k) [
          | inl w ↦ elim (Bool-cases (text_eq m n)) [
            | inl e ↦ inr (inl ((text_eq_iff m n).0 e))
            | inr e ↦ inl ((member m).1 (w, λ q. cc (e, (text_eq_iff m n).1 q)))
          ]
          | inr h ↦ inr (inr h)
        ];
        apart = λ m w h. elim h [
          | inl q ↦ ((member m).0 w).1 q
          | inr k ↦ d.apart m ((member m).0 w).0 k
        ];
        ordered = (dependents_placed, d.ordered);
        degree = λ m k. r.degree m k ∙ ap some (omega (arith, none_left m));
        queued = λ m.
            let q = r.queued m in
            (
              λ h. ((q.0 h).0, omega (arith, (q.0 h).1, none_left m)),
              λ (w, z). q.1 (w, omega (arith, none_left m)),
            );
        once = r.once;
        total =
            rw (relax_all-removed (adj n) popped)
              (omega (arith, d.total, length-remove n waiting first.0));
      }

module _ (edges : Assoc (List Text)) (fields : List Text)
    (closed : (n m : Text) → In m (targets edges n) → In m fields) where
  -- The loop ends with an empty queue, and keeps the invariant.
  pub drain-IsDraining :
      (fuel : ℕ) (s : Drain) (waiting placed : List Text)
      → length waiting < fuel
      → IsDraining (targets edges) fields s waiting placed
      → (left : List Text) × (order : List Text) × IsDraining
          (targets edges)
          fields
          (drain fuel edges s)
          left
          order
        × ((drain fuel edges s).queue ≡ [])
  unfolding drain
  drain-IsDraining zero s waiting placed f d = absurd (omega arith)
  drain-IsDraining (suc fuel) s waiting placed f d = elim (List-cases s.queue) [
    | inl e ↦ rw (e, drain) (waiting, placed, d, e)
    | inr (n, rest, e) ↦
        let w = first edges fields closed s waiting placed d n rest e in
        let shorter = length-remove n waiting w.0 in
        rw (e, drain)
          (drain-IsDraining fuel _ (remove n waiting) (n ∷ placed) (omega arith)
            (round-IsDraining edges fields closed s waiting placed d n rest e))
  ]
