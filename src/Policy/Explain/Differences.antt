-- ===== src/Policy/Explain/Differences.antt =====
-- When two policies have no difference in words.
use Prim.Native.String.{◌++◌ as append}
use guardmcp.Prelude.{
  String, ◌≡◌, ◌↔◌, refl, sym, ap, subst, ◌∙◌, inl, inr, Bool, true, false, Option, none, some,
  List, [], ◌∷◌, ◌++◌, ◌||◌, elem, ◌===◌, Bool-cases, arith, eq_iff, elem-append, or-cases, ◌⊎◌,
}
use guardmcp.Dict.{Dict, lookup}
use guardmcp.Policy.{Policy, Mode, DateTime, aware, naive, bucket}
use guardmcp.Policy.Explain.{
  sorted_set, minus, lines, diff_list, diff_mode, effective_mask_map, mask_columns, suffix,
  diff_bucket, diff_buckets, diff_masks, diff_toggle, same_instant, same, diff_value, show_text,
  diff_policies,
}
use guardmcp.Policy.Explain.Sets.{
  append-empty, empty-append, and_empty, lines-empty, elem-cons, elem-nil, elem-sorted_set,
  SameMembers, same_of_Within, minus-empty, same-minus,
}

module _ (b1 a1 b2 a2 : String) where
  -- The lines of what was gained and of what was lost.
  both : (current proposed : List String) → List String
  both current proposed =
      lines b1 a1 (minus proposed current) ++ lines b2 a2 (minus current proposed)

  both-empty_iff :
      (current proposed : List String) → (both current proposed ≡ []) ↔ SameMembers current proposed
  unfolding both
  both-empty_iff current proposed = (
    (λ h.
        let (gained, lost) =
          append-empty (lines b1 a1 (minus proposed current)) (lines b2 a2 (minus current proposed))
            h in
        same_of_Within current proposed
          (minus-empty current proposed (lines-empty b2 a2 (minus current proposed) lost))
          (minus-empty proposed current (lines-empty b1 a1 (minus proposed current) gained))),
    (λ h. rw (same-minus proposed current (λ k. sym (h k)), same-minus current proposed h) refl),
  )

diff_list-empty_iff :
    (label : String) (current proposed : List String)
    → (diff_list label current proposed ≡ []) ↔ SameMembers current proposed
unfolding both
diff_list-empty_iff label =
    both-empty_iff "Added " (append " to " label) "Removed " (append " from " label)

diff_bucket-empty_iff :
    (c : String) (current proposed : Dict (List String))
    → (diff_bucket c current proposed ≡ []) ↔ SameMembers (bucket c current) (bucket c proposed)
unfolding both
diff_bucket-empty_iff c current proposed =
    both-empty_iff "Now masks: " (suffix c) "No longer masks: " (suffix c) (bucket c current)
      (bucket c proposed)

no_column :
    (c : String) (d : Dict (List String)) → elem c (mask_columns d) ≡ false → bucket c d ≡ []
unfolding lookup elem
no_column c [] h = refl
no_column c ((k, v) ∷ rest) h = ground (arith, no_column c rest)

module _ (current proposed : Dict (List String)) where
  -- The masks of every collection are the same.
  abbrev pub SameBuckets : Type 0
  SameBuckets = (c : String) → SameMembers (bucket c current) (bucket c proposed)

  buckets-same :
      (cs : List String)
      → diff_buckets cs current proposed ≡ []
      → (c : String) → elem c cs ≡ true
      → SameMembers (bucket c current) (bucket c proposed)
  unfolding diff_buckets
  buckets-same [] h c m = cc (elem-nil c)
  buckets-same (x ∷ cs) h c m =
      let (here, later) =
        append-empty (diff_bucket x current proposed) (diff_buckets cs current proposed) h in
      by_head (or-cases (x === c) (elem c cs) (sym (elem-cons c x cs) ∙ m))
        ((diff_bucket-empty_iff x current proposed).0 here) (buckets-same cs later c)
    where
      by_head :
          ((x === c) ≡ true) ⊎ (elem c cs ≡ true)
          → SameMembers (bucket x current) (bucket x proposed)
          → (elem c cs ≡ true → SameMembers (bucket c current) (bucket c proposed))
          → SameMembers (bucket c current) (bucket c proposed)
      by_head (inl e) here rest =
          subst (λ i. SameMembers (bucket i current) (bucket i proposed)) ((eq_iff x c).0 e) here
      by_head (inr e) here rest = rest e

  same-buckets : (cs : List String) → SameBuckets → diff_buckets cs current proposed ≡ []
  unfolding diff_buckets
  same-buckets [] h = refl
  same-buckets (x ∷ cs) h =
      empty-append (diff_bucket x current proposed) (diff_buckets cs current proposed)
        ((diff_bucket-empty_iff x current proposed).1 (h x)) (same-buckets cs h)

  diff_masks-empty_iff : (diff_masks current proposed ≡ []) ↔ SameBuckets
  unfolding diff_masks
  diff_masks-empty_iff =
      (all, same-buckets (sorted_set (mask_columns current ++ mask_columns proposed)))
    where
      neither :
          (c : String)
          → (elem c (mask_columns current) || elem c (mask_columns proposed)) ≡ false
          → (elem c (mask_columns current) ≡ false) × (elem c (mask_columns proposed) ≡ false)
      neither c h = ground arith

      all :
          diff_buckets (sorted_set (mask_columns current ++ mask_columns proposed)) current proposed
            ≡ []
          → SameBuckets
      all h c =
          let listed =
            elem-sorted_set c (mask_columns current ++ mask_columns proposed)
            ∙ elem-append c (mask_columns current) (mask_columns proposed) in
          elim (Bool-cases (elem c (mask_columns current) || elem c (mask_columns proposed))) [
            | inl there ↦
                buckets-same (sorted_set (mask_columns current ++ mask_columns proposed)) h c
                  (listed ∙ there)
            | inr gone ↦ λ k.
                ap (elem k) (no_column c current (neither c gone).0)
                ∙ sym (ap (elem k) (no_column c proposed (neither c gone).1))
          ]

mode-empty_iff :
    (current proposed : Mode) → (diff_mode current proposed ≡ []) ↔ (current ≡ proposed)
unfolding diff_mode
mode-empty_iff Mode.readonly Mode.readonly = ((λ h. refl), (λ h. refl))
mode-empty_iff Mode.readonly Mode.readwrite = ((λ h. cc), (λ h. cc))
mode-empty_iff Mode.readwrite Mode.readonly = ((λ h. cc), (λ h. cc))
mode-empty_iff Mode.readwrite Mode.readwrite = ((λ h. refl), (λ h. refl))

toggle-empty_iff :
    (risk : String) (current proposed : Bool)
    → (diff_toggle risk current proposed ≡ []) ↔ (current ≡ proposed)
unfolding diff_toggle
toggle-empty_iff risk true true = ((λ h. refl), (λ h. refl))
toggle-empty_iff risk true false = ((λ h. cc), (λ h. cc))
toggle-empty_iff risk false true = ((λ h. cc), (λ h. cc))
toggle-empty_iff risk false false = ((λ h. refl), (λ h. refl))

same_instant_iff : (a b : DateTime) → (same_instant a b ≡ true) ↔ (a ≡ b)
same_instant_iff (aware a) (aware b) = ground arith
same_instant_iff (aware a) (naive b) = ((λ h. cc), (λ h. cc))
same_instant_iff (naive a) (aware b) = ((λ h. cc), (λ h. cc))
same_instant_iff (naive a) (naive b) = ground arith

module _ {A : Type 0} (eq : A → A → Bool) (iff : (a b : A) → (eq a b ≡ true) ↔ (a ≡ b)) where
  same_iff : (a b : Option A) → (same eq a b ≡ true) ↔ (a ≡ b)
  same_iff none none = ((λ h. refl), (λ h. refl))
  same_iff none (some b) = ((λ h. cc), (λ h. cc))
  same_iff (some a) none = ((λ h. cc), (λ h. cc))
  same_iff (some a) (some b) = ((λ h. ap some ((iff a b).0 h)), (λ h. (iff a b).1 (cc)))

  value-empty_iff :
      (show : Option A → String) (label : String) (a b : Option A)
      → (diff_value eq show label a b ≡ []) ↔ (a ≡ b)
  value-empty_iff show label a b = elim (Bool-cases (same eq a b)) [
    | inl yes_ ↦ rw yes_ ((λ h. (same_iff a b).0 yes_), (λ h. refl))
    | inr no_ ↦ rw no_ ((λ h. cc), (λ h. cc ((same_iff a b).1 h)))
  ]

-- What the difference looks at: the two policies agree on it, lists and masks as sets.
pub record Agrees (current proposed : Policy) : Type 0 where
  pub mode : current.mode ≡ proposed.mode
  pub collections_allow : SameMembers current.collections.allow proposed.collections.allow
  pub collections_deny : SameMembers current.collections.deny proposed.collections.deny
  pub actions_allow : SameMembers current.actions.allow proposed.actions.allow
  pub actions_deny : SameMembers current.actions.deny proposed.actions.deny
  pub connections : SameMembers current.connections_allow proposed.connections_allow
  pub fields : SameMembers current.fields_allow proposed.fields_allow
  pub masks :
      SameBuckets (effective_mask_map current.mask_fields) (effective_mask_map proposed.mask_fields)
  pub high : current.approval.high ≡ proposed.approval.high
  pub critical : current.approval.critical ≡ proposed.approval.critical
  pub not_before : current.not_before ≡ proposed.not_before
  pub not_after : current.not_after ≡ proposed.not_after
  pub extends : current.extends ≡ proposed.extends

-- Two policies have no difference in words exactly when they agree on the mode, the lists, the masks,
-- the approvals, the window and the base. The scopes of databases, their list and the cost are not
-- looked at.
pub diff_policies-empty_iff :
    (show_time : Option DateTime → String) (current proposed : Policy)
    → (diff_policies show_time current proposed ≡ []) ↔ Agrees current proposed
unfolding diff_policies
diff_policies-empty_iff show_time c p =
    let differences = and_empty _ _ (mode-empty_iff c.mode p.mode) (
      and_empty _ _
        (diff_list-empty_iff "collections.allow" c.collections.allow p.collections.allow)
        (and_empty _ _
          (diff_list-empty_iff "collections.deny" c.collections.deny p.collections.deny)
          (and_empty _ _ (diff_list-empty_iff "actions.allow" c.actions.allow p.actions.allow) (
            and_empty _ _ (diff_list-empty_iff "actions.deny" c.actions.deny p.actions.deny) (
              and_empty _ _
                (diff_list-empty_iff "connections_allow" c.connections_allow p.connections_allow)
                (and_empty _ _ (diff_list-empty_iff "fields_allow" c.fields_allow p.fields_allow) (
                  and_empty _ _
                    (diff_masks-empty_iff (effective_mask_map c.mask_fields)
                      (effective_mask_map p.mask_fields))
                    (and_empty _ _ (toggle-empty_iff "HIGH" c.approval.high p.approval.high) (
                      and_empty _ _
                        (toggle-empty_iff "CRITICAL" c.approval.critical p.approval.critical)
                        (and_empty _ _
                          (value-empty_iff same_instant same_instant_iff show_time "not_before"
                            c.not_before p.not_before)
                          (and_empty _ _
                            (value-empty_iff same_instant same_instant_iff show_time "not_after"
                              c.not_after p.not_after)
                            (value-empty_iff (λ a b. a === b) eq_iff show_text "extends" c.extends
                              p.extends)))))))))))) in
    (
      (λ h.
          let d = differences.0 h in
          record {
            mode = d.0;
            collections_allow = d.1.0;
            collections_deny = d.1.1.0;
            actions_allow = d.1.1.1.0;
            actions_deny = d.1.1.1.1.0;
            connections = d.1.1.1.1.1.0;
            fields = d.1.1.1.1.1.1.0;
            masks = d.1.1.1.1.1.1.1.0;
            high = d.1.1.1.1.1.1.1.1.0;
            critical = d.1.1.1.1.1.1.1.1.1.0;
            not_before = d.1.1.1.1.1.1.1.1.1.1.0;
            not_after = d.1.1.1.1.1.1.1.1.1.1.1.0;
            extends = d.1.1.1.1.1.1.1.1.1.1.1.1;
          }),
      (λ a. differences.1 (
        a.mode,
        (
          a.collections_allow,
          (
            a.collections_deny,
            (
              a.actions_allow,
              (
                a.actions_deny,
                (
                  a.connections,
                  (
                    a.fields,
                    (a.masks, (a.high, (a.critical, (a.not_before, (a.not_after, a.extends))))),
                  ),
                ),
              ),
            ),
          ),
        ),
      )),
    )
