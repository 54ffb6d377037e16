-- ===== src/Approvals/Settled.antt =====
-- A decided request stays as it is (core/approval/store.py).
use guardmcp.Prelude.{
  String, ◌≡◌, refl, ◌∙◌, inl, inr, Bool, true, false, Option, none, some, List, [], ◌∷◌, ◌||◌,
  arith, elem, Member, ◌===◌, eq_iff, eq_self, Bool-cases, if◌then◌else◌,
}
use guardmcp.Dict.{Dict, lookup, remove, modified, lookup-remove, lookup-modify, Distinct}
use guardmcp.Approvals.{
  denied, ApprovalRequest, ApprovalStore, set_status, ids_where, remove_all, deny_one, deny_all,
}

-- What a scan of the store collects, by a test on the request.
module _ (p : ApprovalRequest → Bool) (id : String) where
  lookup-later :
      (k : String) (w r : ApprovalRequest) (d : Dict ApprovalRequest)
      → lookup k d ≡ none
      → lookup id d ≡ some r
      → lookup id ((k, w) ∷ d) ≡ some r
  unfolding lookup
  lookup-later k w r d new e = elim (Bool-cases (k === id)) [
    | inl same ↦ cc (e, rw ((eq_iff k id).0 same) at new)
    | inr other ↦ rw other e
  ]

  pub ids_where-lookup :
      (d : Dict ApprovalRequest)
      → Distinct d
      → Member id (ids_where p d)
      → (req : ApprovalRequest) × (lookup id d ≡ some req) × (p req ≡ true)
  unfolding ids_where
  ids_where-lookup [] h m = absurd m
  ids_where-lookup ((k, req) ∷ d) (new, h) m = elim (Bool-cases (p req)) [
    | inl hit ↦ elim (rw hit at m) [
      | inl here ↦ (req, unfold lookup in rw (here, eq_self), hit)
      | inr later ↦
          let (r, e, q) = ids_where-lookup d h later in (r, lookup-later k req r d new e, q)
    ]
    | inr miss ↦
        let (r, e, q) = ids_where-lookup d h (rw miss at m) in (r, lookup-later k req r d new e, q)
  ]

  pub lookup-ids_where :
      (d : Dict ApprovalRequest) (req : ApprovalRequest)
      → lookup id d ≡ some req
      → p req ≡ true
      → Member id (ids_where p d)
  unfolding ids_where lookup
  lookup-ids_where [] req e h = cc
  lookup-ids_where ((k, w) ∷ d) req e h = elim (Bool-cases (k === id)) [
    | inl same ↦ let e' : w ≡ req = ground arith in rw (e', h) (inl ((eq_iff k id).0 same))
    | inr other ↦ keep (p w) (lookup-ids_where d req (rw other at e) h)
  ]
    where
      keep :
          (b : Bool)
          → Member id (ids_where p d)
          → Member id (if b then k ∷ ids_where p d else ids_where p d)
      keep true m = inr m
      keep false m = m

module _ (id : String) where
  -- Denying a list of requests denies those on the list and leaves every other as it is.
  pub lookup-deny_all :
      (ks : List String) (s : ApprovalStore)
      → lookup id (deny_all ks s).store ≡ (
          if elem id ks
          then modified (set_status denied) (lookup id s.store)
          else lookup id s.store)
  unfolding deny_all elem
  lookup-deny_all [] s = refl
  lookup-deny_all (k ∷ ks) s =
      lookup-deny_all ks (deny_one k s)
      ∙ (rw lookup-modify (again (k === id) (elem id ks) (lookup id s.store)))
    where
      again :
          (b c : Bool) (o : Option ApprovalRequest)
          → (if c
              then modified (set_status denied) (if b then modified (set_status denied) o else o)
              else if b
              then modified (set_status denied) o
              else o)
            ≡ (if b || c then modified (set_status denied) o else o)
      again true true none = refl
      again true true (some r) = refl
      again true false o = refl
      again false c o = refl

  pub lookup-remove_all :
      (ks : List String) (d : Dict ApprovalRequest)
      → lookup id (remove_all ks d) ≡ (if elem id ks then none else lookup id d)
  unfolding remove_all elem
  lookup-remove_all [] d = refl
  lookup-remove_all (k ∷ ks) d =
      lookup-remove_all ks (remove k d) ∙ (rw lookup-remove (again (k === id) (elem id ks)))
    where
      again :
          (b c : Bool)
          → (if c then none else if b then none else lookup id d)
            ≡ (if b || c then none else lookup id d)
      again true true = refl
      again true false = refl
      again false c = refl
