-- ===== src/Audit/Chain.antt =====
-- What a verified log is tied to: its last signature determines its records, short of a collision
-- among the texts that were signed for them.
use Prim.Native.String.{◌++◌ as append}
use Prim.Native.String.append.{nil as append_nil, cons as append_cons}
use guardmcp.Prelude.{
  Member, text_length, ℕ, suc, String, ◌≡◌, ◌≢◌, ◌⊎◌, refl, sym, ap, ◌∙◌, inl, inr, Bool, true,
  false, Option, none, some, List, [], ◌∷◌, ◌===◌, eq_iff, Bool-cases, if◌then◌else◌, arith,
}
use guardmcp.Json.{Value, str, obj, Fields, get}
use guardmcp.Audit.{
  Codec, sign_record, genesis, VerifyResult, ok, without_hmac, not_none, LineCheck, check_line,
  check_record, check_signature, after_check, verify_lines, verify_chain, last_line,
  hmac_or_genesis, seed, load_last_hash,
}

-- Two texts of one length that begin two equal texts are equal, and so is what follows them.
append-cancel :
    (p q x y : String) → text_length p ≡ text_length q → append p x ≡ append q y → (p ≡ q) × (x ≡ y)
append-cancel String.[] String.[] x y n e = (refl, sym (append_nil x) ∙ e ∙ append_nil y)
append-cancel String.[] (String.◌∷◌ d q) x y n e = absurd (omega arith)
append-cancel (String.◌∷◌ c p) String.[] x y n e = absurd (omega arith)
append-cancel (String.◌∷◌ c p) (String.◌∷◌ d q) x y n e =
    let e' : String.◌∷◌ c (append p x) ≡ String.◌∷◌ d (append q y) =
      sym (append_cons c p x) ∙ e ∙ append_cons d q y in
    let (same, rest) = append-cancel p q x y (omega arith) (cc e') in (cc (same, e'), rest)

module _ (c : Codec) (secret : String) where
  -- The signature over base lines, the latest first.
  abbrev pub rchain : List String → String
  rchain [] = genesis
  rchain (line ∷ older) = sign_record c secret (rchain older) line

  -- The texts that are signed for them.
  abbrev pub messages : List String → List String
  messages [] = []
  messages (line ∷ older) = append (rchain older) line ∷ messages older

  abbrev base_of : Option Value → List String → List String
  base_of (some (obj rec)) acc = c.dumps (without_hmac rec) ∷ acc
  base_of _ acc = acc

  -- The records of a file without their signatures, the latest first.
  pub collect : List String → List String → List String
  collect acc [] = acc
  collect acc (raw ∷ lines) =
      collect (if c.strip raw === "" then acc else base_of (c.loads (c.strip raw)) acc) lines

  -- Of what was signed for the records of two files, two different texts with one signature, one of
  -- each file, or a text that is signed by the seed of the chain.
  abbrev pub Collides : List String → List String → Type 0
  Collides xs ys =
      ((m m' : String) × Member m (messages xs)
        × Member m' (messages ys)
        × (m ≢ m')
        × (c.sign secret m ≡ c.sign secret m'))
      ⊎ ((m : String) × (Member m (messages xs) ⊎ Member m (messages ys))
          × (c.sign secret m ≡ genesis))

  Collides-more : (x y : String) (xs ys : List String) → Collides xs ys → Collides (x ∷ xs) (y ∷ ys)
  Collides-more x y xs ys (inl (m, m', a, b, ne, e)) = inl (m, m', inr a, inr b, ne, e)
  Collides-more x y xs ys (inr (m, inl a, e)) = inr (m, inl (inr a), e)
  Collides-more x y xs ys (inr (m, inr b, e)) = inr (m, inr (inr b), e)

  module _ (digest : (m : String) → text_length (c.sign secret m) ≡ 64) where
    rchain-length : (xs : List String) → text_length (rchain xs) ≡ 64
    rchain-length [] = refl
    rchain-length (x ∷ xs) = digest (append (rchain xs) x)

    rchain-determines : (xs ys : List String) → rchain xs ≡ rchain ys → (xs ≡ ys) ⊎ Collides xs ys
    rchain-determines [] [] e = inl refl
    rchain-determines [] (y ∷ ys) e = inr (inr (append (rchain ys) y, inr (inl refl), sym e))
    rchain-determines (x ∷ xs) [] e = inr (inr (append (rchain xs) x, inl (inl refl), e))
    rchain-determines (x ∷ xs) (y ∷ ys) e =
        let m = append (rchain xs) x in
        let m' = append (rchain ys) y in
        elim (Bool-cases (m === m')) [
          | inr other ↦
              inr (inl (m, m', inl refl, inl refl, (λ q. cc (other, (eq_iff m m').1 q)), e))
          | inl same ↦
              let (before, line) =
                append-cancel (rchain xs) (rchain ys) x y
                  (rchain-length xs ∙ sym (rchain-length ys)) ((eq_iff m m').0 same) in
              elim (rchain-determines xs ys before) [
                | inl equal ↦ inl (cc (equal, line))
                | inr found ↦ inr (Collides-more x y xs ys found)
              ]
        ]

  -- A record passes only with the signature that the chain expects.
  Passes : String → Option Value → (String → Option VerifyResult) → VerifyResult → Type 0
  Passes prev_hash o advanced r =
      (rec : Fields) × (stored : Value) × (o ≡ some (obj rec))
      × (get "_hmac" rec ≡ some stored)
      × (c.text_of stored ≡ sign_record c secret prev_hash (c.dumps (without_hmac rec)))
      × (advanced (sign_record c secret prev_hash (c.dumps (without_hmac rec))) ≡ some r)

  not_none-some : (o : Option Value) (v : Value) → not_none o ≡ some v → o ≡ some v
  not_none-some o v e = ground arith

  module _ (prev_hash : String) (count lineno : ℕ) (skipped : Option VerifyResult)
      (advanced : String → Option VerifyResult) (r : VerifyResult) (good : r.status ≡ ok) where
    signature_step :
        (rec : Fields) (o : Option Value)
        → after_check c secret
            (check_signature c secret prev_hash count lineno rec o)
            skipped
            advanced
          ≡ some r
        → (stored : Value) × (o ≡ some stored)
          × (c.text_of stored ≡ sign_record c secret prev_hash (c.dumps (without_hmac rec)))
          × (advanced (sign_record c secret prev_hash (c.dumps (without_hmac rec))) ≡ some r)
    unfolding after_check check_signature
    signature_step rec none e = cc (e, good)
    signature_step rec (some stored) e =
        let expected = sign_record c secret prev_hash (c.dumps (without_hmac rec)) in
        elim (Bool-cases (expected === c.text_of stored)) [
          | inl same ↦
              (stored, refl, sym ((eq_iff expected (c.text_of stored)).0 same), rw same at e)
          | inr other ↦ cc (rw other at e, good)
        ]

    record_step :
        (o : Option Value)
        → after_check c secret (check_record c secret prev_hash count lineno o) skipped advanced
          ≡ some r
        → Passes prev_hash o advanced r
    unfolding after_check check_record Passes
    record_step none e = cc (e, good)
    record_step (some (obj rec)) e =
        let (stored, o, same, next) = signature_step rec (not_none (get "_hmac" rec)) e in
        (rec, stored, refl, not_none-some (get "_hmac" rec) stored o, same, next)
    record_step (some _) e = cc e

  seed-record :
      (line : String) (rec : Fields) (stored : Value)
      → c.loads line ≡ some (obj rec)
      → get "_hmac" rec ≡ some stored
      → seed c (some line) ≡ stored
  unfolding seed hmac_or_genesis
  seed-record line rec stored l g = rw (l, g) refl

  module _ (prev_hash : String) (count : ℕ) (before : Bool) (lineno : ℕ) (raw : String)
      (lines : List String) where
    verify_lines-step :
        (b : Bool)
        → (c.strip raw === "") ≡ b
        → verify_lines c secret prev_hash count before lineno (raw ∷ lines)
          ≡ after_check c secret
              (if b
                then LineCheck.skip
                else check_record c secret prev_hash (suc count) lineno (c.loads (c.strip raw)))
              (verify_lines c secret prev_hash count before (suc lineno) lines)
              (λ expected. verify_lines c secret expected (suc count) true (suc lineno) lines)
    unfolding verify_lines check_line
    verify_lines-step b h =
        ap
          (λ x.
            after_check c secret
              (if x
                then LineCheck.skip
                else check_record c secret prev_hash (suc count) lineno (c.loads (c.strip raw)))
              (verify_lines c secret prev_hash count before (suc lineno) lines)
              (λ expected. verify_lines c secret expected (suc count) true (suc lineno) lines))
          h

  verified :
      (lines acc : List String) (seen : Option String) (count : ℕ) (before : Bool) (lineno : ℕ)
      (r : VerifyResult)
      → r.status ≡ ok
      → c.text_of (seed c seen) ≡ rchain acc
      → verify_lines c secret (rchain acc) count before lineno lines ≡ some r
      → c.text_of (seed c (last_line c seen lines)) ≡ rchain (collect acc lines)
  unfolding last_line collect after_check Passes
  verified [] acc seen count before lineno r good h e = h
  verified (raw ∷ lines) acc seen count before lineno r good h e =
      elim (Bool-cases (c.strip raw === "")) [
        | inl blank ↦ rw blank (
            verified lines acc seen count before (suc lineno) r good h
              (sym (verify_lines-step (rchain acc) count before lineno raw lines true blank) ∙ e))
        | inr full ↦
            let line = c.strip raw in
            let (rec, stored, o, g, same, next) =
              record_step (rchain acc) (suc count) lineno _ _ r good (c.loads line) (
                sym (verify_lines-step (rchain acc) count before lineno raw lines false full)
                ∙ e) in
            rw (full, o)
              (verified lines (c.dumps (without_hmac rec) ∷ acc) (some line) (suc count) true
                (suc lineno) r good (ap c.text_of (seed-record line rec stored o g) ∙ same) next)
      ]

  verified_file :
      (lines : List String) (r : VerifyResult)
      → c.text_of (str genesis) ≡ genesis
      → r.status ≡ ok
      → verify_chain c secret (some lines) ≡ some r
      → c.text_of (load_last_hash c lines) ≡ rchain (collect [] lines)
  unfolding verify_chain load_last_hash seed
  verified_file lines r text good e = elim (Bool-cases (secret === "")) [
    | inl unset ↦ cc (rw unset at e, good)
    | inr given ↦ verified lines [] none 0 false 1 r good text (rw given at e)
  ]

  -- Two files that verify, and whose last signatures read the same, hold the same records without
  -- their signatures, in the same order; else, of what was signed for their records, two different
  -- texts have one signature, or a text is signed by the seed of the chain. A signature has 64
  -- characters, and no more is asked of the signing function.
  pub verify_chain-determines :
      (a b : List String) (r r' : VerifyResult)
      → ((m : String) → text_length (c.sign secret m) ≡ 64)
      → c.text_of (str genesis) ≡ genesis
      → r.status ≡ ok
      → r'.status ≡ ok
      → verify_chain c secret (some a) ≡ some r
      → verify_chain c secret (some b) ≡ some r'
      → c.text_of (load_last_hash c a) ≡ c.text_of (load_last_hash c b)
      → (collect [] a ≡ collect [] b) ⊎ Collides (collect [] a) (collect [] b)
  verify_chain-determines a b r r' digest text good good' e e' last =
      rchain-determines digest (collect [] a) (collect [] b)
        (sym (verified_file a r text good e) ∙ last ∙ verified_file b r' text good' e')
