-- ===== src/Audit/Written.antt =====
-- What the logger writes verifies, and the chain goes on across a restart.
use guardmcp.Prelude.{
  append_nil, ℕ, suc, ◌+◌, String, ◌≡◌, refl, sym, ap, ◌∙◌, inl, inr, Bool, true, false, Option,
  none, some, List, [], ◌∷◌, ◌++◌, ◌||◌, not, is_empty, length, ltb, All, ◌===◌, eq_self,
  Bool-cases, if◌then◌else◌, arith,
}
use guardmcp.Json.{Value, str, obj, Fields, end, field, get, put}
use guardmcp.Audit.{
  Codec, sign_record, genesis, ok, plain, without_hmac, check_line, check_record, check_signature,
  advance, finish, verify_lines, verify_chain, sign_batch, AuditLog, flushed, commit, write_batch,
  last_line, hmac_or_genesis, seed, load_last_hash,
}

abbrev pub Unsigned : Fields → Type 0
Unsigned fs = get "_hmac" fs ≡ none

get-signed : (v : Value) (fs : Fields) → get "_hmac" (put "_hmac" v fs) ≡ some v
unfolding get put
get-signed v end = refl
get-signed v (field j w fs) = elim (Bool-cases (j === "_hmac")) [
  | inl same ↦ rw same (rw same refl)
  | inr other ↦ rw other (rw other (get-signed v fs))
]

without-signed : (v : Value) (fs : Fields) → Unsigned fs → without_hmac (put "_hmac" v fs) ≡ fs
unfolding get put without_hmac
without-signed v end h = refl
without-signed v (field j w fs) h = elim (Bool-cases (j === "_hmac")) [
  | inl same ↦ cc (rw same at h)
  | inr other ↦ rw other (rw other (ap (field j w) (without-signed v fs (rw other at h))))
]

-- What is documented of `json` and `str`, for the data `P` that the records hold: what was dumped is
-- read back, has no blank around it and is not blank; a text's text is itself. A signature may stand
-- in a record.
pub record IsFaithful (c : Codec) (secret : String) (P : Fields → Type 0) : Type 0 where
  pub strips : (fs : Fields) → P fs → c.strip (c.dumps fs) ≡ c.dumps fs
  pub full : (fs : Fields) → P fs → (c.dumps fs === "") ≡ false
  pub reads : (fs : Fields) → P fs → c.loads (c.dumps fs) ≡ some (obj fs)
  pub texts : (s : String) → c.text_of (str s) ≡ s
  pub signs :
      (prev_hash line : String) (fs : Fields)
      → P fs
      → P (put "_hmac" (str (sign_record c secret prev_hash line)) fs)

abbrev pub IsRecord : (Fields → Type 0) → Fields → Type 0
IsRecord P fs = Unsigned fs × P fs

module _ (c : Codec) (secret : String) (P : Fields → Type 0)
    (faithful : IsFaithful c secret P) where
  check_line-signed :
      (prev_hash : String) (count lineno : ℕ) (fs : Fields)
      → IsRecord P fs
      → let sig = sign_record c secret prev_hash (c.dumps fs) in
        check_line c secret prev_hash count lineno (c.dumps (put "_hmac" (str sig) fs))
        ≡ advance sig
  unfolding check_line check_record check_signature
  check_line-signed prev_hash count lineno fs (h, p) =
      let sig = sign_record c secret prev_hash (c.dumps fs) in
      let q = faithful.signs prev_hash (c.dumps fs) fs p in
      let signed = put "_hmac" (str sig) fs in
      rw
        (
          faithful.strips signed q,
          faithful.full signed q,
          faithful.reads signed q,
          get-signed (str sig) fs,
          without-signed (str sig) fs h,
          faithful.texts sig,
          eq_self,
        )
        refl

  verify_same :
      (prev_hash : String) (count count' : ℕ) (before before' : Bool) (lineno lineno' : ℕ)
      (lines : List String)
      → count ≡ count'
      → before ≡ before'
      → lineno ≡ lineno'
      → verify_lines c secret prev_hash count before lineno lines
        ≡ verify_lines c secret prev_hash count' before' lineno' lines
  verify_same prev_hash count count' before before' lineno lineno' lines p q r = cc

  -- The verifier goes through the lines of a batch as the logger signed them.
  verify_lines-sign_batch :
      (batch : List Fields) (prev_hash : String) (count : ℕ) (before : Bool) (lineno : ℕ)
      (rest : List String)
      → All (IsRecord P) batch
      → verify_lines c secret prev_hash count before lineno
          ((sign_batch c secret prev_hash batch).0 ++ rest)
        ≡ verify_lines c secret
            (sign_batch c secret prev_hash batch).1
            (count + length batch)
            (before || not (is_empty batch))
            (lineno + length batch)
            rest
  unfolding verify_lines sign_batch
  verify_lines-sign_batch [] prev_hash count before lineno rest h =
      verify_same prev_hash count (count + 0) before (before || false) lineno (lineno + 0) rest
        (omega arith) (ground arith) (omega arith)
  verify_lines-sign_batch (fs ∷ batch) prev_hash count before lineno rest (h, hs) =
      let sig = sign_record c secret prev_hash (c.dumps fs) in
      rw
        (
          check_line-signed prev_hash count lineno fs h,
          verify_lines-sign_batch batch sig (suc count) true (suc lineno) rest hs,
        )
        (verify_same _ _ (count + suc (length batch)) true (before || true) _
          (lineno + suc (length batch)) rest (omega arith) (ground arith) (omega arith))

  -- A log that was written from the start by batches whose writes were flushed, with its number of
  -- records.
  pub data IsWritten : AuditLog → ℕ → Type 0 where
    opened : IsWritten (record { prev_hash = genesis; lines = [] }) 0
    wrote :
        {log : AuditLog} {n : ℕ} (fail_closed : Bool) (batch : List Fields)
        → All (IsRecord P) batch
        → IsWritten log n
        → IsWritten (write_batch c secret fail_closed log batch flushed).1 (n + length batch)

  abbrev pub some_records : ℕ → Bool
  some_records n = ltb 0 n

  append_lines : (a b rest : List String) → (a ++ b) ++ rest ≡ a ++ (b ++ rest)
  append_lines [] b rest = refl
  append_lines (x ∷ a) b rest = ap (λ l. x ∷ l) (append_lines a b rest)

  some_records-add :
      (n : ℕ) (batch : List Fields)
      → some_records n || not (is_empty batch) ≡ some_records (n + length batch)
  some_records-add n [] = ground arith
  some_records-add n (fs ∷ batch) = ground arith

  verify_lines-IsWritten :
      (log : AuditLog) (n : ℕ)
      → IsWritten log n
      → (rest : List String)
      → verify_lines c secret genesis 0 false 1 (log.lines ++ rest)
        ≡ verify_lines c secret log.prev_hash n (some_records n) (suc n) rest
  unfolding write_batch commit
  verify_lines-IsWritten _ _ opened rest = refl
  verify_lines-IsWritten _ _ (wrote {log} {n} fail_closed batch records before) rest =
      let (lines, last) = sign_batch c secret log.prev_hash batch in
      ap (verify_lines c secret genesis 0 false 1) (append_lines log.lines lines rest)
      ∙ verify_lines-IsWritten log n before (lines ++ rest)
      ∙ verify_lines-sign_batch batch log.prev_hash n (some_records n) (suc n) rest records
      ∙ verify_same last (n + length batch) (n + length batch) _ (some_records (n + length batch)) _
          (suc (n + length batch)) rest refl (some_records-add n batch) (omega arith)

  -- A log that was written from the start by flushed batches verifies, with all its records: no
  -- batch breaks the chain of those before it.
  pub verify_chain-IsWritten :
      (log : AuditLog) (n : ℕ)
      → (secret === "") ≡ false
      → IsWritten log (suc n)
      → verify_chain c secret (some log.lines) ≡ some (plain ok (suc n) none)
  unfolding verify_chain verify_lines finish
  verify_chain-IsWritten log n has_secret written = rw has_secret (
      ap (verify_lines c secret genesis 0 false 1) (sym (append_nil log.lines))
      ∙ verify_lines-IsWritten log (suc n) written []
      ∙ verify_same log.prev_hash (suc n) (suc n) _ true _ (suc (suc n)) [] refl (ground arith)
          refl)

  last_line-append :
      (a : List String) (seen : Option String) (b : List String)
      → last_line c seen (a ++ b) ≡ last_line c (last_line c seen a) b
  unfolding last_line
  last_line-append [] seen b = refl
  last_line-append (x ∷ a) seen b = last_line-append a _ b

  kept-dumps :
      (seen : Option String) (fs : Fields)
      → P fs
      → (if c.strip (c.dumps fs) === "" then seen else some (c.strip (c.dumps fs)))
        ≡ some (c.dumps fs)
  kept-dumps seen fs p = rw (faithful.strips fs p, faithful.full fs p) refl

  seed-sign_batch :
      (batch : List Fields) (seen : Option String) (prev_hash : String)
      → All (IsRecord P) batch
      → seed c seen ≡ str prev_hash
      → seed c (last_line c seen (sign_batch c secret prev_hash batch).0)
        ≡ str (sign_batch c secret prev_hash batch).1
  unfolding last_line sign_batch seed hmac_or_genesis
  seed-sign_batch [] seen prev_hash records h = h
  seed-sign_batch (fs ∷ batch) seen prev_hash ((u, p), records) h =
      let q = faithful.signs prev_hash (c.dumps fs) fs p in
      let sig = sign_record c secret prev_hash (c.dumps fs) in
      let line = c.dumps (put "_hmac" (str sig) fs) in
      ap (λ o. seed c (last_line c o (sign_batch c secret sig batch).0))
        (kept-dumps seen (put "_hmac" (str sig) fs) q)
      ∙ seed-sign_batch batch (some line) sig records
          (rw (faithful.reads (put "_hmac" (str sig) fs) q, get-signed (str sig) fs) refl)

  -- The hash that a restarted logger reads from such a log is the one that the logger held: the chain
  -- goes on over a restart.
  pub load_last_hash-IsWritten :
      (log : AuditLog) (n : ℕ) → IsWritten log n → load_last_hash c log.lines ≡ str log.prev_hash
  unfolding load_last_hash write_batch commit last_line seed
  load_last_hash-IsWritten _ _ opened = refl
  load_last_hash-IsWritten _ _ (wrote {log} {n} fail_closed batch records before) =
      let lines = (sign_batch c secret log.prev_hash batch).0 in
      ap (seed c) (last_line-append log.lines none lines)
      ∙ seed-sign_batch batch (last_line c none log.lines) log.prev_hash records
          (load_last_hash-IsWritten log n before)
