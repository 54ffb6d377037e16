-- ===== src/Audit.antt =====
-- core/audit/logger.py and core/audit/verify.py: the signed audit log, as the lines of its file.
pub mod Chain
pub mod Written
use Prim.Native.String.{◌++◌ as append}
use guardmcp.Prelude.{
  ℕ, zero, suc, ◌+◌, String, Bool, true, false, Option, none, some, List, [], ◌∷◌, ◌++◌, not,
  is_empty, ◌===◌, map, if◌then◌else◌,
}
use guardmcp.Json.{Value, null, str, obj, Fields, end, field, get, put}
use guardmcp.Neutral.{or_default}

-- What the code takes from `json`, `hmac` and `str`: `sign` is the hex digest of the HMAC of a text,
-- `text_of` is `str`.
pub record Codec : Type 0 where
  pub dumps : Fields → String
  pub loads : String → Option Value
  pub strip : String → String
  pub text_of : Value → String
  pub sign : (secret message : String) → String

-- `sign_record`
abbrev pub sign_record : Codec → (secret prev_hash base_line : String) → String
sign_record c secret prev_hash base_line = c.sign secret (append prev_hash base_line)

abbrev pub genesis : String
genesis = "0000000000000000000000000000000000000000000000000000000000000000"

pub data VerifyStatus : Type 0 where
  ok no_hmac empty bad_chain read_error : VerifyStatus

-- The prose of `detail` is left out.
pub record VerifyResult : Type 0 where
  pub status : VerifyStatus
  pub records : ℕ
  pub bad_line : Option ℕ
  pub expected : Option String
  pub got : Option String

abbrev pub plain : VerifyStatus → ℕ → Option ℕ → VerifyResult
plain status records bad_line = record {
  status = status;
  records = records;
  bad_line = bad_line;
  expected = none;
  got = none;
}

-- `{k: v for k, v in rec.items() if k != "_hmac"}`
unfoldable pub without_hmac : Fields → Fields
without_hmac end = end
without_hmac (field k v fs) =
    let rest = without_hmac fs in if k === "_hmac" then rest else field k v rest

-- `None` in a record is as no entry.
abbrev pub not_none : Option Value → Option Value
not_none none = none
not_none (some null) = none
not_none (some v) = some v

-- What the loop does with a line: it goes on, raises, returns, or advances the chain.
pub data LineCheck : Type 0 where
  skip raises : LineCheck
  stop : VerifyResult → LineCheck
  advance : (prev_hash : String) → LineCheck

module _ (c : Codec) (secret : String) where
  check_signature : String → ℕ → ℕ → Fields → Option Value → LineCheck
  check_signature prev_hash count lineno rec none = stop (plain no_hmac count (some lineno))
  check_signature prev_hash count lineno rec (some stored) =
      let expected = sign_record c secret prev_hash (c.dumps (without_hmac rec)) in
      let got = c.text_of stored in
      if expected === got
      then advance expected
      else stop (record {
        status = bad_chain;
        records = count;
        bad_line = some lineno;
        expected = some expected;
        got = some got;
      })

  -- A line that holds JSON other than an object has no `get`.
  check_record : String → ℕ → ℕ → Option Value → LineCheck
  check_record prev_hash count lineno none = stop (plain bad_chain count (some lineno))
  check_record prev_hash count lineno (some (obj rec)) =
      check_signature prev_hash count lineno rec (not_none (get "_hmac" rec))
  check_record prev_hash count lineno (some _) = raises

  check_line : String → ℕ → ℕ → String → LineCheck
  unfolding check_record check_signature
  check_line prev_hash count lineno raw =
      if c.strip raw === ""
      then skip
      else check_record prev_hash (suc count) lineno (c.loads (c.strip raw))

  finish : ℕ → Bool → VerifyResult
  finish zero saw_hmac = plain empty 0 none
  finish (suc n) saw_hmac = if saw_hmac then plain ok (suc n) none else plain no_hmac (suc n) none

  after_check :
      LineCheck → Option VerifyResult → (String → Option VerifyResult) → Option VerifyResult
  after_check skip skipped advanced = skipped
  after_check raises skipped advanced = none
  after_check (stop result) skipped advanced = some result
  after_check (advance expected) skipped advanced = advanced expected

  -- The loop over the lines; `none` where it raises.
  unfoldable pub verify_lines : String → ℕ → Bool → ℕ → List String → Option VerifyResult
  unfolding check_line finish after_check
  verify_lines prev_hash count saw_hmac lineno [] = some (finish count saw_hmac)
  verify_lines prev_hash count saw_hmac lineno (raw ∷ lines) =
      after_check (check_line prev_hash count lineno raw)
        (verify_lines prev_hash count saw_hmac (suc lineno) lines)
        (λ expected. verify_lines expected (suc count) true (suc lineno) lines)

  -- `verify_chain`; the file is its lines, if it exists.
  unfoldable pub verify_chain : Option (List String) → Option VerifyResult
  verify_chain none = some (plain read_error 0 none)
  verify_chain (some lines) =
      if secret === "" then some (plain no_hmac 0 none) else verify_lines genesis 0 false 1 lines

  -- The signed lines of a batch, and the hash after it.
  unfoldable pub sign_batch : String → List Fields → List String × String
  sign_batch prev_hash [] = ([], prev_hash)
  sign_batch prev_hash (data_ ∷ batch) =
      let sig = sign_record c secret prev_hash (c.dumps data_) in
      let (lines, last) = sign_batch sig batch in
      (c.dumps (put "_hmac" (str sig) data_) ∷ lines, last)

-- `_prev_hash` and the lines on disk.
pub record AuditLog : Type 0 where
  pub prev_hash : String
  pub lines : List String

-- A write that is flushed, or one that fails and leaves these lines on disk.
pub data Write : Type 0 where
  flushed : Write
  broken : (left : List String) → Write

-- How the futures of a batch end.
pub data Outcome : Type 0 where
  resolved write_error : Outcome

module _ (c : Codec) (secret : String) (fail_closed : Bool) where
  commit : AuditLog → List String × String → Write → Outcome × AuditLog
  commit log (lines, last) flushed =
      (resolved, record { prev_hash = last; lines = log.lines ++ lines })
  commit log batch (broken left) =
      (if fail_closed then write_error else resolved, record log { lines = log.lines ++ left })

  -- `_write_batch`, with a secret: the chain advances only with a flush.
  unfoldable pub write_batch : AuditLog → List Fields → Write → Outcome × AuditLog
  unfolding commit
  write_batch log batch write = commit log (sign_batch c secret log.prev_hash batch) write

module _ (c : Codec) where
  -- The last line that is not blank.
  unfoldable pub last_line : Option String → List String → Option String
  last_line seen [] = seen
  last_line seen (raw ∷ lines) =
      let line = c.strip raw in last_line (if line === "" then seen else some line) lines

  hmac_or_genesis : Option Value → Value
  hmac_or_genesis (some (obj rec)) = or_default (get "_hmac" rec) (str genesis)
  hmac_or_genesis _ = str genesis

  seed : Option String → Value
  unfolding hmac_or_genesis
  seed none = str genesis
  seed (some line) = hmac_or_genesis (c.loads line)

  -- `_load_last_hash` of a file; a last line that is not an object's JSON seeds from genesis.
  unfoldable pub load_last_hash : List String → Value
  unfolding seed
  load_last_hash lines = seed (last_line none lines)
