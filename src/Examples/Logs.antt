-- ===== src/Examples/Logs.antt =====
-- A signed log of one record.
use guardmcp.Prelude.{
  String, ◌≡◌, ◌⊎◌, refl, inl, inr, sym, subst, true, false, Option, none, some, [], ◌∷◌, ◌===◌,
  if◌then◌else◌,
}
use guardmcp.Json.{Value, str, obj, Fields, end, field, get, put}
use guardmcp.Audit.{
  Codec, genesis, ok, plain, verify_chain, AuditLog, flushed, write_batch, load_last_hash,
  VerifyResult,
}
use guardmcp.Audit.Written.{IsFaithful, IsWritten, opened, wrote, verify_chain-IsWritten}
use guardmcp.Audit.Chain.{collect, Collides, verify_chain-determines}

abbrev entry : Fields
entry = field "agent" (str "analyst") end

abbrev signature : String
signature = "1111111111111111111111111111111111111111111111111111111111111111"

abbrev signed_entry : Fields
signed_entry = field "agent" (str "analyst") (field "_hmac" (str signature) end)

abbrev print : Option Value → String
print none = "unsigned"
print (some v) = "signed"

abbrev text : Value → String
text (str s) = s
text v = ""

-- It prints and reads one record, with its signature and without.
abbrev codec : Codec
codec = record {
  dumps = λ fs. print (get "_hmac" fs);
  loads = λ s. some (obj (if s === "signed" then signed_entry else entry));
  strip = λ s. s;
  text_of = text;
  sign = λ secret message. signature;
}

abbrev IsEntry : Fields → Type 0
IsEntry fs = (fs ≡ entry) ⊎ (fs ≡ signed_entry)

module _ (Q : Fields → Type 0) (unsigned : Q entry) (signed : Q signed_entry) where
  entries : (fs : Fields) → IsEntry fs → Q fs
  entries fs (inl e) = subst Q (sym e) unsigned
  entries fs (inr e) = subst Q (sym e) signed

codec-IsFaithful : IsFaithful codec "key" IsEntry
unfolding get put
codec-IsFaithful = record {
  strips = λ fs p. refl;
  full = entries (λ fs. (codec.dumps fs === "") ≡ false) refl refl;
  reads = entries (λ fs. codec.loads (codec.dumps fs) ≡ some (obj fs)) refl refl;
  texts = λ s. refl;
  signs = λ prev_hash line.
      entries (λ fs. IsEntry (put "_hmac" (str signature) fs)) (inr refl) (inr refl);
}

abbrev log : AuditLog
log =
    (write_batch codec "key" true (record { prev_hash = genesis; lines = [] }) (entry ∷ [])
      flushed).1

log-IsWritten : IsWritten codec "key" IsEntry codec-IsFaithful log 1
unfolding get
log-IsWritten = wrote true (entry ∷ []) ((refl, inl refl), tt) opened

verify_chain-IsWritten_example : verify_chain codec "key" (some log.lines) ≡ some (plain ok 1 none)
verify_chain-IsWritten_example =
    verify_chain-IsWritten codec "key" IsEntry codec-IsFaithful log 0 refl log-IsWritten

-- A file with a blank line verifies too, and holds the same.
verify_chain-determines_example :
    (collect codec "key" [] ("signed" ∷ []) ≡ collect codec "key" [] ("" ∷ "signed" ∷ []))
    ⊎ Collides codec "key"
        (collect codec "key" [] ("signed" ∷ []))
        (collect codec "key" [] ("" ∷ "signed" ∷ []))
unfolding verify_chain guardmcp.Audit.verify_lines get load_last_hash guardmcp.Audit.last_line
verify_chain-determines_example =
    verify_chain-determines codec "key" ("signed" ∷ []) ("" ∷ "signed" ∷ []) (plain ok 1 none)
      (plain ok 1 none) (λ m. refl) refl refl refl refl refl refl
