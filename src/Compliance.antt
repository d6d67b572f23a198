-- ===== src/Compliance.antt =====
-- The audit chain of gateway/compliance.py (class TamperEvidentAuditChain). HMAC-SHA256 over a block's
-- index, previous hash and canonical payload is a parameter, with the equality of its digests; the
-- file is a list of lines. Reports only quote the verdict and are left out.
pub mod Sealing
pub mod Tampering
mod Tests
use erp_security.Prelude.{
  ℕ, suc, ◌+◌, ◌≡◌, Option, none, some, Bool, true, false, not, eqb, if◌then◌else◌, List, [], ◌∷◌,
  ◌++◌,
}

-- The signatures of the library `hmac` under the secret, and GENESIS_HASH.
pub record Hmac : Type 1 where
  pub Payload : Type 0
  pub Digest : Type 0
  pub genesis : Digest
  pub sign : ℕ → Digest → Payload → Digest
  pub equal : Digest → Digest → Bool
  pub equal_sound : (a b : Digest) → equal a b ≡ true → a ≡ b
  pub equal_refl : (a : Digest) → equal a a ≡ true

pub data Failure : Type 0 where
  malformed_json index_discontinuity link_broken signature_mismatch : ℕ → Failure

-- The three results of `verify_chain`.
pub record Verdict : Type 0 where
  pub is_valid : Bool
  pub verified : ℕ
  pub failure : Option Failure

abbrev pub invalid : ℕ → Failure → Verdict
invalid verified why = record { is_valid = false; verified = verified; failure = some why }

abbrev pub valid : ℕ → Verdict
valid verified = record { is_valid = true; verified = verified; failure = none }

module _ (hmac : Hmac) where
  pub record Block : Type 0 where
    pub block_index : ℕ
    pub timestamp : ℕ
    pub previous_hash : hmac.Digest
    pub block_signature : hmac.Digest
    pub payload : hmac.Payload

  pub data Line : Type 0 where
    blank malformed : Line
    block : Block → Line

  pub record AuditChain : Type 0 where
    pub audit_file : List Line
    pub last_hash : hmac.Digest
    pub block_count : ℕ

  -- `_initialize_from_existing_log`: the last hash and the count after the lines; a malformed line
  -- ends the reading.
  unfoldable pub read : List Line → hmac.Digest → ℕ → hmac.Digest × ℕ
  read [] h n = (h, n)
  read (blank ∷ ls) h n = read ls h n
  read (malformed ∷ ls) h n = (h, n)
  read (block b ∷ ls) h n = read ls b.block_signature (b.block_index + 1)

  -- `TamperEvidentAuditChain.__init__` on a file.
  unfoldable pub open_chain : List Line → AuditChain
  unfolding read
  open_chain lines =
      let (h, n) = read lines hmac.genesis 0 in
      record { audit_file = lines; last_hash = h; block_count = n }

  -- `append_event` at a clock reading; where the file cannot be written the exception passes on.
  unfoldable pub append_event : Bool → ℕ → hmac.Payload → AuditChain → AuditChain × Option Block
  append_event writable now event c =
      let sealed : Block = record {
        block_index = c.block_count;
        timestamp = now;
        previous_hash = c.last_hash;
        block_signature = hmac.sign c.block_count c.last_hash event;
        payload = event;
      } in
      if writable
      then (
        record {
          audit_file = c.audit_file ++ (block sealed ∷ []);
          last_hash = sealed.block_signature;
          block_count = c.block_count + 1;
        },
        some sealed,
      )
      else (c, none)

  -- The checks of one block against the hash and the index that are expected.
  unfoldable pub check_block : hmac.Digest → ℕ → Block → Option Failure
  check_block h n b =
      if not (eqb b.block_index n)
      then some (index_discontinuity n)
      else if not (hmac.equal b.previous_hash h)
      then some (link_broken b.block_index)
      else if not (hmac.equal b.block_signature (hmac.sign b.block_index b.previous_hash b.payload))
      then some (signature_mismatch b.block_index)
      else none

  -- `verify_chain` from a line on; the line number counts from 1.
  unfoldable pub verify_from : ℕ → List Line → hmac.Digest → ℕ → Verdict
  unfolding check_block
  verify_from line [] h n = valid n
  verify_from line (blank ∷ ls) h n = verify_from (suc line) ls h n
  verify_from line (malformed ∷ ls) h n = invalid n (malformed_json line)
  verify_from line (block b ∷ ls) h n = elim (check_block h n b) [
    | some why ↦ invalid n why
    | none ↦ verify_from (suc line) ls b.block_signature (n + 1)
  ]

  unfoldable pub verify_chain : List Line → Verdict
  unfolding verify_from
  verify_chain lines = verify_from 1 lines hmac.genesis 0
