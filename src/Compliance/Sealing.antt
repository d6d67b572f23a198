-- ===== src/Compliance/Sealing.antt =====
-- What the audit chain of gateway/compliance.py writes.
use erp_security.Prelude.{
  ℕ, suc, ◌+◌, ◌≡◌, refl, sym, ap, ◌∙◌, inl, inr, arith, none, some, Bool, true, false, eqb,
  if◌then◌else◌, List, [], ◌∷◌, ◌++◌, Bool-cases, Option-cases,
}
use erp_security.Compliance.{
  Hmac, Block, Line, blank, malformed, block, AuditChain, valid, read, open_chain, append_event,
  check_block, verify_from, verify_chain,
}

pub quiet : false ≡ true → ⊥
quiet x = cc

pub some_ne : {A : Type 0} {a : A} → some a ≡ none → ⊥
some_ne x = cc

eqb_sound : (a b : ℕ) → eqb a b ≡ true → a ≡ b
eqb_sound a b h = ground arith

pub eqb_refl : (a : ℕ) → eqb a a ≡ true
eqb_refl a = ground arith

module _ (hmac : Hmac) where
  -- A block that passes its checks has the index and the link that are expected, and its signature.
  pub check_block-none :
      (h : hmac.Digest) (n : ℕ) (b : Block hmac)
      → check_block hmac h n b ≡ none
      → (b.block_index ≡ n)
        × (b.previous_hash ≡ h)
        × (b.block_signature ≡ hmac.sign b.block_index b.previous_hash b.payload)
  unfolding check_block
  check_block-none h n b ok = elim (Bool-cases (eqb b.block_index n)) [
    | inr other ↦ elim (some_ne (rw other at ok)) [ ]
    | inl same ↦ elim (Bool-cases (hmac.equal b.previous_hash h)) [
      | inr broken ↦ elim (some_ne (rw (same, broken) at ok)) [ ]
      | inl linked ↦
          elim (Bool-cases
            (hmac.equal b.block_signature (hmac.sign b.block_index b.previous_hash b.payload))) [
              | inr mismatch ↦ elim (some_ne (rw (same, linked, mismatch) at ok)) [ ]
              | inl sealed ↦ (
                eqb_sound b.block_index n same,
                hmac.equal_sound b.previous_hash h linked,
                hmac.equal_sound b.block_signature
                    (hmac.sign b.block_index b.previous_hash b.payload) sealed,
              )
            ]
    ]
  ]

  -- A new block passes its checks.
  check_block-new :
      (h : hmac.Digest) (n now : ℕ) (event : hmac.Payload)
      → check_block hmac h n (record {
        block_index = n;
        timestamp = now;
        previous_hash = h;
        block_signature = hmac.sign n h event;
        payload = event;
      })
        ≡ none
  unfolding check_block
  check_block-new h n now event =
      rw (eqb_refl n, hmac.equal_refl h, hmac.equal_refl (hmac.sign n h event)) refl

  -- What follows lines that verify is checked against what they leave.
  pub verify_from-append :
      (line : ℕ) (xs ys : List (Line hmac)) (h : hmac.Digest) (n : ℕ)
      → (verify_from hmac line xs h n).is_valid ≡ true
      → (line' : ℕ) × (verify_from hmac line (xs ++ ys) h n
          ≡ verify_from hmac line' ys (read hmac xs h n).0 (read hmac xs h n).1)
  unfolding verify_from read
  verify_from-append line [] ys h n ok = (line, refl)
  verify_from-append line (blank ∷ xs) ys h n ok = verify_from-append (suc line) xs ys h n ok
  verify_from-append line (malformed ∷ xs) ys h n ok = elim (quiet ok) [ ]
  verify_from-append line (block b ∷ xs) ys h n ok = elim (Option-cases (check_block hmac h n b)) [
    | inr (why, failed) ↦ elim (quiet (rw (failed, verify_from) at ok)) [ ]
    | inl passed ↦
        let (line', same) =
          verify_from-append (suc line) xs ys b.block_signature (n + 1)
            (rw (passed, verify_from) at ok) in
        (line', rw (passed, verify_from) (rw (check_block-none h n b passed).0 same))
  ]

  pub verify_from-read :
      (line : ℕ) (xs : List (Line hmac)) (h : hmac.Digest) (n : ℕ)
      → (verify_from hmac line xs h n).is_valid ≡ true
      → verify_from hmac line xs h n ≡ valid (read hmac xs h n).1
  unfolding verify_from read
  verify_from-read line [] h n ok = refl
  verify_from-read line (blank ∷ xs) h n ok = verify_from-read (suc line) xs h n ok
  verify_from-read line (malformed ∷ xs) h n ok = elim (quiet ok) [ ]
  verify_from-read line (block b ∷ xs) h n ok = elim (Option-cases (check_block hmac h n b)) [
    | inr (why, failed) ↦ elim (quiet (rw (failed, verify_from) at ok)) [ ]
    | inl passed ↦
        rw (passed, verify_from)
          (rw (check_block-none h n b passed).0 (
            verify_from-read (suc line) xs b.block_signature (n + 1)
              (rw (passed, verify_from) at ok)))
  ]

  read-append :
      (line : ℕ) (xs ys : List (Line hmac)) (h : hmac.Digest) (n : ℕ)
      → (verify_from hmac line xs h n).is_valid ≡ true
      → read hmac (xs ++ ys) h n ≡ read hmac ys (read hmac xs h n).0 (read hmac xs h n).1
  unfolding verify_from read
  read-append line [] ys h n ok = refl
  read-append line (blank ∷ xs) ys h n ok = read-append (suc line) xs ys h n ok
  read-append line (malformed ∷ xs) ys h n ok = elim (quiet ok) [ ]
  read-append line (block b ∷ xs) ys h n ok = elim (Option-cases (check_block hmac h n b)) [
    | inr (why, failed) ↦ elim (quiet (rw (failed, verify_from) at ok)) [ ]
    | inl passed ↦
        rw (check_block-none h n b passed).0
          (read-append (suc line) xs ys b.block_signature (n + 1) (rw (passed, verify_from) at ok))
  ]

  -- The chain in memory is at the end of a file that verifies.
  pub record IsSealed (c : AuditChain hmac) : Type 0 where
    pub verifies : (verify_chain hmac c.audit_file).is_valid ≡ true
    pub at_end : read hmac c.audit_file hmac.genesis 0 ≡ (c.last_hash, c.block_count)

  append_event-IsSealed :
      (writable : Bool) (now : ℕ) (event : hmac.Payload) (c : AuditChain hmac)
      → IsSealed c
      → IsSealed (append_event hmac writable now event c).0
  unfolding append_event
  append_event-IsSealed false now event c h = h
  append_event-IsSealed true now event c h =
      let b : Block hmac = record {
        block_index = c.block_count;
        timestamp = now;
        previous_hash = c.last_hash;
        block_signature = hmac.sign c.block_count c.last_hash event;
        payload = event;
      } in
      let file = c.audit_file in
      let ok : (verify_from hmac 1 file hmac.genesis 0).is_valid ≡ true =
        unfold verify_chain in h.verifies in
      let (line, same) = verify_from-append 1 file (block b ∷ []) hmac.genesis 0 ok in
      record {
        verifies =
            unfold verify_chain in
            ap (λ v. v.is_valid)
              (same ∙ ap (λ p. verify_from hmac line (block b ∷ []) p.0 p.1) h.at_end)
            ∙ last line b c.last_hash c.block_count
                (check_block-new c.last_hash c.block_count now event);
        at_end = unfold read in read-append 1 file (block b ∷ []) hmac.genesis 0 ok;
      }
    where
      last :
          (line : ℕ) (b : Block hmac) (h : hmac.Digest) (n : ℕ)
          → check_block hmac h n b ≡ none
          → (verify_from hmac line (block b ∷ []) h n).is_valid ≡ true
      last line b h n passed = unfold verify_from in rw (passed, verify_from) refl

  open_chain-IsSealed :
      (lines : List (Line hmac))
      → (verify_chain hmac lines).is_valid ≡ true
      → IsSealed (open_chain hmac lines)
  unfolding open_chain
  open_chain-IsSealed lines ok = record { verifies = ok; at_end = refl }

  -- Events that are appended one after the other, each with whether its write succeeds and its
  -- clock reading.
  unfoldable pub append_all : List (Bool × ℕ × hmac.Payload) → AuditChain hmac → AuditChain hmac
  append_all [] c = c
  append_all ((writable, now, event) ∷ es) c =
      append_all es (append_event hmac writable now event c).0

  unfoldable pub written : List (Bool × ℕ × hmac.Payload) → ℕ
  written [] = 0
  written ((writable, now, event) ∷ es) = (if writable then 1 else 0) + written es

  append_all-IsSealed :
      (es : List (Bool × ℕ × hmac.Payload)) (c : AuditChain hmac)
      → IsSealed c
      → IsSealed (append_all es c)
  unfolding append_all
  append_all-IsSealed [] c h = h
  append_all-IsSealed ((writable, now, event) ∷ es) c h =
      append_all-IsSealed es (append_event hmac writable now event c).0
        (append_event-IsSealed writable now event c h)

  append_all-count :
      (es : List (Bool × ℕ × hmac.Payload)) (c : AuditChain hmac)
      → (append_all es c).block_count ≡ c.block_count + written es
  unfolding append_all written append_event
  append_all-count [] c = omega arith
  append_all-count ((true, now, event) ∷ es) c =
      omega (arith, append_all-count es (append_event hmac true now event c).0)
  append_all-count ((false, now, event) ∷ es) c =
      omega (arith, append_all-count es (append_event hmac false now event c).0)

  verify_chain-read :
      (lines : List (Line hmac))
      → (verify_chain hmac lines).is_valid ≡ true
      → verify_chain hmac lines ≡ valid (read hmac lines hmac.genesis 0).1
  unfolding verify_chain
  verify_chain-read lines ok = verify_from-read 1 lines hmac.genesis 0 ok

  -- What is appended verifies: of a chain opened on a file that verifies, after any events, whether
  -- their writes succeed or fail, the file verifies, with as many blocks as it had and were
  -- written since; and a chain that is opened on it anew has the same hash and count.
  pub appended_verifies :
      (lines : List (Line hmac)) (es : List (Bool × ℕ × hmac.Payload))
      → (verify_chain hmac lines).is_valid ≡ true
      → let c = append_all es (open_chain hmac lines) in
        (verify_chain hmac c.audit_file ≡ valid ((verify_chain hmac lines).verified + written es))
        × (open_chain hmac c.audit_file ≡ c)
  unfolding open_chain
  appended_verifies lines es ok =
      let c = append_all es (open_chain hmac lines) in
      let h = append_all-IsSealed es (open_chain hmac lines) (open_chain-IsSealed lines ok) in
      (
        verify_chain-read c.audit_file h.verifies
            ∙ ap (λ p. valid p.1) h.at_end
            ∙ ap valid (append_all-count es (open_chain hmac lines))
            ∙ ap (λ v. valid (v.verified + written es)) (sym (verify_chain-read lines ok)),
        ap (λ p. record { audit_file = c.audit_file; last_hash = p.0; block_count = p.1 }) h.at_end,
      )
