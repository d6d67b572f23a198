-- ===== src/Compliance/Tampering.antt =====
-- What `verify_chain` of gateway/compliance.py finds, and what it cannot find.
use erp_security.Prelude.{
  ℕ, suc, ◌+◌, ◌≡◌, ◌≢◌, refl, sym, ap, ◌∙◌, inl, inr, arith, none, some, true, eqb, List, [], ◌∷◌,
  ◌++◌, length, Bool-cases, Option-cases,
}
use erp_security.Compliance.{
  Hmac, Block, Line, blank, malformed, block, valid, invalid, signature_mismatch, read, open_chain,
  check_block, verify_from, verify_chain,
}
use erp_security.Compliance.Sealing.{
  quiet, eqb_refl, check_block-none, verify_from-append, verify_from-read,
}

-- Signatures do not collide, as it is documented of HMAC-SHA256 up to negligible chances.
pub record IsCollisionFree (hmac : Hmac) : Type 0 where
  pub same_hash :
      (n : ℕ) (h k : hmac.Digest) (p r : hmac.Payload) → hmac.sign n h p ≡ hmac.sign n k r → h ≡ k
  pub same_payload :
      (n : ℕ) (h k : hmac.Digest) (p r : hmac.Payload) → hmac.sign n h p ≡ hmac.sign n k r → p ≡ r

module _ (hmac : Hmac) where
  -- The events of a file.
  unfoldable pub payloads : List (Line hmac) → List hmac.Payload
  payloads [] = []
  payloads (blank ∷ ls) = payloads ls
  payloads (malformed ∷ ls) = payloads ls
  payloads (block b ∷ ls) = b.payload ∷ payloads ls

  -- The hash that sealing events in turn ends with.
  unfoldable tip : List hmac.Payload → hmac.Digest → ℕ → hmac.Digest
  tip [] h n = h
  tip (p ∷ ps) h n = tip ps (hmac.sign n h p) (n + 1)

  read-tip :
      (line : ℕ) (xs : List (Line hmac)) (h : hmac.Digest) (n : ℕ)
      → (verify_from hmac line xs h n).is_valid ≡ true
      → ((read hmac xs h n).0 ≡ tip (payloads xs) h n)
        × ((read hmac xs h n).1 ≡ n + length (payloads xs))
  unfolding verify_from read payloads tip
  read-tip line [] h n ok = (refl, omega arith)
  read-tip line (blank ∷ xs) h n ok = read-tip (suc line) xs h n ok
  read-tip line (malformed ∷ xs) h n ok = elim (quiet ok) [ ]
  read-tip line (block b ∷ xs) h n ok = elim (Option-cases (check_block hmac h n b)) [
    | inr (why, failed) ↦ elim (quiet (rw (failed, verify_from) at ok)) [ ]
    | inl passed ↦
        let (index, link, sealed) = check_block-none hmac h n b passed in
        let (same, count) =
          read-tip (suc line) xs b.block_signature (n + 1) (rw (passed, verify_from) at ok) in
        let signed : b.block_signature ≡ hmac.sign n h b.payload =
          sealed
          ∙ ap (λ i. hmac.sign i b.previous_hash b.payload) index
          ∙ ap (λ k. hmac.sign n k b.payload) link in
        (
          ap (λ i. (read hmac xs b.block_signature (i + 1)).0) index
              ∙ same
              ∙ ap (λ d. tip (payloads xs) d (n + 1)) signed,
          ap (λ i. (read hmac xs b.block_signature (i + 1)).1) index ∙ count ∙ omega arith,
        )
  ]

  tip_inj :
      (free : IsCollisionFree hmac) (ps rs : List hmac.Payload) (h k : hmac.Digest) (n : ℕ)
      → length ps ≡ length rs
      → tip ps h n ≡ tip rs k n
      → (ps ≡ rs) × (h ≡ k)
  unfolding tip
  tip_inj free [] [] h k n l e = (refl, e)
  tip_inj free [] (r ∷ rs) h k n l e = elim (zero_ne (length rs) l) [ ]
    where
      zero_ne : (m : ℕ) → 0 ≡ suc m → ⊥
      zero_ne m x = omega (arith, x)
  tip_inj free (p ∷ ps) [] h k n l e = elim (suc_ne (length ps) l) [ ]
    where
      suc_ne : (m : ℕ) → suc m ≡ 0 → ⊥
      suc_ne m x = omega (arith, x)
  tip_inj free (p ∷ ps) (r ∷ rs) h k n l e =
      let (rest, signed) =
        tip_inj free ps rs (hmac.sign n h p) (hmac.sign n k r) (n + 1) (omega (arith, l)) e in
      (
        ap (λ x. x ∷ ps) (free.same_payload n h k p r signed) ∙ ap (λ xs. r ∷ xs) rest,
        free.same_hash n h k p r signed,
      )

  -- The last hash and the count pin the events down: if signatures do not collide, two files that
  -- verify, and on which a chain opens with the same last hash and count, hold the same events in
  -- the same order: none was modified, inserted, deleted or moved.
  pub same_tip_same_events :
      (free : IsCollisionFree hmac) (xs ys : List (Line hmac))
      → (verify_chain hmac xs).is_valid ≡ true
      → (verify_chain hmac ys).is_valid ≡ true
      → (open_chain hmac xs).last_hash ≡ (open_chain hmac ys).last_hash
      → (open_chain hmac xs).block_count ≡ (open_chain hmac ys).block_count
      → payloads xs ≡ payloads ys
  unfolding verify_chain open_chain
  same_tip_same_events free xs ys okx oky tips counts =
      let (tx, nx) = read-tip 1 xs hmac.genesis 0 okx in
      let (ty, ny) = read-tip 1 ys hmac.genesis 0 oky in
      (tip_inj free (payloads xs) (payloads ys) hmac.genesis hmac.genesis 0
        (omega (arith, nx, ny, counts)) (sym tx ∙ tips ∙ ty)).0

  prefix_verifies :
      (line : ℕ) (xs ys : List (Line hmac)) (h : hmac.Digest) (n : ℕ)
      → (verify_from hmac line (xs ++ ys) h n).is_valid ≡ true
      → (verify_from hmac line xs h n).is_valid ≡ true
  unfolding verify_from
  prefix_verifies line [] ys h n ok = refl
  prefix_verifies line (blank ∷ xs) ys h n ok = prefix_verifies (suc line) xs ys h n ok
  prefix_verifies line (malformed ∷ xs) ys h n ok = elim (quiet ok) [ ]
  prefix_verifies line (block b ∷ xs) ys h n ok = elim (Option-cases (check_block hmac h n b)) [
    | inr (why, failed) ↦ elim (quiet (rw (failed, verify_from) at ok)) [ ]
    | inl passed ↦
        rw (passed, verify_from)
          (prefix_verifies (suc line) xs ys b.block_signature (n + 1)
            (rw (passed, verify_from) at ok))
  ]

  -- A truncated file goes unnoticed: every beginning of a file that verifies verifies too, since
  -- `verify_chain` does not compare what it read with the last hash and the count in memory.
  pub truncation_undetected :
      (xs ys : List (Line hmac))
      → (verify_chain hmac (xs ++ ys)).is_valid ≡ true
      → verify_chain hmac xs ≡ valid (open_chain hmac xs).block_count
  unfolding verify_chain open_chain
  truncation_undetected xs ys ok =
      verify_from-read hmac 1 xs hmac.genesis 0 (prefix_verifies 1 xs ys hmac.genesis 0 ok)

  check_block-modified :
      (free : IsCollisionFree hmac) (h : hmac.Digest) (n : ℕ) (b : Block hmac) (p : hmac.Payload)
      → check_block hmac h n b ≡ none
      → p ≢ b.payload
      → check_block hmac h n (record b { payload = p }) ≡ some (signature_mismatch n)
  unfolding check_block
  check_block-modified free h n b p passed other =
      let (index, link, sealed) = check_block-none hmac h n b passed in
      let same_index : eqb b.block_index n ≡ true =
        ap (eqb b.block_index) (sym index) ∙ eqb_refl b.block_index in
      let same_link : hmac.equal b.previous_hash h ≡ true =
        ap (hmac.equal b.previous_hash) (sym link) ∙ hmac.equal_refl b.previous_hash in
      let forged = hmac.sign b.block_index b.previous_hash p in
      elim (Bool-cases (hmac.equal b.block_signature forged)) [
        | inr mismatch ↦
            rw (same_index, same_link, mismatch) (ap (λ i. some (signature_mismatch i)) index)
        | inl match ↦
            elim (other (
              free.same_payload b.block_index b.previous_hash b.previous_hash p b.payload
                (sym (hmac.equal_sound b.block_signature forged match) ∙ sealed))) [ ]
      ]

  first_passes :
      (line : ℕ) (b : Block hmac) (ys : List (Line hmac)) (h : hmac.Digest) (n : ℕ)
      → (verify_from hmac line (block b ∷ ys) h n).is_valid ≡ true
      → check_block hmac h n b ≡ none
  unfolding verify_from
  first_passes line b ys h n ok = elim (Option-cases (check_block hmac h n b)) [
    | inr (why, failed) ↦ elim (quiet (rw (failed, verify_from) at ok)) [ ]
    | inl passed ↦ passed
  ]

  -- A modified event is found: if signatures do not collide, and the event of one block of a file
  -- that verifies is replaced by another, `verify_chain` fails at exactly this block with a
  -- signature mismatch.
  pub modified_event_detected :
      (free : IsCollisionFree hmac) (xs ys : List (Line hmac)) (b : Block hmac) (p : hmac.Payload)
      → (verify_chain hmac (xs ++ (block b ∷ ys))).is_valid ≡ true
      → p ≢ b.payload
      → verify_chain hmac (xs ++ (block (record b { payload = p }) ∷ ys))
        ≡ invalid b.block_index (signature_mismatch b.block_index)
  unfolding verify_chain
  modified_event_detected free xs ys b p ok other =
      let b' = record b { payload = p } in
      let okx = prefix_verifies 1 xs (block b ∷ ys) hmac.genesis 0 ok in
      let (h, n) = read hmac xs hmac.genesis 0 in
      let (line, same) = verify_from-append hmac 1 xs (block b ∷ ys) hmac.genesis 0 okx in
      let (line', same') = verify_from-append hmac 1 xs (block b' ∷ ys) hmac.genesis 0 okx in
      let passed = first_passes line b ys h n (ap (λ v. v.is_valid) (sym same) ∙ ok) in
      let index = (check_block-none hmac h n b passed).0 in
      same'
      ∙ fails line' b' ys h n (check_block-modified free h n b p passed other)
      ∙ ap (λ i. invalid i (signature_mismatch i)) (sym index)
    where
      fails :
          (line : ℕ) (b : Block hmac) (ys : List (Line hmac)) (h : hmac.Digest) (n : ℕ)
          → check_block hmac h n b ≡ some (signature_mismatch n)
          → verify_from hmac line (block b ∷ ys) h n ≡ invalid n (signature_mismatch n)
      fails line b ys h n failed = unfold verify_from in rw (failed, verify_from) refl
