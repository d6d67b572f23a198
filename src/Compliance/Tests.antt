-- ===== src/Compliance/Tests.antt =====
-- Runs of the audit chain of gateway/compliance.py.
use erp_security.Prelude.{
  ℕ, ◌+◌, ◌≡◌, ◌≢◌, refl, ap, ◌∙◌, arith, Bool, true, false, ◌&&◌, eqb, List, [], ◌∷◌,
}
use erp_security.Compliance.{
  Hmac, Block, Line, blank, block, valid, invalid, signature_mismatch, open_chain, verify_chain,
}
use erp_security.Compliance.Sealing.{append_all, written, appended_verifies}
use erp_security.Compliance.Tampering.{
  IsCollisionFree, payloads, same_tip_same_events, truncation_undetected, modified_event_detected,
}

-- Signatures that keep what they sign.
data Seal : Type 0 where
  origin : Seal
  sealed : ℕ → Seal → ℕ → Seal

unfoldable same_seal : Seal → Seal → Bool
same_seal origin origin = true
same_seal origin (sealed n h p) = false
same_seal (sealed n h p) origin = false
same_seal (sealed n h p) (sealed m k r) = eqb n m && eqb p r && same_seal h k

same_seal_sound : (a b : Seal) → same_seal a b ≡ true → a ≡ b
unfolding same_seal
same_seal_sound origin origin h = refl
same_seal_sound origin (sealed n k p) h = cc
same_seal_sound (sealed n k p) origin h = cc
same_seal_sound (sealed n k p) (sealed m l r) h =
    let (en, ep, same) = parts n m p r (same_seal k l) h in
    ap (λ i. sealed i k p) en
    ∙ ap (λ i. sealed m k i) ep
    ∙ ap (λ x. sealed m x r) (same_seal_sound k l same)
  where
    parts :
        (n m p r : ℕ) (b : Bool) → eqb n m && eqb p r && b ≡ true → (n ≡ m) × (p ≡ r) × (b ≡ true)
    parts n m p r b h = (ground arith, ground arith, ground arith)

same_seal_refl : (a : Seal) → same_seal a a ≡ true
unfolding same_seal
same_seal_refl origin = refl
same_seal_refl (sealed n h p) = ground (arith, same_seal_refl h)

abbrev seals : Hmac
seals = record {
  Payload = ℕ;
  Digest = Seal;
  genesis = origin;
  sign = sealed;
  equal = same_seal;
  equal_sound = same_seal_sound;
  equal_refl = same_seal_refl;
}

free : IsCollisionFree seals
free = record {
  same_hash = λ n h k p r e. ap (λ s. elim s [ origin ↦ h | sealed i x y ↦ x ]) e;
  same_payload = λ n h k p r e. ap (λ s. elim s [ origin ↦ p | sealed i x y ↦ y ]) e;
}

abbrev first : Block seals
first = record {
  block_index = 0;
  timestamp = 4;
  previous_hash = origin;
  block_signature = sealed 0 origin 7;
  payload = 7;
}

abbrev second : Block seals
second = record {
  block_index = 1;
  timestamp = 5;
  previous_hash = sealed 0 origin 7;
  block_signature = sealed 1 (sealed 0 origin 7) 8;
  payload = 8;
}

abbrev file : List (Line seals)
file = block first ∷ blank ∷ block second ∷ []

verifies : (verify_chain seals file).is_valid ≡ true
unfolding verify_chain same_seal
verifies = refl

appended_verifies_example :
    let c = append_all seals ((true, 6, 9) ∷ (false, 7, 3) ∷ []) (open_chain seals file) in
    (verify_chain seals c.audit_file
      ≡ valid
          ((verify_chain seals file).verified + written seals ((true, 6, 9) ∷ (false, 7, 3) ∷ [])))
    × (open_chain seals c.audit_file ≡ c)
appended_verifies_example =
    appended_verifies seals file ((true, 6, 9) ∷ (false, 7, 3) ∷ []) verifies

abbrev same_file : List (Line seals)
same_file = block first ∷ block second ∷ []

same_verifies : (verify_chain seals same_file).is_valid ≡ true
unfolding verify_chain same_seal
same_verifies = refl

same_tip : (open_chain seals file).last_hash ≡ (open_chain seals same_file).last_hash
unfolding open_chain
same_tip = refl

same_count : (open_chain seals file).block_count ≡ (open_chain seals same_file).block_count
unfolding open_chain
same_count = refl

same_tip_same_events_example : payloads seals file ≡ payloads seals same_file
same_tip_same_events_example =
    same_tip_same_events seals free file same_file verifies same_verifies same_tip same_count

truncation_undetected_example :
    verify_chain seals (block first ∷ []) ≡ valid (open_chain seals (block first ∷ [])).block_count
truncation_undetected_example =
    truncation_undetected seals (block first ∷ []) (blank ∷ block second ∷ []) verifies

eight_ne : ◌≢◌ {A = ℕ} 8 7
eight_ne = omega arith

modified_event_detected_example :
    verify_chain seals (block (record first { payload = 8 }) ∷ blank ∷ block second ∷ [])
    ≡ invalid 0 (signature_mismatch 0)
modified_event_detected_example =
    modified_event_detected seals free [] (blank ∷ block second ∷ []) first 8 verifies eight_ne
