-- ===== src/AuthEngine/Verified.antt =====
-- Which headers gateway/auth_engine.py accepts.
use erp_security.Prelude.{
  ◌≤◌, String, starts_with, none, some, true, false, ◌≡◌, ◌⊎◌, inl, inr, arith, refl,
}
use erp_security.AuthEngine.{Claims, Decoded, verify, refuse, bearer_token, decode_and_verify}

verify-cases :
    (d : Decoded)
    → ((c : Claims) × (d ≡ Decoded.claims c)
        × ((verify d).is_valid ≡ true)
        × ((verify d).claims ≡ some c))
      ⊎ (((verify d).is_valid ≡ false)
          × ((verify d).claims ≡ none)
          × (8000 ≤ (verify d).auth_anomaly_score))
unfolding verify refuse
verify-cases (Decoded.claims c) = inl (c, refl, refl, refl)
verify-cases Decoded.expired_signature = inr (refl, refl, omega arith)
verify-cases Decoded.invalid_algorithm = inr (refl, refl, omega arith)
verify-cases Decoded.invalid_signature = inr (refl, refl, omega arith)
verify-cases Decoded.decode_error = inr (refl, refl, omega arith)
verify-cases Decoded.invalid_token = inr (refl, refl, omega arith)
verify-cases Decoded.other_exception = inr (refl, refl, omega arith)

module _ (jwt_decode : String → Decoded) where
  -- Claims come from a verified token alone: a header is valid and gives the claims that the
  -- token library decodes from its bearer token, or it is not valid, gives no claims, and scores 80 points or more.
  pub claims_are_verified :
      (auth_header : String)
      → let v = decode_and_verify jwt_decode auth_header in
        ((c : Claims) × (starts_with auth_header "Bearer " ≡ true)
          × (jwt_decode (bearer_token auth_header) ≡ Decoded.claims c)
          × (v.is_valid ≡ true)
          × (v.claims ≡ some c))
        ⊎ ((v.is_valid ≡ false) × (v.claims ≡ none) × (8000 ≤ v.auth_anomaly_score))
  unfolding decode_and_verify refuse
  claims_are_verified auth_header =
      ground (arith, verify-cases (jwt_decode (bearer_token auth_header)))
