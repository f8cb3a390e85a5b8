-- ===== src/Policy/Manager/Signed.antt =====
-- What a successful `verify_signatures` has checked of each layer.
use holonomy_source.Common.{ℕ, ◌≡◌, subst, true, Option, some, List, [], ◌∷◌, arith, All}
use holonomy_source.Common.Result.{ok, ok_or, map_err, >>=-eq-ok, ok_or-eq-ok}
use holonomy_source.Policy.{PolicyEnvelope, PolicyManifest}
use holonomy_source.Policy.Manager.{
  Codec, Layer, Parsed, PolicyManager, parse_error, invalid_signature, check_signature,
  verify_layer, verify_signatures, merge_layers,
}

module _ (c : Codec) where
  open c use {
    envelope_from_str, manifest_from_str, key_from_bytes, hex_decode, signature_from_slice, verify,
  }

  -- The content is an envelope whose payload bears a signature that the key verifies.
  pub record IsSigned (bytes : List ℕ) (layer : Layer) : Type 0 where
    pub envelope : PolicyEnvelope
    pub key : c.Key
    pub sig_bytes : List ℕ
    pub signature : c.Signature
    pub parsed : envelope_from_str layer.1 ≡ ok envelope
    pub key_read : key_from_bytes bytes ≡ some key
    pub decoded : hex_decode envelope.signature ≡ some sig_bytes
    pub read : signature_from_slice sig_bytes ≡ some signature
    pub verified : verify key envelope.payload signature ≡ true

  check_signature-IsSigned :
      (bytes : List ℕ) (layer : Layer) (envelope : PolicyEnvelope)
      → envelope_from_str layer.1 ≡ ok envelope
      → check_signature c (some bytes) envelope ≡ ok tt
      → IsSigned bytes layer
  unfolding check_signature
  check_signature-IsSigned bytes layer envelope p h =
      let (key, k, h1) = >>=-eq-ok (ok_or (key_from_bytes bytes) invalid_signature) _ h in
      let (raw, d, h2) = >>=-eq-ok (ok_or (hex_decode envelope.signature) invalid_signature) _ h1 in
      let (sig, s, h3) = >>=-eq-ok (ok_or (signature_from_slice raw) invalid_signature) _ h2 in
      record {
        envelope = envelope;
        key = key;
        sig_bytes = raw;
        signature = sig;
        parsed = p;
        key_read = ok_or-eq-ok (key_from_bytes bytes) invalid_signature k;
        decoded = ok_or-eq-ok (hex_decode envelope.signature) invalid_signature d;
        read = ok_or-eq-ok (signature_from_slice raw) invalid_signature s;
        verified = ground arith;
      }

  verify_layer-IsSigned :
      (m : PolicyManager) (bytes : List ℕ) (layer : Layer) {parsed : Parsed}
      → m.public_key ≡ some bytes
      → verify_layer c m layer ≡ ok parsed
      → IsSigned bytes layer
  unfolding verify_layer
  verify_layer-IsSigned m bytes layer k h =
      let (envelope, e, h1) = >>=-eq-ok (map_err parse_error (envelope_from_str layer.1)) _ h in
      let (u, s, h2) = >>=-eq-ok (check_signature c m.public_key envelope) _ h1 in
      check_signature-IsSigned bytes layer envelope (ground arith)
        (subst (λ (o : Option (List ℕ)). check_signature c o envelope ≡ ok u) k s)

  -- With a public key, the merge succeeds only if every layer is an envelope whose payload bears a
  -- signature that the key verifies: one bad layer fails the whole composition.
  pub verify_signatures-IsSigned :
      (m : PolicyManager) (bytes : List ℕ) (layers : List Layer) {parsed : List Parsed}
      → m.public_key ≡ some bytes
      → verify_signatures c m layers ≡ ok parsed
      → All (IsSigned bytes) layers
  unfolding verify_signatures
  verify_signatures-IsSigned m bytes [] k h = tt
  verify_signatures-IsSigned m bytes (layer ∷ layers) k h =
      let (x, e, h1) = >>=-eq-ok (verify_layer c m layer) _ h in
      let (xs, es, h2) = >>=-eq-ok (verify_signatures c m layers) _ h1 in
      (verify_layer-IsSigned m bytes layer k e, verify_signatures-IsSigned m bytes layers k es)

  -- With a public key, a manifest is merged only if every layer is an envelope whose payload bears
  -- a signature that the key verifies.
  pub merge_layers-IsSigned :
      (m : PolicyManager) (bytes : List ℕ) (layers : List Layer) {merged : PolicyManifest}
      → m.public_key ≡ some bytes
      → merge_layers c m layers ≡ ok merged
      → All (IsSigned bytes) layers
  unfolding merge_layers
  merge_layers-IsSigned m bytes layers k h =
      let (parsed, e, h1) = >>=-eq-ok (verify_signatures c m layers) _ h in
      verify_signatures-IsSigned m bytes layers k e
